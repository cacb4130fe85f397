-- ===== src/Platform/Memory.antt =====
-- A system in memory, to run the model on, on which every operation succeeds.
use qdb.Base.{ℕ, ◌+◌, false, List, [], refl, length, take, ok, ok-ends, arith}
use qdb.Platform.{
  Platform, PlatformLaws, ReadsSucceed, AllocsSucceed, AllSucceed, NoCrash, slice, splice,
  overwrite,
}

pub record Memory : Type 0 where
  pub files : ℕ → List ℕ
  pub now : ℕ

abbrev pub blank : Memory
blank = record { files = λ _. []; now = 0 }

abbrev write_file : ℕ → List ℕ → Memory → Memory
write_file fd content w = record w { files = overwrite w.files fd content }

instance unfoldable pub memory : Platform Memory
unfolding splice
memory = record {
  pread = λ fd len offset w. ok (slice offset len (w.files fd)) w;
  pwrite = λ fd new offset w. ok tt (write_file fd (splice offset new (w.files fd)) w);
  file_sync = λ fd w. ok tt w;
  file_size = λ fd w. ok (length (w.files fd)) w;
  file_truncate = λ fd n w. ok tt (write_file fd (take n (w.files fd)) w);
  file_open = λ path create w. ok (0, false) w;
  lockfile_open = λ path w. ok 1 w;
  file_close = λ fd w. w;
  file_lock = λ fd w. ok tt w;
  file_unlock = λ fd w. w;
  file_delete = λ path w. ok tt w;
  file_rename = λ old new w. ok tt w;
  time_us = λ w. (w.now, record w { now = w.now + 1 });
  alloc = λ w. ok tt w;
  bytes = λ w. w.files;
}

pub memory-laws : PlatformLaws memory
unfolding memory splice
memory-laws = record {
  pread_ok = λ fd len offset w e. ground arith;
  pwrite_ok = λ fd new offset w e. ground arith;
  file_sync_ok = λ fd w e. ground arith;
  alloc_ok = λ w e. ground arith;
  time_us_bytes = λ w. refl;
}

pub memory-reads : ReadsSucceed memory
unfolding memory
memory-reads = record { pread_total = λ fd len offset w. (w, refl, refl) }

pub memory-allocs : AllocsSucceed memory
unfolding memory
memory-allocs = record { alloc_total = λ w. (w, refl, refl) }

pub memory-AllSucceed : AllSucceed memory
unfolding memory
memory-AllSucceed = record {
  reads = memory-reads;
  allocs = memory-allocs;
  pwrite_total = λ fd new offset w. (_, refl);
  file_sync_total = λ fd w. (w, refl);
}

pub memory-NoCrash : NoCrash memory
unfolding memory
memory-NoCrash = record {
  pread_ends = λ fd len offset w. ok-ends;
  pwrite_ends = λ fd new offset w. ok-ends;
  file_sync_ends = λ fd w. ok-ends;
  file_truncate_ends = λ fd n w. ok-ends;
  alloc_ends = λ w. ok-ends;
}
