-- ===== src/Platform/Posix.antt =====
-- The POSIX functions of src/qdb_platform.c, in the Linux build, over the system calls, which are a
-- parameter. A call answers with a value or with an errno, and a new state of the system. `-1` is
-- `failed`; `errno` is read only where a call failed.
pub mod Read
pub mod Write
use qdb.Base.{
  ℕ, zero, suc, ◌+◌, ◌-◌, ◌*◌, ◌<◌, ◌≤◌, ◌≡◌, Bool, true, false, List, [], ◌∷◌, ◌++◌, length, take,
  drop, if◌then◌else◌, ltb, ◌==◌, Run, Exec, ok, err, crash, pure, raise, err_io, err_locked,
}
use qdb.Word.{u64}
use qdb.Platform.{Platform, slice, splice, overwrite}

pub data Errno : Type 0 where
  eexist eintr enoent ewouldblock eagain other_errno : Errno

pub data Reply (A : Type 0) : Type 0 where
  done : A → Reply A
  failed : Errno → Reply A

abbrev pub SysCall : Type 0 → Type 0 → Type 0
SysCall W A = W → Reply A × W

-- `signals` is how often calls are yet to be interrupted; `bytes` is what a file holds.
pub record Posix (W : Type 0) : Type 0 where
  -- with O_RDWR, and with O_CREAT and O_EXCL where they are set
  pub open_file : List ℕ → Bool → Bool → SysCall W ℕ
  pub close : ℕ → W → W
  pub fdatasync : ℕ → SysCall W (Unit {0})
  -- `lseek(fd, 0, SEEK_END)`
  pub seek_end : ℕ → SysCall W ℕ
  pub ftruncate : ℕ → ℕ → SysCall W (Unit {0})
  -- the bytes read, and how many bytes were written
  pub sys_pread : ℕ → ℕ → ℕ → SysCall W (List ℕ)
  pub sys_pwrite : ℕ → List ℕ → ℕ → SysCall W ℕ
  -- `LOCK_EX | LOCK_NB`, and `LOCK_UN`
  pub flock : ℕ → SysCall W (Unit {0})
  pub funlock : ℕ → W → W
  pub unlink : List ℕ → SysCall W (Unit {0})
  pub rename : List ℕ → List ℕ → SysCall W (Unit {0})
  -- seconds and microseconds
  pub gettimeofday : SysCall W (ℕ × ℕ)
  pub malloc : SysCall W (Unit {0})
  pub signals : W → ℕ
  pub bytes : W → ℕ → List ℕ

-- What the manual pages promise of `pread` and `pwrite`: a part of what was asked for, from its start
-- on; nothing is read only at the end of the file. An interrupted call did nothing, and no call
-- brings more interruptions.
pub record PosixLaws {W : Type 0} (sys : Posix W) : Type 0 where
  pub pread_done :
      (fd len offset : ℕ) (w : W) {got : List ℕ} {w' : W}
      → sys.sys_pread fd len offset w ≡ (done got, w')
      → (got ≡ slice offset (length got) (sys.bytes w fd))
        × (length got ≤ len)
        × (0 < len → length got ≡ 0 → length (sys.bytes w fd) ≤ offset)
        × (sys.bytes w' ≡ sys.bytes w)
        × (sys.signals w' ≤ sys.signals w)
  pub pread_failed :
      (fd len offset : ℕ) (w : W) {w' : W}
      → sys.sys_pread fd len offset w ≡ (failed eintr, w')
      → (sys.bytes w' ≡ sys.bytes w) × (sys.signals w' < sys.signals w)
  pub pwrite_done :
      (fd : ℕ) (new : List ℕ) (offset : ℕ) (w : W) {n : ℕ} {w' : W}
      → sys.sys_pwrite fd new offset w ≡ (done n, w')
      → (n ≤ length new)
        × (sys.bytes w' ≡ overwrite (sys.bytes w) fd (splice offset (take n new) (sys.bytes w fd)))
        × (sys.signals w' ≤ sys.signals w)
  pub pwrite_failed :
      (fd : ℕ) (new : List ℕ) (offset : ℕ) (w : W) {w' : W}
      → sys.sys_pwrite fd new offset w ≡ (failed eintr, w')
      → (sys.bytes w' ≡ sys.bytes w) × (sys.signals w' < sys.signals w)

-- What is done with a value, and what with an errno.
module _ {W A B : Type 0} where
  abbrev on_reply : Reply A × W → (A → Exec W B) → (Errno → Exec W B) → Run W B
  on_reply (done a, w) value error = value a w
  on_reply (failed e, w) value error = error e w

  abbrev pub call : SysCall W A → (A → Exec W B) → (Errno → Exec W B) → Exec W B
  call f value error w = on_reply (f w) value error

module _ {W A : Type 0} where
  -- `if (f(...) < 0) return QDB_ERR_IO;`
  abbrev pub call_or_io : SysCall W A → Exec W A
  call_or_io f = call f pure (λ e. raise err_io)

  -- `if (errno == EINTR) continue; return QDB_ERR_IO;`
  abbrev pub retry : Exec W A → Errno → Exec W A
  retry again eintr = again
  retry again _ = raise err_io

  -- `if (errno != EEXIST) return QDB_ERR_IO;`
  abbrev if_exists : Exec W A → Errno → Exec W A
  if_exists next eexist = next
  if_exists next _ = raise err_io

module _ {W : Type 0} where
  abbrev busy : Errno → Exec W (Unit {0})
  busy ewouldblock = raise err_locked
  busy eagain = raise err_locked
  busy _ = raise err_io

  abbrev unless_missing : Errno → Exec W (Unit {0})
  unless_missing enoent = pure tt
  unless_missing _ = raise err_io

  abbrev microseconds : Reply (ℕ × ℕ) × W → ℕ × W
  microseconds (done (sec, usec), w) = (u64 (u64 (sec * 1000000) + usec), w)
  microseconds (failed e, w) = (0, w)

module _ {W : Type 0} (sys : Posix W) where
  abbrev open_plain : List ℕ → Exec W (ℕ × Bool)
  open_plain path =
      call (sys.open_file path false false) (λ fd. pure (fd, false)) (λ e. raise err_io)

  -- The exclusive creation first, where it is asked for.
  unfoldable pub file_open : List ℕ → Bool → Exec W (ℕ × Bool)
  file_open path create =
      if create
      then call (sys.open_file path true true) (λ fd. pure (fd, true)) (if_exists (open_plain path))
      else open_plain path

  unfoldable pub lockfile_open : List ℕ → Exec W ℕ
  lockfile_open path = call_or_io (sys.open_file path true false)

  unfoldable pub file_close : ℕ → W → W
  file_close fd w = sys.close fd w

  unfoldable pub file_sync : ℕ → Exec W (Unit {0})
  file_sync fd = call_or_io (sys.fdatasync fd)

  unfoldable pub file_size : ℕ → Exec W ℕ
  file_size fd = call_or_io (sys.seek_end fd)

  unfoldable pub file_truncate : ℕ → ℕ → Exec W (Unit {0})
  file_truncate fd size = call_or_io (sys.ftruncate fd size)

  -- The loop with the bytes read so far. Every round reads a byte or meets an interruption, so the
  -- bytes asked for, the interruptions to come and one round more are fuel enough; without fuel the
  -- loop crashes.
  unfoldable pub pread_loop : ℕ → ℕ → ℕ → ℕ → List ℕ → Exec W (List ℕ)
  pread_loop zero fd len offset got = λ w. crash
  pread_loop (suc fuel) fd len offset got =
      let again = pread_loop fuel fd len offset in
      if ltb (length got) len
      then call (sys.sys_pread fd (len - length got) (u64 (offset + length got)))
          (λ part. if length part == 0 then pure got else again (got ++ part)) (retry (again got))
      else pure got

  unfoldable pub pread : ℕ → ℕ → ℕ → Exec W (List ℕ)
  unfolding pread_loop
  pread fd len offset w = pread_loop (suc (len + sys.signals w)) fd len offset [] w

  -- The loop with the bytes still to be written.
  unfoldable pub pwrite_loop : ℕ → ℕ → List ℕ → ℕ → Exec W (Unit {0})
  pwrite_loop zero fd left offset = λ w. crash
  pwrite_loop (suc fuel) fd left offset =
      let again = pwrite_loop fuel fd in
      if ltb 0 (length left)
      then call (sys.sys_pwrite fd left offset)
          (λ n. if n == 0 then raise err_io else again (drop n left) (u64 (offset + n)))
          (retry (again left offset))
      else pure tt

  unfoldable pub pwrite : ℕ → List ℕ → ℕ → Exec W (Unit {0})
  unfolding pwrite_loop
  pwrite fd buf offset w = pwrite_loop (suc (length buf + sys.signals w)) fd buf offset w

  unfoldable pub file_lock : ℕ → Exec W (Unit {0})
  file_lock fd = call (sys.flock fd) pure busy

  unfoldable pub file_unlock : ℕ → W → W
  file_unlock fd w = sys.funlock fd w

  unfoldable pub file_delete : List ℕ → Exec W (Unit {0})
  file_delete path = call (sys.unlink path) pure unless_missing

  unfoldable pub file_rename : List ℕ → List ℕ → Exec W (Unit {0})
  file_rename old_path new_path = call_or_io (sys.rename old_path new_path)

  unfoldable pub time_us : W → ℕ × W
  time_us w = microseconds (sys.gettimeofday w)

  -- The platform that the library runs on.
  unfoldable pub posix : Platform W
  unfolding file_open lockfile_open file_close file_sync file_size file_truncate pread pwrite
      file_lock file_unlock file_delete file_rename time_us
  posix = record {
    pread = pread;
    pwrite = pwrite;
    file_sync = file_sync;
    file_size = file_size;
    file_truncate = file_truncate;
    file_open = file_open;
    lockfile_open = lockfile_open;
    file_close = file_close;
    file_lock = file_lock;
    file_unlock = file_unlock;
    file_delete = file_delete;
    file_rename = file_rename;
    time_us = time_us;
    alloc = call_or_io sys.malloc;
    bytes = sys.bytes;
  }
