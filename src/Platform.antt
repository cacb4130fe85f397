-- ===== src/Platform.antt =====
-- The interface of src/qdb_platform.c, declared in src/qdb_internal.h, and the C allocator. The
-- system below it is a parameter: `W` is its state, which the operations pass on, and `bytes` what
-- the file behind a descriptor holds. A descriptor is a number, `invalid_fd` the pattern of -1; a
-- path is its bytes.
pub mod Memory
pub mod Files
pub mod Posix
use qdb.Base.{
  ℕ, ◌+◌, ◌≡◌, Bool, List, ◌++◌, Code, Exec, ok, err, crash, length, take, drop, replicate, ◌-◌,
  if◌then◌else◌, ◌==◌, ◌≢◌,
}

pub record Platform (W : Type 0) : Type 0 where
  -- the bytes read, from `offset` on, at most `len`
  pub pread : ℕ → ℕ → ℕ → Exec W (List ℕ)
  pub pwrite : ℕ → List ℕ → ℕ → Exec W (Unit {0})
  pub file_sync : ℕ → Exec W (Unit {0})
  pub file_size : ℕ → Exec W ℕ
  pub file_truncate : ℕ → ℕ → Exec W (Unit {0})
  -- the descriptor, and whether the file is new
  pub file_open : List ℕ → Bool → Exec W (ℕ × Bool)
  pub lockfile_open : List ℕ → Exec W ℕ
  pub file_close : ℕ → W → W
  pub file_lock : ℕ → Exec W (Unit {0})
  pub file_unlock : ℕ → W → W
  pub file_delete : List ℕ → Exec W (Unit {0})
  pub file_rename : List ℕ → List ℕ → Exec W (Unit {0})
  pub time_us : W → ℕ × W
  -- `malloc` and `calloc`: an error where they return NULL
  pub alloc : Exec W (Unit {0})
  pub bytes : W → ℕ → List ℕ

-- What `len` bytes from `offset` on are, as far as the file reaches.
abbrev pub slice : ℕ → ℕ → List ℕ → List ℕ
slice offset len content = take len (drop offset content)

-- A write puts its bytes over what is there; a gap before them is filled with zeros.
unfoldable pub splice : ℕ → List ℕ → List ℕ → List ℕ
splice offset new content =
    take offset content
    ++ (replicate (offset - length content) 0 ++ (new ++ drop (offset + length new) content))

abbrev pub overwrite : (ℕ → List ℕ) → ℕ → List ℕ → ℕ → List ℕ
overwrite files fd content g = if g == fd then content else files g

-- What the comments of qdb_internal.h promise of operations that succeed.
pub record PlatformLaws {W : Type 0} (os : Platform W) : Type 0 where
  pub pread_ok :
      (fd len offset : ℕ) (w : W) {got : List ℕ} {w' : W}
      → os.pread fd len offset w ≡ ok got w'
      → (got ≡ slice offset len (os.bytes w fd)) × (os.bytes w' ≡ os.bytes w)
  pub pwrite_ok :
      (fd : ℕ) (new : List ℕ) (offset : ℕ) (w : W) {w' : W}
      → os.pwrite fd new offset w ≡ ok tt w'
      → os.bytes w' ≡ overwrite (os.bytes w) fd (splice offset new (os.bytes w fd))
  pub file_sync_ok :
      (fd : ℕ) (w : W) {w' : W} → os.file_sync fd w ≡ ok tt w' → os.bytes w' ≡ os.bytes w
  pub alloc_ok : (w : W) {w' : W} → os.alloc w ≡ ok tt w' → os.bytes w' ≡ os.bytes w
  pub time_us_bytes : (w : W) → os.bytes (os.time_us w).1 ≡ os.bytes w

-- A system on which reads do not fail: the same promise for every read, in positive form.
pub record ReadsSucceed {W : Type 0} (os : Platform W) : Type 0 where
  pub pread_total :
      (fd len offset : ℕ) (w : W)
      → (w' : W) × (os.pread fd len offset w ≡ ok (slice offset len (os.bytes w fd)) w')
        × (os.bytes w' ≡ os.bytes w)

-- A system with memory left.
pub record AllocsSucceed {W : Type 0} (os : Platform W) : Type 0 where
  pub alloc_total : (w : W) → (w' : W) × (os.alloc w ≡ ok tt w') × (os.bytes w' ≡ os.bytes w)

-- A system on which no operation fails.
pub record AllSucceed {W : Type 0} (os : Platform W) : Type 0 where
  pub reads : ReadsSucceed os
  pub allocs : AllocsSucceed os
  pub pwrite_total :
      (fd : ℕ) (new : List ℕ) (offset : ℕ) (w : W)
      → (w' : W) × (os.pwrite fd new offset w ≡ ok tt w')
  pub file_sync_total : (fd : ℕ) (w : W) → (w' : W) × (os.file_sync fd w ≡ ok tt w')

-- The operations return: a code at least.
pub record NoCrash {W : Type 0} (os : Platform W) : Type 0 where
  pub pread_ends : (fd len offset : ℕ) (w : W) → os.pread fd len offset w ≢ crash
  pub pwrite_ends : (fd : ℕ) (new : List ℕ) (offset : ℕ) (w : W) → os.pwrite fd new offset w ≢ crash
  pub file_sync_ends : (fd : ℕ) (w : W) → os.file_sync fd w ≢ crash
  pub file_truncate_ends : (fd n : ℕ) (w : W) → os.file_truncate fd n w ≢ crash
  pub alloc_ends : (w : W) → os.alloc w ≢ crash
