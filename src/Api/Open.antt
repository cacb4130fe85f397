-- ===== src/Api/Open.antt =====
-- `qdb_open_err`, which `qdb_open_ex` and `qdb_open` call, and `qdb_close`.
use qdb.Base.{
  ℕ, ◌+◌, ◌*◌, ◌||◌, ◌&&◌, Bool, true, false, Option, none, some, List, [], ◌∷◌, ◌++◌,
  if◌then◌else◌, ◌==◌, Run, Exec, ok, err, crash, err_inval, err_nomem, pure, ◌>>=◌, ◌>>◌, bit_or,
}
use qdb.Word.{u64}
use qdb.Format.{hdr_size, flag_wal_present, flag_dirty, default_lease_us, invalid_fd}
use qdb.Platform.{Platform}
use qdb.State.{state_alloc}
use qdb.Db.{
  Db, Handle, or_io, or_nomem, ignore, io_handle, get_state, modify_state, guard, set_handle_db,
  require,
}
use qdb.Io.{header_write, header_read, header_update}
use qdb.Replay.{replay_log}
use qdb.Api.Wal.{has_flag, clear_flags, close_fd, replay_wal}
use qdb.Api.Check.{trim_file, validate_log}

-- `make_sidecar(path, len, suffix)`
abbrev pub sidecar : List ℕ → List ℕ → List ℕ
sidecar base suffix = base ++ suffix

-- "-wal", "-lock" and "-compact"
abbrev pub wal_suffix : List ℕ
wal_suffix = b'-' ∷ b'w' ∷ b'a' ∷ b'l' ∷ []

abbrev pub lock_suffix : List ℕ
lock_suffix = b'-' ∷ b'l' ∷ b'o' ∷ b'c' ∷ b'k' ∷ []

abbrev pub compact_suffix : List ℕ
compact_suffix = b'-' ∷ b'c' ∷ b'o' ∷ b'm' ∷ b'p' ∷ b'a' ∷ b'c' ∷ b't' ∷ []

-- The timeout of the options, in microseconds; 0 or no options stand for the default.
unfoldable pub lease_timeout : Option ℕ → ℕ
lease_timeout none = default_lease_us
lease_timeout (some s) = if s == 0 then default_lease_us else u64 (s * 1000000)

unfoldable pub blank_db : List ℕ → Option ℕ → Db
unfolding lease_timeout
blank_db path opts = record {
  fd = invalid_fd;
  lock_fd = invalid_fd;
  path = sidecar path [];
  wal_path = sidecar path wal_suffix;
  lock_path = sidecar path lock_suffix;
  next_msg_id = 0;
  next_lease_id = 0;
  log_start_offset = 0;
  log_end_offset = 0;
  create_time_us = 0;
  flags = 0;
  lease_timeout_us = lease_timeout opts;
}

module _ {W : Type 0} ⦃os : Platform W⦄ where
  -- Whether an allocation gave memory.
  abbrev attempt : Run W (Unit {0}) → Run W Bool
  attempt (ok _ w) = ok true w
  attempt (err c w) = ok false w
  attempt crash = crash

  abbrev try_alloc : Exec W Bool
  try_alloc w = attempt (os.alloc w)

  -- Steps 3 to 8 of `qdb_open_err`, for a file that exists.
  unfoldable pub open_existing : Exec (Handle W) (Unit {0})
  unfolding replay_wal trim_file validate_log
  open_existing = do
    f ← get_state
    header_read f.db.fd
    set_handle_db (λ db. record db { next_lease_id = 1 })
    g ← get_state
    if has_flag g.db.flags flag_wal_present || has_flag g.db.flags flag_dirty
        then replay_wal
        else pure tt
    trim_file
    validate_log
    replay_log
    set_handle_db (λ db. record db { flags = bit_or db.flags flag_dirty })
    h ← get_state
    io_handle (header_update h.db.fd h.db)

  unfoldable pub create_new : Exec (Handle W) (Unit {0})
  create_new = do
    set_handle_db (λ db. record db {
      next_msg_id = 1;
      next_lease_id = 1;
      log_start_offset = hdr_size;
      log_end_offset = hdr_size;
    })
    now ← io_handle (λ w. ok (os.time_us w).0 (os.time_us w).1)
    set_handle_db (λ db. record db { create_time_us = now; flags = flag_dirty })
    h ← get_state
    io_handle (or_io (header_write h.db.fd h.db))
    or_nomem (io_handle os.alloc)
    modify_state (λ g. record g { state = some state_alloc })

  -- `qdb_lockfile_open` and `qdb__file_lock`.
  unfoldable pub take_lock : Exec (Handle W) (Unit {0})
  take_lock = do
    h ← get_state
    lock_fd ← io_handle (os.lockfile_open h.db.lock_path)
    set_handle_db (λ db. record db { lock_fd = lock_fd })
    try_lock lock_fd
    where
      unlocked : Run (Handle W) (Unit {0}) → ℕ → Run (Handle W) (Unit {0})
      unlocked (ok a g) lock_fd = ok a g
      unlocked (err c g) lock_fd =
          err c (record (close_fd lock_fd g) { db = record g.db { lock_fd = invalid_fd } })
      unlocked crash lock_fd = crash

      try_lock : ℕ → Exec (Handle W) (Unit {0})
      try_lock lock_fd g = unlocked (io_handle (os.file_lock lock_fd) g) lock_fd

  -- The three paths of the handle: all are asked for before the test.
  unfoldable pub alloc_paths : Exec (Handle W) (Unit {0})
  alloc_paths = do
    a ← io_handle try_alloc
    b ← io_handle try_alloc
    c ← io_handle try_alloc
    guard (a && (b && c)) err_nomem

  -- The staging file of a compaction that was interrupted, if there is memory for its path.
  unfoldable pub delete_stale : Exec (Handle W) (Unit {0})
  delete_stale h =
      ignore (io_handle (os.alloc >> os.file_delete (sidecar h.db.path compact_suffix))) h

  unfoldable pub open_locked : Exec (Handle W) (Unit {0})
  unfolding create_new open_existing delete_stale
  open_locked = do
    delete_stale
    h ← get_state
    (fd, is_new) ← io_handle (os.file_open h.db.path true)
    set_handle_db (λ db. record db { fd = fd })
    if is_new then create_new else open_existing

  -- `qdb__free_db`: what it does to the system.
  unfoldable pub free_db : Handle W → W
  free_db h =
      let closed = if h.db.fd == invalid_fd then h.world else os.file_close h.db.fd h.world in
      if h.db.lock_fd == invalid_fd
      then closed
      else os.file_close h.db.lock_fd (os.file_unlock h.db.lock_fd closed)

  -- On an error the handle is freed, and the answer is NULL with the code in `*out_err`.
  unfoldable pub or_free : Run (Handle W) (Unit {0}) → Run W (Handle W)
  unfolding free_db
  or_free (ok a h) = ok h h.world
  or_free (err c h) = err c (free_db h)
  or_free crash = crash

  unfoldable pub open_path : List ℕ → Option ℕ → Exec W (Handle W)
  unfolding or_free alloc_paths take_lock open_locked blank_db
  open_path path opts w = elim (or_nomem os.alloc w) [
    | crash ↦ crash
    | err c v ↦ err c v
    | ok _ v ↦ or_free (
        (alloc_paths >> (take_lock >> open_locked))
          (record { db = blank_db path opts; state = none; world = v }))
  ]

  unfoldable pub open_err : Option (List ℕ) → Option ℕ → Exec W (Handle W)
  unfolding open_path
  open_err path_arg opts = require path_arg err_inval >>= λ path. open_path path opts

  unfoldable pub close : Handle W → Run W (Unit {0})
  unfolding free_db
  close h =
      let clean = record h.db { flags = clear_flags h.db.flags (flag_dirty + flag_wal_present) } in
      let freed : Run (Handle W) (Unit {0}) → Run W (Unit {0}) = elim [
        | ok _ g ↦ ok tt (free_db g)
        | err c g ↦ ok tt (free_db g)
        | crash ↦ crash
      ] in
      freed (
        if h.db.fd == invalid_fd
        then ok tt h
        else io_handle (header_update clean.fd clean) (record h { db = clean }))
