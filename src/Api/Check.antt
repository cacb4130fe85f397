-- ===== src/Api/Check.antt =====
-- `validate_log` of src/qdb.c, and the cut of what lies behind the log.
pub mod Enough
use qdb.Base.{
  ℕ, zero, suc, ◌+◌, ◌-◌, ◌*◌, ◌%◌, ◌^◌, not, ◌||◌, ◌&&◌, Bool, true, false, Option, none, some,
  List, [], ◌∷◌, ◌++◌, length, take, drop, if◌then◌else◌, ◌==◌, ltb, leb, Code, Run, Exec, ok, err,
  crash, err_io, err_inval, err_noent, err_corrupt, err_nomem, pure, raise, ◌>>=◌, ◌>>◌, bit_and,
  bit_or,
}
use qdb.Word.{u64, get_u32le}
use qdb.Crc.{crc32}
use qdb.Format.{
  hdr_size, max_format_version, flag_wal_present, flag_dirty, rec_hdr_size, wal_hdr_size,
  wal_hdr_crc_cover, wal_magic, default_lease_us, invalid_fd,
}
use qdb.Platform.{Platform}
use qdb.State.{State, state_alloc, memcmp_eq}
use qdb.Db.{
  Db, Handle, or_io, or_nomem, ignore, io_handle, get_state, modify_state, guard, set_handle_db,
  require,
}
use qdb.Io.{
  Scan, scanned, scan_end, scan_partial, read_full, scan_record, read_payload, append_record,
  header_write, header_read, header_update,
}
use qdb.Replay.{replay_log}

module _ {W : Type 0} ⦃os : Platform W⦄ where
  -- A partial record is cut off, with all behind it, and the header written again.
  unfoldable pub truncate_tail : ℕ → Exec (Handle W) (Unit {0})
  truncate_tail offset = do
    h ← get_state
    io_handle (or_io (os.file_truncate h.db.fd offset))
    set_handle_db (λ db. record db { log_end_offset = offset })
    g ← get_state
    io_handle (header_update g.db.fd g.db)

  -- The loop of `validate_log`. Without fuel it crashes; a record takes a byte at least.
  unfoldable pub validate_loop : ℕ → ℕ → Exec (Handle W) (Unit {0})
  unfolding truncate_tail
  validate_loop zero offset = λ _. crash
  validate_loop (suc fuel) offset =
      let rest : Scan → Exec (Handle W) (Unit {0}) = elim [
        | scan_end ↦ pure tt
        | scan_partial ↦ truncate_tail offset
        | scanned type plen next ↦ validate_loop fuel next
      ] in
      λ h.
        (if ltb offset h.db.log_end_offset
            then (io_handle (scan_record h.db.fd offset h.db.log_end_offset) >>= rest)
            else pure tt)
          h

  unfoldable pub validate_log : Exec (Handle W) (Unit {0})
  unfolding validate_loop
  validate_log h =
      validate_loop (suc (h.db.log_end_offset - h.db.log_start_offset)) h.db.log_start_offset h

  -- Bytes past the log's end are cut off.
  unfoldable pub trim_file : Exec (Handle W) (Unit {0})
  trim_file = do
    h ← get_state
    size ← io_handle (os.file_size h.db.fd)
    if ltb h.db.log_end_offset size
        then io_handle (os.file_truncate h.db.fd h.db.log_end_offset)
        else pure tt
