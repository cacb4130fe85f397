-- ===== src/Api/Wal.antt =====
-- `replay_wal` of src/qdb.c: the records of a WAL file are appended to the main file.
use qdb.Base.{
  ℕ, zero, suc, ◌+◌, ◌-◌, ◌^◌, not, ◌||◌, Bool, false, List, [], take, drop, if◌then◌else◌, ◌==◌,
  ltb, Run, Exec, ok, err, crash, err_corrupt, pure, ◌>>=◌, ◌>>◌, bit_and,
}
use qdb.Word.{u64, get_u32le}
use qdb.Crc.{crc32}
use qdb.Format.{
  max_format_version, flag_wal_present, rec_hdr_size, wal_hdr_size, wal_hdr_crc_cover, wal_magic,
}
use qdb.Platform.{Platform}
use qdb.State.{memcmp_eq}
use qdb.Db.{Handle, or_io, or_nomem, ignore, io_handle, get_state, guard, set_handle_db}
use qdb.Io.{
  Scan, scanned, scan_end, scan_partial, read_full, scan_record, read_payload, append_record,
  header_update,
}

-- `db->flags & flag`
abbrev pub has_flag : ℕ → ℕ → Bool
has_flag flags flag = not (bit_and flags flag == 0)

-- `flags & ~mask` on 32 bits.
abbrev pub clear_flags : ℕ → ℕ → ℕ
clear_flags flags mask = bit_and flags (2 ^ 32 - 1 - mask)

module _ {W A : Type 0} where
  -- Runs `last` behind `m`, whether `m` ends well or not: a label that the code jumps to.
  abbrev finish : Run W A → (W → W) → Run W A
  finish (ok a w) last = ok a (last w)
  finish (err c w) last = err c (last w)
  finish crash last = crash

  abbrev pub finally : Exec W A → (W → W) → Exec W A
  finally m last w = finish (m w) last

module _ {W : Type 0} ⦃os : Platform W⦄ where
  abbrev pub close_fd : ℕ → Handle W → Handle W
  close_fd fd h = record h { world = os.file_close fd h.world }

  -- Magic, checksum and version of a WAL's header.
  unfoldable pub wal_header_check : List ℕ → Exec (Handle W) (Unit {0})
  wal_header_check hdr = do
    guard (memcmp_eq 8 hdr wal_magic) err_corrupt
    guard (get_u32le (drop 20 hdr) == crc32 (take wal_hdr_crc_cover hdr)) err_corrupt
    let ver = get_u32le (drop 8 hdr)
    guard (not (ltb ver 1 || ltb max_format_version ver)) err_corrupt

  -- One record of the WAL, read and appended to the main file.
  unfoldable pub wal_copy_record : ℕ → ℕ → ℕ → ℕ → Exec (Handle W) (Unit {0})
  wal_copy_record wal_fd rec_start type plen = do
    payload ←
        (if ltb 0 plen
          then (do
            or_nomem (io_handle os.alloc)
            io_handle (read_payload wal_fd (u64 (rec_start + rec_hdr_size)) plen))
          else pure [])
    h ← get_state
    end ← io_handle (append_record h.db.fd type payload h.db.log_end_offset)
    set_handle_db (λ db. record db { log_end_offset = end })

  -- The loop over the WAL's records. Without fuel it crashes; a record takes a byte at least.
  unfoldable pub wal_loop : ℕ → ℕ → ℕ → ℕ → Exec (Handle W) (Unit {0})
  unfolding wal_copy_record
  wal_loop zero wal_fd wal_size offset = λ _. crash
  wal_loop (suc fuel) wal_fd wal_size offset =
      let rest : Scan → Exec (Handle W) (Unit {0}) = elim [
        | scan_end ↦ pure tt
        | scan_partial ↦ pure tt
        | scanned type plen next ↦
            wal_copy_record wal_fd offset type plen >> wal_loop fuel wal_fd wal_size next
      ] in
      if ltb offset wal_size
      then (io_handle (scan_record wal_fd offset wal_size) >>= rest)
      else pure tt

  -- The header and the records of a WAL that is long enough to have a header.
  unfoldable pub wal_apply : ℕ → ℕ → Exec (Handle W) (Unit {0})
  unfolding wal_header_check wal_loop
  wal_apply wal_fd wal_size = do
    hdr ← io_handle (or_io (read_full wal_fd wal_hdr_size 0))
    wal_header_check hdr
    wal_loop (suc wal_size) wal_fd wal_size wal_hdr_size

  unfoldable pub wal_finish : Exec (Handle W) (Unit {0})
  wal_finish = do
    set_handle_db (λ db. record db { flags = clear_flags db.flags flag_wal_present })
    h ← get_state
    io_handle (or_io (header_update h.db.fd h.db))
    ignore (io_handle (os.file_delete h.db.wal_path))

  unfoldable pub wal_open : ℕ → Exec (Handle W) (Unit {0})
  unfolding wal_apply wal_finish
  wal_open wal_fd h = elim (os.file_size wal_fd h.world) [
    | crash ↦ crash
    | err c w ↦ discard (record h { world = w })
    | ok size w ↦
        (if ltb size wal_hdr_size
            then discard
            else (finally (wal_apply wal_fd size) (close_fd wal_fd) >> wal_finish))
          (record h { world = w })
  ]
    where
      discard : Exec (Handle W) (Unit {0})
      discard g = ignore (io_handle (os.file_delete g.db.wal_path)) (close_fd wal_fd g)

  -- No WAL file: nothing to do.
  unfoldable pub replay_wal : Exec (Handle W) (Unit {0})
  unfolding wal_open
  replay_wal h = elim (os.file_open h.db.wal_path false h.world) [
    | crash ↦ crash
    | err c w ↦ ok tt (record h { world = w })
    | ok (wal_fd, _) w ↦ wal_open wal_fd (record h { world = w })
  ]
