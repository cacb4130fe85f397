-- ===== src/Io.antt =====
-- The record-level input and output of src/qdb_io.c. A buffer of `n` bytes that is passed with its
-- length is a list of that length; what a function writes through a pointer it returns.
pub mod Header
pub mod Append
pub mod Patch
pub mod ScanLaws
pub mod ScanBack
pub mod RoundTrip
pub mod Torn
pub mod Corrupt
pub mod Returns
use qdb.Base.{
  ℕ, zero, suc, ◌+◌, ◌-◌, ◌<◌, min, Bool, true, false, ◌||◌, not, Option, none, some, List, [], ◌∷◌,
  ◌++◌, length, take, drop, replicate, if◌then◌else◌, ◌==◌, ltb, leb, Code, Run, Exec, ok, err,
  crash, err_io, err_corrupt, pure, raise, ◌>>=◌, ◌>>◌,
}
use qdb.Word.{u32, u64, at, get_u32le, get_u64le, put_u32le, put_u64le}
use qdb.Crc.{crc32, crc32_begin, crc32_update, crc32_end}
use qdb.Format.{
  hdr_size, page_size, format_version, max_format_version, hdr_crc_cover, rt_msg_push, rt_msg_lease,
  rt_msg_ack, rt_msg_nack, rt_msg_expire, rt_checkpoint, rt_padding, rec_hdr_size, commit_marker,
  max_record_payload, file_magic,
}
use qdb.Platform.{Platform}
use qdb.State.{memcmp_eq}
use qdb.Db.{Db, Handle, or_io, io_handle, get_state, modify_state, guard}

-- Bytes 0 to 51 of the header, which its checksum covers.
unfoldable pub header_prefix : Db → List ℕ
header_prefix db =
    file_magic
    ++ (put_u32le format_version
        ++ (put_u32le page_size
            ++ (put_u64le db.create_time_us
                ++ (put_u64le db.next_msg_id
                    ++ (put_u64le db.log_start_offset
                        ++ (put_u64le db.log_end_offset ++ put_u32le db.flags))))))

unfoldable pub header_encode : Db → List ℕ
header_encode db =
    header_prefix db ++ (put_u32le (crc32 (header_prefix db)) ++ replicate (4096 - 56) 0)

-- The fields that a header holds, put into the handle.
unfoldable pub header_fields : List ℕ → Db → Db
header_fields buf db = record db {
  create_time_us = get_u64le (drop 16 buf);
  next_msg_id = get_u64le (drop 24 buf);
  log_start_offset = get_u64le (drop 32 buf);
  log_end_offset = get_u64le (drop 40 buf);
  flags = get_u32le (drop 48 buf);
}

unfoldable pub header_decode : List ℕ → Exec Db (Unit {0})
header_decode buf = do
  guard (memcmp_eq 8 buf file_magic) err_corrupt
  guard (crc32 (take hdr_crc_cover buf) == get_u32le (drop 52 buf)) err_corrupt
  let version = get_u32le (drop 8 buf)
  guard (not (ltb version 1 || ltb max_format_version version)) err_corrupt
  guard (get_u32le (drop 12 buf) == page_size) err_corrupt
  modify_state (header_fields buf)
  db ← get_state
  guard (not (ltb db.log_start_offset hdr_size || ltb db.log_end_offset db.log_start_offset))
      err_corrupt

unfoldable pub is_known_type : ℕ → Bool
is_known_type t =
    t == rt_msg_push
    || t == rt_msg_lease
    || t == rt_msg_ack
    || t == rt_msg_nack
    || t == rt_msg_expire
    || t == rt_checkpoint
    || t == rt_padding

-- What `scan_record` answers: a record with its type, the length of its payload and the offset
-- behind it; QDB__SCAN_END; or QDB__SCAN_PARTIAL, where the offset stays.
pub data Scan : Type 0 where
  scanned : ℕ → ℕ → ℕ → Scan
  scan_end scan_partial : Scan

-- Type, length and checksum: the first nine bytes of a record.
unfoldable pub record_header : ℕ → List ℕ → List ℕ
record_header type payload = type ∷ (put_u32le (length payload) ++ put_u32le (crc32 payload))

module _ {W : Type 0} ⦃os : Platform W⦄ where
  unfoldable pub read_full : ℕ → ℕ → ℕ → Exec W (List ℕ)
  read_full fd len offset = do
    got ← os.pread fd len offset
    if length got == len then pure got else raise err_io

  unfoldable pub write_full : ℕ → List ℕ → ℕ → Exec W (Unit {0})
  write_full fd buf offset = os.pwrite fd buf offset

  unfoldable pub header_write : ℕ → Db → Exec W (Unit {0})
  unfolding write_full
  header_write fd db = do or_io (write_full fd (header_encode db) 0); os.file_sync fd

  unfoldable pub header_read : ℕ → Exec (Handle W) (Unit {0})
  unfolding read_full
  header_read fd = do
    size ← io_handle (or_io (os.file_size fd))
    guard (leb hdr_size size) err_corrupt
    buf ← io_handle (or_io (read_full fd hdr_size 0))
    decode_into buf
    where
      decode_into : List ℕ → Exec (Handle W) (Unit {0})
      decode_into buf h = elim (header_decode buf h.db) [
        | ok a db ↦ ok a (record h { db = db })
        | err c db ↦ err c (record h { db = db })
        | crash ↦ crash
      ]

  -- The 32 bytes from offset 24 on, with the checksum over the whole prefix.
  unfoldable pub header_update : ℕ → Db → Exec W (Unit {0})
  unfolding write_full
  header_update fd db = do
    let patch = drop 24 (header_prefix db) ++ put_u32le (crc32 (header_prefix db))
    or_io (write_full fd patch 24)
    os.file_sync fd

  -- Returns the offset behind the record.
  unfoldable pub append_record : ℕ → ℕ → List ℕ → ℕ → Exec W ℕ
  unfolding write_full
  append_record fd type payload offset = do
    let payload_off = u64 (offset + rec_hdr_size)
    let marker_off = u64 (payload_off + length payload)
    or_io (write_full fd (record_header type payload) offset)
    if ltb 0 (length payload) then or_io (write_full fd payload payload_off) else pure tt
    or_io (os.file_sync fd)
    or_io (write_full fd (commit_marker ∷ []) marker_off)
    or_io (os.file_sync fd)
    pure (u64 (marker_off + 1))

  -- The checksum of a payload, read in pieces of at most 4096 bytes. Each piece is a byte at least,
  -- so as many rounds as there are bytes left are enough.
  unfoldable pub crc_chunks : ℕ → ℕ → ℕ → ℕ → ℕ → ℕ → Exec W ℕ
  crc_chunks zero fd payload_off plen remaining crc_state = pure crc_state
  crc_chunks (suc fuel) fd payload_off plen remaining crc_state =
      let to_read = min remaining 4096 in
      let rest : List ℕ → Exec W ℕ = λ chunk.
        crc_chunks fuel fd payload_off plen (remaining - to_read) (crc32_update crc_state chunk) in
      if remaining == 0
      then pure crc_state
      else (or_io (read_full fd to_read (u64 (payload_off + (plen - remaining)))) >>= rest)

  -- The part of `scan_record` behind the commit marker's test.
  unfoldable pub scan_committed : ℕ → ℕ → ℕ → ℕ → ℕ → ℕ → Exec W Scan
  scan_committed fd type plen stored_crc payload_off record_end = do
    guard (is_known_type type) err_corrupt
    crc_state ← crc_chunks plen fd payload_off plen plen crc32_begin
    guard (crc32_end crc_state == stored_crc) err_corrupt
    pure (scanned type plen record_end)

  -- The part of `scan_record` behind the read of the record's header.
  unfoldable pub scan_framed : ℕ → ℕ → ℕ → List ℕ → Exec W Scan
  scan_framed fd offset end_offset hdr = do
    let plen = get_u32le (drop 1 hdr)
    let payload_off = u64 (offset + rec_hdr_size)
    let marker_off = u64 (payload_off + plen)
    let record_end = u64 (marker_off + 1)
    guard (leb plen max_record_payload) err_corrupt
    if ltb end_offset record_end then pure scan_partial else do
      marker ← or_io (read_full fd 1 marker_off)
      if at marker 0 == commit_marker
          then scan_committed fd (at hdr 0) plen (get_u32le (drop 5 hdr)) payload_off record_end
          else pure scan_partial

  unfoldable pub scan_record : ℕ → ℕ → ℕ → Exec W Scan
  scan_record fd offset end_offset =
      if leb end_offset offset
      then pure scan_end
      else if ltb (end_offset - offset) (rec_hdr_size + 1)
      then pure scan_partial
      else (or_io (read_full fd rec_hdr_size offset) >>= scan_framed fd offset end_offset)

  unfoldable pub read_payload : ℕ → ℕ → ℕ → Exec W (List ℕ)
  unfolding read_full
  read_payload fd payload_offset plen = read_full fd plen payload_offset
