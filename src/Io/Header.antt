-- ===== src/Io/Header.antt =====
-- The header of the file: what is encoded is decoded, and the short update writes the same bytes as
-- the encoding of the whole header.
use qdb.Base.{
  ℕ, ◌-◌, ◌^◌, ◌<◌, ◌≤◌, ◌≡◌, refl, ap, sym, ◌∙◌, true, List, [], ◌++◌, length, take, drop,
  replicate, take-append-length, drop-append-length, ok, arith,
}
use qdb.Word.{get_u32le, get_u64le, put_u32le, put_u64le}
use qdb.Word.RoundTrip.{get_u32le-put, get_u64le-put}
use qdb.Crc.{crc32}
use qdb.Crc.Laws.{crc32-lt}
use qdb.Format.{hdr_size, hdr_crc_cover, file_magic}
use qdb.State.{memcmp_eq}
use qdb.Db.{Db}
use qdb.Io.{header_prefix, header_encode, header_fields, header_decode}

-- The fields fit their widths, and the log lies behind the header.
pub record FitsHeader (db : Db) : Type 0 where
  pub create_time_fits : db.create_time_us < 2 ^ 64
  pub next_msg_id_fits : db.next_msg_id < 2 ^ 64
  pub log_end_fits : db.log_end_offset < 2 ^ 64
  pub flags_fit : db.flags < 2 ^ 32
  pub log_start_past : hdr_size ≤ db.log_start_offset
  pub log_ordered : db.log_start_offset ≤ db.log_end_offset

module _ (db : Db) (tail : List ℕ) where
  pub length-prefix : length (header_prefix db) ≡ 52
  unfolding header_prefix put_u64le put_u32le
  length-prefix = refl

  magic_at : memcmp_eq 8 (header_prefix db ++ tail) file_magic ≡ true
  unfolding header_prefix memcmp_eq
  magic_at = refl

  version_at : get_u32le (drop 8 (header_prefix db ++ tail)) ≡ 1
  unfolding header_prefix put_u32le get_u32le
  version_at = refl

  page_size_at : get_u32le (drop 12 (header_prefix db ++ tail)) ≡ 4096
  unfolding header_prefix put_u32le get_u32le
  page_size_at = refl

  fields_at :
      FitsHeader db
      → (get_u64le (drop 16 (header_prefix db ++ tail)) ≡ db.create_time_us)
        × (get_u64le (drop 24 (header_prefix db ++ tail)) ≡ db.next_msg_id)
        × (get_u64le (drop 32 (header_prefix db ++ tail)) ≡ db.log_start_offset)
        × (get_u64le (drop 40 (header_prefix db ++ tail)) ≡ db.log_end_offset)
        × (get_u32le (drop 48 (header_prefix db ++ tail)) ≡ db.flags)
  unfolding header_prefix put_u64le put_u32le
  fields_at fits =
      let last = put_u32le db.flags ++ tail in
      let end = put_u64le db.log_end_offset ++ last in
      let start = put_u64le db.log_start_offset ++ end in
      let next = put_u64le db.next_msg_id ++ start in
      (
        get_u64le-put db.create_time_us next fits.create_time_fits,
        get_u64le-put db.next_msg_id start fits.next_msg_id_fits,
        get_u64le-put db.log_start_offset end (omega arith),
        get_u64le-put db.log_end_offset last fits.log_end_fits,
        get_u32le-put db.flags tail fits.flags_fit,
      )

-- What the decoder takes over into `old` from the header of `db`.
abbrev pub with_fields_of : Db → Db → Db
with_fields_of db old = record old {
  create_time_us = db.create_time_us;
  next_msg_id = db.next_msg_id;
  log_start_offset = db.log_start_offset;
  log_end_offset = db.log_end_offset;
  flags = db.flags;
}

checksum_at :
    (db : Db) (tail : List ℕ)
    → get_u32le (drop 52 (header_prefix db ++ (put_u32le (crc32 (header_prefix db)) ++ tail)))
      ≡ crc32 (header_prefix db)
checksum_at db tail =
    let crc = crc32 (header_prefix db) in
    ap get_u32le
      (drop-append-length (header_prefix db) (put_u32le crc ++ tail) 52 (sym (length-prefix db [])))
    ∙ get_u32le-put crc tail (crc32-lt (header_prefix db))

cover_at :
    (db : Db) (tail : List ℕ) → take hdr_crc_cover (header_prefix db ++ tail) ≡ header_prefix db
cover_at db tail = take-append-length (header_prefix db) tail 52 (sym (length-prefix db []))

-- A buffer with these fields is accepted.
accepted :
    (buf : List ℕ) (old db : Db)
    → memcmp_eq 8 buf file_magic ≡ true
    → crc32 (take hdr_crc_cover buf) ≡ get_u32le (drop 52 buf)
    → get_u32le (drop 8 buf) ≡ 1
    → get_u32le (drop 12 buf) ≡ 4096
    → header_fields buf old ≡ with_fields_of db old
    → hdr_size ≤ db.log_start_offset
    → db.log_start_offset ≤ db.log_end_offset
    → header_decode buf old ≡ ok tt (with_fields_of db old)
unfolding header_decode
accepted buf old db magic crc version page fields past ordered =
    rw (magic, crc, version, page) (ground arith)

-- Decoding the encoded header of `db` succeeds, and gives back its five stored fields.
pub header_decode-encode :
    (db old : Db)
    → FitsHeader db
    → header_decode (header_encode db) old ≡ ok tt (with_fields_of db old)
unfolding header_encode header_fields
header_decode-encode db old fits =
    let zeros : List ℕ = replicate (4096 - 56) 0 in
    let tail = put_u32le (crc32 (header_prefix db)) ++ zeros in
    accepted (header_prefix db ++ tail) old db (magic_at db tail)
      (ap crc32 (cover_at db tail) ∙ sym (checksum_at db zeros)) (version_at db tail)
      (page_size_at db tail) (all_fields tail) fits.log_start_past fits.log_ordered
  where
    all_fields :
        (tail : List ℕ) → header_fields (header_prefix db ++ tail) old ≡ with_fields_of db old
    all_fields tail =
        let (a, b, c, d, e) = fields_at db tail fits in
        λ i. record old {
          create_time_us = a i;
          next_msg_id = b i;
          log_start_offset = c i;
          log_end_offset = d i;
          flags = e i;
        }
