-- ===== src/Io/Returns.antt =====
-- The file operations return a code: none of them crashes, and their loops have fuel enough.
use qdb.Base.{
  ℕ, zero, suc, ◌+◌, ◌≢◌, refl, List, Run, Exec, ok, err, crash, and_then, arith, ◌==◌, Bool-cases,
  inl, inr, err_corrupt, ltb, leb, drop,
}
use qdb.Word.{u64, at, get_u32le}
use qdb.Format.{max_record_payload, commit_marker}
use qdb.Platform.{Platform, NoCrash}
use qdb.Db.{Db, or_io, guard}
use qdb.Io.{
  read_full, write_full, header_update, crc_chunks, scan_committed, scan_framed, scan_record,
}

module _ {S A B : Type 0} where
  pub Returns-bind :
      (r : Run S A) (k : A → Exec S B)
      → r ≢ crash
      → ((a : A) (s : S) → k a s ≢ crash)
      → and_then r k ≢ crash
  Returns-bind (ok a s) k first next = next a s
  Returns-bind (err c s) k first next = λ e. grind arith
  Returns-bind crash k first next = absurd (first refl)

module _ {W : Type 0} ⦃os : Platform W⦄ (nc : NoCrash os) where
  pub read_full-returns : (fd len offset : ℕ) (w : W) → read_full fd len offset w ≢ crash
  unfolding read_full
  read_full-returns fd len offset w e = grind (arith, nc.pread_ends fd len offset w)

  pub header_update-returns : (fd : ℕ) (db : Db) (w : W) → header_update fd db w ≢ crash
  unfolding header_update write_full
  header_update-returns fd db w e = grind (arith, nc.pwrite_ends, nc.file_sync_ends)

  crc_chunks-returns :
      (fuel fd payload_off plen remaining state : ℕ) (w : W)
      → crc_chunks fuel fd payload_off plen remaining state w ≢ crash
  unfolding crc_chunks
  crc_chunks-returns zero fd payload_off plen remaining state w e = cc
  crc_chunks-returns (suc fuel) fd payload_off plen remaining state w e =
      grind (arith, read_full-returns, crc_chunks-returns fuel)

  committed-returns :
      (fd type plen stored payload_off record_end : ℕ) (w : W)
      → scan_committed fd type plen stored payload_off record_end w ≢ crash
  unfolding scan_committed
  committed-returns fd type plen stored payload_off record_end w e =
      grind (arith, crc_chunks-returns)

  framed-returns :
      (fd offset end : ℕ) (hdr : List ℕ) (w : W) → scan_framed fd offset end hdr w ≢ crash
  unfolding scan_framed
  framed-returns fd offset end hdr w =
      let plen = get_u32le (drop 1 hdr) in
      let payload_off = u64 (offset + 9) in
      let marker_off = u64 (payload_off + plen) in
      let record_end = u64 (marker_off + 1) in
      let committed =
        committed-returns fd (at hdr 0) plen (get_u32le (drop 5 hdr)) payload_off record_end in
      Returns-bind (guard (leb plen max_record_payload) err_corrupt w) _ (λ e. grind arith)
        λ _ w1. elim (Bool-cases (ltb end record_end)) [
          | inl past ↦ rw past (λ e. grind arith)
          | inr inside ↦ rw inside (
              Returns-bind (or_io (read_full fd 1 marker_off) w1) _
                (λ e. grind (arith, read_full-returns fd 1 marker_off w1))
                λ marker w2. elim (Bool-cases (at marker 0 == commit_marker)) [
                  | inl present ↦ rw present (committed w2)
                  | inr absent ↦ rw absent (λ e. grind arith)
                ])
        ]

  pub scan_record-returns : (fd offset end : ℕ) (w : W) → scan_record fd offset end w ≢ crash
  unfolding scan_record
  scan_record-returns fd offset end w e = grind (arith, read_full-returns, framed-returns)
