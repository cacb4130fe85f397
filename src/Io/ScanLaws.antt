-- ===== src/Io/ScanLaws.antt =====
-- The scan of a record that was appended, and how far a scan moves.
use qdb.Base.{
  ℕ, ◌+◌, ◌-◌, ◌^◌, ◌<◌, ◌≤◌, ◌≡◌, true, false, List, drop, err_corrupt, arith, ltb, ◌==◌,
  Bool-cases, inl, inr, Ensures, ends, Ensures-bind, Ensures-any, leb,
}
use qdb.Word.{u64, get_u32le, at}
use qdb.Crc.{crc32_begin, crc32_end}
use qdb.Format.{commit_marker, max_record_payload}
use qdb.Platform.{Platform}
use qdb.Db.{or_io, guard, Ensures-guard}
use qdb.Io.{
  Scan, scanned, scan_end, scan_partial, read_full, crc_chunks, scan_committed, scan_framed,
  scan_record, is_known_type,
}

-- The record found ends where its payload and ten bytes more end, and not past the end.
abbrev pub Moves : ℕ → ℕ → Scan → Type 0
Moves offset end (scanned type plen next) = (next ≡ offset + (plen + 10)) × (next ≤ end)
Moves offset end scan_end = Unit
Moves offset end scan_partial = Unit

module _ {W : Type 0} ⦃os : Platform W⦄ where
  committed-Moves :
      (fd type plen stored payload_off record_end offset end : ℕ) (w : W)
      → record_end ≡ offset + (plen + 10)
      → record_end ≤ end
      → Ensures
          (λ r _. Moves offset end r)
          (scan_committed fd type plen stored payload_off record_end w)
  unfolding scan_committed
  committed-Moves fd type plen stored payload_off record_end offset end w moved inside =
      Ensures-bind (Ensures-any (guard (is_known_type type) err_corrupt w)) λ _ w1 _.
        Ensures-bind (Ensures-any (crc_chunks plen fd payload_off plen plen crc32_begin w1))
          λ crc w2 _.
            Ensures-bind (Ensures-any (guard (crc32_end crc == stored) err_corrupt w2))
              λ _ w3 _. ends {a = scanned type plen record_end} (moved, inside)

  framed-Moves :
      (fd offset end : ℕ) (hdr : List ℕ) (w : W)
      → offset < end
      → end + (max_record_payload + 10) < 2 ^ 64
      → Ensures (λ r _. Moves offset end r) (scan_framed fd offset end hdr w)
  unfolding scan_framed
  framed-Moves fd offset end hdr w below fits =
      let plen = get_u32le (drop 1 hdr) in
      let record_end = u64 (u64 (u64 (offset + 9) + plen) + 1) in
      Ensures-bind (Ensures-guard (leb plen max_record_payload) err_corrupt w) λ _ w1 small.
        elim (Bool-cases (ltb end record_end)) [
          | inl past ↦ rw past (ends tt)
          | inr inside ↦ rw inside (
              Ensures-bind (Ensures-any (or_io (read_full fd 1 (u64 (u64 (offset + 9) + plen))) w1))
                λ marker w2 _. elim (Bool-cases (at marker 0 == commit_marker)) [
                  | inr absent ↦ rw absent (ends tt)
                  | inl present ↦ rw present (
                      committed-Moves fd (at hdr 0) plen (get_u32le (drop 5 hdr)) (u64 (offset + 9))
                        record_end offset end w2 (moved plen small)
                        (ltb_false end record_end inside))
                ])
        ]
    where
      moved :
          (plen : ℕ)
          → leb plen max_record_payload ≡ true
          → u64 (u64 (u64 (offset + 9) + plen) + 1) ≡ offset + (plen + 10)
      moved plen small = ground arith

      ltb_false : (a b : ℕ) → ltb a b ≡ false → b ≤ a
      ltb_false a b h = ground arith

  -- A scan that finds a record moves past it, by the length of its payload and ten bytes more, and
  -- never past the end, for logs that end 64 MiB and some bytes below the largest offset.
  pub scan_record-Moves :
      (fd offset end : ℕ) (w : W)
      → end + (max_record_payload + 10) < 2 ^ 64
      → Ensures (λ r _. Moves offset end r) (scan_record fd offset end w)
  unfolding scan_record
  scan_record-Moves fd offset end w fits = elim (Bool-cases (leb end offset)) [
    | inl at_end ↦ rw at_end (ends tt)
    | inr more ↦ rw more (elim (Bool-cases (ltb (end - offset) 10)) [
      | inl short ↦ rw short (ends tt)
      | inr room ↦ rw room (
          Ensures-bind (Ensures-any (or_io (read_full fd 9 offset) w))
            λ hdr w1 _. framed-Moves fd offset end hdr w1 (leb_false end offset more) fits)
    ])
  ]
    where
      leb_false : (a b : ℕ) → leb a b ≡ false → b < a
      leb_false a b h = ground arith
