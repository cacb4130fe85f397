-- ===== src/Io/Corrupt.antt =====
-- The scan of a committed record whose payload is not the one that its checksum is of.
use qdb.Base.{
  ℕ, ◌+◌, ◌-◌, ◌^◌, ◌<◌, ◌≤◌, ◌≡◌, ◌≢◌, refl, ap, sym, subst, ◌∙◌, true, false, List, [], ◌∷◌, ◌++◌,
  length, drop, length-append, append_assoc, ok, err, err_corrupt, arith, ltb, leb, ne→==,
}
use qdb.Word.{u64, get_u32le, at}
use qdb.Crc.{crc32, crc32_begin, crc32_update, crc32_end}
use qdb.Format.{commit_marker, max_record_payload}
use qdb.Platform.{Platform, ReadsSucceed, slice}
use qdb.Io.{
  record_header, read_full, crc_chunks, is_known_type, scan_committed, scan_framed, scan_record,
}
use qdb.Io.Append.{length-record_header}
use qdb.Io.ScanBack.{read_full-slice, crc_chunks-slice}
use qdb.Io.RoundTrip.{slice-middle, header_fields_at}

module _ {W : Type 0} ⦃os : Platform W⦄ where
  corrupt_run :
      (fd type plen stored crc_state offset end : ℕ) (hdr : List ℕ) (w w1 w2 w3 : W)
      → read_full fd 9 offset w ≡ ok hdr w1
      → at hdr 0 ≡ type
      → get_u32le (drop 1 hdr) ≡ plen
      → get_u32le (drop 5 hdr) ≡ stored
      → read_full fd 1 ((offset + 9) + plen) w1 ≡ ok (commit_marker ∷ []) w2
      → crc_chunks plen fd (offset + 9) plen plen crc32_begin w2 ≡ ok crc_state w3
      → crc32_end crc_state ≢ stored
      → is_known_type type ≡ true
      → plen ≤ max_record_payload
      → offset + (plen + 10) ≤ end
      → end < 2 ^ 64
      → scan_record fd offset end w ≡ err err_corrupt w3
  unfolding scan_record scan_framed scan_committed
  corrupt_run fd type plen stored crc_state offset end hdr w w1 w2 w3 read1 kind len sum read2 crc
        bad known small inside fits =
      let n1 : u64 (offset + 9) ≡ offset + 9 = omega arith in
      let n2 : u64 ((offset + 9) + plen) ≡ (offset + 9) + plen = omega arith in
      let n3 : u64 (((offset + 9) + plen) + 1) ≡ offset + (plen + 10) = omega arith in
      let open_ : leb end offset ≡ false = ground arith in
      let room : ltb (end - offset) 10 ≡ false = ground arith in
      let size : leb plen max_record_payload ≡ true = ground arith in
      let whole_in : ltb end (offset + (plen + 10)) ≡ false = ground arith in
      rw (open_, room, read1, len, kind, sum, size, n1, n2, n3, whole_in, read2, known, crc)
        (rw (ne→== (crc32_end crc_state) stored bad) refl)

module _ {W : Type 0} ⦃os : Platform W⦄ (reads : ReadsSucceed os) where
  -- A scan at a committed record of a known type, in whose payload's place other bytes of the same
  -- length and of another checksum stand, answers that the log is corrupt.
  pub scan_record-corrupt :
      (fd type : ℕ) (payload found front back : List ℕ) (offset end : ℕ) (w : W)
      → os.bytes w fd ≡ front ++ (record_header type payload ++ (found ++ (commit_marker ∷ back)))
      → length found ≡ length payload
      → crc32 found ≢ crc32 payload
      → offset ≡ length front
      → is_known_type type ≡ true
      → length payload ≤ max_record_payload
      → offset + (length payload + 10) ≤ end
      → end < 2 ^ 64
      → (w' : W) × (scan_record fd offset end w ≡ err err_corrupt w')
  unfolding record_header crc32
  scan_record-corrupt fd type payload found front back offset end w content long bad e known small
        inside fits =
      let plen = length payload in
      let hdr = record_header type payload in
      let tail : List ℕ = commit_marker ∷ back in
      let size : length (os.bytes w fd) ≡ length front + (9 + (length found + length tail)) =
        ap length content
        ∙ omega (
          arith,
          length-append front (hdr ++ (found ++ tail)),
          length-append hdr (found ++ tail),
          length-append found tail,
          length-record_header type payload,
        ) in
      let (w1, read1, same1) = read_full-slice reads fd 9 offset w (omega arith) in
      let (w2, read2, same2) = read_full-slice reads fd 1 ((offset + 9) + plen) w1 (
        subst (λ (f : ℕ → List ℕ). ((offset + 9) + plen) + 1 ≤ length (f fd)) (sym same1)
          (omega arith)) in
      let same = same2 ∙ same1 in
      let (w3, crc, same3) =
        crc_chunks-slice reads plen fd (offset + 9) plen plen crc32_begin w2 (omega arith)
          (omega arith)
          (subst (λ (f : ℕ → List ℕ). (offset + 9) + plen ≤ length (f fd)) (sym same) (omega arith))
          (omega arith) in
      let end1 : (offset + 9) ≡ length (front ++ hdr) =
        omega (arith, length-append front hdr, length-record_header type payload) in
      let end2 : (offset + 9) + plen ≡ length ((front ++ hdr) ++ found) = omega (
        arith,
        length-append front hdr,
        length-append (front ++ hdr) found,
        length-record_header type payload,
      ) in
      let split1 : front ++ (hdr ++ (found ++ tail)) ≡ (front ++ hdr) ++ (found ++ tail) =
        simp append_assoc in
      let split2 : front ++ (hdr ++ (found ++ tail))
          ≡ ((front ++ hdr) ++ found) ++ ((commit_marker ∷ []) ++ back) =
        simp append_assoc in
      let hdr_read : slice offset 9 (os.bytes w fd) ≡ hdr =
        ap (slice offset 9) content
        ∙ slice-middle front hdr (found ++ tail) offset 9 e
            (sym (length-record_header type payload)) in
      let mark_read : slice ((offset + 9) + plen) 1 (os.bytes w1 fd) ≡ commit_marker ∷ [] =
        ap (slice ((offset + 9) + plen) 1) (ap (λ g. g fd) same1 ∙ content ∙ split2)
        ∙ slice-middle ((front ++ hdr) ++ found) (commit_marker ∷ []) back ((offset + 9) + plen) 1
            end2 refl in
      let no_skip : (offset + 9) + (plen - plen) ≡ offset + 9 = omega arith in
      let found_read : slice ((offset + 9) + (plen - plen)) plen (os.bytes w2 fd) ≡ found =
        ap (λ o. slice o plen (os.bytes w2 fd)) no_skip
        ∙ ap (slice (offset + 9) plen) (ap (λ g. g fd) same ∙ content ∙ split1)
        ∙ slice-middle (front ++ hdr) found tail (offset + 9) plen end1 (sym long) in
      let (len, sum) = header_fields_at type payload (omega arith) in
      (
        w3,
        corrupt_run fd type plen (crc32 payload) _ offset end hdr w w1 w2 w3
            (read1 ∙ ap (λ l. ok l w1) hdr_read) refl len sum (read2 ∙ ap (λ l. ok l w2) mark_read)
            crc (λ h. bad (sym (ap (λ l. crc32_end (crc32_update crc32_begin l)) found_read) ∙ h))
            known small inside fits,
      )
