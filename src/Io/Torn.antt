-- ===== src/Io/Torn.antt =====
-- The scan of a record that was not committed: everything is in the file but the commit marker.
use qdb.Base.{
  ℕ, ◌+◌, ◌-◌, ◌^◌, ◌<◌, ◌≤◌, ◌≡◌, ◌≢◌, refl, ap, sym, subst, ◌∙◌, true, false, List, [], ◌∷◌, ◌++◌,
  length, drop, length-append, append_assoc, ok, arith, ltb, leb, ne→==,
}
use qdb.Word.{u64, get_u32le}
use qdb.Format.{commit_marker, max_record_payload}
use qdb.Platform.{Platform, ReadsSucceed, slice}
use qdb.Io.{scan_partial, record_header, read_full, scan_framed, scan_record}
use qdb.Io.Append.{length-record_header}
use qdb.Io.ScanBack.{read_full-slice}
use qdb.Io.RoundTrip.{slice-middle, header_fields_at}

module _ {W : Type 0} ⦃os : Platform W⦄ where
  torn_run :
      (fd plen mark offset end : ℕ) (hdr : List ℕ) (w w1 w2 : W)
      → read_full fd 9 offset w ≡ ok hdr w1
      → get_u32le (drop 1 hdr) ≡ plen
      → read_full fd 1 ((offset + 9) + plen) w1 ≡ ok (mark ∷ []) w2
      → mark ≢ commit_marker
      → plen ≤ max_record_payload
      → offset + (plen + 10) ≤ end
      → end < 2 ^ 64
      → scan_record fd offset end w ≡ ok scan_partial w2
  unfolding scan_record scan_framed
  torn_run fd plen mark offset end hdr w w1 w2 read1 len read2 torn small inside fits =
      let n1 : u64 (offset + 9) ≡ offset + 9 = omega arith in
      let n2 : u64 ((offset + 9) + plen) ≡ (offset + 9) + plen = omega arith in
      let n3 : u64 (((offset + 9) + plen) + 1) ≡ offset + (plen + 10) = omega arith in
      let open_ : leb end offset ≡ false = ground arith in
      let room : ltb (end - offset) 10 ≡ false = ground arith in
      let size : leb plen max_record_payload ≡ true = ground arith in
      let whole_in : ltb end (offset + (plen + 10)) ≡ false = ground arith in
      rw (open_, room, read1, len, size, n1, n2, n3, whole_in, read2)
        (rw (ne→== mark commit_marker torn) refl)

module _ {W : Type 0} ⦃os : Platform W⦄ (reads : ReadsSucceed os) where
  -- A scan at a record whose header and payload are in the file, but where another byte stands in the
  -- place of the commit marker, answers that the record is partial, and changes no file.
  pub scan_record-torn :
      (fd type mark : ℕ) (payload front back : List ℕ) (offset end : ℕ) (w : W)
      → os.bytes w fd ≡ front ++ (record_header type payload ++ (payload ++ (mark ∷ back)))
      → mark ≢ commit_marker
      → offset ≡ length front
      → length payload ≤ max_record_payload
      → offset + (length payload + 10) ≤ end
      → end < 2 ^ 64
      → (w' : W) × (scan_record fd offset end w ≡ ok scan_partial w') × (os.bytes w' ≡ os.bytes w)
  scan_record-torn fd type mark payload front back offset end w content torn e small inside fits =
      let plen = length payload in
      let hdr = record_header type payload in
      let tail : List ℕ = mark ∷ back in
      let size : length (os.bytes w fd) ≡ length front + (9 + (plen + length tail)) =
        ap length content
        ∙ omega (
          arith,
          length-append front (hdr ++ (payload ++ tail)),
          length-append hdr (payload ++ tail),
          length-append payload tail,
          length-record_header type payload,
        ) in
      let (w1, read1, same1) = read_full-slice reads fd 9 offset w (omega arith) in
      let (w2, read2, same2) = read_full-slice reads fd 1 ((offset + 9) + plen) w1 (
        subst (λ (f : ℕ → List ℕ). ((offset + 9) + plen) + 1 ≤ length (f fd)) (sym same1)
          (omega arith)) in
      let regroup : front ++ (hdr ++ (payload ++ tail))
          ≡ ((front ++ hdr) ++ payload) ++ ((mark ∷ []) ++ back) =
        simp append_assoc in
      let hdr_read : slice offset 9 (os.bytes w fd) ≡ hdr =
        ap (slice offset 9) content
        ∙ slice-middle front hdr (payload ++ tail) offset 9 e
            (sym (length-record_header type payload)) in
      let mark_read : slice ((offset + 9) + plen) 1 (os.bytes w1 fd) ≡ mark ∷ [] =
        ap (slice ((offset + 9) + plen) 1) (ap (λ g. g fd) same1 ∙ content ∙ regroup)
        ∙ slice-middle ((front ++ hdr) ++ payload) (mark ∷ []) back ((offset + 9) + plen) 1
            (omega (
              arith,
              length-append front hdr,
              length-append (front ++ hdr) payload,
              length-record_header type payload,
            ))
            refl in
      let (len, sum) = header_fields_at type payload (omega arith) in
      (
        w2,
        torn_run fd plen mark offset end hdr w w1 w2 (read1 ∙ ap (λ l. ok l w1) hdr_read) len
            (read2 ∙ ap (λ l. ok l w2) mark_read) torn small inside fits,
        same2 ∙ same1,
      )
