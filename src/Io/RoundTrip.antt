-- ===== src/Io/RoundTrip.antt =====
-- The scan finds a record that was appended.
use qdb.Base.{
  ℕ, ◌+◌, ◌-◌, ◌^◌, ◌<◌, ◌≤◌, ◌≡◌, refl, ap, sym, subst, ◌∙◌, true, false, List, [], ◌∷◌, ◌++◌,
  length, take, drop, length-append, append_assoc, append-nil, drop-append-length,
  take-append-length, ok, arith, ltb, leb, eq→==,
}
use qdb.Word.{u64, get_u32le, put_u32le, at}
use qdb.Word.RoundTrip.{get_u32le-put, drop-put_u32le}
use qdb.Crc.{crc32, crc32_begin, crc32_update, crc32_end}
use qdb.Crc.Laws.{crc32-lt}
use qdb.Format.{commit_marker, max_record_payload}
use qdb.Platform.{Platform, ReadsSucceed, slice}
use qdb.Io.{
  scanned, record_header, read_full, crc_chunks, scan_committed, scan_framed, scan_record,
  is_known_type,
}
use qdb.Io.Append.{record_bytes, length-record_header, length-record_bytes}
use qdb.Io.ScanBack.{read_full-slice, crc_chunks-slice}

pub slice-middle :
    (front xs back : List ℕ) (o n : ℕ)
    → o ≡ length front
    → n ≡ length xs
    → slice o n (front ++ (xs ++ back)) ≡ xs
slice-middle front xs back o n e h =
    ap (take n) (drop-append-length front (xs ++ back) o e) ∙ take-append-length xs back n h

-- The fields of a record's header.
pub header_fields_at :
    (type : ℕ) (payload : List ℕ)
    → length payload < 2 ^ 32
    → (get_u32le (drop 1 (record_header type payload)) ≡ length payload)
      × (get_u32le (drop 5 (record_header type payload)) ≡ crc32 payload)
unfolding record_header
header_fields_at type payload fits =
    let crc = put_u32le (crc32 payload) in
    (
      get_u32le-put (length payload) crc fits,
      ap get_u32le (drop-put_u32le (length payload) crc ∙ sym (append-nil crc))
          ∙ get_u32le-put (crc32 payload) [] (crc32-lt payload),
    )

-- The three parts of a record in a file.
module _ (type : ℕ) (payload front back : List ℕ) (offset : ℕ) (e : offset ≡ length front) where
  abbrev whole : List ℕ
  whole = front ++ (record_bytes type payload ++ back)

  header_in : slice offset 9 whole ≡ record_header type payload
  unfolding record_bytes
  header_in =
      ap (λ l. slice offset 9 (front ++ l))
        (append_assoc (record_header type payload) (payload ++ commit_marker ∷ []) back)
      ∙ slice-middle front (record_header type payload) ((payload ++ commit_marker ∷ []) ++ back)
          offset 9 e (sym (length-record_header type payload))

  pub payload_in : slice (offset + 9) (length payload) whole ≡ payload
  unfolding record_bytes
  payload_in =
      let hdr = record_header type payload in
      let regroup : whole ≡ (front ++ hdr) ++ (payload ++ ((commit_marker ∷ []) ++ back)) =
        simp append_assoc in
      ap (slice (offset + 9) (length payload)) regroup
      ∙ slice-middle (front ++ hdr) payload ((commit_marker ∷ []) ++ back) (offset + 9)
          (length payload)
          (omega (arith, length-append front hdr, length-record_header type payload)) refl

  marker_in : slice ((offset + 9) + length payload) 1 whole ≡ commit_marker ∷ []
  unfolding record_bytes
  marker_in =
      let hdr = record_header type payload in
      let marker : List ℕ = commit_marker ∷ [] in
      let regroup : whole ≡ ((front ++ hdr) ++ payload) ++ (marker ++ back) = simp append_assoc in
      ap (slice ((offset + 9) + length payload) 1) regroup
      ∙ slice-middle ((front ++ hdr) ++ payload) marker back ((offset + 9) + length payload) 1
          (omega (
            arith,
            length-append front hdr,
            length-append (front ++ hdr) payload,
            length-record_header type payload,
          ))
          refl

  reach : offset + (length payload + 10) ≤ length whole
  reach = omega (
    arith,
    length-append front (record_bytes type payload ++ back),
    length-append (record_bytes type payload) back,
    length-record_bytes type payload,
  )

module _ {W : Type 0} ⦃os : Platform W⦄ where
  -- The run of a scan whose reads and tests are known.
  scanned_run :
      (fd type plen stored crc_state offset end : ℕ) (hdr : List ℕ) (w w1 w2 w3 : W)
      → read_full fd 9 offset w ≡ ok hdr w1
      → at hdr 0 ≡ type
      → get_u32le (drop 1 hdr) ≡ plen
      → get_u32le (drop 5 hdr) ≡ stored
      → read_full fd 1 ((offset + 9) + plen) w1 ≡ ok (commit_marker ∷ []) w2
      → crc_chunks plen fd (offset + 9) plen plen crc32_begin w2 ≡ ok crc_state w3
      → crc32_end crc_state ≡ stored
      → is_known_type type ≡ true
      → plen ≤ max_record_payload
      → offset + (plen + 10) ≤ end
      → end < 2 ^ 64
      → scan_record fd offset end w ≡ ok (scanned type plen (offset + (plen + 10))) w3
  unfolding scan_record scan_framed scan_committed
  scanned_run fd type plen stored crc_state offset end hdr w w1 w2 w3 read1 kind len sum read2 crc
        good known small inside fits =
      let n1 : u64 (offset + 9) ≡ offset + 9 = omega arith in
      let n2 : u64 ((offset + 9) + plen) ≡ (offset + 9) + plen = omega arith in
      let n3 : u64 (((offset + 9) + plen) + 1) ≡ offset + (plen + 10) = omega arith in
      let open_ : leb end offset ≡ false = ground arith in
      let room : ltb (end - offset) 10 ≡ false = ground arith in
      let size : leb plen max_record_payload ≡ true = ground arith in
      let whole_in : ltb end (offset + (plen + 10)) ≡ false = ground arith in
      rw (open_, room, read1, len, kind, sum, size, n1, n2, n3, whole_in, read2, known, crc, good)
        (rw (eq→== stored stored refl) refl)

module _ {W : Type 0} ⦃os : Platform W⦄ (reads : ReadsSucceed os) where
  -- A scan at the start of a record whose last byte lies within the log finds it: its type, the length
  -- of its payload, and the offset behind it.
  pub scan_record-append :
      (fd type : ℕ) (payload front back : List ℕ) (offset end : ℕ) (w : W)
      → os.bytes w fd ≡ front ++ (record_bytes type payload ++ back)
      → offset ≡ length front
      → is_known_type type ≡ true
      → length payload ≤ max_record_payload
      → offset + (length payload + 10) ≤ end
      → end < 2 ^ 64
      → (w' : W) × (scan_record fd offset end w
          ≡ ok (scanned type (length payload) (offset + (length payload + 10))) w')
        × (os.bytes w' ≡ os.bytes w)
  unfolding record_header crc32
  scan_record-append fd type payload front back offset end w content e known small inside fits =
      let plen = length payload in
      let hdr = record_header type payload in
      let long : offset + (plen + 10) ≤ length (os.bytes w fd) =
        subst (λ (l : List ℕ). offset + (plen + 10) ≤ length l) (sym content)
          (reach type payload front back offset e) in
      let (w1, read1, same1) = read_full-slice reads fd 9 offset w (omega arith) in
      let (w2, read2, same2) = read_full-slice reads fd 1 ((offset + 9) + plen) w1 (
        subst (λ (f : ℕ → List ℕ). ((offset + 9) + plen) + 1 ≤ length (f fd)) (sym same1)
          (omega arith)) in
      let same = same2 ∙ same1 in
      let (w3, crc, same3) =
        crc_chunks-slice reads plen fd (offset + 9) plen plen crc32_begin w2 (omega arith)
          (omega arith)
          (subst (λ (f : ℕ → List ℕ). (offset + 9) + plen ≤ length (f fd)) (sym same) (omega arith))
          (omega arith) in
      let whole_file = front ++ (record_bytes type payload ++ back) in
      let at_fd : (f : ℕ → List ℕ) → f ≡ os.bytes w → f fd ≡ whole_file =
        λ f p. ap (λ g. g fd) p ∙ content in
      let (len, sum) = header_fields_at type payload (omega arith) in
      let hdr_read =
        ap (λ l. slice offset 9 l) content ∙ header_in type payload front back offset e in
      let marker_read =
        ap (slice ((offset + 9) + plen) 1) (at_fd (os.bytes w1) same1)
        ∙ marker_in type payload front back offset e in
      let no_skip : (offset + 9) + (plen - plen) ≡ offset + 9 = omega arith in
      let payload_read =
        ap (λ o. slice o plen (os.bytes w2 fd)) no_skip
        ∙ ap (slice (offset + 9) plen) (at_fd (os.bytes w2) same)
        ∙ payload_in type payload front back offset e in
      (
        w3,
        scanned_run fd type plen (crc32 payload) _ offset end hdr w w1 w2 w3
            (read1 ∙ ap (λ l. ok l w1) hdr_read) refl len sum
            (read2 ∙ ap (λ l. ok l w2) marker_read) crc
            (ap (λ l. crc32_end (crc32_update crc32_begin l)) payload_read) known small inside fits,
        same3 ∙ same,
      )
