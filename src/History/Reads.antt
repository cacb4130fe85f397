-- ===== src/History/Reads.antt =====
-- What the replay reads of a record that stands in the file.
use qdb.Base.{
  ℕ, ◌+◌, ◌%◌, ◌^◌, ◌<◌, ◌≤◌, ◌≡◌, refl, sym, ap, subst, ◌∙◌, List, [], ◌∷◌, ◌++◌, length,
  length-append, append_assoc, arith, ok,
}
use qdb.Word.{put_u64le}
use qdb.Word.RoundTrip.{length-put_u64le}
use qdb.Format.{commit_marker}
use qdb.Platform.{Platform, ReadsSucceed, slice}
use qdb.Platform.Files.{slice-append}
use qdb.Io.{record_header, read_full}
use qdb.Io.Append.{record_bytes, length-record_bytes, length-record_header}
use qdb.Io.RoundTrip.{payload_in}
use qdb.Io.ScanBack.{read_full-slice}
use qdb.Api.Push.{push_payload}

module _ {W : Type 0} ⦃os : Platform W⦄ (reads : ReadsSucceed os) (fd : ℕ) (front back : List ℕ)
    (offset : ℕ) (e : offset ≡ length front) where
  -- The whole payload.
  pub payload_read :
      (type : ℕ) (payload : List ℕ) (plen : ℕ) (w : W)
      → length payload ≡ plen
      → os.bytes w fd ≡ front ++ (record_bytes type payload ++ back)
      → (w' : W) × (read_full fd plen (offset + 9) w ≡ ok payload w') × (os.bytes w' ≡ os.bytes w)
  payload_read type payload plen w long content =
      let (w', read, same) = read_full-slice reads fd plen (offset + 9) w (
        omega (
          arith,
          ap length content,
          length-append front (record_bytes type payload ++ back),
          length-append (record_bytes type payload) back,
          length-record_bytes type payload,
        )) in
      (
        w',
        read
            ∙ ap (λ l. ok l w')
                (ap (λ n. slice (offset + 9) n (os.bytes w fd)) (sym long)
                  ∙ ap (slice (offset + 9) (length payload)) content
                  ∙ payload_in type payload front back offset e),
        same,
      )

  -- The head of a PUSH record's payload, and then the name.
  pub push_read :
      (type id : ℕ) (queue bytes : List ℕ) (w : W)
      → length queue < 2 ^ 8
      → os.bytes w fd ≡ front ++ (record_bytes type (push_payload id queue bytes) ++ back)
      → (w1 : W) × (w2 : W) × (read_full fd 9 (offset + 9) w
          ≡ ok (put_u64le id ++ (length queue ∷ [])) w1)
        × (read_full fd (length queue) (offset + 9 + 9) w1 ≡ ok queue w2)
        × (os.bytes w2 ≡ os.bytes w)
  unfolding record_bytes push_payload
  push_read type id queue bytes w short content =
      let payload = push_payload id queue bytes in
      let hdr = record_header type payload in
      let head = put_u64le id ++ (length queue ∷ []) in
      let tail = bytes ++ ((commit_marker ∷ []) ++ back) in
      let n_at : length queue % 2 ^ 8 ≡ length queue = omega arith in
      let regroup : front ++ (record_bytes type payload ++ back)
          ≡ (front ++ hdr) ++ (head ++ (queue ++ tail)) =
        rw n_at (simp append_assoc) in
      let regroup' : (front ++ hdr) ++ (head ++ (queue ++ tail))
          ≡ ((front ++ hdr) ++ head) ++ (queue ++ tail) =
        simp append_assoc in
      let hdr_end : offset + 9 ≡ length (front ++ hdr) =
        omega (arith, length-append front hdr, length-record_header type payload) in
      let head_len : length head ≡ 9 =
        omega (arith, length-append (put_u64le id) (length queue ∷ []), length-put_u64le id) in
      let whole = content ∙ regroup in
      let long : offset + 9 + (9 + length queue) ≤ length (os.bytes w fd) = omega (
        arith,
        ap length whole,
        length-append (front ++ hdr) (head ++ (queue ++ tail)),
        length-append head (queue ++ tail),
        length-append queue tail,
      ) in
      let (w1, read1, same1) = read_full-slice reads fd 9 (offset + 9) w (omega arith) in
      let (w2, read2, same2) = read_full-slice reads fd (length queue) (offset + 9 + 9) w1 (
        subst (λ (f : ℕ → List ℕ). offset + 9 + 9 + length queue ≤ length (f fd)) (sym same1)
          (omega arith)) in
      (
        w1,
        w2,
        read1
            ∙ ap (λ l. ok l w1)
                (ap (slice (offset + 9) 9) whole
                  ∙ slice-append (front ++ hdr) head (queue ++ tail) (offset + 9) 9 hdr_end
                      (sym head_len)),
        read2
            ∙ ap (λ l. ok l w2)
                (ap (slice (offset + 9 + 9) (length queue))
                    (ap (λ f. f fd) same1 ∙ whole ∙ regroup')
                  ∙ slice-append ((front ++ hdr) ++ head) queue tail (offset + 9 + 9) (length queue)
                      (omega (arith, hdr_end, head_len, length-append (front ++ hdr) head)) refl),
        same2 ∙ same1,
      )
