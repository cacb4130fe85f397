-- ===== src/Io/Append.antt =====
-- What a record that was appended looks like in the file.
use qdb.Base.{
  ℕ, ◌+◌, ◌^◌, ◌<◌, ◌≡◌, refl, ap, sym, ◌∙◌, List, [], ◌∷◌, ◌++◌, length, drop, length-append,
  drop-drop, append_assoc, pure, arith, lt→ltb, ltb, if◌then◌else◌, Ensures, ends, Ensures-run,
  Ensures-bind,
}
use qdb.Word.{u64, put_u32le}
use qdb.Format.{commit_marker, rec_hdr_size}
use qdb.Platform.{Platform, PlatformLaws}
use qdb.Platform.Files.{pwrite-append}
use qdb.Db.{or_io, Ensures-as_code}
use qdb.Io.{record_header, append_record, write_full}

-- A whole record: header, payload, commit marker.
unfoldable pub record_bytes : ℕ → List ℕ → List ℕ
record_bytes type payload = record_header type payload ++ (payload ++ commit_marker ∷ [])

pub length-record_header : (type : ℕ) (payload : List ℕ) → length (record_header type payload) ≡ 9
unfolding record_header put_u32le
length-record_header type payload = refl

pub length-record_bytes :
    (type : ℕ) (payload : List ℕ) → length (record_bytes type payload) ≡ length payload + 10
unfolding record_bytes
length-record_bytes type payload = omega (
  arith,
  length-append (record_header type payload) (payload ++ commit_marker ∷ []),
  length-append payload (commit_marker ∷ []),
  length-record_header type payload,
)

-- The three pieces one after the other are the record.
whole :
    (type : ℕ) (payload front back : List ℕ)
    → ((front ++ record_header type payload) ++ payload)
        ++ (commit_marker ∷ drop 1 (drop (length payload) (drop 9 back)))
      ≡ front ++ (record_bytes type payload ++ drop (length (record_bytes type payload)) back)
unfolding record_bytes
whole type payload front back =
    let hdr = record_header type payload in
    let marker : List ℕ = commit_marker ∷ [] in
    let rest : drop 1 (drop (length payload) (drop 9 back))
        ≡ drop (length (record_bytes type payload)) back =
      drop-drop 1 (length payload) (drop 9 back)
      ∙ drop-drop (length payload + 1) 9 back
      ∙ ap (λ n. drop n back) {x = 9 + (length payload + 1)}
          (omega (arith, length-record_bytes type payload)) in
    simp append_assoc (rw rest)

module _ {W : Type 0} ⦃os : Platform W⦄ (laws : PlatformLaws os) where
  write_step :
      (fd : ℕ) (front new back : List ℕ) (offset : ℕ) (w : W)
      → os.bytes w fd ≡ front ++ back
      → offset ≡ length front
      → Ensures
          (λ _ w'. os.bytes w' fd ≡ front ++ (new ++ drop (length new) back))
          (os.pwrite fd new offset w)
  write_step fd front new back offset w content e =
      Ensures-run _ (λ _ w' p. pwrite-append laws fd front new back offset w content e p)

  sync_step : (fd : ℕ) (w : W) → Ensures (λ _ w'. os.bytes w' ≡ os.bytes w) (os.file_sync fd w)
  sync_step fd w = Ensures-run _ (λ _ w' p. laws.file_sync_ok fd w p)

  -- The write of a payload, which is skipped where it is empty.
  payload_step :
      (fd : ℕ) (front payload back : List ℕ) (offset : ℕ) (w : W)
      → os.bytes w fd ≡ front ++ back
      → offset ≡ length front
      → Ensures
          (λ _ w'. os.bytes w' fd ≡ front ++ (payload ++ drop (length payload) back))
          ((if ltb 0 (length payload) then or_io (os.pwrite fd payload offset) else pure tt) w)
  payload_step fd front [] back offset w content e = ends content
  payload_step fd front (x ∷ payload) back offset w content e =
      rw (lt→ltb 0 (length (x ∷ payload)) (omega arith))
        (Ensures-as_code _ (write_step fd front (x ∷ payload) back offset w content e))

  -- An append that succeeds returns the offset behind the record, and leaves in the file what was
  -- before the offset, the record, and what was there past its last byte.
  pub append_record-bytes :
      (fd type : ℕ) (payload front back : List ℕ) (offset : ℕ) (w : W)
      → os.bytes w fd ≡ front ++ back
      → offset ≡ length front
      → offset + (length payload + 10) < 2 ^ 64
      → Ensures
          (λ end w'.
            (end ≡ offset + (length payload + 10))
            × (os.bytes w' fd
                ≡ front
                  ++ (record_bytes type payload ++ drop (length (record_bytes type payload)) back)))
          (append_record fd type payload offset w)
  unfolding append_record write_full
  append_record-bytes fd type payload front back offset w content e fits =
      let hdr = record_header type payload in
      let marker : List ℕ = commit_marker ∷ [] in
      let off1 : u64 (offset + 9) ≡ length (front ++ hdr) =
        omega (arith, length-append front hdr, length-record_header type payload) in
      let off2 : u64 (u64 (offset + 9) + length payload) ≡ length ((front ++ hdr) ++ payload) =
        omega (
          arith,
          length-append front hdr,
          length-record_header type payload,
          length-append (front ++ hdr) payload,
        ) in
      let last : u64 (u64 (u64 (offset + 9) + length payload) + 1)
          ≡ offset + (length payload + 10) =
        omega arith in
      Ensures-bind (Ensures-as_code _ (write_step fd front hdr back offset w content e)) λ _ w1 c1.
        Ensures-bind
          (payload_step fd (front ++ hdr) payload (drop 9 back) (u64 (offset + rec_hdr_size)) w1
            (c1
              ∙ ap (λ n. front ++ (hdr ++ drop n back)) (length-record_header type payload)
              ∙ sym (append_assoc front hdr (drop 9 back)))
            off1)
          λ _ w2 c2. Ensures-bind (Ensures-as_code _ (sync_step fd w2)) λ _ w3 c3.
            Ensures-bind
              (Ensures-as_code _ (
                write_step fd ((front ++ hdr) ++ payload) marker
                  (drop (length payload) (drop 9 back)) _ w3
                  (ap (λ f. f fd) c3 ∙ c2 ∙ sym (append_assoc (front ++ hdr) payload _)) off2))
              λ _ w4 c4.
                Ensures-bind (Ensures-as_code _ (sync_step fd w4))
                  λ _ w5 c5. ends (last, ap (λ f. f fd) c5 ∙ c4 ∙ whole type payload front back)
