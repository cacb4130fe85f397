-- ===== src/Io/ScanBack.antt =====
-- The scan of a record that stands in a file: every read is of the bytes that the append wrote.
use qdb.Base.{
  ℕ, zero, suc, ◌+◌, ◌-◌, ◌^◌, ◌<◌, ◌≤◌, min, ◌≡◌, refl, ap, sym, subst, ◌∙◌, List, [], ◌∷◌, ◌++◌,
  length, take, drop, length-take, length-drop, drop-drop, take-all, ok, arith, ◌==◌, ==→eq,
  Bool-cases, inl, inr,
}
use qdb.Word.{u64}
use qdb.Crc.{crc32_update}
use qdb.Crc.Laws.{crc32_update-append}
use qdb.Platform.{Platform, ReadsSucceed, slice}
use qdb.Io.{read_full, crc_chunks}

module _ {A : Type 0} where
  take-split : (t r : ℕ) (l : List A) → t ≤ r → take r l ≡ take t l ++ take (r - t) (drop t l)
  take-split zero r l h = ap (λ n. take n l) (omega arith)
  take-split (suc t) zero l h = absurd (omega arith)
  take-split (suc t) (suc r) [] h = sym (take-all [] (suc r - suc t) (omega arith))
  take-split (suc t) (suc r) (x ∷ l) h =
      ap (λ k. x ∷ k)
        (take-split t r l (omega arith)
          ∙ ap (λ n. take t l ++ take n (drop t l)) {x = r - t} {y = suc r - suc t} (omega arith))

pub slice-split :
    (o t r : ℕ) (l : List ℕ) → t ≤ r → slice o r l ≡ slice o t l ++ slice (o + t) (r - t) l
slice-split o t r l h =
    take-split t r (drop o l) h ∙ ap (λ d. slice o t l ++ take (r - t) d) (drop-drop t o l)

length-slice : (o n : ℕ) (l : List ℕ) → o + n ≤ length l → length (slice o n l) ≡ n
length-slice o n l h = omega (arith, length-take n (drop o l), length-drop o l)

empty_piece :
    (state o remaining : ℕ) (l : List ℕ)
    → remaining ≡ 0
    → state ≡ crc32_update state (slice o remaining l)
unfolding crc32_update
empty_piece state o remaining l h = sym (ap (λ n. crc32_update state (slice o n l)) h)

-- A piece, and then the rest.
two_pieces :
    (state o t r o' : ℕ) (l : List ℕ)
    → t ≤ r
    → o' ≡ o + t
    → crc32_update (crc32_update state (slice o t l)) (slice o' (r - t) l)
      ≡ crc32_update state (slice o r l)
two_pieces state o t r o' l h e =
    ap (λ k. crc32_update (crc32_update state (slice o t l)) (slice k (r - t) l)) e
    ∙ crc32_update-append state (slice o t l) (slice (o + t) (r - t) l)
    ∙ ap (crc32_update state) (sym (slice-split o t r l h))

module _ {W : Type 0} ⦃os : Platform W⦄ (reads : ReadsSucceed os) where
  -- A read that lies within the file gives its bytes.
  pub read_full-slice :
      (fd len offset : ℕ) (w : W)
      → offset + len ≤ length (os.bytes w fd)
      → (w' : W) × (read_full fd len offset w ≡ ok (slice offset len (os.bytes w fd)) w')
        × (os.bytes w' ≡ os.bytes w)
  unfolding read_full
  read_full-slice fd len offset w inside =
      let (w', e, same) = reads.pread_total fd len offset w in
      (w', rw (e, length-slice offset len (os.bytes w fd) inside) (ground arith), same)

  -- The checksum that is computed piece by piece is that of the payload's bytes.
  pub crc_chunks-slice :
      (fuel fd payload_off plen remaining state : ℕ) (w : W)
      → remaining ≤ fuel
      → remaining ≤ plen
      → payload_off + plen ≤ length (os.bytes w fd)
      → payload_off + plen < 2 ^ 64
      → (w' : W) × (crc_chunks fuel fd payload_off plen remaining state w
          ≡ ok
              (crc32_update state
                (slice (payload_off + (plen - remaining)) remaining (os.bytes w fd)))
              w')
        × (os.bytes w' ≡ os.bytes w)
  unfolding crc_chunks
  crc_chunks-slice zero fd payload_off plen remaining state w fuel_enough inside reach fits = (
    w,
    ap (λ c. ok c w)
        (empty_piece state (payload_off + (plen - remaining)) remaining (os.bytes w fd)
          (omega arith)),
    refl,
  )
  crc_chunks-slice (suc fuel) fd payload_off plen remaining state w fuel_enough inside reach fits =
      let content = os.bytes w fd in
      let o = payload_off + (plen - remaining) in
      let t = min remaining 4096 in
      elim (Bool-cases (remaining == 0)) [
        | inl none_left ↦ rw none_left (
          w,
          ap (λ c. ok c w) (empty_piece state o remaining content (==→eq remaining 0 none_left)),
          refl,
        )
        | inr more ↦ rw more (
            let pos : 0 < remaining = ground arith in
            let (w1, read, same) = read_full-slice fd t o w (omega arith) in
            let reach' : payload_off + plen ≤ length (os.bytes w1 fd) =
              subst (λ (f : ℕ → List ℕ). payload_off + plen ≤ length (f fd)) (sym same) reach in
            let (w2, rest, same2) =
              crc_chunks-slice fuel fd payload_off plen (remaining - t)
                (crc32_update state (slice o t content)) w1 (omega arith) (omega arith) reach'
                fits in
            let narrow : u64 o ≡ o = omega arith in
            let o' = payload_off + (plen - (remaining - t)) in
            let joined : crc32_update (crc32_update state (slice o t content))
                  (slice o' (remaining - t) (os.bytes w1 fd))
                ≡ crc32_update state (slice o remaining content) =
              ap
                (λ (f : ℕ → List ℕ).
                  crc32_update (crc32_update state (slice o t content))
                    (slice o' (remaining - t) (f fd)))
                same
              ∙ two_pieces state o t remaining o' content (omega arith) (omega arith) in
            (w2, rw (narrow, read) (rest ∙ ap (λ c. ok c w2) joined), same2 ∙ same))
      ]
