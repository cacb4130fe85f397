-- ===== src/Platform/Posix/Write.antt =====
-- `qdb__pwrite` over a system that may write in parts and may be interrupted.
use qdb.Base.{
  ℕ, zero, suc, ◌+◌, ◌-◌, ◌^◌, ◌<◌, ◌≤◌, ◌≡◌, ◌≢◌, refl, sym, ap, subst, ◌∙◌, false, List, [], ◌∷◌,
  ◌++◌, length, take, drop, replicate, length-append, length-take, length-drop, length-replicate,
  append_assoc, drop-drop, fun_ext, if◌then◌else◌, lt→ltb, ◌==◌, eq→==, ==→eq, Bool-cases, inl, inr,
  ◌⊎◌, Exec, crash, err_io, Ensures, Ensures-map, arith, raise,
}
use qdb.Word.{u64}
use qdb.Platform.{splice, overwrite}
use qdb.Platform.Files.{splice-append}
use qdb.Platform.Posix.{Posix, PosixLaws, Reply, done, failed, call, retry, pwrite_loop, pwrite}
use qdb.Platform.Posix.Read.{Returns, Returns-err, Returns-ok, Returns-retry}

take-drop : (n : ℕ) (l : List ℕ) → take n l ++ drop n l ≡ l
take-drop zero l = refl
take-drop (suc n) [] = refl
take-drop (suc n) (x ∷ l) = ap (λ r. x ∷ r) (take-drop n l)

-- The part of the file before the offset, with the gap filled.
abbrev front : ℕ → List ℕ → List ℕ
front offset content = take offset content ++ replicate (offset - length content) 0

length-front : (offset : ℕ) (content : List ℕ) → length (front offset content) ≡ offset
length-front offset content = omega (
  arith,
  length-append (take offset content) (replicate (offset - length content) 0),
  length-take offset content,
  length-replicate {A = ℕ} (offset - length content) 0,
)

splice-front :
    (offset : ℕ) (new content : List ℕ)
    → splice offset new content
      ≡ front offset content ++ (new ++ drop (offset + length new) content)
unfolding splice
splice-front offset new content = sym (
    append_assoc (take offset content) (replicate (offset - length content) 0)
      (new ++ drop (offset + length new) content))

length-splice :
    (offset : ℕ) (new content : List ℕ) → offset + length new ≤ length (splice offset new content)
length-splice offset new content = omega (
  arith,
  ap length (splice-front offset new content),
  length-append (front offset content) (new ++ drop (offset + length new) content),
  length-append new (drop (offset + length new) content),
  length-front offset content,
)

-- A write in two parts is the write of both.
splice-splice :
    (offset n : ℕ) (new content : List ℕ)
    → n ≤ length new
    → splice (offset + n) (drop n new) (splice offset (take n new) content)
      ≡ splice offset new content
splice-splice offset n new content few =
    let first = take n new in
    let rest = drop n new in
    let back = drop (offset + length first) content in
    let len : length first ≡ n = omega (arith, length-take n new) in
    ap (splice (offset + n) rest)
      (splice-front offset first content ∙ sym (append_assoc (front offset content) first back))
    ∙ splice-append (front offset content ++ first) rest back (offset + n) (
        omega (arith, length-append (front offset content) first, length-front offset content, len))
    ∙ append_assoc (front offset content) first (rest ++ drop (length rest) back)
    ∙ ap (λ l. front offset content ++ l)
        (sym (append_assoc first rest (drop (length rest) back))
          ∙ ap (λ l. l ++ drop (length rest) back) (take-drop n new)
          ∙ ap (λ l. new ++ l)
              (drop-drop (length rest) (offset + length first) content
                ∙ ap (λ k. drop k content) {x = (offset + length first) + length rest}
                    (omega (arith, length-drop n new, len))))
    ∙ sym (splice-front offset new content)

overwrite-overwrite :
    (files : ℕ → List ℕ) (fd : ℕ) (a b : List ℕ)
    → overwrite (overwrite files fd a) fd b ≡ overwrite files fd b
overwrite-overwrite files fd a b =
    fun_ext (λ g. elim (Bool-cases (g == fd)) [ inl e ↦ rw e refl | inr e ↦ rw e refl ])

-- A write of nothing within the file.
splice-nil :
    (offset : ℕ) (content : List ℕ) → offset ≤ length content → splice offset [] content ≡ content
unfolding splice
splice-nil offset content inside =
    let no_gap : offset - length content ≡ 0 = omega arith in
    let all : offset + 0 ≡ offset = omega arith in rw (no_gap, all) (take-drop offset content)

overwrite-same :
    (files : ℕ → List ℕ) (fd offset : ℕ)
    → offset ≤ length (files fd)
    → files ≡ overwrite files fd (splice offset [] (files fd))
overwrite-same files fd offset inside = fun_ext (λ g. elim (Bool-cases (g == fd)) [
  | inl e ↦ rw e (ap files (==→eq g fd e) ∙ sym (splice-nil offset (files fd) inside))
  | inr e ↦ rw e refl
])

module _ {W : Type 0} (sys : Posix W) (laws : PosixLaws sys) (fd : ℕ) where
  abbrev Writes : ℕ → List ℕ → W → Unit {0} → W → Type 0
  Writes offset left w _ w' =
      sys.bytes w' ≡ overwrite (sys.bytes w) fd (splice offset left (sys.bytes w fd))

  -- What is left fits the range, and is behind the end of the file only as long as nothing is written.
  abbrev Left : ℕ → List ℕ → ℕ → W → Type 0
  Left fuel left offset w =
      (offset + length left < 2 ^ 64)
      × (length left + sys.signals w < fuel)
      × ((0 < length left) ⊎ (offset ≤ length (sys.bytes w fd)))

  written :
      (fuel : ℕ) (again : List ℕ → ℕ → Exec W (Unit {0})) (left : List ℕ) (offset : ℕ) (w : W)
      → ((left' : List ℕ) (offset' : ℕ) (w' : W)
          → Left fuel left' offset' w'
          → Returns (Writes offset' left' w') (again left' offset' w'))
      → Left (suc fuel) left offset w
      → 0 < length left
      → (x : Reply ℕ × W) → sys.sys_pwrite fd left offset w ≡ x
      → Returns (Writes offset left w) (
          call
            (λ _. x)
            (λ n. if n == 0 then raise err_io else again (drop n left) (u64 (offset + n)))
            (retry (again left offset))
            w)
  written fuel again left offset w next (fits, enough, inside) some_left (failed e, w') reply =
      Returns-retry (again left offset) e w' λ interrupted.
        let (same, fewer) =
          laws.pwrite_failed fd left offset w (reply ∙ ap (λ x. (failed x, w')) interrupted) in
        subst
          (λ files.
            Returns (λ _ v. sys.bytes v ≡ overwrite files fd (splice offset left (files fd)))
              (again left offset w'))
          same (next left offset w' (fits, omega arith, inl some_left))
  written fuel again left offset w next (fits, enough, inside) some_left (done n, w') reply =
      elim (Bool-cases (n == 0)) [
        | inl nothing ↦ rw nothing (Returns-err err_io)
        | inr some_written ↦
            let (few, made, more_signals) = laws.pwrite_done fd left offset w reply in
            let pos = positive n some_written in
            let at : u64 (offset + n) ≡ offset + n = omega (arith, fits) in
            let here : sys.bytes w' fd ≡ splice offset (take n left) (sys.bytes w fd) =
              ap (λ f. f fd) made ∙ rw (eq→== fd fd refl) refl in
            let (returns, ensures) = next (drop n left) (offset + n) w' (
              omega (arith, length-drop n left),
              omega (arith, length-drop n left),
              inr (
                  omega (
                    arith,
                    ap length here,
                    length-splice offset (take n left) (sys.bytes w fd),
                    length-take n left,
                  )),
            ) in
            rw (some_written, at)
              (
                returns,
                Ensures-map
                    (λ _ v e.
                      e
                      ∙ ap (λ c. overwrite (sys.bytes w') fd (splice (offset + n) (drop n left) c))
                          here
                      ∙ ap (λ c. overwrite (sys.bytes w') fd c)
                          (splice-splice offset n left (sys.bytes w fd) few)
                      ∙ ap (λ f. overwrite f fd (splice offset left (sys.bytes w fd))) made
                      ∙ overwrite-overwrite (sys.bytes w) fd
                          (splice offset (take n left) (sys.bytes w fd))
                          (splice offset left (sys.bytes w fd)))
                    ensures,
              )
      ]
    where
      positive : (n : ℕ) → (n == 0) ≡ false → 0 < n
      positive n e = ground arith

  loop-Writes :
      (fuel : ℕ) (left : List ℕ) (offset : ℕ) (w : W)
      → Left fuel left offset w
      → Returns (Writes offset left w) (pwrite_loop sys fuel fd left offset w)
  unfolding pwrite_loop
  loop-Writes zero left offset w (fits, enough, inside) = absurd (omega arith)
  loop-Writes (suc fuel) [] offset w (fits, enough, inr inside) =
      Returns-ok (overwrite-same (sys.bytes w) fd offset inside)
  loop-Writes (suc fuel) [] offset w (fits, enough, inl some_left) = absurd (omega arith)
  loop-Writes (suc fuel) (b ∷ left) offset w state =
      let some_left : 0 < length (b ∷ left) = omega arith in
      rw (lt→ltb 0 (length (b ∷ left)) some_left) (
        written fuel (pwrite_loop sys fuel fd) (b ∷ left) offset w (loop-Writes fuel) state
          some_left (sys.sys_pwrite fd (b ∷ left) offset w) refl)

  -- A positional write of some bytes returns a code, and where it ends well, they stand in the file from
  -- the offset on, a gap before them is filled with zeros, and nothing else has changed in any file;
  -- however the system cuts the write into parts and interrupts it. The write lies within the 64-bit
  -- range.
  pub pwrite-writes :
      (new : List ℕ) (offset : ℕ) (w : W)
      → 0 < length new
      → offset + length new < 2 ^ 64
      → (pwrite sys fd new offset w ≢ crash)
        × Ensures
            (λ _ w'. sys.bytes w' ≡ overwrite (sys.bytes w) fd (splice offset new (sys.bytes w fd)))
            (pwrite sys fd new offset w)
  unfolding pwrite
  pwrite-writes new offset w some_left fits =
      loop-Writes (suc (length new + sys.signals w)) new offset w (fits, omega arith, inl some_left)
