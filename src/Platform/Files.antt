-- ===== src/Platform/Files.antt =====
-- What a write does to a file, cut at the place where it is written.
use qdb.Base.{
  ℕ, ◌+◌, ◌-◌, ◌≡◌, refl, ap, sym, ◌∙◌, List, ◌++◌, length, take, drop, take-append-length,
  drop-append-length, length-append, drop-drop, ok, arith, eq→==,
}
use qdb.Platform.{Platform, PlatformLaws, splice, slice}

-- A write at the end of a front part puts its bytes over what follows.
pub splice-append :
    (front new back : List ℕ) (offset : ℕ)
    → offset ≡ length front
    → splice offset new (front ++ back) ≡ front ++ (new ++ drop (length new) back)
unfolding splice
splice-append front new back offset e =
    let no_gap : offset - length (front ++ back) ≡ 0 = omega (arith, length-append front back) in
    let past : drop (offset + length new) (front ++ back) ≡ drop (length new) back =
      sym (drop-drop (length new) offset (front ++ back))
      ∙ ap (drop (length new)) (drop-append-length front back offset e) in
    rw (no_gap, past, take-append-length front back offset e)

-- A read within a part returns that part.
pub slice-append :
    (front part back : List ℕ) (offset len : ℕ)
    → offset ≡ length front
    → len ≡ length part
    → slice offset len (front ++ (part ++ back)) ≡ part
slice-append front part back offset len e f =
    ap (take len) (drop-append-length front (part ++ back) offset e)
    ∙ take-append-length part back len f

module _ {W : Type 0} ⦃os : Platform W⦄ (laws : PlatformLaws os) where
  pub pwrite-splice :
      (fd : ℕ) (new : List ℕ) (offset : ℕ) (w : W) {w' : W}
      → os.pwrite fd new offset w ≡ ok tt w'
      → os.bytes w' fd ≡ splice offset new (os.bytes w fd)
  pwrite-splice fd new offset w e =
      ap (λ f. f fd) (laws.pwrite_ok fd new offset w e) ∙ rw (eq→== fd fd refl)

  pub pwrite-append :
      (fd : ℕ) (front new back : List ℕ) (offset : ℕ) (w : W) {w' : W}
      → os.bytes w fd ≡ front ++ back
      → offset ≡ length front
      → os.pwrite fd new offset w ≡ ok tt w'
      → os.bytes w' fd ≡ front ++ (new ++ drop (length new) back)
  pwrite-append fd front new back offset w content e p =
      pwrite-splice fd new offset w p
      ∙ ap (splice offset new) content
      ∙ splice-append front new back offset e
