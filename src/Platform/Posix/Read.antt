-- ===== src/Platform/Posix/Read.antt =====
-- `qdb__pread` over a system that may read in parts and may be interrupted.
use qdb.Base.{
  ℕ, zero, suc, ◌+◌, ◌-◌, ◌^◌, ◌<◌, ◌≤◌, ◌≡◌, ◌≢◌, refl, sym, ap, ◌∙◌, false, List, [], ◌++◌,
  length, drop, length-append, length-drop, take-all, if◌then◌else◌, ltb, ltb→lt, ◌==◌, ==→eq,
  Bool-cases, inl, inr, Run, Exec, ok, err, crash, Ensures, ends, fails, ok-ends, arith, pure,
}
use qdb.Word.{u64}
use qdb.Platform.{slice}
use qdb.Io.ScanBack.{slice-split}
use qdb.Platform.Posix.{
  Posix, PosixLaws, Reply, done, failed, Errno, eexist, eintr, enoent, ewouldblock, eagain,
  other_errno, call, retry, pread_loop, pread,
}

-- The run returns a code, and where it ends well, then in `P`.
abbrev pub Returns : {S A : Type 0} → (A → S → Type 0) → Run S A → Type 0
Returns P r = (r ≢ crash) × Ensures P r

pub Returns-err : {S A : Type 0} {P : A → S → Type 0} {s : S} (c : _) → Returns P (err c s)
Returns-err c = ((λ e. grind arith), fails)

pub Returns-ok : {S A : Type 0} {P : A → S → Type 0} {a : A} {s : S} → P a s → Returns P (ok a s)
Returns-ok p = (ok-ends, ends p)

-- A call that failed: it is made again where it was interrupted, and is an error otherwise.
pub Returns-retry :
    {W A : Type 0} {P : A → W → Type 0} (again : Exec W A) (e : Errno) (w : W)
    → (e ≡ eintr → Returns P (again w))
    → Returns P (retry again e w)
Returns-retry again eintr w h = h refl
Returns-retry again eexist w h = Returns-err _
Returns-retry again enoent w h = Returns-err _
Returns-retry again ewouldblock w h = Returns-err _
Returns-retry again eagain w h = Returns-err _
Returns-retry again other_errno w h = Returns-err _

module _ {W : Type 0} (sys : Posix W) (laws : PosixLaws sys) (fd len offset : ℕ)
    (fits : offset + len < 2 ^ 64) (content : List ℕ) (files : ℕ → List ℕ)
    (here : files fd ≡ content) where
  abbrev Reads : List ℕ → W → Type 0
  Reads got w' = (got ≡ slice offset len content) × (sys.bytes w' ≡ files)

  -- Nothing more is there to be read.
  at_end :
      (got : List ℕ)
      → got ≡ slice offset (length got) content
      → length got ≤ len
      → length content ≤ offset + length got
      → got ≡ slice offset len content
  at_end got part most over =
      part
      ∙ take-all (drop offset content) (length got) (omega (arith, length-drop offset content))
      ∙ sym (take-all (drop offset content) len (omega (arith, length-drop offset content)))

  -- The bytes so far are those from `offset` on.
  abbrev SoFar : ℕ → List ℕ → W → Type 0
  SoFar fuel got w =
      (got ≡ slice offset (length got) content)
      × (length got ≤ len)
      × (sys.bytes w ≡ files)
      × ((len - length got) + sys.signals w < fuel)

  joined :
      (got read : List ℕ)
      → got ≡ slice offset (length got) content
      → read ≡ slice (offset + length got) (length read) content
      → got ++ read ≡ slice offset (length (got ++ read)) content
  joined got read part more =
      ap (λ l. got ++ l) more
      ∙ ap (λ l. l ++ slice (offset + length got) (length read) content) part
      ∙ ap (λ n. slice offset (length got) content ++ slice (offset + length got) n content)
          {x = length read} {y = length (got ++ read) - length got}
          (omega (arith, length-append got read))
      ∙ sym (
          slice-split offset (length got) (length (got ++ read)) content
            (omega (arith, length-append got read)))

  -- One call, and what follows it.
  replied :
      (fuel : ℕ) (again : List ℕ → Exec W (List ℕ)) (got : List ℕ) (w : W)
      → ((got' : List ℕ) (w' : W) → SoFar fuel got' w' → Returns Reads (again got' w'))
      → SoFar (suc fuel) got w
      → length got < len
      → (x : Reply (List ℕ) × W)
      → sys.sys_pread fd (len - length got) (u64 (offset + length got)) w ≡ x
      → Returns Reads (
          call
            (λ _. x)
            (λ read. if length read == 0 then pure got else again (got ++ read))
            (retry (again got))
            w)
  replied fuel again got w next (part, most, same, enough) more (failed e, w') reply =
      Returns-retry (again got) e w' λ interrupted.
        let (same', fewer) =
          laws.pread_failed fd (len - length got) (u64 (offset + length got)) w
            (reply ∙ ap (λ x. (failed x, w')) interrupted) in
        next got w' (part, most, same' ∙ same, omega arith)
  replied fuel again got w next (part, most, same, enough) more (done read, w') reply =
      let at : u64 (offset + length got) ≡ offset + length got = omega (arith, fits) in
      let (some_part, inside, end, same', more_signals) =
        laws.pread_done fd (len - length got) (u64 (offset + length got)) w reply in
      let file : sys.bytes w fd ≡ content = ap (λ f. f fd) same ∙ here in
      elim (Bool-cases (length read == 0)) [
        | inl none_read ↦ rw none_read (
            Returns-ok (
              at_end got part most (
                  omega
                    (arith, ap length file, end (omega arith) (==→eq (length read) 0 none_read))),
              same' ∙ same,
            ))
        | inr some_read ↦ rw some_read (
            next (got ++ read) w' (
              joined got read part (
                  some_part
                  ∙ ap (λ o. slice o (length read) (sys.bytes w fd)) at
                  ∙ ap (slice (offset + length got) (length read)) file),
              omega (arith, length-append got read),
              same' ∙ same,
              omega (arith, length-append got read, positive (length read) some_read),
            ))
      ]
    where
      positive : (n : ℕ) → (n == 0) ≡ false → 0 < n
      positive n e = ground arith

  loop-Reads :
      (fuel : ℕ) (got : List ℕ) (w : W)
      → SoFar fuel got w
      → Returns Reads (pread_loop sys fuel fd len offset got w)
  unfolding pread_loop
  loop-Reads zero got w (part, most, same, enough) = absurd (omega arith)
  loop-Reads (suc fuel) got w (part, most, same, enough) =
      elim (Bool-cases (ltb (length got) len)) [
        | inr over ↦
            rw over
              (Returns-ok (part ∙ ap (λ n. slice offset n content) {y = len} (ground arith), same))
        | inl more ↦ rw more (
            replied fuel (pread_loop sys fuel fd len offset) got w (loop-Reads fuel)
              (part, most, same, enough) (ltb→lt (length got) len more)
              (sys.sys_pread fd (len - length got) (u64 (offset + length got)) w) refl)
      ]

module _ {W : Type 0} (sys : Posix W) (laws : PosixLaws sys) where
  -- A positional read returns a code, and where it ends well, the bytes read are those of the file from
  -- the offset on, as many as asked for or up to its end, and no file has changed; however the system
  -- cuts the read into parts and interrupts it. The read lies within the 64-bit range.
  pub pread-reads :
      (fd len offset : ℕ) (w : W)
      → offset + len < 2 ^ 64
      → (pread sys fd len offset w ≢ crash)
        × Ensures
            (λ got w'. (got ≡ slice offset len (sys.bytes w fd)) × (sys.bytes w' ≡ sys.bytes w))
            (pread sys fd len offset w)
  unfolding pread
  pread-reads fd len offset w fits =
      loop-Reads sys laws fd len offset fits (sys.bytes w fd) (sys.bytes w) refl
        (suc (len + sys.signals w)) [] w (refl, omega arith, refl, omega arith)
