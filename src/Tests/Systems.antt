-- ===== src/Tests/Systems.antt =====
-- The POSIX functions over a system that interrupts and that reads and writes two bytes at a time.
use qdb.Base.{
  ℕ, zero, suc, ◌<◌, ◌≤◌, ◌≡◌, ◌≢◌, refl, sym, ap, ◌∙◌, List, [], ◌∷◌, length, take, drop,
  length-take, length-drop, arith, crash, ok, Ensures, min,
}
use qdb.Platform.{slice, splice, overwrite}
use qdb.Platform.Posix.{Posix, PosixLaws, Reply, done, failed, eintr, pread, pwrite, pread_loop}
use qdb.Platform.Posix.Read.{pread-reads}
use qdb.Platform.Posix.Write.{pwrite-writes}

record Fitful : Type 0 where
  files : ℕ → List ℕ
  signals_left : ℕ

abbrev fitful_pread : ℕ → ℕ → ℕ → (ℕ → List ℕ) → ℕ → Reply (List ℕ) × Fitful
fitful_pread fd len offset files zero =
    (done (slice offset (min len 2) (files fd)), record { files = files; signals_left = zero })
fitful_pread fd len offset files (suc n) =
    (failed eintr, record { files = files; signals_left = n })

abbrev fitful_pwrite : ℕ → List ℕ → ℕ → (ℕ → List ℕ) → ℕ → Reply ℕ × Fitful
fitful_pwrite fd new offset files zero = (
  done (length (take 2 new)),
  record {
    files = overwrite files fd (splice offset (take 2 new) (files fd));
    signals_left = zero;
  },
)
fitful_pwrite fd new offset files (suc n) =
    (failed eintr, record { files = files; signals_left = n })

unfoldable fitful : Posix Fitful
unfolding splice
fitful = record {
  open_file = λ path create exclusive w. (done 3, w);
  close = λ fd w. w;
  fdatasync = λ fd w. (done tt, w);
  seek_end = λ fd w. (done (length (w.files fd)), w);
  ftruncate = λ fd n w. (done tt, record w { files = overwrite w.files fd (take n (w.files fd)) });
  sys_pread = λ fd len offset w. fitful_pread fd len offset w.files w.signals_left;
  sys_pwrite = λ fd new offset w. fitful_pwrite fd new offset w.files w.signals_left;
  flock = λ fd w. (done tt, w);
  funlock = λ fd w. w;
  unlink = λ path w. (done tt, w);
  rename = λ old new w. (done tt, w);
  gettimeofday = λ w. (done (5, 6), w);
  malloc = λ w. (done tt, w);
  signals = λ w. w.signals_left;
  bytes = λ w. w.files;
}

take-same : (m : ℕ) (l : List ℕ) → take m l ≡ take (length (take m l)) l
take-same zero l = refl
take-same (suc m) [] = refl
take-same (suc m) (x ∷ l) = ap (λ r. x ∷ r) (take-same m l)

done_inj : {A : Type 0} {a b : A} → done a ≡ done b → a ≡ b
done_inj e = grind arith

not-failed-done : {A : Type 0} {a : A} → failed eintr ≡ done a → ⊥
not-failed-done e = grind arith

pread_done_lem :
    (fd len offset : ℕ) (files : ℕ → List ℕ) (n : ℕ) (got : List ℕ) (w' : Fitful)
    → fitful_pread fd len offset files n ≡ (done got, w')
    → (got ≡ slice offset (length got) (files fd))
      × (length got ≤ len)
      × (0 < len → length got ≡ 0 → length (files fd) ≤ offset)
      × (w'.files ≡ files)
      × (w'.signals_left ≤ n)
pread_done_lem fd len offset files zero got w' e =
    let parts = take-same (min len 2) (drop offset (files fd)) in
    let g : slice offset (min len 2) (files fd) ≡ got =
      done_inj (ap (λ (p : Reply (List ℕ) × Fitful). p.0) e) in
    let l = length-take (min len 2) (drop offset (files fd)) in
    (
      sym g ∙ parts ∙ ap (λ n. slice offset n (files fd)) (ap length g),
      omega (arith, ap length g, l),
      (λ p z. omega (arith, ap length g, l, length-drop offset (files fd))),
      sym (ap (λ (p : Reply (List ℕ) × Fitful). p.1.files) e),
      omega (arith, ap (λ (p : Reply (List ℕ) × Fitful). p.1.signals_left) e),
    )
pread_done_lem fd len offset files (suc n) got w' e =
    absurd (not-failed-done (ap (λ (p : Reply (List ℕ) × Fitful). p.0) e))

pread_failed_lem :
    (fd len offset : ℕ) (files : ℕ → List ℕ) (n : ℕ) (w' : Fitful)
    → fitful_pread fd len offset files n ≡ (failed eintr, w')
    → (w'.files ≡ files) × (w'.signals_left < n)
pread_failed_lem fd len offset files zero w' e =
    absurd (not-failed-done (sym (ap (λ (p : Reply (List ℕ) × Fitful). p.0) e)))
pread_failed_lem fd len offset files (suc n) w' e = (
  sym (ap (λ (p : Reply (List ℕ) × Fitful). p.1.files) e),
  omega (arith, ap (λ (p : Reply (List ℕ) × Fitful). p.1.signals_left) e),
)

pwrite_done_lem :
    (fd : ℕ) (new : List ℕ) (offset : ℕ) (files : ℕ → List ℕ) (signals n : ℕ) (w' : Fitful)
    → fitful_pwrite fd new offset files signals ≡ (done n, w')
    → (n ≤ length new)
      × (w'.files ≡ overwrite files fd (splice offset (take n new) (files fd)))
      × (w'.signals_left ≤ signals)
pwrite_done_lem fd new offset files zero n w' e =
    let g : length (take 2 new) ≡ n = done_inj (ap (λ (p : Reply ℕ × Fitful). p.0) e) in
    (
      omega (arith, g, length-take 2 new),
      sym (ap (λ (p : Reply ℕ × Fitful). p.1.files) e)
          ∙ ap (λ l. overwrite files fd (splice offset l (files fd)))
              (take-same 2 new ∙ ap (λ k. take k new) g),
      omega (arith, ap (λ (p : Reply ℕ × Fitful). p.1.signals_left) e),
    )
pwrite_done_lem fd new offset files (suc k) n w' e =
    absurd (not-failed-done (ap (λ (p : Reply ℕ × Fitful). p.0) e))

pwrite_failed_lem :
    (fd : ℕ) (new : List ℕ) (offset : ℕ) (files : ℕ → List ℕ) (n : ℕ) (w' : Fitful)
    → fitful_pwrite fd new offset files n ≡ (failed eintr, w')
    → (w'.files ≡ files) × (w'.signals_left < n)
pwrite_failed_lem fd new offset files zero w' e =
    absurd (not-failed-done (sym (ap (λ (p : Reply ℕ × Fitful). p.0) e)))
pwrite_failed_lem fd new offset files (suc n) w' e = (
  sym (ap (λ (p : Reply ℕ × Fitful). p.1.files) e),
  omega (arith, ap (λ (p : Reply ℕ × Fitful). p.1.signals_left) e),
)

fitful-laws : PosixLaws fitful
unfolding fitful
fitful-laws = record {
  pread_done =
      λ fd len offset w {got} {w'} e. pread_done_lem fd len offset w.files w.signals_left got w' e;
  pread_failed =
      λ fd len offset w {w'} e. pread_failed_lem fd len offset w.files w.signals_left w' e;
  pwrite_done =
      λ fd new offset w {n} {w'} e. pwrite_done_lem fd new offset w.files w.signals_left n w' e;
  pwrite_failed =
      λ fd new offset w {w'} e. pwrite_failed_lem fd new offset w.files w.signals_left w' e;
}

abbrev five : Fitful
five = record { files = λ _. 1 ∷ 2 ∷ 3 ∷ 4 ∷ 5 ∷ []; signals_left = 3 }

-- Three interruptions, and two calls that read a part.
pread_four : pread fitful 3 4 1 five ≡ ok (2 ∷ 3 ∷ 4 ∷ 5 ∷ []) (record five { signals_left = 0 })
unfolding fitful pread pread_loop
pread_four = refl

pread-reads_example :
    (pread fitful 3 4 1 five ≢ crash)
    × Ensures
        (λ got w'. (got ≡ slice 1 4 (fitful.bytes five 3)) × (fitful.bytes w' ≡ fitful.bytes five))
        (pread fitful 3 4 1 five)
pread-reads_example = pread-reads fitful fitful-laws 3 4 1 five (omega arith)

pwrite-writes_example :
    (pwrite fitful 3 (7 ∷ 8 ∷ 9 ∷ []) 4 five ≢ crash)
    × Ensures
        (λ _ w'.
          fitful.bytes w'
          ≡ overwrite (fitful.bytes five) 3 (splice 4 (7 ∷ 8 ∷ 9 ∷ []) (fitful.bytes five 3)))
        (pwrite fitful 3 (7 ∷ 8 ∷ 9 ∷ []) 4 five)
pwrite-writes_example =
    pwrite-writes fitful fitful-laws 3 (7 ∷ 8 ∷ 9 ∷ []) 4 five (omega arith) (omega arith)
