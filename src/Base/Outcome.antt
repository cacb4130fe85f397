-- ===== src/Base/Outcome.antt =====
-- The C functions return a code, and write through their pointers also where they fail. An action
-- over a state `S` ends with a value, or with an error code, and the state either way; `crash` is
-- the dereference of a null pointer.
use qdb.Base.Tests.{if◌then◌else◌}
use mathlib.Core.Bool.{Bool, true, false}
use mathlib.Core.Logic.{◌≢◌}
use native.Mathlib.Omega.{arith}
use mathlib.Core.Path.{◌≡◌, refl, subst}

-- The QDB_ERR_* codes of qdb.h.
pub data Code : Type 0 where
  err_io err_corrupt err_inval err_empty err_noent err_nomem err_locked : Code

pub data Run (S : Type 0) (A : Type 0) : Type 0 where
  ok : A → S → Run S A
  err : Code → S → Run S A
  crash : Run S A

abbrev pub Exec : Type 0 → Type 0 → Type 0
Exec S A = S → Run S A

module _ {S A : Type 0} where
  abbrev pub pure : A → Exec S A
  pure a s = ok a s

  abbrev pub raise : Code → Exec S A
  raise c s = err c s

module _ {S A B : Type 0} where
  abbrev pub and_then : Run S A → (A → Exec S B) → Run S B
  and_then (ok a s) k = k a s
  and_then (err c s) k = err c s
  and_then crash k = crash

  infixl 5 ◌>>=◌ ◌>>◌
  abbrev pub ◌>>=◌ : Exec S A → (A → Exec S B) → Exec S B
  m >>= k = λ s. and_then (m s) k

  abbrev pub ◌>>◌ : Exec S A → Exec S B → Exec S B
  m >> n = m >>= λ _. n

  -- A run of two steps that ends well passed a state in between.
  pub and_then-ok :
      (r : Run S A) (k : A → Exec S B) {b : B} {t : S}
      → and_then r k ≡ ok b t
      → (a : A) × (s : S) × (r ≡ ok a s) × (k a s ≡ ok b t)
  and_then-ok (ok a s) k h = (a, s, refl, h)
  and_then-ok (err c s) k h = cc
  and_then-ok crash k h = cc

-- If the run ends well, then with a value and a state that are in `P`.
pub data Ensures {S A : Type 0} (P : A → S → Type 0) : Run S A → Type 0 where
  ends : {a : A} {s : S} → P a s → Ensures P (ok a s)
  fails : {c : Code} {s : S} → Ensures P (err c s)
  crashes : Ensures P crash

module _ {S A : Type 0} {P : A → S → Type 0} where
  pub ensured : {r : Run S A} {a : A} {s : S} → Ensures P r → r ≡ ok a s → P a s
  ensured (ends {a} {s} p) e = subst (λ r. at r) e p
    where
      at : Run S A → Type 0
      at (ok a s) = P a s
      at (err c s) = Unit {0}
      at crash = Unit {0}
  ensured fails e = cc
  ensured crashes e = cc

  pub Ensures-run : (r : Run S A) → ((a : A) (s : S) → r ≡ ok a s → P a s) → Ensures P r
  Ensures-run (ok a s) h = ends (h a s refl)
  Ensures-run (err c s) h = fails
  Ensures-run crash h = crashes

  pub Ensures-if :
      (b : Bool) (m n : Exec S A) {s : S}
      → (b ≡ true → Ensures P (m s))
      → (b ≡ false → Ensures P (n s))
      → Ensures P ((if b then m else n) s)
  Ensures-if true m n f g = f refl
  Ensures-if false m n f g = g refl

  pub Ensures-bind :
      {B : Type 0} {Q : B → S → Type 0} {r : Run S B} {k : B → Exec S A}
      → Ensures Q r
      → ((b : B) (s : S) → Q b s → Ensures P (k b s))
      → Ensures P (and_then r k)
  Ensures-bind (ends q) next = next _ _ q
  Ensures-bind fails next = fails
  Ensures-bind crashes next = crashes

module _ {S A : Type 0} where
  pub Ensures-any : (r : Run S A) → Ensures (λ _ _. Unit {0}) r
  Ensures-any (ok a s) = ends tt
  Ensures-any (err c s) = fails
  Ensures-any crash = crashes

  pub Ensures-map :
      {P Q : A → S → Type 0} {r : Run S A}
      → ((a : A) (s : S) → P a s → Q a s)
      → Ensures P r
      → Ensures Q r
  Ensures-map f (ends p) = ends (f _ _ p)
  Ensures-map f fails = fails
  Ensures-map f crashes = crashes

  -- A run that ends is no crash.
  pub ok-ends : {a : A} {s : S} → ok a s ≢ crash
  ok-ends e = grind arith

-- A run of two steps returns where both do, the second from what the first ensures.
module _ {S A B : Type 0} where
  pub bind-returns :
      {P : A → S → Type 0} (r : Run S A) (k : A → Exec S B)
      → Ensures P r
      → r ≢ crash
      → ((a : A) (s : S) → P a s → k a s ≢ crash)
      → and_then r k ≢ crash
  bind-returns (ok a s) k ensures first next = next a s (ensured ensures refl)
  bind-returns (err c s) k ensures first next = λ e. grind arith
  bind-returns crash k ensures first next = absurd (first refl)
