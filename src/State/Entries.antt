-- ===== src/State/Entries.antt =====
-- What the loops over a hash table visit: the entries of all its buckets.
use qdb.Base.{
  ℕ, zero, suc, ◌+◌, ◌≤◌, ◌<◌, ◌≡◌, sym, subst, false, Bool, Bool-cases, inl, inr, some, some_inj,
  not-none-some, List, [], ◌∷◌, ◌++◌, take, All, arith, ◌==◌, ==→eq,
}
use qdb.Word.Bits.{bit_and_mask}
use qdb.State.{Buckets, find, entries_from, fnv_loop, queue_bucket, queue_buckets_n}

above : (k b : ℕ) → b ≤ k → (k == b) ≡ false → suc b ≤ k
above k b low other = ground arith

module _ {A : Type 0} (P : A → Type 0) where
  All-append : (xs ys : List A) → All P xs → All P ys → All P (xs ++ ys)
  All-append [] ys a b = b
  All-append (x ∷ xs) ys (p, a) b = (p, All-append xs ys a b)

  All-append_left : (xs ys : List A) → All P (xs ++ ys) → All P xs
  All-append_left [] ys a = tt
  All-append_left (x ∷ xs) ys (p, a) = (p, All-append_left xs ys a)

  All-append_right : (xs ys : List A) → All P (xs ++ ys) → All P ys
  All-append_right [] ys a = a
  All-append_right (x ∷ xs) ys (p, a) = All-append_right xs ys a

  pub All-find : (test : A → Bool) (xs : List A) {x : A} → All P xs → find test xs ≡ some x → P x
  unfolding find
  All-find test [] all e = absurd (not-none-some e)
  All-find test (y ∷ xs) {x} (p, all) e = elim (Bool-cases (test y)) [
    | inl yes' ↦ subst P (some_inj (rw yes' at e)) p
    | inr no' ↦ All-find test xs all (rw no' at e)
  ]

  -- What holds in every bucket holds of all the entries, and the other way round.
  pub All-entries_from :
      (n b : ℕ) (buckets : Buckets A)
      → ((k : ℕ) → k < b + n → All P (buckets k))
      → All P (entries_from n b buckets)
  unfolding entries_from
  All-entries_from zero b buckets all = tt
  All-entries_from (suc n) b buckets all =
      All-append (buckets b) (entries_from n (suc b) buckets) (all b (omega arith))
        (All-entries_from n (suc b) buckets (λ k h. all k (omega arith)))

  pub All-bucket :
      (n b : ℕ) (buckets : Buckets A)
      → All P (entries_from n b buckets)
      → (k : ℕ) → b ≤ k
      → k < b + n
      → All P (buckets k)
  unfolding entries_from
  All-bucket zero b buckets all k low high = absurd (omega arith)
  All-bucket (suc n) b buckets all k low high = elim (Bool-cases (k == b)) [
    | inl same ↦
        subst (λ i. All P (buckets i)) (sym (==→eq k b same))
          (All-append_left (buckets b) (entries_from n (suc b) buckets) all)
    | inr other ↦
        All-bucket n (suc b) buckets
          (All-append_right (buckets b) (entries_from n (suc b) buckets) all) k
          (above k b low other) (omega arith)
  ]

pub queue_bucket-lt : (name : List ℕ) (name_len : ℕ) → queue_bucket name name_len < queue_buckets_n
unfolding queue_bucket
queue_bucket-lt name name_len =
    omega (arith, bit_and_mask 6 (fnv_loop 2166136261 (take name_len name)))
