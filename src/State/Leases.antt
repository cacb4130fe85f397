-- ===== src/State/Leases.antt =====
-- What a lookup in the lease table finds behind `qdb__lease_remove`, wherever in its chain the lease
-- stands.
use qdb.Base.{
  ℕ, ◌-◌, ◌^◌, ◌<◌, ◌≡◌, refl, sym, ap, Option, none, some, List, [], ◌∷◌, arith, if◌then◌else◌,
  ◌==◌, ==→eq, Bool-cases, Option-cases, inl, inr,
}
use qdb.State.{Lease, State, find, unlink, has_lease_id, lease_bucket, lease_get, lease_remove}

-- No two leases of the chain have the same id.
abbrev pub DistinctLeases : List Lease → Type 0
DistinctLeases [] = Unit {0}
DistinctLeases (l ∷ ls) = (find (has_lease_id l.lease_id) ls ≡ none) × DistinctLeases ls

-- The count of a table from which this entry is taken.
abbrev pub count_without : Option Lease → ℕ → ℕ
count_without none n = n
count_without (some l) n = n - 1

find-unlink :
    (id id' : ℕ) (ls : List Lease)
    → DistinctLeases ls
    → find (has_lease_id id') (unlink (has_lease_id id) ls)
      ≡ (if id == id' then none else find (has_lease_id id') ls)
unfolding find unlink
find-unlink id id' [] distinct = ground arith
find-unlink id id' (l ∷ ls) (fresh, distinct) = grind (arith, find-unlink id id' ls distinct, fresh)

module _ (st : State) (id : ℕ) where
  -- With a lease to remove, its chain loses its entry and the count drops; without, nothing changes.
  lease_get-remove_found :
      (l : Lease) (id' : ℕ)
      → find (has_lease_id id) (st.lease_buckets (lease_bucket id)) ≡ some l
      → DistinctLeases (st.lease_buckets (lease_bucket id))
      → lease_get (lease_remove st id) id' ≡ (if id == id' then none else lease_get st id')
  unfolding lease_get lease_remove
  lease_get-remove_found l id' found distinct =
      elim (Bool-cases (lease_bucket id' == lease_bucket id)) [
        | inl e ↦
            rw (lease_remove, found, e, ==→eq (lease_bucket id') (lease_bucket id) e)
              (find-unlink id id' (st.lease_buckets (lease_bucket id)) distinct)
        | inr e ↦ elim (Bool-cases (id == id')) [
          | inl same ↦ grind (arith, ap lease_bucket (==→eq id id' same))
          | inr other ↦ rw (lease_remove, found, e, other) refl
        ]
      ]

  lease_remove-none :
      find (has_lease_id id) (st.lease_buckets (lease_bucket id)) ≡ none → lease_remove st id ≡ st
  unfolding lease_remove
  lease_remove-none absent = rw (lease_remove, absent) refl

  lease_count-remove :
      (l : Lease)
      → find (has_lease_id id) (st.lease_buckets (lease_bucket id)) ≡ some l
      → 0 < st.lease_count
      → st.lease_count < 2 ^ 64
      → (lease_remove st id).lease_count ≡ st.lease_count - 1
  unfolding lease_remove
  lease_count-remove l found counted fits = rw (lease_remove, found) (omega arith)

-- A removed lease is not found any more, wherever in its chain it stood, and every other lookup
-- finds what it found before; the count drops by one if the lease was in the table, and stays if it
-- was not. The ids in the chain of the lease are distinct, and the count fits 64 bits and is not 0
-- if the lease is in the table.
pub lease_get-remove :
    (st : State) (id : ℕ)
    → DistinctLeases (st.lease_buckets (lease_bucket id))
    → ((l : Lease) → lease_get st id ≡ some l → 0 < st.lease_count)
    → st.lease_count < 2 ^ 64
    → ((id' : ℕ)
        → lease_get (lease_remove st id) id' ≡ (if id == id' then none else lease_get st id'))
      × ((lease_remove st id).lease_count ≡ count_without (lease_get st id) st.lease_count)
unfolding lease_get
lease_get-remove st id distinct counted fits = elim (Option-cases (lease_get st id)) [
  | inl absent ↦ rw (absent, lease_remove-none st id absent) ((λ id'. unchanged id' absent), refl)
  | inr (l, found) ↦ rw found (
    (λ id'. lease_get-remove_found st id l id' found distinct),
    lease_count-remove st id l found (counted l found) fits,
  )
]
  where
    unchanged :
        (id' : ℕ)
        → lease_get st id ≡ none
        → lease_get st id' ≡ (if id == id' then none else lease_get st id')
    unchanged id' absent = elim (Bool-cases (id == id')) [
      | inl same ↦ rw (same, sym (==→eq id id' same)) absent
      | inr other ↦ rw other refl
    ]
