-- ===== src/State/Pending.antt =====
-- The list of a queue's pending messages, which are linked through their neighbours' ids, as the
-- list of ids that it stands for.
use qdb.Base.{
  ℕ, ◌<◌, ◌≡◌, ◌≢◌, refl, sym, ◌∙◌, Option, some, List, [], ◌∷◌, ◌++◌, length, All, arith,
  if◌then◌else◌, ◌==◌, ne→==, eq→==,
}
use qdb.State.{Msg, Queue}
use qdb.State.Tables.{updated}

-- From the message `first` on, behind `prev`, the links run through `ids` and end at `last`; 0 is
-- the end of the list. `get` is the lookup of messages.
unfoldable pub Linked : (ℕ → Option Msg) → ℕ → ℕ → List ℕ → ℕ → Type 0
Linked get prev first [] last = (first ≡ 0) × (last ≡ prev)
Linked get prev first (id ∷ ids) last =
    (first ≡ id)
    × (0 < id)
    × (m : Msg) × (get id ≡ some m)
    × (m.prev_pending ≡ prev)
    × Linked get id m.next_pending ids last

unfoldable pub Distinct : List ℕ → Type 0
Distinct [] = Unit
Distinct (id ∷ ids) = All (λ k. k ≢ id) ids × Distinct ids

-- The queue's fields and the links of its messages stand for `ids`.
unfoldable pub Holds : (ℕ → Option Msg) → Queue → List ℕ → Type 0
Holds get q ids =
    Linked get 0 q.pending_head ids q.pending_tail × Distinct ids × (q.pending_count ≡ length ids)

module _ (get : ℕ → Option Msg) where
  -- The last message is one of the list.
  pub last_ne :
      (prev first : ℕ) (id : ℕ) (ids : List ℕ) (last x : ℕ)
      → Linked get prev first (id ∷ ids) last
      → All (λ k. k ≢ x) (id ∷ ids)
      → last ≢ x
  unfolding Linked
  last_ne prev first id [] last x (e, pos, m, found, back, (next, end)) (ne, rest) =
      λ d. ne (sym end ∙ d)
  last_ne prev first id (k ∷ ids) last x (e, pos, m, found, back, linked) (ne, rest) =
      last_ne id m.next_pending k ids last x linked rest

  -- The links hold in any lookup that agrees on the list's messages.
  pub Linked-frame :
      (get' : ℕ → Option Msg) (prev first : ℕ) (ids : List ℕ) (last : ℕ)
      → All (λ k. get' k ≡ get k) ids
      → Linked get prev first ids last
      → Linked get' prev first ids last
  unfolding Linked
  Linked-frame get' prev first [] last same linked = linked
  Linked-frame get' prev first (id ∷ ids) last (same, rest) (e, pos, m, found, back, linked) =
      (e, pos, m, same ∙ found, back, Linked-frame get' id m.next_pending ids last rest linked)

pub positive :
    (get : ℕ → Option Msg) (prev first : ℕ) (ids : List ℕ) (last : ℕ)
    → Linked get prev first ids last
    → All (λ k. k ≢ 0) ids
unfolding Linked
positive get prev first [] last linked = tt
positive get prev first (id ∷ ids) last (e, pos, m, found, back, linked) =
    ((λ z. grind arith), positive get id m.next_pending ids last linked)

-- Where a list begins once `n` is appended.
abbrev pub start : ℕ → List ℕ → ℕ → ℕ
start first [] n = n
start first (id ∷ ids) n = first

abbrev pub set_next : ℕ → Msg → Msg
set_next n m = record m { next_pending = n }

abbrev pub set_prev : ℕ → Msg → Msg
set_prev n m = record m { prev_pending = n }

module _ (get get' : ℕ → Option Msg) where
  -- The links after the last message was linked to `n`, and `n` to it.
  pub Linked-append :
      (n : ℕ) (m' : Msg) (prev first : ℕ) (ids : List ℕ) (last : ℕ)
      → 0 < n
      → get' n ≡ some m'
      → m'.prev_pending ≡ last
      → m'.next_pending ≡ 0
      → All (λ k. get' k ≡ (if k == last then updated (set_next n) (get k) else get k)) ids
      → Distinct ids
      → Linked get prev first ids last
      → Linked get' prev (start first ids n) (ids ++ n ∷ []) n
  unfolding Linked Distinct
  Linked-append n m' prev first [] last pos new back end agree distinct (e, at_end) =
      (refl, pos, m', new, back ∙ at_end, (end, refl))
  Linked-append n m' prev first (id ∷ []) last pos new back end (agree, _) distinct
        (e, pos', m, found, back', (next, at_end)) =
      (
        e,
        pos',
        set_next n m,
        agree ∙ rw (eq→== id last (sym at_end), found) refl,
        back',
        (refl, pos, m', new, back ∙ at_end, (end, refl)),
      )
  Linked-append n m' prev first (id ∷ k ∷ ids) last pos new back end (agree, more) (ne, distinct)
        (e, pos', m, found, back', linked) =
      (
        e,
        pos',
        m,
        agree
            ∙ rw
                (ne→== id last (λ d. last_ne get id m.next_pending k ids last id linked ne (sym d)))
                found,
        back',
        Linked-append n m' id m.next_pending (k ∷ ids) last pos new back end more distinct linked,
      )

  -- The links behind the first message, once the next one was linked to `prev`.
  pub Linked-unlink :
      (prev id first : ℕ) (ids : List ℕ) (last : ℕ)
      → All (λ k. get' k ≡ (if k == first then updated (set_prev prev) (get k) else get k)) ids
      → Distinct ids
      → Linked get id first ids last
      → Linked get' prev first ids (if first == 0 then prev else last)
  unfolding Linked Distinct
  Linked-unlink prev id first [] last agree distinct (e, end) = (e, rw (eq→== first 0 e) refl)
  Linked-unlink prev id first (k ∷ ids) last (same, agree) (ne, distinct)
        (e, pos, m, found, back, linked) =
      (
        e,
        pos,
        set_prev prev m,
        same ∙ rw (eq→== k first (sym e), found) refl,
        refl,
        rw (ne→== first 0 (λ d. grind arith))
            (Linked-frame get get' k m.next_pending ids last (others ids ne agree) linked),
      )
    where
      others :
          (ids : List ℕ)
          → All (λ j. j ≢ k) ids
          → All (λ j. get' j ≡ (if j == first then updated (set_prev prev) (get j) else get j)) ids
          → All (λ j. get' j ≡ get j) ids
      others [] ne agree = tt
      others (j ∷ ids) (d, ne) (a, agree) =
          (a ∙ rw (ne→== j first (λ h. d (h ∙ e))) refl, others ids ne agree)
