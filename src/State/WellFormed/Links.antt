-- ===== src/State/WellFormed/Links.antt =====
-- The invariant behind the relinking of one message: what `qdb__queue_pending_append` and
-- `qdb__queue_pending_remove` of a queue's first message have in common.
pub mod Append
pub mod Remove
use qdb.Base.{
  ℕ, ◌+◌, ◌-◌, ◌^◌, ◌<◌, ◌≡◌, ◌≢◌, refl, sym, ap, subst, ◌∙◌, Option, some, List, [], ◌∷◌, ◌++◌,
  length, All, arith, if◌then◌else◌, ◌==◌, ne→==, eq→==, fun_ext, Bool-cases, some_inj, ◌⊎◌, inl,
  inr,
}
use qdb.Word.{u32}
use qdb.State.{
  Msg, pending, Queue, State, msg_get, msg_write, queue_get, queue_write, queue_pending_append,
  queue_pending_remove,
}
use qdb.State.Tables.{updated, queue_get-msg_write}
use qdb.State.Pending.{Linked, Distinct, Holds, positive, set_next, set_prev}
use qdb.State.Names.{queue_get-write_other}
use qdb.State.Fifo.{
  linked, appended, append_lookup, append_other, append_self, append_queue, fresh_tail,
  queue_pending_append-Holds,
}
use qdb.State.Leave.{
  cleared, removed, remove_lookup, remove_other, remove_queue, queue_pending_remove-Holds,
}
use qdb.State.WellFormed.{
  Waiting, Lists, Homes, named, IsWellFormed, Lists-frame, Homes-grow, Homes-msg_write,
}
use qdb.State.WellFormed.Tables.{name_cases}

-- A change of the links of one message, `touched`, which waits in the queue `name`; what is done to
-- the message `x` is left open.
module _ (get get' : ℕ → Option Msg) (x touched : ℕ) (name : List ℕ) (f : Msg → Msg)
    (keeps_state : (m : Msg) → (f m).state ≡ m.state)
    (keeps_name : (m : Msg) → (f m).queue_name ≡ m.queue_name)
    (keeps_len : (m : Msg) → (f m).queue_name_len ≡ m.queue_name_len)
    (agree : (k : ℕ)
      → k ≢ 0
      → k ≢ x
      → get' k ≡ (if k == touched then updated f (get k) else get k)) where
  pub Waiting-relinked : (k : ℕ) → k ≢ 0 → k ≢ x → Waiting get name k → Waiting get' name k
  Waiting-relinked k pos ne (m, found, waits, named_by, len) = elim (Bool-cases (k == touched)) [
    | inl e ↦ (
      f m,
      agree k pos ne ∙ rw (e, found) refl,
      keeps_state m ∙ waits,
      keeps_name m ∙ named_by,
      keeps_len m ∙ len,
    )
    | inr e ↦ (m, agree k pos ne ∙ rw (e, found) refl, waits, named_by, len)
  ]

  pub All-Waiting-relinked :
      (l : List ℕ)
      → All (λ k. k ≢ 0) l
      → All (λ k. k ≢ x) l
      → All (Waiting get name) l
      → All (Waiting get' name) l
  All-Waiting-relinked [] pos ne ws = tt
  All-Waiting-relinked (k ∷ l) (p, pos) (d, ne) (w, ws) =
      (Waiting-relinked k p d w, All-Waiting-relinked l pos ne ws)

  -- The other queues do not see the change.
  pub Lists-relinked :
      (touched ≡ 0) ⊎ Waiting get name touched
      → (y z : ℕ) (b : List ℕ) (q : Queue) → name ≢ b
      → ((k : ℕ) → Waiting get b k → k ≢ z → k ≢ 0 → (k ≢ x) × (k ≢ y))
      → Lists get z b q
      → Lists get' y b q
  Lists-relinked one y z b q differ apart lists =
      Lists-frame get get' z y b q
        (λ k w d.
          let (ne, ne') = apart k w d.0 d.1 in
          (agree k d.1 ne ∙ rw (ne→== k touched (untouched k w d.1)) refl, ne'))
        lists
    where
      untouched : (k : ℕ) → Waiting get b k → k ≢ 0 → k ≢ touched
      untouched k (m, found, waits, named_by, len) pos = elim one [
        | inl e ↦ λ h. pos (h ∙ e)
        | inr (m', found', waits', named_by', len') ↦ λ h.
            let same : m ≡ m' = some_inj (sym found ∙ ap get h ∙ found') in
            differ (sym named_by' ∙ sym (ap Msg.queue_name same) ∙ named_by)
      ]

-- The name of a queue that was found stays findable, and the queues under the other names are as they
-- were.
pub only_here :
    (que que' : List ℕ → Option Queue) (name : List ℕ) (q' : Queue)
    → que' name ≡ some q'
    → ((b : List ℕ) → name ≢ b → que' b ≡ que b)
    → (b : List ℕ) (r : Queue) → que b ≡ some r
    → (r' : Queue) × (que' b ≡ some r')
only_here que que' name q' here other b r has = elim (name_cases name b) [
  | inr ne ↦ (r, other b ne ∙ has)
  | inl e ↦ (q', ap que' (sym e) ∙ here)
]

pub Lists-here :
    (get : ℕ → Option Msg) (x : ℕ) (que que' : List ℕ → Option Queue) (name : List ℕ) (q' : Queue)
    → que' name ≡ some q'
    → ((b : List ℕ) → name ≢ b → que' b ≡ que b)
    → Lists get x name q'
    → ((b : List ℕ) (r : Queue) → name ≢ b → que b ≡ some r → Lists get x b r)
    → (b : List ℕ) (r : Queue) → que' b ≡ some r
    → Lists get x b r
Lists-here get x que que' name q' here other made rest b r at = elim (name_cases name b) [
  | inr ne ↦ rest b r ne (sym (other b ne) ∙ at)
  | inl e ↦
      subst (λ n. Lists get x n r) e
        (subst (Lists get x name) (some_inj (sym here ∙ ap que' e ∙ at)) made)
]
