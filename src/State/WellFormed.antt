-- ===== src/State/WellFormed.antt =====
-- The invariant of the whole state: every message has its queue, and the list of each queue links
-- messages that wait in this queue.
pub mod Tables
pub mod Links
use qdb.Base.{
  ℕ, zero, suc, ◌+◌, ◌^◌, ◌<◌, ◌≡◌, ◌≢◌, refl, sym, ap, subst, ◌∙◌, Bool, true, false, Option, none,
  some, List, [], ◌∷◌, ◌++◌, length, All, arith, if◌then◌else◌, ◌==◌, ne→==, fun_ext, Bool-cases,
  Option-cases, inl, inr,
}
use qdb.State.{
  Msg, MsgState, pending, leased, Queue, Lease, State, state_alloc, msg_get, msg_write, find,
  msg_insert, queue_get, queue_write, queue_create, new_queue, lease_remove, lease_insert, has_name,
}
use qdb.State.Tables.{
  updated, msg_get-write, msg_get-insert, msg_get-queue_write, queue_get-msg_write, queue_get-write,
}
use qdb.State.Pending.{Linked, Distinct, Holds, Linked-frame, positive}
use qdb.State.Names.{
  queue_get-write_other, queue_get-create, queue_get-create_other, msg_get-create,
}

-- The message waits in the queue `name`.
abbrev pub Waiting : (ℕ → Option Msg) → List ℕ → ℕ → Type 0
Waiting get name k =
    (m : Msg) × (get k ≡ some m)
    × (m.state ≡ pending)
    × (m.queue_name ≡ name)
    × (m.queue_name_len ≡ length name)

-- The queue has the name, and its list is of messages that wait in it; `x` is none of them.
abbrev pub Lists : (ℕ → Option Msg) → ℕ → List ℕ → Queue → Type 0
Lists get x name q =
    (q.name ≡ name)
    × (q.name_len ≡ length name)
    × (ids : List ℕ) × Holds get q ids
    × All (Waiting get name) ids
    × All (λ k. k ≢ x) ids

-- The message's name has its length, and is that of a queue.
abbrev pub HasQueue : (List ℕ → Option Queue) → Msg → Type 0
HasQueue que m =
    (m.queue_name_len ≡ length m.queue_name) × (q : Queue) × (que m.queue_name ≡ some q)

abbrev pub named : State → List ℕ → Option Queue
named st name = queue_get st name (length name)

abbrev pub Homes : (ℕ → Option Msg) → (List ℕ → Option Queue) → Type 0
Homes get que = (id : ℕ) (m : Msg) → get id ≡ some m → HasQueue que m

-- The invariant, for the lookups of messages and of queues; the message `x` is in no list. No
-- message has the id 0, so with 0 for `x` the lists are any.
pub record WellFormed (get : ℕ → Option Msg) (que : List ℕ → Option Queue) (x : ℕ) : Type 0 where
  pub home : Homes get que
  pub lists : (name : List ℕ) (q : Queue) → que name ≡ some q → Lists get x name q

abbrev pub IsWellFormed : State → ℕ → Type 0
IsWellFormed st x = WellFormed (msg_get st) (named st) x

All-frame :
    {P Q R : ℕ → Type 0} (l : List ℕ) → ((k : ℕ) → P k → Q k → R k) → All P l → All Q l → All R l
All-frame [] f p q = tt
All-frame (a ∷ l) f (p, ps) (q, qs) = (f a p q, All-frame l f ps qs)

All-both : (P Q : ℕ → Type 0) (l : List ℕ) → All P l → All Q l → All (λ k. P k × Q k) l
All-both P Q [] p q = tt
All-both P Q (a ∷ l) (p, ps) (q, qs) = ((p, q), All-both P Q l ps qs)

-- A list is the same in any lookup that agrees on the messages that wait in the queue.
pub Lists-frame :
    (get get' : ℕ → Option Msg) (x y : ℕ) (name : List ℕ) (q : Queue)
    → ((k : ℕ) → Waiting get name k → (k ≢ x) × (k ≢ 0) → (get' k ≡ get k) × (k ≢ y))
    → Lists get x name q
    → Lists get' y name q
unfolding Holds
Lists-frame get get' x y name q agree (e, l, ids, (links, distinct, count), waiting, others) =
    let apart =
      All-both (λ k. k ≢ x) (λ k. k ≢ 0) ids others
        (positive get 0 q.pending_head ids q.pending_tail links) in
    (
      e,
      l,
      ids,
      (
        Linked-frame get get' 0 q.pending_head ids q.pending_tail
            (All-frame ids (λ k w d. (agree k w d).0) waiting apart) links,
        distinct,
        count,
      ),
      All-frame ids (λ k w d. let (m, found, a, b, c) = w in (m, (agree k w d).0 ∙ found, a, b, c))
          waiting apart,
      All-frame ids (λ k w d. (agree k w d).1) waiting apart,
    )

pub state_alloc-WellFormed : IsWellFormed state_alloc 0
unfolding msg_get queue_get find
state_alloc-WellFormed = record { home = λ id m e. cc; lists = λ name q e. cc }

-- More queues have the names of the fewer.
pub Homes-grow :
    (get : ℕ → Option Msg) (que que' : List ℕ → Option Queue)
    → ((name : List ℕ) (q : Queue) → que name ≡ some q → (q' : Queue) × (que' name ≡ some q'))
    → Homes get que
    → Homes get que'
Homes-grow get que que' grows home id m found =
    let (l, q, has) = home id m found in let (q', has') = grows m.queue_name q has in (l, q', has')

module _ (st : State) where
  -- No list holds the id 0, and none a message that does not wait.
  pub WellFormed-any : (x : ℕ) → IsWellFormed st x → IsWellFormed st 0
  unfolding Holds
  WellFormed-any x wf = record {
    home = wf.home;
    lists = λ name q found. any name q (wf.lists name q found);
  }
    where
      any : (name : List ℕ) (q : Queue) → Lists (msg_get st) x name q → Lists (msg_get st) 0 name q
      any name q (e, l, ids, (links, distinct, count), waiting, others) = (
        e,
        l,
        ids,
        (links, distinct, count),
        waiting,
        positive (msg_get st) 0 q.pending_head ids q.pending_tail links,
      )

  pub WellFormed-busy :
      (x : ℕ) (m : Msg)
      → msg_get st x ≡ some m
      → m.state ≢ pending
      → IsWellFormed st 0
      → IsWellFormed st x
  WellFormed-busy x m found busy wf = record {
    home = wf.home;
    lists = λ name q at.
        Lists-frame (msg_get st) (msg_get st) 0 x name q
          (λ k (m', found', waits, b, c) d. (refl, λ same. busy (grind arith)))
          (wf.lists name q at);
  }

  pub Homes-msg_write :
      (que : List ℕ → Option Queue) (x : ℕ) (f : Msg → Msg)
      → ((m : Msg) → (f m).id ≡ m.id)
      → ((m : Msg) → (f m).queue_name ≡ m.queue_name)
      → ((m : Msg) → (f m).queue_name_len ≡ m.queue_name_len)
      → Homes (msg_get st) que
      → Homes (msg_get (msg_write st x f)) que
  Homes-msg_write que x f keeps_id keeps_name keeps_len home id m' found =
      let e = sym (msg_get-write st f keeps_id x id) ∙ found in
      elim (Bool-cases (x == id)) [
        | inr ne ↦
            home id m'
              (sym (ap (λ b. if b then updated f (msg_get st x) else msg_get st id) ne) ∙ e)
        | inl eq ↦
            named_by (msg_get st x) refl
              (sym (ap (λ b. if b then updated f (msg_get st x) else msg_get st id) eq) ∙ e)
      ]
    where
      named_by : (o : Option Msg) → msg_get st x ≡ o → updated f o ≡ some m' → HasQueue que m'
      named_by none at e = cc
      named_by (some m) at e =
          let same : f m ≡ m' = grind arith in
          let (l, q, has) = home x m at in
          let n : m'.queue_name ≡ m.queue_name = sym (ap Msg.queue_name same) ∙ keeps_name m in
          (
            sym (ap Msg.queue_name_len same) ∙ keeps_len m ∙ l ∙ ap length (sym n),
            q,
            ap que n ∙ has,
          )

  -- A write to a message that is in no list, which keeps its name.
  pub msg_write-WellFormed :
      (x : ℕ) (f : Msg → Msg)
      → ((m : Msg) → (f m).id ≡ m.id)
      → ((m : Msg) → (f m).queue_name ≡ m.queue_name)
      → ((m : Msg) → (f m).queue_name_len ≡ m.queue_name_len)
      → IsWellFormed st x
      → IsWellFormed (msg_write st x f) x
  msg_write-WellFormed x f keeps_id keeps_name keeps_len wf = record {
    home =
        subst (Homes (msg_get (msg_write st x f)))
          (fun_ext (λ name. sym (queue_get-msg_write st x f name (length name))))
          (Homes-msg_write (named st) x f keeps_id keeps_name keeps_len wf.home);
    lists = λ name q at.
        Lists-frame (msg_get st) (msg_get (msg_write st x f)) x x name q
          (λ k w d. (msg_get-write st f keeps_id x k ∙ rw (ne→== x k (λ e. d.0 (sym e))) refl, d.0))
          (wf.lists name q (sym (queue_get-msg_write st x f name (length name)) ∙ at));
  }
