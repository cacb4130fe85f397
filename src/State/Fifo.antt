-- ===== src/State/Fifo.antt =====
-- `qdb__queue_pending_append` as an operation on the list of ids that a queue stands for.
use qdb.Base.{
  ℕ, ◌+◌, ◌^◌, ◌<◌, ◌≡◌, ◌≢◌, refl, sym, subst, ◌∙◌, Option, some, List, [], ◌∷◌, ◌++◌, length,
  length-append, All, arith, if◌then◌else◌, ◌==◌, ne→==, Bool-cases, inl, inr,
}
use qdb.Word.{u32}
use qdb.State.{Msg, Queue, State, msg_get, msg_write, queue_get, queue_write, queue_pending_append}
use qdb.State.Tables.{updated, msg_get-write, queue_get-msg_write, write_queue}
use qdb.State.Pending.{positive, Linked, Distinct, Holds, last_ne, start, set_next, Linked-append}

Distinct-snoc :
    (ids : List ℕ) (n : ℕ) → Distinct ids → All (λ k. k ≢ n) ids → Distinct (ids ++ n ∷ [])
unfolding Distinct
Distinct-snoc [] n distinct fresh = (tt, tt)
Distinct-snoc (id ∷ ids) n (ne, distinct) (d, fresh) =
    (behind ids ne, Distinct-snoc ids n distinct fresh)
  where
    behind : (ids : List ℕ) → All (λ k. k ≢ id) ids → All (λ k. k ≢ id) (ids ++ n ∷ [])
    behind [] ne = ((λ e. d (sym e)), tt)
    behind (k ∷ ids) (h, ne) = (h, behind ids ne)

abbrev pub linked : ℕ → Msg → Msg
linked tail m = record m { next_pending = 0; prev_pending = tail }

-- The lookups behind the append.
pub append_lookup :
    (st : State) (q : Queue) (n k : ℕ)
    → msg_get (queue_pending_append st q n) k ≡ (
        if q.pending_tail == 0
        then msg_get (msg_write st n (linked q.pending_tail)) k
        else msg_get
            (msg_write (msg_write st n (linked q.pending_tail)) q.pending_tail (set_next n))
            k)
unfolding queue_pending_append msg_get queue_write
append_lookup st q n k = elim (Bool-cases (q.pending_tail == 0)) [
  | inl e ↦ rw e refl
  | inr e ↦ rw e refl
]

-- The lookup of a message that was in the table, and is not the appended one.
pub append_other :
    (st : State) (q : Queue) (n k : ℕ)
    → k ≢ 0
    → k ≢ n
    → msg_get (queue_pending_append st q n) k
      ≡ (if k == q.pending_tail then updated (set_next n) (msg_get st k) else msg_get st k)
append_other st q n k pos ne =
    let tail = q.pending_tail in
    let first = msg_get-write st (linked tail) (λ m. refl) n k in
    let second = msg_get-write (msg_write st n (linked tail)) (set_next n) (λ m. refl) tail k in
    grind (arith, append_lookup st q n k, first, second)

-- The lookup of the appended message.
pub append_self :
    (st : State) (q : Queue) (n : ℕ) (m : Msg)
    → msg_get st n ≡ some m
    → n ≢ q.pending_tail
    → msg_get (queue_pending_append st q n) n ≡ some (linked q.pending_tail m)
append_self st q n m found ne =
    let tail = q.pending_tail in
    let first = msg_get-write st (linked tail) (λ m. refl) n n in
    let second = msg_get-write (msg_write st n (linked tail)) (set_next n) (λ m. refl) tail n in
    grind (arith, append_lookup st q n n, first, second)

append_others :
    (st : State) (q : Queue) (n : ℕ) (ids : List ℕ)
    → All (λ k. k ≢ 0) ids
    → All (λ k. k ≢ n) ids
    → All
        (λ k.
          msg_get (queue_pending_append st q n) k
          ≡ (if k == q.pending_tail then updated (set_next n) (msg_get st k) else msg_get st k))
        ids
append_others st q n [] pos fresh = tt
append_others st q n (k ∷ ids) (p, pos) (ne, fresh) =
    (append_other st q n k p ne, append_others st q n ids pos fresh)

-- What the queue's lookup finds behind the append.
abbrev pub appended : Queue → ℕ → Queue
appended q n = record q {
  pending_head = if q.pending_tail == 0 then n else q.pending_head;
  pending_tail = n;
  pending_count = u32 (q.pending_count + 1);
}

pub append_queue :
    (st : State) (q : Queue) (n : ℕ)
    → queue_get st q.name q.name_len ≡ some q
    → queue_get (queue_pending_append st q n) q.name q.name_len ≡ some (appended q n)
unfolding queue_pending_append
append_queue st q n found =
    let st1 = msg_write st n (linked q.pending_tail) in
    let found1 : queue_get st1 q.name q.name_len ≡ some q =
      queue_get-msg_write st n (linked q.pending_tail) q.name q.name_len ∙ found in
    let last : Queue → Queue =
      λ r. record r { pending_tail = n; pending_count = u32 (r.pending_count + 1) } in
    elim (Bool-cases (q.pending_tail == 0)) [
      | inl e ↦ rw e (
          write_queue (queue_write st1 q.name q.name_len (λ r. record r { pending_head = n })) q
            (record q { pending_head = n }) last (λ r. refl)
            (write_queue st1 q q (λ r. record r { pending_head = n }) (λ r. refl) found1))
      | inr e ↦ rw e (
          write_queue (msg_write st1 q.pending_tail (set_next n)) q q last (λ r. refl)
            (queue_get-msg_write st1 q.pending_tail (set_next n) q.name q.name_len ∙ found1))
    ]

tail_zero :
    (n : ℕ) (get : ℕ → Option Msg) (q : Queue) (ids : List ℕ)
    → Linked get 0 q.pending_head ids q.pending_tail
    → (if q.pending_tail == 0 then n else q.pending_head) ≡ start q.pending_head ids n
unfolding Linked
tail_zero n get q [] linked = ground arith
tail_zero n get q (id ∷ ids) linked =
    rw
      (ne→== q.pending_tail 0 (
        last_ne get 0 q.pending_head id ids q.pending_tail 0 linked
          (positive get 0 q.pending_head (id ∷ ids) q.pending_tail linked)))
      refl

pub fresh_tail :
    (n : ℕ) (get : ℕ → Option Msg) (q : Queue) (ids : List ℕ)
    → Linked get 0 q.pending_head ids q.pending_tail
    → 0 < n
    → All (λ k. k ≢ n) ids
    → n ≢ q.pending_tail
unfolding Linked
fresh_tail n get q [] (e, end) pos fresh = λ d. omega arith
fresh_tail n get q (id ∷ ids) linked pos fresh =
    λ d. last_ne get 0 q.pending_head id ids q.pending_tail n linked fresh (sym d)

-- A queue that stands for `ids` stands for `ids` and `n` behind them once the message `n`, which is
-- in the table and not one of them, is appended.
pub queue_pending_append-Holds :
    (st : State) (q : Queue) (n : ℕ) (m : Msg) (ids : List ℕ)
    → Holds (msg_get st) q ids
    → queue_get st q.name q.name_len ≡ some q
    → msg_get st n ≡ some m
    → 0 < n
    → All (λ k. k ≢ n) ids
    → length ids + 1 < 2 ^ 32
    → (q' : Queue) × (queue_get (queue_pending_append st q n) q.name q.name_len ≡ some q')
      × Holds (msg_get (queue_pending_append st q n)) q' (ids ++ n ∷ [])
unfolding Holds
queue_pending_append-Holds st q n m ids (links, distinct, count) queue found pos fresh fits =
    let get' = msg_get (queue_pending_append st q n) in
    let all_positive = positive (msg_get st) 0 q.pending_head ids q.pending_tail links in
    let links' =
      Linked-append (msg_get st) get' n (linked q.pending_tail m) 0 q.pending_head ids
        q.pending_tail pos
        (append_self st q n m found (fresh_tail n (msg_get st) q ids links pos fresh)) refl refl
        (append_others st q n ids all_positive fresh) distinct links in
    (
      appended q n,
      append_queue st q n queue,
      (
        subst (λ h. Linked get' 0 h (ids ++ n ∷ []) n) (sym (tail_zero n (msg_get st) q ids links))
            links',
        Distinct-snoc ids n distinct fresh,
        omega (arith, length-append ids (n ∷ [])),
      ),
    )
