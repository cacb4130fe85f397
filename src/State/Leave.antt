-- ===== src/State/Leave.antt =====
-- `qdb__queue_pending_remove` of a queue's first message, as an operation on the list of ids that the
-- queue stands for.
use qdb.Base.{
  ℕ, ◌+◌, ◌-◌, ◌^◌, ◌<◌, ◌≡◌, ◌≢◌, refl, sym, ap, subst, ◌∙◌, some, List, [], ◌∷◌, length, All,
  arith, if◌then◌else◌, ◌==◌, eq→==, Bool-cases, inl, inr,
}
use qdb.Word.{u32}
use qdb.State.{Msg, Queue, State, msg_get, msg_write, queue_get, queue_write, queue_pending_remove}
use qdb.State.Tables.{updated, msg_get-write, queue_get-msg_write, write_queue}
use qdb.State.Pending.{Linked, Distinct, Holds, positive, set_prev, Linked-unlink}

abbrev pub cleared : Msg → Msg
cleared m = record m { next_pending = 0; prev_pending = 0 }

-- The lookups behind the removal of a message that has none before it.
pub remove_lookup :
    (st : State) (q : Queue) (m : Msg) (k : ℕ)
    → m.prev_pending ≡ 0
    → msg_get (queue_pending_remove st q m) k ≡ (
        if m.next_pending == 0
        then msg_get (msg_write st m.id cleared) k
        else msg_get
            (msg_write (msg_write st m.next_pending (set_prev m.prev_pending)) m.id cleared)
            k)
unfolding queue_pending_remove msg_get queue_write
remove_lookup st q m k e = elim (Bool-cases (m.next_pending == 0)) [
  | inl h ↦ rw (eq→== m.prev_pending 0 e, h) refl
  | inr h ↦ rw (eq→== m.prev_pending 0 e, h) refl
]

-- The lookup of a message that stays.
pub remove_other :
    (st : State) (q : Queue) (m : Msg) (k : ℕ)
    → m.prev_pending ≡ 0
    → k ≢ m.id
    → k ≢ 0
    → msg_get (queue_pending_remove st q m) k
      ≡ (if k == m.next_pending then updated (set_prev 0) (msg_get st k) else msg_get st k)
remove_other st q m k e ne pos =
    let next = m.next_pending in
    let direct = msg_get-write st cleared (λ m'. refl) m.id k in
    let first = msg_get-write st (set_prev m.prev_pending) (λ m'. refl) next k in
    let second =
      msg_get-write (msg_write st next (set_prev m.prev_pending)) cleared (λ m'. refl) m.id k in
    grind (arith, remove_lookup st q m k e, direct, first, second)

remove_others :
    (st : State) (q : Queue) (m : Msg) (ids : List ℕ)
    → m.prev_pending ≡ 0
    → All (λ k. k ≢ m.id) ids
    → All (λ k. k ≢ 0) ids
    → All
        (λ k.
          msg_get (queue_pending_remove st q m) k
          ≡ (if k == m.next_pending then updated (set_prev 0) (msg_get st k) else msg_get st k))
        ids
remove_others st q m [] e ne pos = tt
remove_others st q m (k ∷ ids) e (d, ne) (p, pos) =
    (remove_other st q m k e d p, remove_others st q m ids e ne pos)

-- What the queue's lookup finds behind the removal.
abbrev pub removed : Queue → Msg → Queue
removed q m = record q {
  pending_head = m.next_pending;
  pending_tail = if m.next_pending == 0 then m.prev_pending else q.pending_tail;
  pending_count = u32 (q.pending_count + 2 ^ 32 - 1);
}

pub remove_queue :
    (st : State) (q : Queue) (m : Msg)
    → m.prev_pending ≡ 0
    → queue_get st q.name q.name_len ≡ some q
    → queue_get (queue_pending_remove st q m) q.name q.name_len ≡ some (removed q m)
unfolding queue_pending_remove
remove_queue st q m e found =
    let head : Queue → Queue = λ r. record r { pending_head = m.next_pending } in
    let tail : Queue → Queue = λ r. record r { pending_tail = m.prev_pending } in
    let count : Queue → Queue =
      λ r. record r { pending_count = u32 (r.pending_count + 2 ^ 32 - 1) } in
    let st1 = queue_write st q.name q.name_len head in
    let found1 = write_queue st q q head (λ r. refl) found in
    let st2 = queue_write st1 q.name q.name_len tail in
    let found2 = write_queue st1 q (head q) tail (λ r. refl) found1 in
    elim (Bool-cases (m.next_pending == 0)) [
      | inl h ↦
          rw (eq→== m.prev_pending 0 e, h)
            (write_queue (msg_write st2 m.id cleared) q (tail (head q)) count (λ r. refl)
              (queue_get-msg_write st2 m.id cleared q.name q.name_len ∙ found2))
      | inr h ↦
          rw (eq→== m.prev_pending 0 e, h)
            (write_queue
              (msg_write (msg_write st1 m.next_pending (set_prev m.prev_pending)) m.id cleared) q
              (head q) count (λ r. refl)
              (queue_get-msg_write (msg_write st1 m.next_pending (set_prev m.prev_pending)) m.id
                  cleared q.name q.name_len
                ∙ queue_get-msg_write st1 m.next_pending (set_prev m.prev_pending) q.name q.name_len
                ∙ found1))
    ]

-- A queue that stands for `id` and `ids` behind it stands for `ids` once its first message, whose id
-- is `id`, is removed.
pub queue_pending_remove-Holds :
    (st : State) (q : Queue) (m : Msg) (ids : List ℕ)
    → Holds (msg_get st) q (m.id ∷ ids)
    → queue_get st q.name q.name_len ≡ some q
    → msg_get st m.id ≡ some m
    → length ids + 1 < 2 ^ 32
    → (q' : Queue) × (queue_get (queue_pending_remove st q m) q.name q.name_len ≡ some q')
      × Holds (msg_get (queue_pending_remove st q m)) q' ids
unfolding Holds Linked Distinct
queue_pending_remove-Holds st q m ids ((e, pos, m', found', back, links), (ne, distinct), count)
      queue found fits =
    let same : m' ≡ m = grind arith in
    let first : m.prev_pending ≡ 0 = sym (ap Msg.prev_pending same) ∙ back in
    let links' =
      subst (λ (n : Msg). Linked (msg_get st) m.id n.next_pending ids q.pending_tail) same links in
    let others =
      remove_others st q m ids first ne
        (positive (msg_get st) m.id m.next_pending ids q.pending_tail links') in
    let unlinked =
      Linked-unlink (msg_get st) (msg_get (queue_pending_remove st q m)) 0 m.id m.next_pending ids
        q.pending_tail others distinct links' in
    (
      removed q m,
      remove_queue st q m first queue,
      (
        subst
            (λ p.
              Linked (msg_get (queue_pending_remove st q m)) 0 m.next_pending ids
                (if m.next_pending == 0 then p else q.pending_tail))
            (sym first) unlinked,
        distinct,
        omega arith,
      ),
    )
