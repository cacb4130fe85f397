-- ===== src/Api/WellFormed.antt =====
-- The changes that `qdb_push`, `qdb_pop`, `qdb_ack`, `qdb_nack` and the expiry make to the state in
-- memory keep its invariant.
use qdb.Base.{
  ℕ, ◌+◌, ◌^◌, ◌<◌, ◌≡◌, ◌≢◌, refl, sym, ap, subst, ◌∙◌, none, some, List, length, arith, fun_ext,
  Option-cases, inl, inr, eq→==,
}
use qdb.Word.{u64}
use qdb.State.{
  Msg, leased, Queue, Lease, State, find, msg_get, msg_insert, msg_write, queue_get, queue_write,
  queue_create, new_queue, queue_pending_append, queue_pending_remove, lease_insert, lease_remove,
  has_lease_id, lease_bucket,
}
use qdb.State.Tables.{
  updated, msg_get-write, msg_get-insert, msg_get-queue_write, queue_get-write, queue_get-msg_write,
}
use qdb.State.Names.{msg_get-id, msg_get-create, queue_get-create}
use qdb.State.WellFormed.{
  named, WellFormed, IsWellFormed, WellFormed-any, WellFormed-busy, msg_write-WellFormed,
}
use qdb.State.WellFormed.Tables.{
  KeepsList, queue_write-WellFormed, queue_create-WellFormed, msg_insert-WellFormed,
  queue_get-msg_insert,
}
use qdb.State.WellFormed.Links.Append.{append-WellFormed}
use qdb.State.WellFormed.Links.Remove.{remove-WellFormed}
use qdb.Replay.{new_msg, set_leased, set_acked, set_returned, add_leased, drop_leased, add_acked}
use qdb.Replay.LivePush.{pushed}
use qdb.Api.Pop.{lease_message}
use qdb.Api.Settle.{ack_message, return_message}

add_leased-KeepsList : KeepsList add_leased
add_leased-KeepsList = record {
  keeps_name = λ q. refl;
  keeps_name_len = λ q. refl;
  keeps_head = λ q. refl;
  keeps_tail = λ q. refl;
  keeps_count = λ q. refl;
}

drop_leased-KeepsList : KeepsList drop_leased
drop_leased-KeepsList = record {
  keeps_name = λ q. refl;
  keeps_name_len = λ q. refl;
  keeps_head = λ q. refl;
  keeps_tail = λ q. refl;
  keeps_count = λ q. refl;
}

add_acked-KeepsList : KeepsList add_acked
add_acked-KeepsList = record {
  keeps_name = λ q. refl;
  keeps_name_len = λ q. refl;
  keeps_head = λ q. refl;
  keeps_tail = λ q. refl;
  keeps_count = λ q. refl;
}

-- The table of leases is no part of it.
module _ (st : State) where
  pub msg_get-lease_remove :
      (lease_id id : ℕ) → msg_get (lease_remove st lease_id) id ≡ msg_get st id
  unfolding lease_remove msg_get
  msg_get-lease_remove lease_id id =
      elim (Option-cases
        (find (has_lease_id lease_id) (st.lease_buckets (lease_bucket lease_id)))) [
          | inl absent ↦ rw (lease_remove, absent) refl
          | inr (l, present) ↦ rw (lease_remove, present) refl
        ]

  queue_get-lease_remove :
      (lease_id : ℕ) (name : List ℕ) (name_len : ℕ)
      → queue_get (lease_remove st lease_id) name name_len ≡ queue_get st name name_len
  unfolding lease_remove queue_get
  queue_get-lease_remove lease_id name name_len =
      elim (Option-cases
        (find (has_lease_id lease_id) (st.lease_buckets (lease_bucket lease_id)))) [
          | inl absent ↦ rw (lease_remove, absent) refl
          | inr (l, present) ↦ rw (lease_remove, present) refl
        ]

  lease_insert-WellFormed :
      (x : ℕ) (l : Lease) → IsWellFormed st x → IsWellFormed (lease_insert st l) x
  unfolding msg_get queue_get lease_insert
  lease_insert-WellFormed x l wf = wf

  lease_remove-WellFormed :
      (x lease_id : ℕ) → IsWellFormed st x → IsWellFormed (lease_remove st lease_id) x
  lease_remove-WellFormed x lease_id wf =
      subst (λ que. WellFormed (msg_get (lease_remove st lease_id)) que x)
        (fun_ext (λ name. sym (queue_get-lease_remove lease_id name (length name))))
        (subst (λ get. WellFormed get (named st) x)
          (fun_ext (λ id. sym (msg_get-lease_remove lease_id id))) wf)

  -- What the invariant says of a queue that is found.
  pub queue_fields :
      (x : ℕ) (name : List ℕ) (q : Queue)
      → IsWellFormed st x
      → named st name ≡ some q
      → (q.name ≡ name) × (q.name_len ≡ length q.name) × (queue_get st q.name q.name_len ≡ some q)
  queue_fields x name q wf found =
      let (e, l, ids, holds, waiting, others) = wf.lists name q found in
      (
        e,
        l ∙ ap length (sym e),
        ap (λ n. queue_get st n q.name_len) e ∙ ap (queue_get st name) l ∙ found,
      )

  -- A write to the counters of a queue, by its own name.
  counter-WellFormed :
      (x : ℕ) (q : Queue) (f : Queue → Queue)
      → KeepsList f
      → q.name_len ≡ length q.name
      → IsWellFormed st x
      → IsWellFormed (queue_write st q.name q.name_len f) x
  counter-WellFormed x q f keeps full wf = rw full (queue_write-WellFormed st x q.name f keeps wf)

-- The first message of a queue is leased.
pub lease_message-WellFormed :
    (st : State) (name : List ℕ) (q : Queue) (m : Msg) (lease_id expiry_us : ℕ)
    → IsWellFormed st 0
    → named st name ≡ some q
    → msg_get st q.pending_head ≡ some m
    → q.pending_head ≢ 0
    → q.pending_count < 2 ^ 32
    → IsWellFormed (lease_message q m lease_id expiry_us st) 0
unfolding lease_message
lease_message-WellFormed st name q m lease_id expiry_us wf queue found some_first fits =
    let (e, full, at) = queue_fields st 0 name q wf queue in
    let id_at = msg_get-id st q.pending_head m found in
    let set = set_leased lease_id expiry_us in
    let taken =
      remove-WellFormed st q m at full (ap (msg_get st) id_at ∙ found) (sym id_at) some_first wf
        fits in
    let marked =
      msg_write-WellFormed (queue_pending_remove st q m) m.id set (λ n. refl) (λ n. refl)
        (λ n. refl) taken in
    let counted =
      counter-WellFormed (msg_write (queue_pending_remove st q m) m.id set) m.id q add_leased
        add_leased-KeepsList full marked in
    WellFormed-any (lease_message q m lease_id expiry_us st) m.id (
      lease_insert-WellFormed
        (queue_write (msg_write (queue_pending_remove st q m) m.id set) q.name q.name_len
          add_leased)
        m.id (record { lease_id = lease_id; msg_id = m.id; expiry_us = expiry_us }) counted)

-- A leased message, with its queue.
module _ (st : State) (id : ℕ) (m : Msg) (lease_id : ℕ) (wf : IsWellFormed st 0)
    (found : msg_get st id ≡ some m) (held : m.state ≡ leased) where
  itself : m.id ≡ id
  itself = msg_get-id st id m found

  idle : IsWellFormed st m.id
  idle = WellFormed-busy st m.id m (ap (msg_get st) itself ∙ found) (λ e. grind arith) wf

  its_queue :
      (m.queue_name_len ≡ length m.queue_name)
      × (q : Queue) × (queue_get st m.queue_name m.queue_name_len ≡ some q)
      × (q.name ≡ m.queue_name)
      × (q.name_len ≡ length q.name)
      × (queue_get st q.name q.name_len ≡ some q)
  its_queue =
      let (l, q, at) = wf.home id m found in
      let (e, full, found_q) = queue_fields st 0 m.queue_name q wf at in
      (l, q, ap (queue_get st m.queue_name) l ∙ at, e, full, found_q)

  -- The message is acked.
  pub ack_message-WellFormed : IsWellFormed (ack_message m lease_id st) 0
  unfolding ack_message
  ack_message-WellFormed =
      let (l, q, at, e, full, found_q) = its_queue in
      let st1 = queue_write st q.name q.name_len drop_leased in
      let st2 = queue_write st1 q.name q.name_len add_acked in
      let wf2 =
        counter-WellFormed st1 m.id q add_acked add_acked-KeepsList full
          (counter-WellFormed st m.id q drop_leased drop_leased-KeepsList full idle) in
      rw at (
        WellFormed-any (msg_write (lease_remove st2 lease_id) m.id set_acked) m.id (
          msg_write-WellFormed (lease_remove st2 lease_id) m.id set_acked (λ n. refl) (λ n. refl)
            (λ n. refl) (lease_remove-WellFormed st2 m.id lease_id wf2)))

  -- The message goes back to the tail of its queue.
  pub return_message-WellFormed :
      0 < id
      → ((q : Queue) → named st m.queue_name ≡ some q → q.pending_count + 1 < 2 ^ 32)
      → IsWellFormed (return_message m lease_id st) 0
  unfolding return_message queue_pending_append
  return_message-WellFormed pos room =
      let (l, q, at, e, full, found_q) = its_queue in
      let st1 = msg_write (lease_remove st lease_id) m.id set_returned in
      let st2 = queue_write st1 q.name q.name_len drop_leased in
      let wf1 =
        msg_write-WellFormed (lease_remove st lease_id) m.id set_returned (λ n. refl) (λ n. refl)
          (λ n. refl) (lease_remove-WellFormed st m.id lease_id idle) in
      let wf2 = counter-WellFormed st1 m.id q drop_leased drop_leased-KeepsList full wf1 in
      let queue2 : queue_get st2 q.name q.name_len ≡ some (drop_leased q) =
        queue_get-write st1 q.name q.name_len drop_leased (λ r. refl)
        ∙ ap (updated drop_leased) (
            queue_get-msg_write (lease_remove st lease_id) m.id set_returned q.name q.name_len
            ∙ queue_get-lease_remove st lease_id q.name q.name_len
            ∙ found_q) in
      let found2 : msg_get st2 m.id ≡ some (set_returned m) =
        msg_get-queue_write st1 q.name q.name_len drop_leased m.id
        ∙ msg_get-write (lease_remove st lease_id) set_returned (λ n. refl) m.id m.id
        ∙ rw (eq→== m.id m.id refl) (
            ap (updated set_returned)
              (msg_get-lease_remove st lease_id m.id ∙ ap (msg_get st) itself ∙ found)) in
      rw at (
        append-WellFormed st2 (drop_leased q) m.id (set_returned m) queue2 full found2 refl (sym e)
          (l ∙ ap length (sym e)) (omega (arith, itself)) wf2
          (room q (ap (queue_get st m.queue_name) (sym l) ∙ at)))

-- A new message is put at the tail of a queue that exists.
pub pushed-WellFormed :
    (st : State) (name : List ℕ) (q : Queue) (msg_id rec_start len : ℕ)
    → IsWellFormed st 0
    → named st name ≡ some q
    → msg_get st msg_id ≡ none
    → 0 < msg_id
    → q.pending_count + 1 < 2 ^ 32
    → IsWellFormed (pushed st q msg_id rec_start name len) 0
pushed-WellFormed st name q msg_id rec_start len wf queue fresh pos fits =
    let (e, full, at) = queue_fields st 0 name q wf queue in
    let m = new_msg msg_id (u64 (rec_start + 9 + 9 + length name)) len (length name) name in
    let st1 = msg_insert st m in
    let wf1 = msg_insert-WellFormed st m fresh (refl, q, queue) wf in
    append-WellFormed st1 q msg_id m
      (ap (queue_get st1 q.name) full
        ∙ queue_get-msg_insert st m q.name
        ∙ ap (queue_get st q.name) (sym full)
        ∙ at)
      full (msg_get-insert st m msg_id ∙ rw (eq→== msg_id msg_id refl) refl) refl (sym e)
      (ap length (sym e)) pos wf1 fits

-- The same for a queue that is made for it.
pub pushed_new-WellFormed :
    (st : State) (name : List ℕ) (msg_id rec_start len : ℕ)
    → IsWellFormed st 0
    → named st name ≡ none
    → msg_get st msg_id ≡ none
    → 0 < msg_id
    → IsWellFormed
        (pushed
          (queue_create st name (length name))
          (new_queue name (length name))
          msg_id
          rec_start
          name
          len)
        0
pushed_new-WellFormed st name msg_id rec_start len wf absent fresh pos =
    pushed-WellFormed (queue_create st name (length name)) name (new_queue name (length name))
      msg_id rec_start len (queue_create-WellFormed st 0 name absent wf) (queue_get-create st name)
      (msg_get-create st name msg_id ∙ fresh) pos (omega arith)
