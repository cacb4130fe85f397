-- ===== src/History/FreshLease.antt =====
-- The same for leases: only a LEASE record brings one in.
use qdb.Base.{
  ℕ, ◌+◌, ◌≡◌, ◌≢◌, refl, sym, ap, ◌∙◌, Bool, true, false, Option, none, some, List, [], ◌∷◌,
  length, arith, if◌then◌else◌, ◌==◌, ne→==, Bool-cases, Option-cases, ==→eq, inl, inr,
}
use qdb.Word.{u64}
use qdb.State.{
  Msg, Queue, Lease, State, find, unlink, Buckets, msg_insert, msg_write, queue_get, queue_write,
  queue_create, new_queue, queue_pending_append, queue_pending_remove, lease_get, lease_remove,
  lease_bucket, has_lease_id,
}
use qdb.State.Tables.{lease_get-insert}
use qdb.Api.Pop.{lease_message}
use qdb.Api.Settle.{ack_message, return_message, when_found}
use qdb.Replay.{new_msg, set_leased, set_acked, set_returned, add_leased, drop_leased, add_acked}
use qdb.Replay.LivePush.{pushed}
use qdb.History.{
  LogRecord, push_record, lease_record, ack_record, nack_record, expire_record, enqueued-found,
  enqueued-absent, Step,
}

-- The leases of a state that a test chooses.
branch_leases :
    (b : Bool) (s t : State) {l : Buckets Lease}
    → s.lease_buckets ≡ l
    → t.lease_buckets ≡ l
    → (if b then s else t).lease_buckets ≡ l
branch_leases true s t p q = p
branch_leases false s t p q = q

msg_write_leases :
    (st : State) (id : ℕ) (f : Msg → Msg) → (msg_write st id f).lease_buckets ≡ st.lease_buckets
unfolding msg_write
msg_write_leases st id f = refl

queue_write_leases :
    (st : State) (q : Queue) (f : Queue → Queue)
    → (queue_write st q.name q.name_len f).lease_buckets ≡ st.lease_buckets
unfolding queue_write
queue_write_leases st q f = refl

append_leases :
    (st : State) (q : Queue) (n : ℕ)
    → (queue_pending_append st q n).lease_buckets ≡ st.lease_buckets
unfolding queue_pending_append queue_write msg_write
append_leases st q n = branch_leases (q.pending_tail == 0) _ _ refl refl

remove_leases :
    (st : State) (q : Queue) (m : Msg)
    → (queue_pending_remove st q m).lease_buckets ≡ st.lease_buckets
unfolding queue_pending_remove queue_write msg_write
remove_leases st q m =
    branch_leases (m.next_pending == 0) _ _ (branch_leases (m.prev_pending == 0) _ _ refl refl)
      (branch_leases (m.prev_pending == 0) _ _ refl refl)

find-unlink-none :
    (test : Lease → Bool) (other : Lease → Bool) (l : List Lease)
    → find test l ≡ none
    → find test (unlink other l) ≡ none
unfolding find unlink
find-unlink-none test other [] absent = refl
find-unlink-none test other (a ∷ l) absent = grind (arith, find-unlink-none test other l)

module _ (st : State) (id : ℕ) where
  -- A lookup depends on the buckets of leases alone.
  same_leases :
      (st' : State) → st'.lease_buckets ≡ st.lease_buckets → lease_get st' id ≡ lease_get st id
  unfolding lease_get
  same_leases st' e = ap (λ (b : Buckets Lease). find (has_lease_id id) (b (lease_bucket id))) e

  lease_remove-none :
      (lease_id : ℕ) → lease_get st id ≡ none → lease_get (lease_remove st lease_id) id ≡ none
  unfolding lease_get lease_remove
  lease_remove-none lease_id absent =
      elim (Option-cases
        (find (has_lease_id lease_id) (st.lease_buckets (lease_bucket lease_id)))) [
          | inl missing ↦ rw (lease_remove, missing) absent
          | inr (l, present) ↦
              rw (lease_remove, present)
                (elim (Bool-cases (lease_bucket id == lease_bucket lease_id)) [
                  | inr e ↦ rw e absent
                  | inl e ↦ rw e (
                      find-unlink-none (has_lease_id id) (has_lease_id lease_id)
                        (st.lease_buckets (lease_bucket lease_id))
                        (ap (λ b. find (has_lease_id id) (st.lease_buckets b))
                            (sym (==→eq (lease_bucket id) (lease_bucket lease_id) e))
                          ∙ absent))
                ])
        ]

  lease_message-lease :
      (q : Queue) (m : Msg) (lease_id expiry_us : ℕ)
      → lease_id ≢ id
      → lease_get st id ≡ none
      → lease_get (lease_message q m lease_id expiry_us st) id ≡ none
  unfolding lease_message
  lease_message-lease q m lease_id expiry_us ne absent =
      let st1 = queue_pending_remove st q m in
      let st2 = msg_write st1 m.id (set_leased lease_id expiry_us) in
      let st3 = queue_write st2 q.name q.name_len add_leased in
      lease_get-insert st3 (record { lease_id = lease_id; msg_id = m.id; expiry_us = expiry_us }) id
      ∙ rw (ne→== lease_id id ne) (
          same_leases st3 (
            queue_write_leases st2 q add_leased
            ∙ msg_write_leases st1 m.id (set_leased lease_id expiry_us)
            ∙ remove_leases st q m)
          ∙ absent)

  pushed_leases :
      (q : Queue) (n offset len : ℕ) (name : List ℕ)
      → (pushed st q n offset name len).lease_buckets ≡ st.lease_buckets
  unfolding msg_insert
  pushed_leases q n offset len name =
      append_leases
        (msg_insert st (new_msg n (u64 (offset + 9 + 9 + length name)) len (length name) name)) q n

counted_leases :
    (o : Option Queue) (st : State)
    → (when_found o
        (λ q t.
          queue_write (queue_write t q.name q.name_len drop_leased) q.name q.name_len add_acked)
        st).lease_buckets
      ≡ st.lease_buckets
counted_leases none st = refl
counted_leases (some q) st =
    queue_write_leases (queue_write st q.name q.name_len drop_leased) q add_acked
    ∙ queue_write_leases st q drop_leased

appended_leases :
    (o : Option Queue) (st : State) (n : ℕ)
    → (when_found o
        (λ r t. queue_pending_append (queue_write t r.name r.name_len drop_leased) r n)
        st).lease_buckets
      ≡ st.lease_buckets
appended_leases none st n = refl
appended_leases (some q) st n =
    append_leases (queue_write st q.name q.name_len drop_leased) q n
    ∙ queue_write_leases st q drop_leased

created_leases :
    (st : State) (name : List ℕ)
    → (queue_create st name (length name)).lease_buckets ≡ st.lease_buckets
unfolding queue_create
created_leases st name = refl

module _ (st : State) (id : ℕ) (absent : lease_get st id ≡ none) where
  ack_message-lease : (m : Msg) (lease_id : ℕ) → lease_get (ack_message m lease_id st) id ≡ none
  unfolding ack_message
  ack_message-lease m lease_id =
      let o = queue_get st m.queue_name m.queue_name_len in
      let counted =
        when_found o
          (λ q t.
            queue_write (queue_write t q.name q.name_len drop_leased) q.name q.name_len add_acked)
          st in
      same_leases (lease_remove counted lease_id) id
        (msg_write (lease_remove counted lease_id) m.id set_acked)
        (msg_write_leases (lease_remove counted lease_id) m.id set_acked)
      ∙ lease_remove-none counted id lease_id
          (same_leases st id counted (counted_leases o st) ∙ absent)

  return_message-lease :
      (m : Msg) (lease_id : ℕ) → lease_get (return_message m lease_id st) id ≡ none
  unfolding return_message
  return_message-lease m lease_id =
      let o = queue_get st m.queue_name m.queue_name_len in
      let left = lease_remove st lease_id in
      let unleased = msg_write left m.id set_returned in
      same_leases left id
        (when_found o
          (λ r t. queue_pending_append (queue_write t r.name r.name_len drop_leased) r m.id)
          unleased)
        (appended_leases o unleased m.id ∙ msg_write_leases left m.id set_returned)
      ∙ lease_remove-none st id lease_id absent

-- A lease that a record does not bring in is not there behind it, if it was not before.
abbrev pub LeasesNot : LogRecord → ℕ → Type 0
LeasesNot (push_record n queue bytes) id = Unit {0}
LeasesNot (lease_record n expiry_us lease_id) id = lease_id ≢ id
LeasesNot (ack_record n lease_id) id = Unit {0}
LeasesNot (nack_record n lease_id) id = Unit {0}
LeasesNot (expire_record n lease_id) id = Unit {0}

pub Step-none_lease :
    (offset : ℕ) (st : State) (r : LogRecord) (st' : State) (id : ℕ)
    → Step offset st r st'
    → LeasesNot r id
    → lease_get st id ≡ none
    → lease_get st' id ≡ none
Step-none_lease offset st (push_record n queue bytes) st' id (pushes, made) ne absent =
    same_leases st id st' (
      ap State.lease_buckets made ∙ elim (Option-cases (queue_get st queue (length queue))) [
        | inl none_found ↦
            ap State.lease_buckets (enqueued-absent offset n queue (length bytes) st none_found)
            ∙ pushed_leases (queue_create st queue (length queue)) id
                (new_queue queue (length queue)) n offset (length bytes) queue
            ∙ created_leases st queue
        | inr (q, found) ↦
            ap State.lease_buckets (enqueued-found offset n queue (length bytes) st q found)
            ∙ pushed_leases st id q n offset (length bytes) queue
      ])
    ∙ absent
Step-none_lease offset st (lease_record n expiry_us lease_id) st' id (m, q, leases, made) ne
      absent =
    ap (λ s. lease_get s id) made ∙ lease_message-lease st id q m lease_id expiry_us ne absent
Step-none_lease offset st (ack_record n lease_id) st' id (m, q, settles, made) ne absent =
    ap (λ s. lease_get s id) made ∙ ack_message-lease st id absent m lease_id
Step-none_lease offset st (nack_record n lease_id) st' id (m, q, settles, pos, room, made) ne
      absent =
    ap (λ s. lease_get s id) made ∙ return_message-lease st id absent m lease_id
Step-none_lease offset st (expire_record n lease_id) st' id (m, q, settles, pos, room, made) ne
      absent =
    ap (λ s. lease_get s id) made ∙ return_message-lease st id absent m lease_id
