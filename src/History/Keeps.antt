-- ===== src/History/Keeps.antt =====
-- Every state that the records of a log lead to keeps the invariant of the state in memory.
use qdb.Base.{
  ℕ, ◌+◌, ◌^◌, ◌<◌, ◌≡◌, sym, ap, subst, ◌∙◌, some, List, [], ◌∷◌, length, Option-cases, some_inj,
  inl, inr,
}
use qdb.State.{Msg, Queue, State, state_alloc, msg_get, queue_get}
use qdb.State.WellFormed.{IsWellFormed, named, state_alloc-WellFormed}
use qdb.Api.WellFormed.{
  lease_message-WellFormed, ack_message-WellFormed, return_message-WellFormed, pushed-WellFormed,
  pushed_new-WellFormed,
}
use qdb.Api.Settle.{return_message}
use qdb.History.{
  LogRecord, push_record, lease_record, ack_record, nack_record, expire_record, enqueued,
  enqueued-found, enqueued-absent, Step, Steps, encoded, Settles, Pushes,
}

module _ (st : State) (wf : IsWellFormed st 0) where
  -- A message's queue, under its name alone.
  pub its_name :
      (id : ℕ) (m : Msg) (q : Queue)
      → msg_get st id ≡ some m
      → queue_get st m.queue_name m.queue_name_len ≡ some q
      → named st m.queue_name ≡ some q
  its_name id m q found at =
      let (l, r, has) = wf.home id m found in ap (queue_get st m.queue_name) (sym l) ∙ at

  returned-WellFormed :
      (id lease_id : ℕ) (m : Msg) (q : Queue)
      → Settles st id lease_id m q
      → 0 < id
      → q.pending_count + 1 < 2 ^ 32
      → IsWellFormed (return_message m lease_id st) 0
  returned-WellFormed id lease_id m q (a, b, found, held, same, at) pos room =
      return_message-WellFormed st id m lease_id wf found held pos (λ r at'.
        subst (λ (x : Queue). x.pending_count + 1 < 2 ^ 32)
          (some_inj (sym (its_name id m q found at) ∙ at')) room)

  enqueued-WellFormed :
      (offset id : ℕ) (queue bytes : List ℕ)
      → Pushes st id queue bytes
      → IsWellFormed (enqueued offset id queue (length bytes) st) 0
  enqueued-WellFormed offset id queue bytes (pos, fits, some_name, short, small, fresh, room) =
      elim (Option-cases (queue_get st queue (length queue))) [
        | inl absent ↦
            subst (λ s. IsWellFormed s 0)
              (sym (enqueued-absent offset id queue (length bytes) st absent))
              (pushed_new-WellFormed st queue id offset (length bytes) wf absent fresh pos)
        | inr (q, found) ↦
            subst (λ s. IsWellFormed s 0)
              (sym (enqueued-found offset id queue (length bytes) st q found))
              (pushed-WellFormed st queue q id offset (length bytes) wf found fresh pos
                (room q found))
      ]

  -- One record keeps the invariant.
  pub Step-WellFormed :
      (offset : ℕ) (r : LogRecord) (st' : State) → Step offset st r st' → IsWellFormed st' 0
  Step-WellFormed offset (push_record id queue bytes) st' (pushes, e) =
      subst (λ s. IsWellFormed s 0) (sym e) (enqueued-WellFormed offset id queue bytes pushes)
  Step-WellFormed offset (lease_record id expiry_us lease_id) st'
        (m, q, (a, b, c, d, found, waits, free, at, first, pos, room), e) =
      subst (λ s. IsWellFormed s 0) (sym e)
        (lease_message-WellFormed st m.queue_name q m lease_id expiry_us wf
          (its_name id m q found at) (ap (msg_get st) first ∙ found) (λ z. pos (sym first ∙ z))
          room)
  Step-WellFormed offset (ack_record id lease_id) st' (m, q, (a, b, found, held, same, at), e) =
      subst (λ s. IsWellFormed s 0) (sym e) (ack_message-WellFormed st id m lease_id wf found held)
  Step-WellFormed offset (nack_record id lease_id) st' (m, q, settles, pos, room, e) =
      subst (λ s. IsWellFormed s 0) (sym e) (returned-WellFormed id lease_id m q settles pos room)
  Step-WellFormed offset (expire_record id lease_id) st' (m, q, settles, pos, room, e) =
      subst (λ s. IsWellFormed s 0) (sym e) (returned-WellFormed id lease_id m q settles pos room)

-- A log keeps the invariant.
pub Steps-WellFormed :
    (offset : ℕ) (st : State) (rs : List LogRecord) (st' : State)
    → IsWellFormed st 0
    → Steps offset st rs st'
    → IsWellFormed st' 0
unfolding Steps
Steps-WellFormed offset st [] st' wf e = subst (λ s. IsWellFormed s 0) e wf
Steps-WellFormed offset st (r ∷ rs) st' wf (mid, step, steps) =
    Steps-WellFormed (offset + length (encoded r)) mid rs st'
      (Step-WellFormed st wf offset r mid step) steps

-- In the state that the records of any log lead to from the empty one, every message has its
-- queue, and the list of every queue links, without a repetition, messages that wait in this
-- queue, as many as it counts.
pub history-WellFormed :
    (offset : ℕ) (rs : List LogRecord) (st : State)
    → Steps offset state_alloc rs st
    → IsWellFormed st 0
history-WellFormed offset rs st steps =
    Steps-WellFormed offset state_alloc rs st state_alloc-WellFormed steps
