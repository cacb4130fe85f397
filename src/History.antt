-- ===== src/History.antt =====
-- What the log means: the records that the operations append, the bytes of each, and the change to
-- the state in memory that each stands for. A record is applied at the offset where it starts, since a
-- message keeps the offset of its data.
pub mod Keeps
pub mod Reads
pub mod Recovery
pub mod Loop
pub mod Fixed
pub mod Fresh
pub mod FreshLease
pub mod Counters
pub mod Recorded
pub mod Pushing
pub mod Settling
pub mod Popping
pub mod Reopen
pub mod Stored
pub mod Delivery
pub mod Progress
use qdb.Base.{
  ℕ, ◌+◌, ◌^◌, ◌<◌, ◌≤◌, ◌≡◌, ◌≢◌, refl, sym, ap, subst, ◌∙◌, Option, none, some, List, [], ◌∷◌,
  ◌++◌, length, length-append, arith,
}
use qdb.Format.{
  rt_msg_push, rt_msg_lease, rt_msg_ack, rt_msg_nack, rt_msg_expire, max_record_payload, hdr_size,
}
use qdb.Platform.{Platform}
use qdb.State.{
  Msg, pending, leased, Queue, State, state_alloc, msg_get, queue_get, queue_create, new_queue,
  lease_get,
}
use qdb.Db.{Db, Handle}
use qdb.Io.Append.{record_bytes}
use qdb.Replay.{past}
use qdb.Replay.LivePush.{pushed}
use qdb.Api.Push.{push_payload}
use qdb.Api.Pop.{lease_payload, lease_message}
use qdb.Api.Settle.{settle_payload, ack_message, return_message}
use qdb.Api.Durable.{Durable}

pub data LogRecord : Type 0 where
  push_record : (msg_id : ℕ) (queue bytes : List ℕ) → LogRecord
  lease_record : (msg_id expiry_us lease_id : ℕ) → LogRecord
  ack_record nack_record expire_record : (msg_id lease_id : ℕ) → LogRecord

abbrev pub record_type : LogRecord → ℕ
record_type (push_record id queue bytes) = rt_msg_push
record_type (lease_record id expiry_us lease_id) = rt_msg_lease
record_type (ack_record id lease_id) = rt_msg_ack
record_type (nack_record id lease_id) = rt_msg_nack
record_type (expire_record id lease_id) = rt_msg_expire

abbrev pub record_payload : LogRecord → List ℕ
record_payload (push_record id queue bytes) = push_payload id queue bytes
record_payload (lease_record id expiry_us lease_id) = lease_payload id expiry_us lease_id
record_payload (ack_record id lease_id) = settle_payload id lease_id
record_payload (nack_record id lease_id) = settle_payload id lease_id
record_payload (expire_record id lease_id) = settle_payload id lease_id

abbrev pub encoded : LogRecord → List ℕ
encoded r = record_bytes (record_type r) (record_payload r)

unfoldable pub log_bytes : List LogRecord → List ℕ
log_bytes [] = []
log_bytes (r ∷ rs) = encoded r ++ log_bytes rs

-- The state behind a push, whose record starts at `offset`; a queue that is missing is created.
abbrev enqueue_at : ℕ → ℕ → List ℕ → ℕ → State → Option Queue → State
enqueue_at offset id queue len st (some q) = pushed st q id offset queue len
enqueue_at offset id queue len st none =
    pushed (queue_create st queue (length queue)) (new_queue queue (length queue)) id offset queue
      len

abbrev pub enqueued : ℕ → ℕ → List ℕ → ℕ → State → State
enqueued offset id queue len st =
    enqueue_at offset id queue len st (queue_get st queue (length queue))

pub enqueued-found :
    (offset id : ℕ) (queue : List ℕ) (len : ℕ) (st : State) (q : Queue)
    → queue_get st queue (length queue) ≡ some q
    → enqueued offset id queue len st ≡ pushed st q id offset queue len
enqueued-found offset id queue len st q found = ap (enqueue_at offset id queue len st) found

pub enqueued-absent :
    (offset id : ℕ) (queue : List ℕ) (len : ℕ) (st : State)
    → queue_get st queue (length queue) ≡ none
    → enqueued offset id queue len st
      ≡ pushed
          (queue_create st queue (length queue))
          (new_queue queue (length queue))
          id
          offset
          queue
          len
enqueued-absent offset id queue len st absent = ap (enqueue_at offset id queue len st) absent

-- The message is leased under the lease, and has its queue.
abbrev pub Settles : State → ℕ → ℕ → Msg → Queue → Type 0
Settles st id lease_id m q =
    (id < 2 ^ 64)
    × (lease_id < 2 ^ 64)
    × (msg_get st id ≡ some m)
    × (m.state ≡ leased)
    × (m.lease_id ≡ lease_id)
    × (queue_get st m.queue_name m.queue_name_len ≡ some q)

-- The name and the data of a push are in their bounds, the id is a new one, and no counter overflows.
abbrev pub Pushes : State → ℕ → List ℕ → List ℕ → Type 0
Pushes st id queue bytes =
    (0 < id)
    × (id < 2 ^ 64)
    × (0 < length queue)
    × (length queue < 2 ^ 8)
    × (9 + length queue + length bytes ≤ max_record_payload)
    × (msg_get st id ≡ none)
    × ((q : Queue) → queue_get st queue (length queue) ≡ some q → q.pending_count + 1 < 2 ^ 32)

-- The message is the first of its queue, and the lease is a new one.
abbrev pub Leases : State → ℕ → ℕ → ℕ → Msg → Queue → Type 0
Leases st id expiry_us lease_id m q =
    (id < 2 ^ 64)
    × (expiry_us < 2 ^ 64)
    × (0 < lease_id)
    × (lease_id < 2 ^ 64)
    × (msg_get st id ≡ some m)
    × (m.state ≡ pending)
    × (lease_get st lease_id ≡ none)
    × (queue_get st m.queue_name m.queue_name_len ≡ some q)
    × (q.pending_head ≡ id)
    × (id ≢ 0)
    × (q.pending_count < 2 ^ 32)

-- One record, at its offset, from one state to the next.
abbrev pub Step : ℕ → State → LogRecord → State → Type 0
Step offset st (push_record id queue bytes) st' =
    Pushes st id queue bytes × (st' ≡ enqueued offset id queue (length bytes) st)
Step offset st (lease_record id expiry_us lease_id) st' =
    (m : Msg) × (q : Queue) × Leases st id expiry_us lease_id m q
    × (st' ≡ lease_message q m lease_id expiry_us st)
Step offset st (ack_record id lease_id) st' =
    (m : Msg) × (q : Queue) × Settles st id lease_id m q × (st' ≡ ack_message m lease_id st)
Step offset st (nack_record id lease_id) st' =
    (m : Msg) × (q : Queue) × Settles st id lease_id m q
    × (0 < id)
    × (q.pending_count + 1 < 2 ^ 32)
    × (st' ≡ return_message m lease_id st)
Step offset st (expire_record id lease_id) st' =
    (m : Msg) × (q : Queue) × Settles st id lease_id m q
    × (0 < id)
    × (q.pending_count + 1 < 2 ^ 32)
    × (st' ≡ return_message m lease_id st)

-- A log that starts at `offset`, from one state to another.
unfoldable pub Steps : ℕ → State → List LogRecord → State → Type 0
Steps offset st [] st' = st ≡ st'
Steps offset st (r ∷ rs) st' =
    (mid : State) × Step offset st r mid × Steps (offset + length (encoded r)) mid rs st'

-- One more record.
pub Steps-snoc :
    (offset : ℕ) (st : State) (rs : List LogRecord) (mid : State) (r : LogRecord) (st' : State)
    → Steps offset st rs mid
    → Step (offset + length (log_bytes rs)) mid r st'
    → Steps offset st (rs ++ r ∷ []) st'
unfolding Steps log_bytes
Steps-snoc offset st [] mid r st' e step = (
  st',
  subst (λ s. Step offset s r st') (sym e)
      (subst (λ n. Step n mid r st') {x = offset + 0} (omega arith) step),
  refl,
)
Steps-snoc offset st (r0 ∷ rs) mid r st' (next, first, steps) step = (
  next,
  first,
  Steps-snoc (offset + length (encoded r0)) next rs mid r st' steps (
      subst (λ n. Step n mid r st') {x = offset + length (log_bytes (r0 ∷ rs))}
        (omega (arith, length-append (encoded r0) (log_bytes rs))) step),
)
