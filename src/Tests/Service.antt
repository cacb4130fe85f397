-- ===== src/Tests/Service.antt =====
-- A handle in service, with an empty log, then with a push in it, then with its lease.
use qdb.Base.{
  ◌+◌, ◌≡◌, refl, sym, ap, ◌∙◌, subst, some, none, List, [], ◌∷◌, ◌++◌, length, append-nil, arith,
  length-append,
}
use qdb.Platform.Memory.{Memory, memory, memory-laws}
use qdb.State.{
  Msg, leased, queue_pending_remove, lease_insert, Queue, State, state_alloc, msg_get, msg_insert,
  msg_write, queue_get, queue_write, queue_create, queue_pending_append, find, modify, memcmp_eq,
}
use qdb.Replay.{new_msg}
use qdb.Db.{Db, Handle, Session}
use qdb.Io.{header_encode}
use qdb.Io.Append.{length-record_bytes}
use qdb.Api.Pop.{lease_message, lease_payload}
use qdb.Api.Push.{push_payload}
use qdb.Api.Durable.{Durable, length-push_payload, length-lease_payload}
use qdb.History.{LogRecord, push_record, lease_record, encoded, log_bytes, enqueued}
use qdb.History.Recorded.{Recorded, Recorded-snoc, blank-Recorded}
use qdb.History.Popping.{head-Leases}
use qdb.Tests.Data.{sample, holding, queue_name}

abbrev pub serving : Db → List LogRecord → State → Session Memory
serving db rs st = record { db = db; st = st; world = holding (header_encode db ++ log_bytes rs) }

abbrev pub handle_at : Db → List LogRecord → State → Handle Memory
handle_at db rs st = record {
  db = db;
  state = some st;
  world = holding (header_encode db ++ log_bytes rs);
}

serving-Durable :
    (db : Db) (rs : List LogRecord)
    → db.fd ≡ 3
    → db.log_end_offset ≡ 4096 + length (log_bytes rs)
    → Durable memory db (log_bytes rs) (holding (header_encode db ++ log_bytes rs))
unfolding memory
serving-Durable db rs at end = record { content = rw at refl; log_end = end }

pub empty-Recorded : Recorded memory (handle_at sample [] state_alloc) [] state_alloc
unfolding log_bytes
empty-Recorded =
    blank-Recorded memory (handle_at sample [] state_alloc) (serving-Durable sample [] refl refl)
      refl refl (omega arith) refl

abbrev pub pushed_db : Db
pushed_db = record sample { log_end_offset = 4096 + 22; next_msg_id = 2 }

abbrev pub pushed_log : List LogRecord
pushed_log = push_record 1 queue_name (5 ∷ 6 ∷ []) ∷ []

abbrev pub pushed_state : State
pushed_state = enqueued 4096 1 queue_name 2 state_alloc

absent_one : (st : State) → st ≡ state_alloc → msg_get st 1 ≡ none
unfolding msg_get find
absent_one st e = rw e refl

push_one_length : length (log_bytes pushed_log) ≡ 22
unfolding log_bytes
push_one_length = omega (
  arith,
  length-append (encoded (push_record 1 queue_name (5 ∷ 6 ∷ []))) [],
  length-record_bytes 1 (push_payload 1 queue_name (5 ∷ 6 ∷ [])),
  length-push_payload 1 queue_name (5 ∷ 6 ∷ []),
)

pub pushed-Recorded :
    Recorded memory (handle_at pushed_db pushed_log pushed_state) pushed_log pushed_state
unfolding log_bytes queue_get find
pushed-Recorded =
    Recorded-snoc memory (handle_at sample [] state_alloc) [] state_alloc empty-Recorded
      (handle_at pushed_db pushed_log pushed_state) (push_record 1 queue_name (5 ∷ 6 ∷ []))
      pushed_state
      (
        (
          omega arith,
          omega arith,
          omega arith,
          omega arith,
          omega arith,
          absent_one state_alloc refl,
          λ q e. cc,
        ),
        refl,
      )
      refl
      (subst
        (λ l.
          Durable memory pushed_db l (holding (header_encode pushed_db ++ log_bytes pushed_log)))
        (append-nil (encoded (push_record 1 queue_name (5 ∷ 6 ∷ []))))
        (serving-Durable pushed_db pushed_log refl (omega (arith, push_one_length))))
      refl (omega arith) (omega arith) (λ id above e. omega arith) (λ id above. tt) (omega arith)
      refl

abbrev pub pushed_queue : Queue
pushed_queue = record {
  name = queue_name;
  name_len = 1;
  pending_count = 1;
  leased_count = 0;
  acked_count = 0;
  pending_head = 1;
  pending_tail = 1;
}

abbrev pub pushed_msg : Msg
pushed_msg = new_msg 1 4115 2 1 queue_name

pub pushed_queue_found : queue_get pushed_state queue_name 1 ≡ some pushed_queue
unfolding queue_get queue_create queue_pending_append queue_write msg_write msg_insert modify find
    memcmp_eq
pushed_queue_found = refl

pub pushed_msg_found : msg_get pushed_state 1 ≡ some pushed_msg
unfolding queue_get queue_create queue_pending_append queue_write msg_write msg_insert modify find
    memcmp_eq msg_get
pushed_msg_found = refl

abbrev pub leased_db : Db
leased_db = record pushed_db { log_end_offset = 4096 + 56; next_lease_id = 2 }

abbrev pub leased_log : List LogRecord
leased_log = pushed_log ++ lease_record 1 9000 1 ∷ []

abbrev pub leased_state : State
leased_state = lease_message pushed_queue pushed_msg 1 9000 pushed_state

lease_length : length (log_bytes leased_log) ≡ 56
unfolding log_bytes
lease_length =
    let one = encoded (push_record 1 queue_name (5 ∷ 6 ∷ [])) in
    let two = encoded (lease_record 1 9000 1) in
    omega (
      arith,
      length-append one (two ++ []),
      length-append two [],
      length-record_bytes 1 (push_payload 1 queue_name (5 ∷ 6 ∷ [])),
      length-push_payload 1 queue_name (5 ∷ 6 ∷ []),
      length-record_bytes 2 (lease_payload 1 9000 1),
      length-lease_payload 1 9000 1,
    )

lease_log_bytes : log_bytes leased_log ≡ log_bytes pushed_log ++ encoded (lease_record 1 9000 1)
unfolding log_bytes
lease_log_bytes =
    let one = encoded (push_record 1 queue_name (5 ∷ 6 ∷ [])) in
    let two = encoded (lease_record 1 9000 1) in
    ap (λ l. one ++ l) (append-nil two) ∙ ap (λ l. l ++ two) (sym (append-nil one))

pub leased-Recorded :
    Recorded memory (handle_at leased_db leased_log leased_state) leased_log leased_state
leased-Recorded =
    Recorded-snoc memory (handle_at pushed_db pushed_log pushed_state) pushed_log pushed_state
      pushed-Recorded (handle_at leased_db leased_log leased_state) (lease_record 1 9000 1)
      leased_state
      (
        pushed_msg,
        pushed_queue,
        head-Leases memory-laws (serving pushed_db pushed_log pushed_state) pushed_log queue_name
            pushed_queue pushed_msg 9000 pushed-Recorded pushed_queue_found refl pushed_msg_found
            (omega arith) (omega arith) (omega arith) (omega arith),
        refl,
      )
      refl
      (subst
        (λ l.
          Durable memory leased_db l (holding (header_encode leased_db ++ log_bytes leased_log)))
        lease_log_bytes (serving-Durable leased_db leased_log refl (omega (arith, lease_length))))
      refl (omega arith) (omega arith) (λ id above. tt) (λ id above e. omega arith) tt refl

abbrev pub leased_queue : Queue
leased_queue = record pushed_queue {
  pending_count = 0;
  leased_count = 1;
  pending_head = 0;
  pending_tail = 0;
}

abbrev pub leased_msg : Msg
leased_msg = record pushed_msg { state = leased; lease_id = 1; lease_expiry_us = 9000 }

pub leased_queue_found : queue_get leased_state queue_name 1 ≡ some leased_queue
unfolding queue_get queue_create queue_pending_append queue_pending_remove queue_write msg_write
    msg_insert modify find memcmp_eq lease_message lease_insert
leased_queue_found = refl

pub leased_msg_found : msg_get leased_state 1 ≡ some leased_msg
unfolding queue_get queue_create queue_pending_append queue_pending_remove queue_write msg_write
    msg_insert modify find memcmp_eq lease_message lease_insert msg_get
leased_msg_found = refl
