-- ===== src/Tests/Queues.antt =====
-- The theorems on the tables and the queues, at concrete inputs.
use qdb.Base.{◌≡◌, refl, some, [], ◌∷◌, ◌++◌, arith}
use qdb.Platform.Memory.{memory}
use qdb.State.{
  Queue, State, state_alloc, msg_get, msg_insert, queue_get, queue_create, new_queue,
  queue_pending_append, queue_pending_remove,
}
use qdb.State.Pending.{Holds, Linked, Distinct}
use qdb.State.Fifo.{queue_pending_append-Holds}
use qdb.State.Leave.{queue_pending_remove-Holds}
use qdb.Tests.Data.{queue_name, msg_one, one_pending}

-- One queue without messages, and a message that is not in it.
abbrev fresh : State
fresh = msg_insert (queue_create state_alloc queue_name 1) msg_one

queue_pending_append-Holds_example :
    (q' : Queue) × (queue_get (queue_pending_append fresh (new_queue queue_name 1) 1) queue_name 1
      ≡ some q')
    × Holds (msg_get (queue_pending_append fresh (new_queue queue_name 1) 1)) q' ([] ++ 1 ∷ [])
unfolding Holds Linked Distinct queue_get queue_create msg_insert msg_get
queue_pending_append-Holds_example =
    queue_pending_append-Holds fresh (new_queue queue_name 1) 1 msg_one [] ((refl, refl), tt, refl)
      refl refl (omega arith) tt (omega arith)

abbrev queue_of_one : Queue
queue_of_one = record (new_queue queue_name 1) {
  pending_count = 1;
  pending_head = 1;
  pending_tail = 1;
}

queue_pending_remove-Holds_example :
    (q' : Queue) × (queue_get (queue_pending_remove one_pending queue_of_one msg_one) queue_name 1
      ≡ some q')
    × Holds (msg_get (queue_pending_remove one_pending queue_of_one msg_one)) q' []
unfolding Holds Linked Distinct queue_get msg_get one_pending
queue_pending_remove-Holds_example =
    queue_pending_remove-Holds one_pending queue_of_one msg_one []
      ((refl, omega arith, msg_one, refl, refl, (refl, refl)), (tt, tt), refl) refl refl
      (omega arith)
