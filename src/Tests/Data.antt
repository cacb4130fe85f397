-- ===== src/Tests/Data.antt =====
-- The data of the tests: a handle, messages, queues and systems.
use qdb.Base.{ℕ, some, List, [], ◌∷◌, err, err_nomem}
use qdb.Platform.{Platform, overwrite}
use qdb.Platform.Memory.{Memory, memory, blank}
use qdb.State.{
  Msg, leased, State, state_alloc, msg_insert, queue_create, lease_insert, queue_pending_append,
  new_queue,
}
use qdb.Db.{Db, Handle, Session}
use qdb.Replay.{new_msg}

abbrev pub sample : Db
sample = record {
  fd = 3;
  lock_fd = 4;
  path = b'd' ∷ [];
  wal_path = b'd' ∷ b'w' ∷ [];
  lock_path = b'd' ∷ b'l' ∷ [];
  next_msg_id = 1;
  next_lease_id = 1;
  log_start_offset = 4096;
  log_end_offset = 4096;
  create_time_us = 1700000000000000;
  flags = 2;
  lease_timeout_us = 30000000;
}

-- A system where descriptor 3 holds these bytes.
abbrev pub holding : List ℕ → Memory
holding content = record blank { files = overwrite (λ _. []) 3 content }

-- A system without memory to allocate.
unfoldable pub starved : Platform Memory
unfolding memory
starved = record memory { alloc = λ w. err err_nomem w }

abbrev pub queue_name : List ℕ
queue_name = b'q' ∷ []

abbrev pub msg_one : Msg
msg_one = new_msg 1 4114 5 1 queue_name

abbrev pub held_one : Msg
held_one = record msg_one { state = leased; lease_id = 7; lease_expiry_us = 9000 }

-- One queue, and in the first state the message 1 pending in it, in the second leased.
unfoldable pub one_pending : State
unfolding queue_create msg_insert queue_pending_append
one_pending =
    queue_pending_append (msg_insert (queue_create state_alloc queue_name 1) msg_one)
      (new_queue queue_name 1) 1

unfoldable pub one_leased : State
unfolding queue_create msg_insert lease_insert
one_leased =
    lease_insert (msg_insert (queue_create state_alloc queue_name 1) held_one)
      (record { lease_id = 7; msg_id = 1; expiry_us = 9000 })

abbrev pub session_of : State → List ℕ → Session Memory
session_of st content = record { db = sample; st = st; world = holding content }

abbrev pub handle_of : State → List ℕ → Handle Memory
handle_of st content = record { db = sample; state = some st; world = holding content }
