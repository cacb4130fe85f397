-- ===== src/Tests/Replays.antt =====
-- The theorems on the replay, at concrete inputs.
use qdb.Base.{ℕ, List, [], ◌∷◌, ◌≡◌, ◌≢◌, refl, ok, crash, arith}
use qdb.Word.{put_u64le, put_u32le}
use qdb.Platform.Memory.{memory, memory-NoCrash}
use qdb.State.{queue_get, new_queue, msg_get, lease_get}
use qdb.Io.{read_full}
use qdb.Replay.{
  past, replay_push, replay_ack, replay_nack, replay_expire, replay_lease, replay_checkpoint,
  replay_log,
}
use qdb.Replay.LivePush.{pushed, replay_push-enqueue}
use qdb.Api.Push.{push_enqueue}
use qdb.Replay.Live.{replay_ack-message, replay_nack-message, replay_lease-message}
use qdb.Replay.Counters.{Larger, replay_checkpoint-counters}
use qdb.Replay.Enough.{replay_log-returns}
use qdb.Api.Settle.{settle_payload, ack_message, return_message}
use qdb.Api.Pop.{lease_payload, lease_message}
use qdb.Api.Compact.{checkpoint_payload}
use qdb.Tests.Data.{
  sample, holding, queue_name, msg_one, held_one, one_pending, one_leased, session_of, handle_of,
}

replay_ack-message_example :
    replay_ack 0 16 (session_of one_leased (settle_payload 1 7))
    ≡ ok tt (session_of (ack_message held_one 7 one_leased) (settle_payload 1 7))
unfolding memory one_leased msg_get queue_get read_full settle_payload put_u64le put_u32le
replay_ack-message_example =
    replay_ack-message (session_of one_leased (settle_payload 1 7)) held_one
      (new_queue queue_name 1) 1 7 0 (holding (settle_payload 1 7)) (omega arith) (omega arith) refl
      refl refl refl refl

replay_nack-message_example :
    (replay_nack 0 16 (session_of one_leased (settle_payload 1 7))
      ≡ ok tt (session_of (return_message held_one 7 one_leased) (settle_payload 1 7)))
    × (replay_expire 0 16 (session_of one_leased (settle_payload 1 7))
        ≡ ok tt (session_of (return_message held_one 7 one_leased) (settle_payload 1 7)))
unfolding memory one_leased msg_get queue_get read_full settle_payload put_u64le put_u32le
replay_nack-message_example =
    replay_nack-message (session_of one_leased (settle_payload 1 7)) held_one
      (new_queue queue_name 1) 1 7 0 (holding (settle_payload 1 7)) (omega arith) (omega arith) refl
      refl refl refl refl

replay_lease-message_example :
    replay_lease 0 24 (session_of one_pending (lease_payload 1 9000 7))
    ≡ ok tt (record {
      db = record sample { next_lease_id = past 7 1 };
      st =
          lease_message
            (record (new_queue queue_name 1) {
              pending_count = 1;
              pending_head = 1;
              pending_tail = 1;
            })
            msg_one
            7
            9000
            one_pending;
      world = holding (lease_payload 1 9000 7);
    })
unfolding memory one_pending msg_get queue_get lease_get read_full lease_payload put_u64le put_u32le
replay_lease-message_example =
    replay_lease-message (session_of one_pending (lease_payload 1 9000 7)) msg_one
      (record (new_queue queue_name 1) { pending_count = 1; pending_head = 1; pending_tail = 1 }) 1
      9000 7 0 (holding (lease_payload 1 9000 7)) (holding (lease_payload 1 9000 7)) (omega arith)
      (omega arith) (omega arith) (omega arith) refl refl refl refl refl refl refl

replay_checkpoint-counters_example :
    (next_msg_id : ℕ) × (next_lease_id : ℕ) × Larger 1 40 next_msg_id
    × Larger 1 50 next_lease_id
    × (replay_checkpoint 0 24 (session_of one_leased (checkpoint_payload 1000 40 50))
        ≡ ok tt (record {
          db = record sample { next_msg_id = next_msg_id; next_lease_id = next_lease_id };
          st = one_leased;
          world = holding (checkpoint_payload 1000 40 50);
        }))
unfolding memory read_full checkpoint_payload put_u64le put_u32le
replay_checkpoint-counters_example =
    replay_checkpoint-counters (session_of one_leased (checkpoint_payload 1000 40 50)) 0 1000 40 50
      (holding (checkpoint_payload 1000 40 50)) (omega arith) (omega arith) (omega arith) refl

replay_log-returns_example : replay_log (handle_of one_leased (settle_payload 1 7)) ≢ crash
replay_log-returns_example =
    replay_log-returns memory-NoCrash (handle_of one_leased (settle_payload 1 7)) (omega arith)

-- A PUSH record of the message 2 with one byte of data, at the start of the file.
abbrev push_file : List ℕ
push_file =
    1 ∷ 0 ∷ 0 ∷ 0 ∷ 0 ∷ 0 ∷ 0 ∷ 0 ∷ 0 ∷ (2 ∷ 0 ∷ 0 ∷ 0 ∷ 0 ∷ 0 ∷ 0 ∷ 0 ∷ 1 ∷ b'q' ∷ 5 ∷ 0xab ∷ [])

replay_push-enqueue_example :
    (replay_push 9 11 (session_of one_leased push_file)
      ≡ ok tt (record {
        db = record sample { next_msg_id = past 2 1 };
        st = pushed one_leased (new_queue queue_name 1) 2 0 queue_name 1;
        world = holding push_file;
      }))
    × (push_enqueue 2 0 queue_name 1 (session_of one_leased push_file)
        ≡ ok tt (record (session_of one_leased push_file) {
          st = pushed one_leased (new_queue queue_name 1) 2 0 queue_name 1;
        }))
unfolding memory one_leased msg_get queue_get read_full put_u64le put_u32le
replay_push-enqueue_example =
    replay_push-enqueue (session_of one_leased push_file) (new_queue queue_name 1) 2 0 1 queue_name
      (holding push_file) (holding push_file) (holding push_file) (holding push_file) (omega arith)
      (omega arith) (omega arith) (omega arith) (omega arith) (omega arith) refl refl refl refl refl
      refl
