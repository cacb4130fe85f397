-- ===== src/Tests/Calls.antt =====
-- The theorems on the public functions, at concrete inputs.
use qdb.Base.{
  ◌<◌, ◌^◌, ◌+◌, ◌≡◌, ◌≢◌, refl, sym, none, some, [], ◌∷◌, ◌++◌, append-nil, err, crash, err_inval,
  err_noent, err_nomem, arith, Ensures, ◌⊎◌,
}
use qdb.Word.{u64}
use qdb.Format.{invalid_fd, rt_msg_push, rt_msg_lease, rt_msg_ack}
use qdb.Platform.Memory.{Memory, memory, memory-laws, memory-NoCrash}
use qdb.State.{msg_get}
use qdb.Db.{Handle}
use qdb.Io.{header_encode}
use qdb.Io.Append.{record_bytes}
use qdb.Api.Push.{push_payload, push_append, push}
use qdb.Api.Push.Refusal.{push_refused}
use qdb.Api.Pop.{lease_payload, pop_append, pop, pop_any}
use qdb.Api.Settle.{settle_payload, settle_append, ack_message, ack, nack, process_expired_leases}
use qdb.Api.Settle.Once.{ack_once}
use qdb.Api.Durable.{Durable, push_append-Durable, pop_append-Durable, settle_append-Durable}
use qdb.Api.Check.{validate_log}
use qdb.Api.Check.Enough.{validate_log-returns}
use qdb.Api.Compact.{compact}
use qdb.Api.Compact.Failure.{IsDead, compact_failure, dead_handle_crashes}
use qdb.Tests.Data.{
  held_one, sample, holding, starved, queue_name, msg_one, one_pending, one_leased, session_of,
  handle_of,
}

sample-Durable : Durable memory sample [] (holding (header_encode sample))
unfolding memory
sample-Durable = record { content = sym (append-nil (header_encode sample)); log_end = refl }

push_append-Durable_example :
    Ensures
      (λ _ g.
        (g.state ≡ some one_pending)
        × (g.db ≡ record sample { log_end_offset = 4096 + 22; next_msg_id = 2 })
        × Durable memory g.db
            ([] ++ record_bytes rt_msg_push (push_payload 1 queue_name (5 ∷ 6 ∷ [])))
            g.world)
      (push_append queue_name (5 ∷ 6 ∷ []) (handle_of one_pending (header_encode sample)))
push_append-Durable_example =
    push_append-Durable memory-laws (handle_of one_pending (header_encode sample)) queue_name
      (5 ∷ 6 ∷ []) [] sample-Durable (omega arith)

pop_append-Durable_example :
    Ensures
      (λ (lease_id, expiry_us) t.
        (t.st ≡ one_pending)
        × (lease_id ≡ 1)
        × (expiry_us < 2 ^ 64)
        × (t.db ≡ record sample { log_end_offset = 4096 + 34; next_lease_id = u64 (lease_id + 1) })
        × Durable memory t.db
            ([] ++ record_bytes rt_msg_lease (lease_payload 1 expiry_us lease_id))
            t.world)
      (pop_append msg_one (session_of one_pending (header_encode sample)))
pop_append-Durable_example =
    pop_append-Durable memory-laws (session_of one_pending (header_encode sample)) msg_one []
      sample-Durable (omega arith)

settle_append-Durable_example :
    Ensures
      (λ _ t.
        (t.st ≡ one_leased)
        × (t.db ≡ record sample { log_end_offset = 4096 + 26 })
        × Durable memory t.db ([] ++ record_bytes rt_msg_ack (settle_payload 1 7)) t.world)
      (settle_append rt_msg_ack 1 7 (session_of one_leased (header_encode sample)))
settle_append-Durable_example =
    settle_append-Durable memory-laws (session_of one_leased (header_encode sample)) [] rt_msg_ack 1
      7 sample-Durable (omega arith)

push_refused_example :
    push (some queue_name) none 5 (handle_of one_pending [])
    ≡ err err_inval (handle_of one_pending [])
push_refused_example = push_refused (some queue_name) none 5 (handle_of one_pending []) refl

validate_log-returns_example : validate_log (handle_of one_leased (1 ∷ 2 ∷ [])) ≢ crash
validate_log-returns_example =
    validate_log-returns memory-NoCrash (handle_of one_leased (1 ∷ 2 ∷ [])) (omega arith)

compact_failure_example :
    (((handle_of one_leased []).db ≡ sample) × ((handle_of one_leased []).state ≡ some one_leased))
    ⊎ IsDead (handle_of one_leased [])
unfolding compact starved
compact_failure_example =
    compact_failure ⦃os = starved⦄ (handle_of one_leased []) {c = err_nomem}
      {h' = handle_of one_leased []} refl

abbrev dead_one : Handle Memory
dead_one = record { db = record sample { fd = invalid_fd }; state = none; world = holding [] }

dead_handle_crashes_example :
    (pop (some queue_name) dead_one ≡ crash)
    × (pop_any dead_one ≡ crash)
    × (ack 1 7 dead_one ≡ crash)
    × (nack 1 7 dead_one ≡ crash)
    × (process_expired_leases dead_one ≡ crash)
dead_handle_crashes_example = dead_handle_crashes dead_one queue_name 1 7 (refl, refl) refl

ack_once_example :
    (ack 1 9 (handle_of (ack_message held_one 7 one_leased) [])
      ≡ err err_noent (handle_of (ack_message held_one 7 one_leased) []))
    × (nack 1 9 (handle_of (ack_message held_one 7 one_leased) [])
        ≡ err err_noent (handle_of (ack_message held_one 7 one_leased) []))
unfolding msg_get one_leased
ack_once_example =
    ack_once (handle_of (ack_message held_one 7 one_leased) []) one_leased held_one 7 9 refl refl
