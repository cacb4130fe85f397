-- ===== src/Tests/Histories.antt =====
-- The theorems on histories, at concrete inputs.
use qdb.Base.{
  ℕ, ◌+◌, ◌^◌, ◌<◌, ◌≡◌, refl, sym, ap, some, some_inj, List, [], ◌∷◌, ◌++◌, length, arith, ok,
  Ensures, ◌⊎◌, ◌∙◌,
}
use qdb.Format.{hdr_size}
use qdb.Platform.Memory.{
  Memory, memory, memory-laws, memory-reads, memory-allocs, memory-AllSucceed,
}
use qdb.State.{State, Queue, Msg, state_alloc, queue_get, find}
use qdb.State.WellFormed.{IsWellFormed}
use qdb.Replay.{replay_log}
use qdb.Api.Push.{push}
use qdb.Db.{Handle}
use qdb.Api.Pop.{OutMsg, pop}
use qdb.Api.Settle.{ack, nack, expire_one}
use qdb.History.{LogRecord, push_record, lease_record, ack_record, nack_record, expire_record}
use qdb.History.Keeps.{history-WellFormed}
use qdb.History.Recorded.{Recorded}
use qdb.History.Pushing.{push-Recorded}
use qdb.History.Popping.{pop-Recorded}
use qdb.History.Settling.{HasRoom, Live, closed, settle-Recorded, expire_one-Recorded}
use qdb.History.Delivery.{delivered, pop-delivers}
use qdb.History.Progress.{pop-succeeds}
use qdb.History.Reopen.{reopened, replay_log-Recorded}
use qdb.Tests.Data.{sample, queue_name}
use qdb.Tests.Service.{
  serving, handle_at, empty-Recorded, pushed_db, pushed_log, pushed_state, pushed-Recorded,
  pushed_queue, pushed_queue_found, leased_db, leased_log, leased_state, leased-Recorded,
  leased_msg, leased_msg_found, leased_queue_found,
}

history-WellFormed_example : IsWellFormed leased_state 0
history-WellFormed_example =
    history-WellFormed hdr_size leased_log leased_state leased-Recorded.steps

replay_log-Recorded_example :
    (w' : Memory) × (replay_log ⦃os = memory⦄
        (reopened (handle_at leased_db leased_log leased_state))
      ≡ ok tt (record { db = leased_db; state = some leased_state; world = w' }))
    × (memory.bytes w' ≡ memory.bytes (handle_at leased_db leased_log leased_state).world)
replay_log-Recorded_example =
    replay_log-Recorded memory-reads memory-allocs (handle_at leased_db leased_log leased_state)
      leased_log leased_state leased-Recorded (omega arith)

no_queue : (q : Queue) → queue_get state_alloc queue_name 1 ≡ some q → q.pending_count + 1 < 2 ^ 32
unfolding queue_get find
no_queue q e = cc

push-Recorded_example :
    Ensures
      (λ _ g. (st' : State) × Recorded memory g (push_record 1 queue_name (5 ∷ 6 ∷ []) ∷ []) st')
      (push (some queue_name) (some (5 ∷ 6 ∷ [])) 2 (handle_at sample [] state_alloc))
push-Recorded_example =
    push-Recorded memory-laws (handle_at sample [] state_alloc) [] state_alloc queue_name
      (some (5 ∷ 6 ∷ [])) 2 empty-Recorded refl (omega arith) (omega arith) no_queue

its_count : (q : Queue) → queue_get pushed_state queue_name 1 ≡ some q → q.pending_count ≡ 1
its_count q at = ap Queue.pending_count (some_inj (sym at ∙ pushed_queue_found))

pop-Recorded_example :
    Ensures
      (λ out g.
        (q : Queue) × (queue_get pushed_state queue_name 1 ≡ some q)
        × (out.id ≡ q.pending_head)
        × (out.lease_id ≡ 1)
        × (expiry_us : ℕ) × (st' : State) × Recorded memory g
            (pushed_log ++ lease_record out.id expiry_us out.lease_id ∷ [])
            st')
      (pop (some queue_name) (handle_at pushed_db pushed_log pushed_state))
pop-Recorded_example =
    pop-Recorded memory-laws (handle_at pushed_db pushed_log pushed_state) pushed_log pushed_state
      queue_name pushed-Recorded (omega arith) (omega arith) (omega arith)
      (λ q at. omega (arith, its_count q at))

leased_room : HasRoom leased_state 1
leased_room m q found at =
    let same : leased_msg ≡ m = some_inj (sym leased_msg_found ∙ found) in
    let at' : queue_get leased_state queue_name 1 ≡ some q =
      ap (λ (n : Msg). queue_get leased_state n.queue_name n.queue_name_len) same ∙ at in
    omega (arith, ap Queue.pending_count (some_inj (sym leased_queue_found ∙ at')))

settle-Recorded_example :
    Ensures
      (λ _ g. (st' : State) × Recorded memory g (leased_log ++ ack_record 1 1 ∷ []) st')
      (ack 1 1 (handle_at leased_db leased_log leased_state))
    × Ensures
        (λ _ g. (st' : State) × Recorded memory g (leased_log ++ nack_record 1 1 ∷ []) st')
        (nack 1 1 (handle_at leased_db leased_log leased_state))
settle-Recorded_example =
    settle-Recorded memory-laws (handle_at leased_db leased_log leased_state) leased_log
      leased_state 1 1 leased-Recorded (omega arith) (omega arith) (omega arith) leased_room

expire_one-Recorded_example :
    (Live leased_state 1 1
      × Ensures
          (λ _ t.
            (st' : State) × Recorded memory (closed t) (leased_log ++ expire_record 1 1 ∷ []) st')
          (expire_one 1 1 (serving leased_db leased_log leased_state)))
    ⊎ (¬ Live leased_state 1 1
        × (expire_one 1 1 (serving leased_db leased_log leased_state)
            ≡ ok tt (serving leased_db leased_log leased_state)))
expire_one-Recorded_example =
    expire_one-Recorded memory-laws (serving leased_db leased_log leased_state) leased_log
      leased-Recorded 1 1 (omega arith) (omega arith) (omega arith) leased_room

pop-delivers_example :
    Ensures
      (λ out _.
        (q : Queue) × (queue_get pushed_state queue_name 1 ≡ some q)
        × (out.id ≡ q.pending_head)
        × (before : List LogRecord) × (behind : List LogRecord) × (contents : List ℕ) × (pushed_log
            ≡ before ++ push_record out.id out.queue contents ∷ behind)
        × (out.payload ≡ delivered contents)
        × (out.len ≡ length contents))
      (pop (some queue_name) (handle_at pushed_db pushed_log pushed_state))
pop-delivers_example =
    pop-delivers memory-laws (handle_at pushed_db pushed_log pushed_state) pushed_log pushed_state
      queue_name pushed-Recorded (omega arith)

pop-succeeds_example :
    (out : OutMsg) × (g : Handle Memory) × (pop
        (some queue_name)
        (handle_at pushed_db pushed_log pushed_state)
      ≡ ok out g)
pop-succeeds_example =
    pop-succeeds memory-laws memory-AllSucceed (handle_at pushed_db pushed_log pushed_state)
      pushed_log pushed_state queue_name pushed_queue pushed-Recorded (omega arith) refl
      pushed_queue_found refl
