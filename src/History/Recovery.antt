-- ===== src/History/Recovery.antt =====
-- Recovery: the replay of a log makes in memory the state that its records stand for.
use qdb.Base.{
  ℕ, ◌+◌, ◌^◌, ◌<◌, ◌≡◌, sym, ap, subst, ◌∙◌, Option-cases, List, ◌++◌, length, arith, ok, inl, inr,
}
use qdb.Word.{u64, put_u32le, put_u64le}
use qdb.Platform.{Platform, ReadsSucceed, AllocsSucceed}
use qdb.State.{State, queue_get}
use qdb.State.Names.{msg_get-id}
use qdb.Db.{Db, Session}
use qdb.Replay.{past, replay_record, replay_push}
use qdb.Replay.Live.{replay_ack-message, replay_nack-message, replay_lease-message}
use qdb.Replay.LivePush.{replay_push-enqueue, replay_push-create}
use qdb.Api.Push.{push_payload}
use qdb.Api.Pop.{lease_payload}
use qdb.Api.Settle.{settle_payload}
use qdb.Api.Durable.{length-settle_payload, length-lease_payload, length-push_payload}
use qdb.History.{
  LogRecord, push_record, lease_record, ack_record, nack_record, expire_record, record_type,
  record_payload, encoded, enqueued, enqueued-found, enqueued-absent, Pushes, Step,
}
use qdb.History.Reads.{payload_read, push_read}

-- What the replay of a record makes of the counters.
abbrev pub counted : LogRecord → Db → Db
counted (push_record id queue bytes) db = record db { next_msg_id = past id db.next_msg_id }
counted (lease_record id expiry_us lease_id) db = record db {
  next_lease_id = past lease_id db.next_lease_id;
}
counted (ack_record id lease_id) db = db
counted (nack_record id lease_id) db = db
counted (expire_record id lease_id) db = db

module _ {W : Type 0} ⦃os : Platform W⦄ (reads : ReadsSucceed os) (allocs : AllocsSucceed os) where
  module _ (s : Session W) (front back : List ℕ) (offset : ℕ) (e : offset ≡ length front) where
    abbrev Recovers : LogRecord → State → Type 0
    Recovers r st' =
        (w' : W) × (replay_record (record_type r) (u64 (offset + 9)) (length (record_payload r)) s
          ≡ ok tt (record { db = counted r s.db; st = st'; world = w' }))
        × (os.bytes w' ≡ os.bytes s.world)

    push-Recovers :
        (id : ℕ) (queue bytes : List ℕ)
        → os.bytes s.world s.db.fd ≡ front ++ (encoded (push_record id queue bytes) ++ back)
        → offset + (length bytes + 1000) < 2 ^ 64
        → length bytes < 2 ^ 32
        → Pushes s.st id queue bytes
        → Recovers (push_record id queue bytes) (enqueued offset id queue (length bytes) s.st)
    unfolding replay_record
    push-Recovers id queue bytes content fits len_fits
          (pos, id_fits, some_name, short, small, fresh, room) =
        let (w1, w2, read1, read2, same) =
          push_read reads s.db.fd front back offset e 1 id queue bytes s.world short content in
        let (w3, room3, same3) = allocs.alloc_total w2 in
        let (w4, room4, same4) = allocs.alloc_total w3 in
        let (w5, room5, same5) = allocs.alloc_total s.world in
        let (w6, room6, same6) = allocs.alloc_total w5 in
        let at : u64 (offset + 9) ≡ offset + 9 = omega (arith, fits) in
        let long : length (push_payload id queue bytes) ≡ 9 + length queue + length bytes =
          omega (arith, length-push_payload id queue bytes) in
        elim (Option-cases (queue_get s.st queue (length queue))) [
          | inr (q, found) ↦
              let (replayed, live) =
                replay_push-enqueue s q id offset (length bytes) queue w1 w2 w3 w5 pos id_fits
                  some_name short len_fits fits fresh found read1 read2 room3 room5 in
              (
                w3,
                ap (λ n. replay_push n (length (push_payload id queue bytes)) s) at
                    ∙ ap (λ n. replay_push (offset + 9) n s) long
                    ∙ replayed
                    ∙ ap
                        (λ st'. ok tt (record {
                          db = counted (push_record id queue bytes) s.db;
                          st = st';
                          world = w3;
                        }))
                        (sym (enqueued-found offset id queue (length bytes) s.st q found)),
                same3 ∙ same,
              )
          | inl absent ↦
              let (replayed, live) =
                replay_push-create s id offset (length bytes) queue w1 w2 w3 w4 w5 w6 pos id_fits
                  some_name short len_fits fits fresh absent read1 read2 room3 room4 room5 room6 in
              (
                w4,
                ap (λ n. replay_push n (length (push_payload id queue bytes)) s) at
                    ∙ ap (λ n. replay_push (offset + 9) n s) long
                    ∙ replayed
                    ∙ ap
                        (λ st'. ok tt (record {
                          db = counted (push_record id queue bytes) s.db;
                          st = st';
                          world = w4;
                        }))
                        (sym (enqueued-absent offset id queue (length bytes) s.st absent)),
                same4 ∙ same3 ∙ same,
              )
        ]

    -- The replay of a record makes the step that the record stands for.
    pub replay_record-Step :
        (r : LogRecord) (st' : State)
        → os.bytes s.world s.db.fd ≡ front ++ (encoded r ++ back)
        → offset + (length (record_payload r) + 1000) < 2 ^ 64
        → length (record_payload r) < 2 ^ 32
        → Step offset s.st r st'
        → Recovers r st'
    unfolding replay_record lease_payload settle_payload put_u64le put_u32le
    replay_record-Step (push_record id queue bytes) st' content fits small (pushes, made) =
        subst (Recovers (push_record id queue bytes)) (sym made) (
          push-Recovers id queue bytes content
            (omega (arith, length-push_payload id queue bytes, fits))
            (omega (arith, length-push_payload id queue bytes)) pushes)
    replay_record-Step (lease_record id expiry_us lease_id) st' content fits small
          (
            m,
            q,
            (
              id_fits, expiry_fits, pos, lease_fits, found, waits, free, queue, first, some_id,
              room,
            ),
            made,
          ) =
        let (w1, read, same) =
          payload_read reads s.db.fd front back offset e 2 _ 24 s.world
            (length-lease_payload id expiry_us lease_id) content in
        let (w2, room2, same2) = allocs.alloc_total w1 in
        (
          w2,
          rw (made) (
              ap (λ n. replay_record 2 n 24 s) (omega (arith, fits))
              ∙ replay_lease-message s m q id expiry_us lease_id (offset + 9) w1 w2 id_fits
                  expiry_fits pos lease_fits found (msg_get-id s.st id m found) waits free queue
                  read room2),
          same2 ∙ same,
        )
    replay_record-Step (ack_record id lease_id) st' content fits small
          (m, q, (id_fits, lease_fits, found, held, by, queue), made) =
        let (w1, read, same) =
          payload_read reads s.db.fd front back offset e 3 _ 16 s.world
            (length-settle_payload id lease_id) content in
        (
          w1,
          rw made (
              ap (λ n. replay_record 3 n 16 s) (omega (arith, fits))
              ∙ replay_ack-message s m q id lease_id (offset + 9) w1 id_fits lease_fits found held
                  by queue read),
          same,
        )
    replay_record-Step (nack_record id lease_id) st' content fits small
          (m, q, (id_fits, lease_fits, found, held, by, queue), pos, room, made) =
        let (w1, read, same) =
          payload_read reads s.db.fd front back offset e 4 _ 16 s.world
            (length-settle_payload id lease_id) content in
        (
          w1,
          rw made (
              ap (λ n. replay_record 4 n 16 s) (omega (arith, fits))
              ∙ (replay_nack-message s m q id lease_id (offset + 9) w1 id_fits lease_fits found held
                  by queue read).0),
          same,
        )
    replay_record-Step (expire_record id lease_id) st' content fits small
          (m, q, (id_fits, lease_fits, found, held, by, queue), pos, room, made) =
        let (w1, read, same) =
          payload_read reads s.db.fd front back offset e 5 _ 16 s.world
            (length-settle_payload id lease_id) content in
        (
          w1,
          rw made (
              ap (λ n. replay_record 5 n 16 s) (omega (arith, fits))
              ∙ (replay_nack-message s m q id lease_id (offset + 9) w1 id_fits lease_fits found held
                  by queue read).1),
          same,
        )
