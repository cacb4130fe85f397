-- ===== src/History/Pushing.antt =====
-- `qdb_push` appends one PUSH record, and makes its step in memory.
use qdb.Base.{
  ℕ, ◌+◌, ◌%◌, ◌^◌, ◌<◌, ◌≤◌, ◌≡◌, refl, sym, ap, subst, ◌∙◌, not, true, false, none, some, Option,
  List, [], ◌∷◌, ◌++◌, length, arith, if◌then◌else◌, ltb, leb, Run, ok, err_nomem, pure, ◌>>◌,
  Ensures, ends, Ensures-bind, Ensures-map, Ensures-run, ◌⊎◌, inl, inr, err_inval,
}
use qdb.Word.{u32, u64}
use qdb.Format.{msg_max_len}
use qdb.Platform.{Platform, PlatformLaws}
use qdb.State.{
  Msg, State, Queue, msg_insert, queue_get, queue_create, new_queue, queue_pending_append,
}
use qdb.Db.{
  Db, Handle, Session, or_nomem, set_st, with_state, io, Ensures-as_code, Ensures-io,
  Ensures-io_handle,
}
use qdb.Replay.{new_msg, queue_get_or_create}
use qdb.Replay.LivePush.{create-insert, queue_get-msg_insert}
use qdb.Api.Push.{valid_name, is_null, data_bytes, push_enqueue, push_append, push}
use qdb.Api.Durable.{push_append-Durable}
use qdb.History.{
  LogRecord, push_record, encoded, log_bytes, enqueued, enqueued-found, enqueued-absent, Pushes,
}
use qdb.History.Recorded.{
  Recorded, Recorded-snoc, Recorded-same, Durable-same, Ensures-with_state, Ensures-guarded,
}

abbrev message : ℕ → ℕ → ℕ → List ℕ → Msg
message msg_id rec_start len queue =
    new_msg msg_id (u64 (rec_start + 9 + 9 + length queue)) len (length queue) queue

-- The append behind the two ways to have the queue.
placed :
    (st g : State) (msg_id rec_start len : ℕ) (queue : List ℕ) (q : Queue)
    → ((queue_get (msg_insert st (message msg_id rec_start len queue)) queue (length queue)
            ≡ some q)
          × (g ≡ msg_insert st (message msg_id rec_start len queue))
        ⊎ (queue_get (msg_insert st (message msg_id rec_start len queue)) queue (length queue)
            ≡ none)
          × (q ≡ new_queue queue (length queue))
          × (g
              ≡ queue_create
                  (msg_insert st (message msg_id rec_start len queue))
                  queue
                  (length queue)))
    → queue_pending_append g q msg_id ≡ enqueued rec_start msg_id queue len st
placed st g msg_id rec_start len queue q (inl (found, e)) =
    ap (λ x. queue_pending_append x q msg_id) e
    ∙ sym (
        enqueued-found rec_start msg_id queue len st q (
          sym (queue_get-msg_insert st (message msg_id rec_start len queue) queue (length queue))
          ∙ found))
placed st g msg_id rec_start len queue q (inr (absent, new, e)) =
    ap (λ x. queue_pending_append x q msg_id)
      (e ∙ create-insert st (message msg_id rec_start len queue) queue (length queue))
    ∙ ap
        (λ r.
          queue_pending_append
            (msg_insert (queue_create st queue (length queue)) (message msg_id rec_start len queue))
            r msg_id)
        new
    ∙ sym (
        enqueued-absent rec_start msg_id queue len st (
          sym (queue_get-msg_insert st (message msg_id rec_start len queue) queue (length queue))
          ∙ absent))

pub name_bounds :
    (queue : List ℕ) → valid_name queue ≡ true → (0 < length queue) × (length queue ≤ 255)
name_bounds queue named = (ground arith, ground arith)

module _ {W : Type 0} ⦃os : Platform W⦄ (laws : PlatformLaws os) where
  pub alloc-Ensures : (w : W) → Ensures (λ _ w'. os.bytes w' ≡ os.bytes w) (os.alloc w)
  alloc-Ensures w = Ensures-run (os.alloc w) (λ a w' e. laws.alloc_ok w e)

  -- Either way the queue is there afterwards.
  abbrev Made : Session W → List ℕ → ℕ → Queue → Session W → Type 0
  Made s name name_len q t =
      (t.db ≡ s.db)
      × (os.bytes t.world ≡ os.bytes s.world)
      × ((queue_get s.st name name_len ≡ some q) × (t.st ≡ s.st)
          ⊎ (queue_get s.st name name_len ≡ none)
            × (q ≡ new_queue name name_len)
            × (t.st ≡ queue_create s.st name name_len))

  queue_get_or_create-Ensures :
      (s : Session W) (name : List ℕ) (name_len : ℕ)
      → Ensures (Made s name name_len) (queue_get_or_create name name_len s)
  unfolding queue_get_or_create
  queue_get_or_create-Ensures s name name_len = split (queue_get s.st name name_len) refl
    where
      split :
          (o : Option Queue)
          → queue_get s.st name name_len ≡ o
          → Ensures (Made s name name_len) (elim o as (λ _. Run (Session W) Queue) [
            | some q ↦ ok q s
            | none ↦
                (do
                  or_nomem (io os.alloc)
                  set_st (λ st. queue_create st name name_len)
                  pure (new_queue name name_len))
                  s
          ])
      split (some q) found = ends (refl, refl, inl (found, refl))
      split none absent =
          Ensures-bind (Ensures-as_code err_nomem (Ensures-io os.alloc s (alloc-Ensures s.world)))
            λ _ t (same_db, same_st, same).
              ends
                (same_db, same, inr (absent, refl, ap (λ x. queue_create x name name_len) same_st))

  -- The message, and its place in the queue.
  pub push_enqueue-Ensures :
      (s : Session W) (msg_id rec_start len : ℕ) (queue : List ℕ)
      → length queue < 2 ^ 8
      → len < 2 ^ 32
      → Ensures
          (λ _ t.
            (t.db ≡ s.db)
            × (t.st ≡ enqueued rec_start msg_id queue len s.st)
            × (os.bytes t.world ≡ os.bytes s.world))
          (push_enqueue msg_id rec_start queue len s)
  unfolding push_enqueue
  push_enqueue-Ensures s msg_id rec_start len queue short small =
      let same_len : length queue % 2 ^ 8 ≡ length queue = omega arith in
      let narrow : u32 len ≡ len = omega arith in
      rw (same_len, narrow)
        (Ensures-bind (Ensures-as_code err_nomem (Ensures-io os.alloc s (alloc-Ensures s.world)))
          λ _ t (same_db, same_st, same).
            Ensures-bind
              (queue_get_or_create-Ensures
                (record t { st = msg_insert t.st (message msg_id rec_start len queue) }) queue
                (length queue))
              λ q g (same_db', same', made). ends (
                same_db' ∙ same_db,
                placed t.st g.st msg_id rec_start len queue q made
                    ∙ ap (enqueued rec_start msg_id queue len) same_st,
                same' ∙ same,
              ))

  -- The part of `qdb_push` behind its tests.
  push_behind :
      (h : Handle W) (rs : List LogRecord) (st : State) (queue bytes : List ℕ) (len : ℕ)
      → Recorded os h rs st
      → length bytes ≡ len
      → h.db.log_end_offset + (length queue + length bytes + 19) < 2 ^ 64
      → h.db.next_msg_id + 1 < 2 ^ 64
      → Pushes st h.db.next_msg_id queue bytes
      → Ensures
          (λ _ g.
            (st' : State) × Recorded os g (rs ++ push_record h.db.next_msg_id queue bytes ∷ []) st')
          ((push_append queue bytes
              >> with_state (push_enqueue h.db.next_msg_id h.db.log_end_offset queue len))
            h)
  push_behind h rs st queue bytes len known long fits next pushes =
      let r = push_record h.db.next_msg_id queue bytes in
      let st' = enqueued h.db.log_end_offset h.db.next_msg_id queue (length bytes) st in
      let (pos, id_fits, some_name, short, small, fresh, room) = pushes in
      Ensures-bind (push_append-Durable laws h queue bytes (log_bytes rs) known.durable fits)
        λ _ g (same_state, new_db, durable).
          Ensures-with_state (push_enqueue h.db.next_msg_id h.db.log_end_offset queue len) g st
            (same_state ∙ known.in_memory)
            (Ensures-map
              (λ _ t (same_db, made, same).
                let db_eq = same_db ∙ new_db in
                (
                  st',
                  Recorded-snoc os h rs st known
                      (record { db = t.db; state = some t.st; world = t.world }) r st'
                      (pushes, refl)
                      (ap some (
                        made
                        ∙ ap (λ n. enqueued h.db.log_end_offset h.db.next_msg_id queue n st)
                            (sym long)))
                      (Durable-same g.db t.db (log_bytes rs ++ encoded r) g.world t.world same_db
                        same durable)
                      (ap Db.log_start_offset db_eq) (omega (arith, ap Db.next_msg_id db_eq))
                      (omega (arith, ap Db.next_lease_id db_eq))
                      (λ id above e. omega (arith, ap Db.next_msg_id db_eq)) (λ id above. tt)
                      (omega (arith, ap Db.next_msg_id db_eq)) (sym (ap Db.next_lease_id db_eq)),
                ))
              (push_enqueue-Ensures (record { db = g.db; st = st; world = g.world })
                h.db.next_msg_id h.db.log_end_offset len queue short (omega (arith, small))))

  -- On a handle in service, a push that ends well has appended one PUSH record, under the next id,
  -- to the log, and the state in memory has made the record's step: the handle is in service with
  -- the longer log. The push is of the `len` bytes at the pointer, the next id and the queue's
  -- counter do not overflow, and the file has room for the record.
  pub push-Recorded :
      (h : Handle W) (rs : List LogRecord) (st : State) (queue : List ℕ)
      (data_arg : Option (List ℕ)) (len : ℕ)
      → Recorded os h rs st
      → length (data_bytes data_arg len) ≡ len
      → h.db.log_end_offset + (len + 1000) < 2 ^ 64
      → h.db.next_msg_id + 1 < 2 ^ 64
      → ((q : Queue) → queue_get st queue (length queue) ≡ some q → q.pending_count + 1 < 2 ^ 32)
      → Ensures
          (λ _ g.
            (st' : State) × Recorded os g
              (rs ++ push_record h.db.next_msg_id queue (data_bytes data_arg len) ∷ [])
              st')
          (push (some queue) data_arg len h)
  unfolding push
  push-Recorded h rs st queue data_arg len known long fits next room =
      let bytes = data_bytes data_arg len in
      Ensures-guarded (valid_name queue) err_inval _ h λ named.
        Ensures-guarded (not (if ltb 0 len then is_null data_arg else false)) err_inval _ h
          λ present. Ensures-guarded (leb len msg_max_len) err_inval _ h λ small.
            let bounds = name_bounds queue named in
            let few : len ≤ msg_max_len = ground arith in
            Ensures-bind
              (Ensures-as_code err_nomem (Ensures-io_handle os.alloc h (alloc-Ensures h.world)))
              λ _ g (same_db, same_state, same).
                subst
                  (λ n.
                    Ensures
                      (λ _ g'.
                        (st' : State) × Recorded os g' (rs ++ push_record n queue bytes ∷ []) st')
                      ((push_append queue bytes
                          >> with_state
                              (push_enqueue g.db.next_msg_id g.db.log_end_offset queue len))
                        g))
                  (ap Db.next_msg_id same_db)
                  (push_behind g rs st queue bytes len
                    (Recorded-same h g rs st same_db same_state same known) long
                    (omega (arith, bounds, ap Db.log_end_offset same_db))
                    (omega (arith, ap Db.next_msg_id same_db))
                    (
                      omega (arith, known.next_pos, ap Db.next_msg_id same_db),
                      omega (arith, ap Db.next_msg_id same_db),
                      bounds.0,
                      omega (arith, bounds),
                      omega (arith, bounds, few),
                      known.fresh g.db.next_msg_id (omega (arith, ap Db.next_msg_id same_db)),
                      room,
                    ))
