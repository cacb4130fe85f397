-- ===== src/History/Popping.antt =====
-- `qdb_pop` appends one LEASE record, of the first message of the queue, and makes its step in memory.
use qdb.Base.{
  ℕ, ◌+◌, ◌%◌, ◌^◌, ◌<◌, ◌≡◌, ◌≢◌, refl, sym, ap, subst, ◌∙◌, true, none, some, not-none-some,
  some_inj, List, [], ◌∷◌, ◌++◌, length, arith, ltb, ◌==◌, pure, Ensures, ends, fails, Ensures-bind,
  Ensures-map, Ensures-run, Ensures-if, err_nomem, err_inval, err_empty, err_corrupt, Bool-cases,
  inl, inr, ltb→lt,
}
use qdb.Platform.{Platform, PlatformLaws}
use qdb.State.{Msg, Queue, State, msg_get, queue_get}
use qdb.State.WellFormed.{named}
use qdb.State.WellFormed.Links.Remove.{head-Waiting}
use qdb.State.Names.{msg_get-id}
use qdb.Db.{Db, Handle, Session, Ensures-io, Ensures-as_code}
use qdb.Io.{read_full}
use qdb.Replay.{past}
use qdb.Word.{u64}
use qdb.Api.Push.{valid_name}
use qdb.Api.Pop.{OutMsg, has_pending, lease_message, copy_data, do_pop, pop_session, pop}
use qdb.Api.Durable.{pop_append-Durable}
use qdb.Api.WellFormed.{queue_fields}
use qdb.History.{LogRecord, lease_record, log_bytes, Leases}
use qdb.History.Recorded.{
  Recorded, Recorded-snoc, Recorded-same, recorded-WellFormed, Ensures-with_state, Ensures-guarded,
  Ensures-required,
}
use qdb.History.Pushing.{name_bounds, alloc-Ensures}
use qdb.History.Settling.{closed}

past_self : (n : ℕ) → past n n ≡ u64 (n + 1)
past_self n = ground arith

module _ {W : Type 0} ⦃os : Platform W⦄ (laws : PlatformLaws os) where
  read_full-Ensures :
      (fd len offset : ℕ) (w : W)
      → Ensures (λ _ w'. os.bytes w' ≡ os.bytes w) (read_full fd len offset w)
  unfolding read_full
  read_full-Ensures fd len offset w =
      Ensures-bind
        (Ensures-run (os.pread fd len offset w) (λ got w' e. (laws.pread_ok fd len offset w e).1))
        λ got w' same. Ensures-if (length got == len) (pure got) _ (λ e. ends same) (λ e. fails)

  abbrev Unmoved : {A : Type 0} → Session W → A → Session W → Type 0
  Unmoved s _ t = (t.db ≡ s.db) × (t.st ≡ s.st) × (os.bytes t.world ≡ os.bytes s.world)

  copy_data-Ensures : (m : Msg) (s : Session W) → Ensures (Unmoved s) (copy_data m s)
  unfolding copy_data
  copy_data-Ensures m s =
      Ensures-if (ltb 0 m.data_len) _ (pure none)
        (λ e.
          Ensures-bind
            (Ensures-as_code err_nomem (Ensures-io os.alloc s (alloc-Ensures laws s.world)))
            λ _ t (a, b, c).
              Ensures-bind
                (Ensures-io (read_full t.db.fd m.data_len m.data_file_offset) t
                  (read_full-Ensures t.db.fd m.data_len m.data_file_offset t.world))
                λ bytes g (a', b', c'). ends (a' ∙ a, b' ∙ b, c' ∙ c))
        (λ e. ends (refl, refl, refl))

  -- The message that is popped is the queue's first one, under the next lease.
  abbrev Popped : Session W → List LogRecord → Msg → OutMsg → Session W → Type 0
  Popped s rs m out t =
      (expiry_us : ℕ) × (st' : State) × Recorded os (closed t)
        (rs ++ lease_record m.id expiry_us s.db.next_lease_id ∷ []) st'
      × (out.id ≡ m.id)
      × (out.lease_id ≡ s.db.next_lease_id)

  do_pop-Recorded :
      (s : Session W) (rs : List LogRecord) (q : Queue) (m : Msg)
      → Recorded os (closed s) rs s.st
      → s.db.log_end_offset + 34 < 2 ^ 64
      → s.db.next_lease_id + 1 < 2 ^ 64
      → ((expiry_us : ℕ) → expiry_us < 2 ^ 64 → Leases s.st m.id expiry_us s.db.next_lease_id m q)
      → Ensures (Popped s rs m) (do_pop q m s)
  unfolding do_pop
  do_pop-Recorded s rs q m known fits next leases =
      Ensures-bind (Ensures-as_code err_nomem (Ensures-io os.alloc s (alloc-Ensures laws s.world)))
        λ _ s1 (a1, b1, c1). Ensures-bind (copy_data-Ensures m s1) λ bytes s2 (a2, b2, c2).
          Ensures-bind
            (Ensures-as_code err_nomem (Ensures-io os.alloc s2 (alloc-Ensures laws s2.world)))
            λ _ s3 (a3, b3, c3).
              let same_db = a3 ∙ a2 ∙ a1 in
              let known3 =
                Recorded-same (closed s) (closed s3) rs s.st same_db (ap some (b3 ∙ b2 ∙ b1))
                  (c3 ∙ c2 ∙ c1) known in
              Ensures-bind
                (pop_append-Durable laws s3 m (log_bytes rs) known3.durable
                  (omega (arith, ap Db.log_end_offset same_db)))
                λ (lease_id, expiry_us) g (same_st, id_eq, expiry_fits, new_db, durable).
                  let lease_eq : lease_id ≡ s.db.next_lease_id =
                    id_eq ∙ ap Db.next_lease_id same_db in
                  let r = lease_record m.id expiry_us lease_id in
                  let known_g =
                    Recorded-snoc os (closed s3) rs s.st known3
                      (closed (record g { st = lease_message q m lease_id expiry_us g.st })) r
                      (lease_message q m lease_id expiry_us s.st)
                      (
                        m,
                        q,
                        subst (λ n. Leases s.st m.id expiry_us n m q) (sym lease_eq)
                            (leases expiry_us expiry_fits),
                        refl,
                      )
                      (ap (λ x. some (lease_message q m lease_id expiry_us x))
                        (same_st ∙ b3 ∙ b2 ∙ b1))
                      durable (ap Db.log_start_offset new_db)
                      (omega (arith, ap Db.next_msg_id new_db))
                      (omega
                        (arith, ap Db.next_lease_id new_db, id_eq, ap Db.next_lease_id same_db))
                      (λ id above. tt)
                      (λ id above e.
                        omega
                          (arith, ap Db.next_lease_id new_db, id_eq, ap Db.next_lease_id same_db))
                      tt
                      (ap (past lease_id) (sym id_eq)
                        ∙ past_self lease_id
                        ∙ sym (ap Db.next_lease_id new_db)) in
                  ends (
                    expiry_us,
                    lease_message q m lease_id expiry_us s.st,
                    subst
                        (λ n.
                          Recorded os
                            (closed (record g { st = lease_message q m lease_id expiry_us g.st }))
                            (rs ++ lease_record m.id expiry_us n ∷ [])
                            (lease_message q m lease_id expiry_us s.st))
                        lease_eq known_g,
                    refl,
                    lease_eq,
                  )

  -- The first message of a queue can be leased.
  pub head-Leases :
      (s : Session W) (rs : List LogRecord) (queue : List ℕ) (q : Queue) (m : Msg) (expiry_us : ℕ)
      → Recorded os (closed s) rs s.st
      → named s.st queue ≡ some q
      → has_pending q ≡ true
      → msg_get s.st q.pending_head ≡ some m
      → q.pending_count < 2 ^ 32
      → s.db.next_msg_id < 2 ^ 64
      → s.db.next_lease_id + 1 < 2 ^ 64
      → expiry_us < 2 ^ 64
      → Leases s.st m.id expiry_us s.db.next_lease_id m q
  head-Leases s rs queue q m expiry_us known at some_pending found fits ids_fit leases_fit
        expiry_fits =
      let wf = recorded-WellFormed os (closed s) rs s.st known in
      let (name, full, at') = queue_fields s.st 0 queue q wf at in
      let id_at = msg_get-id s.st q.pending_head m found in
      let found' : msg_get s.st m.id ≡ some m = ap (msg_get s.st) id_at ∙ found in
      let some_first : q.pending_head ≢ 0 = λ z. ground arith in
      let (m', again, waits, in_queue, len) =
        head-Waiting s.st q m at' full found' (sym id_at) some_first wf in
      let same : m' ≡ m = some_inj (sym again ∙ found') in
      let below : m.id < s.db.next_msg_id = elim (Bool-cases (ltb m.id s.db.next_msg_id)) [
        | inl e ↦ ltb→lt m.id s.db.next_msg_id e
        | inr e ↦ absurd (not-none-some (sym (known.fresh m.id (ground arith)) ∙ found'))
      ] in
      (
        omega (arith, below),
        expiry_fits,
        known.next_lease_pos,
        omega arith,
        found',
        sym (ap Msg.state same) ∙ waits,
        known.fresh_lease s.db.next_lease_id (omega arith),
        ap (λ (n : Msg). queue_get s.st n.queue_name n.queue_name_len) (sym same)
            ∙ ap (λ n. queue_get s.st n m'.queue_name_len) in_queue
            ∙ ap (queue_get s.st q.name) (len ∙ sym full)
            ∙ at',
        sym id_at,
        (λ z. some_first (sym id_at ∙ z)),
        fits,
      )

  -- On a handle in service, a pop that ends well has appended one LEASE record, of the first
  -- message of the queue, which it returns, under the next lease, and the state in memory has made
  -- the record's step: the handle is in service with the longer log. The ids are within 64 bits,
  -- the next lease's below the last one, the queue's counter is within 32 bits, and the file has
  -- room for the record.
  pub pop-Recorded :
      (h : Handle W) (rs : List LogRecord) (st : State) (queue : List ℕ)
      → Recorded os h rs st
      → h.db.log_end_offset + 34 < 2 ^ 64
      → h.db.next_msg_id < 2 ^ 64
      → h.db.next_lease_id + 1 < 2 ^ 64
      → ((q : Queue) → queue_get st queue (length queue) ≡ some q → q.pending_count < 2 ^ 32)
      → Ensures
          (λ out g.
            (q : Queue) × (queue_get st queue (length queue) ≡ some q)
            × (out.id ≡ q.pending_head)
            × (out.lease_id ≡ h.db.next_lease_id)
            × (expiry_us : ℕ) × (st' : State) × Recorded os g
                (rs ++ lease_record out.id expiry_us out.lease_id ∷ [])
                st')
          (pop (some queue) h)
  unfolding pop pop_session
  pop-Recorded h rs st queue known fits ids_fit leases_fit room =
      let s : Session W = record { db = h.db; st = st; world = h.world } in
      let known' = Recorded-same h (closed s) rs st refl (sym known.in_memory) refl known in
      Ensures-guarded (valid_name queue) err_inval _ h λ valid.
        let short : length queue % 2 ^ 8 ≡ length queue = omega (arith, name_bounds queue valid) in
        Ensures-with_state (pop_session queue) h st known.in_memory (
          Ensures-required (queue_get st queue (length queue % 2 ^ 8)) err_empty _ s λ q at'.
            let at = ap (queue_get st queue) (sym short) ∙ at' in
            Ensures-guarded (has_pending q) err_empty _ s λ some_pending.
              Ensures-required (msg_get st q.pending_head) err_corrupt _ s λ m found.
                Ensures-map
                  (λ out t (expiry_us, st', known_t, id_eq, lease_eq). (
                    q,
                    at,
                    id_eq ∙ msg_get-id st q.pending_head m found,
                    lease_eq,
                    expiry_us,
                    st',
                    subst
                        (λ n.
                          Recorded os (closed t) (rs ++ lease_record n expiry_us out.lease_id ∷ [])
                            st')
                        (sym id_eq)
                        (subst
                          (λ n.
                            Recorded os (closed t) (rs ++ lease_record m.id expiry_us n ∷ []) st')
                          (sym lease_eq) known_t),
                  ))
                  (do_pop-Recorded s rs q m known' fits leases_fit (λ expiry_us expiry_fits.
                    head-Leases s rs queue q m expiry_us known' at some_pending found (room q at)
                      ids_fit leases_fit expiry_fits)))
