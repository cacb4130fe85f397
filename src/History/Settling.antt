-- ===== src/History/Settling.antt =====
-- `qdb_ack`, `qdb_nack` and the expiry of one lease append one record, and make its step in memory.
use qdb.Base.{
  ℕ, ◌+◌, ◌^◌, ◌<◌, zero, suc, not-none-some, ◌≡◌, refl, sym, ap, subst, ◌∙◌, true, none, some,
  Option, List, [], ◌∷◌, ◌++◌, arith, ==→eq, ◌==◌, ◌&&◌, if◌then◌else◌, Run, ok, ◌>>◌, pure,
  Ensures, Bool-cases, ends, Ensures-bind, ◌⊎◌, Ensures-map, err_noent, err_inval, inl, inr,
  some_inj, eq→==, false,
}
use qdb.Format.{rt_msg_ack, rt_msg_nack, rt_msg_expire, hdr_size}
use qdb.Platform.{Platform, PlatformLaws}
use qdb.State.{
  MsgState, pending, leased, acked, dead, Msg, State, Queue, state_alloc, msg_get, queue_get, find,
}
use qdb.Db.{Db, Handle, Session, set_st}
use qdb.Io.Append.{record_bytes}
use qdb.Replay.{is_leased}
use qdb.Api.Settle.{
  settle_payload, settle_append, leased_message, ack_message, return_message, ack_session,
  nack_session, ack, nack, expire_leased, expire_one,
}
use qdb.Api.Durable.{Durable, settle_append-Durable}
use qdb.History.{
  LogRecord, ack_record, nack_record, expire_record, encoded, log_bytes, Step, Settles,
}
use qdb.History.Fresh.{BringsNot, zero-none}
use qdb.History.Counters.{PushesBelow, lease_past}
use qdb.History.FreshLease.{LeasesNot}
use qdb.History.Recorded.{
  Recorded, Recorded-snoc, Recorded-same, recorded-WellFormed, Ensures-with_state, Ensures-guarded,
  Ensures-required,
}

-- A session as a handle.
abbrev pub closed : {W : Type 0} → Session W → Handle W
closed s = record { db = s.db; state = some s.st; world = s.world }

-- The message's queue has room for it.
abbrev pub HasRoom : State → ℕ → Type 0
HasRoom st id =
    (m : Msg) (q : Queue)
    → msg_get st id ≡ some m
    → queue_get st m.queue_name m.queue_name_len ≡ some q
    → q.pending_count + 1 < 2 ^ 32

-- The message is leased, and under this lease.
abbrev pub Live : State → ℕ → ℕ → Type 0
Live st msg_id lease_id =
    (m : Msg) × (msg_get st msg_id ≡ some m) × (m.state ≡ leased) × (m.lease_id ≡ lease_id)

not-true-false : true ≡ false → ⊥
not-true-false e = cc

leased_state : (x : MsgState) → is_leased x ≡ true → x ≡ leased
leased_state pending e = cc
leased_state leased e = refl
leased_state acked e = cc
leased_state dead e = cc

nothing : (id : ℕ) → msg_get state_alloc id ≡ none
unfolding msg_get find
nothing id = refl

module _ {W : Type 0} ⦃os : Platform W⦄ (laws : PlatformLaws os) where
  -- What the tests of `qdb_ack` and `qdb_nack` let through.
  leased_message-Ensures :
      (s : Session W) (msg_id lease_id : ℕ)
      → Ensures
          (λ m t.
            (t ≡ s) × (msg_get s.st msg_id ≡ some m) × (m.state ≡ leased) × (m.lease_id ≡ lease_id))
          (leased_message msg_id lease_id s)
  unfolding leased_message
  leased_message-Ensures s msg_id lease_id =
      Ensures-required (msg_get s.st msg_id) err_noent _ s λ m found.
        Ensures-guarded (is_leased m.state) err_noent _ s λ held.
          Ensures-guarded (m.lease_id == lease_id) err_inval _ s
            λ same. ends (refl, found, leased_state m.state held, ==→eq m.lease_id lease_id same)

  module _ (s : Session W) (rs : List LogRecord) (known : Recorded os (closed s) rs s.st) where
    -- What is found of a leased message.
    settles :
        (id lease_id : ℕ) (m : Msg)
        → id < 2 ^ 64
        → lease_id < 2 ^ 64
        → msg_get s.st id ≡ some m
        → m.state ≡ leased
        → m.lease_id ≡ lease_id
        → (q : Queue) × Settles s.st id lease_id m q
    settles id lease_id m id_fits lease_fits found held by =
        let (l, q, at) = (recorded-WellFormed os (closed s) rs s.st known).home id m found in
        (q, (id_fits, lease_fits, found, held, by, ap (queue_get s.st m.queue_name) l ∙ at))

    positive_id : (id : ℕ) (m : Msg) → msg_get s.st id ≡ some m → 0 < id
    positive_id zero m found = absurd (
        not-none-some
          (sym (zero-none hdr_size state_alloc rs s.st known.steps (nothing 0)) ∙ found))
    positive_id (suc n) m found = omega arith

    settled :
        (r : LogRecord) (type msg_id lease_id : ℕ) (f : State → State)
        → encoded r ≡ record_bytes type (settle_payload msg_id lease_id)
        → s.db.log_end_offset + 26 < 2 ^ 64
        → Step s.db.log_end_offset s.st r (f s.st)
        → ((id : ℕ) → BringsNot r id)
        → ((id : ℕ) → LeasesNot r id)
        → PushesBelow s.db.next_msg_id r
        → lease_past r s.db.next_lease_id ≡ s.db.next_lease_id
        → Ensures
            (λ _ t. Recorded os (closed t) (rs ++ r ∷ []) (f s.st))
            ((settle_append type msg_id lease_id >> set_st f) s)
    settled r type msg_id lease_id f bytes fits step brings leases below counts =
        Ensures-bind
          (settle_append-Durable laws s (log_bytes rs) type msg_id lease_id known.durable fits)
          λ _ t (same_st, new_db, durable). ends (
            Recorded-snoc os (closed s) rs s.st known (closed (record t { st = f t.st })) r (f s.st)
              step (ap (λ x. some (f x)) same_st)
              (subst (λ b. Durable os t.db (log_bytes rs ++ b) t.world) (sym bytes) durable)
              (ap Db.log_start_offset new_db) (omega (arith, ap Db.next_msg_id new_db))
              (omega (arith, ap Db.next_lease_id new_db)) (λ id above. brings id)
              (λ id above. leases id)
              (subst (λ n. PushesBelow n r) (sym (ap Db.next_msg_id new_db)) below)
              (counts ∙ sym (ap Db.next_lease_id new_db)))

    module _ (msg_id lease_id : ℕ) (id_fits : msg_id < 2 ^ 64) (lease_fits : lease_id < 2 ^ 64)
        (fits : s.db.log_end_offset + 26 < 2 ^ 64) where
      ack_session-Recorded :
          Ensures
            (λ _ t.
              (st' : State) × Recorded os (closed t) (rs ++ ack_record msg_id lease_id ∷ []) st')
            (ack_session msg_id lease_id s)
      unfolding ack_session
      ack_session-Recorded =
          Ensures-bind (leased_message-Ensures s msg_id lease_id) λ m t (same, found, held, by).
            let (q, facts) = settles msg_id lease_id m id_fits lease_fits found held by in
            subst
              (λ t'.
                Ensures
                  (λ _ g.
                    (st' : State) × Recorded os (closed g) (rs ++ ack_record msg_id lease_id ∷ [])
                      st')
                  ((settle_append rt_msg_ack msg_id lease_id >> set_st (ack_message m lease_id))
                    t'))
              (sym same)
              (Ensures-map (λ _ g r. (ack_message m lease_id s.st, r))
                (settled (ack_record msg_id lease_id) rt_msg_ack msg_id lease_id
                  (ack_message m lease_id) refl fits (m, q, facts, refl) (λ id. tt) (λ id. tt) tt
                  refl))

      nack_session-Recorded :
          HasRoom s.st msg_id
          → Ensures
              (λ _ t.
                (st' : State) × Recorded os (closed t) (rs ++ nack_record msg_id lease_id ∷ []) st')
              (nack_session msg_id lease_id s)
      unfolding nack_session
      nack_session-Recorded room =
          Ensures-bind (leased_message-Ensures s msg_id lease_id) λ m t (same, found, held, by).
            let (q, facts) = settles msg_id lease_id m id_fits lease_fits found held by in
            let (a, b, c, d, e, queue) = facts in
            subst
              (λ t'.
                Ensures
                  (λ _ g.
                    (st' : State) × Recorded os (closed g) (rs ++ nack_record msg_id lease_id ∷ [])
                      st')
                  ((settle_append rt_msg_nack msg_id lease_id >> set_st (return_message m lease_id))
                    t'))
              (sym same)
              (Ensures-map (λ _ g r. (return_message m lease_id s.st, r))
                (settled (nack_record msg_id lease_id) rt_msg_nack msg_id lease_id
                  (return_message m lease_id) refl fits
                  (m, q, facts, positive_id msg_id m found, room m q found queue, refl) (λ id. tt)
                  (λ id. tt) tt refl))

      -- The run of a live lease that ends well has appended its EXPIRE record; that of a stale one ends
      -- well, with nothing changed.
      abbrev Expires : Run (Session W) (Unit {0}) → Type 0
      Expires run =
          (Live s.st msg_id lease_id
            × Ensures
                (λ _ t.
                  (st' : State) × Recorded os (closed t) (rs ++ expire_record msg_id lease_id ∷ [])
                    st')
                run)
          ⊎ (¬ Live s.st msg_id lease_id × (run ≡ ok tt s))

      gone : msg_get s.st msg_id ≡ none → ¬ Live s.st msg_id lease_id
      gone absent (m, found, held, by) = grind (arith, absent, found)

      stale :
          (m : Msg)
          → msg_get s.st msg_id ≡ some m
          → (is_leased m.state && m.lease_id == lease_id) ≡ false
          → ¬ Live s.st msg_id lease_id
      stale m found different (m', found', held, by) =
          let same : m ≡ m' = some_inj (sym found ∙ found') in
          not-true-false (
            sym (both m'.state m'.lease_id held by)
            ∙ ap (λ (n : Msg). is_leased n.state && n.lease_id == lease_id) (sym same)
            ∙ different)
        where
          both :
              (x : MsgState) (id : ℕ)
              → x ≡ leased
              → id ≡ lease_id
              → (is_leased x && id == lease_id) ≡ true
          both x id e e' = rw (e, e') (ap (λ b. true && b) (eq→== lease_id lease_id refl))

      -- In a session in service, the expiry of a lease under which the message is leased, if it
      -- ends well, has appended an EXPIRE record, and the state in memory has made the record's
      -- step; the expiry of a lease whose message is gone, settled or leased again ends well, and
      -- changes nothing at all. The ids fit 64 bits, the counter of the message's queue does not
      -- overflow, and the file has room for the record.
      pub expire_one-Recorded : HasRoom s.st msg_id → Expires (expire_one lease_id msg_id s)
      unfolding expire_one expire_leased
      expire_one-Recorded room = split (msg_get s.st msg_id) refl
        where
          split :
              (o : Option Msg)
              → msg_get s.st msg_id ≡ o
              → Expires (elim o as (λ _. Run (Session W) (Unit {0})) [
                | none ↦ ok tt s
                | some m ↦
                    (if is_leased m.state && m.lease_id == lease_id
                        then expire_leased m msg_id lease_id
                        else pure tt)
                      s
              ])
          split none absent = inr (gone absent, refl)
          split (some m) found = elim (Bool-cases (is_leased m.state && m.lease_id == lease_id)) [
            | inl both ↦
                let held : m.state ≡ leased = leased_state m.state (ground arith) in
                let by : m.lease_id ≡ lease_id = ==→eq m.lease_id lease_id (ground arith) in
                let (q, facts) = settles msg_id lease_id m id_fits lease_fits found held by in
                let (a, b, c, d, e, queue) = facts in
                inl (
                  (m, found, held, by),
                  rw both (
                      Ensures-map (λ _ g r. (return_message m lease_id s.st, r))
                        (settled (expire_record msg_id lease_id) rt_msg_expire msg_id lease_id
                          (return_message m lease_id) refl fits
                          (m, q, facts, positive_id msg_id m found, room m q found queue, refl)
                          (λ id. tt) (λ id. tt) tt refl)),
                )
            | inr different ↦ inr (stale m found different, rw different refl)
          ]

  -- On a handle in service, an ACK or a NACK that ends well has appended its record, and the state
  -- in memory has made the record's step: the handle is in service with the longer log. The ids
  -- fit 64 bits, the counter of the message's queue does not overflow, and the file has room for
  -- the record.
  pub settle-Recorded :
      (h : Handle W) (rs : List LogRecord) (st : State) (msg_id lease_id : ℕ)
      → Recorded os h rs st
      → msg_id < 2 ^ 64
      → lease_id < 2 ^ 64
      → h.db.log_end_offset + 26 < 2 ^ 64
      → HasRoom st msg_id
      → Ensures
          (λ _ g. (st' : State) × Recorded os g (rs ++ ack_record msg_id lease_id ∷ []) st')
          (ack msg_id lease_id h)
        × Ensures
            (λ _ g. (st' : State) × Recorded os g (rs ++ nack_record msg_id lease_id ∷ []) st')
            (nack msg_id lease_id h)
  unfolding ack nack
  settle-Recorded h rs st msg_id lease_id known id_fits lease_fits fits room =
      let s : Session W = record { db = h.db; st = st; world = h.world } in
      let known' = Recorded-same h (closed s) rs st refl (sym known.in_memory) refl known in
      (
        Ensures-with_state (ack_session msg_id lease_id) h st known.in_memory
            (ack_session-Recorded s rs known' msg_id lease_id id_fits lease_fits fits),
        Ensures-with_state (nack_session msg_id lease_id) h st known.in_memory
            (nack_session-Recorded s rs known' msg_id lease_id id_fits lease_fits fits room),
      )
