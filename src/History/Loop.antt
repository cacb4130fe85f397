-- ===== src/History/Loop.antt =====
-- The replay of a whole log, record by record.
use qdb.Base.{
  ℕ, zero, suc, ◌+◌, ◌^◌, ◌<◌, ◌≤◌, ◌≡◌, refl, sym, ap, ◌∙◌, true, false, some, List, [], ◌∷◌, ◌++◌,
  length, length-append, append_assoc, arith, ok, ltb, lt→ltb,
}
use qdb.Format.{max_record_payload, hdr_size}
use qdb.Platform.{Platform, ReadsSucceed, AllocsSucceed}
use qdb.State.{State, state_alloc}
use qdb.Db.{Db, Handle, Session}
use qdb.Io.{is_known_type, header_encode}
use qdb.Io.Append.{length-record_bytes}
use qdb.Io.RoundTrip.{scan_record-append}
use qdb.Replay.{replay_loop, replay_log, log_fuel}
use qdb.Api.Durable.{
  Durable, length-settle_payload, length-lease_payload, length-push_payload, length-header_encode,
}
use qdb.History.{
  LogRecord, push_record, lease_record, ack_record, nack_record, expire_record, record_type,
  record_payload, encoded, log_bytes, Step, Steps,
}
use qdb.History.Recovery.{counted, replay_record-Step}

-- What the replay of a log makes of the counters.
unfoldable pub counted_all : List LogRecord → Db → Db
counted_all [] db = db
counted_all (r ∷ rs) db = counted_all rs (counted r db)

counted-keeps :
    (r : LogRecord) (db : Db)
    → ((counted r db).fd ≡ db.fd) × ((counted r db).log_end_offset ≡ db.log_end_offset)
counted-keeps (push_record id queue bytes) db = (refl, refl)
counted-keeps (lease_record id expiry_us lease_id) db = (refl, refl)
counted-keeps (ack_record id lease_id) db = (refl, refl)
counted-keeps (nack_record id lease_id) db = (refl, refl)
counted-keeps (expire_record id lease_id) db = (refl, refl)

known : (r : LogRecord) → is_known_type (record_type r) ≡ true
unfolding is_known_type
known (push_record id queue bytes) = refl
known (lease_record id expiry_us lease_id) = refl
known (ack_record id lease_id) = refl
known (nack_record id lease_id) = refl
known (expire_record id lease_id) = refl

small :
    (offset : ℕ) (st : State) (r : LogRecord) (st' : State)
    → Step offset st r st'
    → length (record_payload r) ≤ max_record_payload
small offset st (push_record id queue bytes) st'
      ((pos, fits, some_name, short, few, fresh, room), e) =
    omega (arith, length-push_payload id queue bytes)
small offset st (lease_record id expiry_us lease_id) st' step =
    omega (arith, length-lease_payload id expiry_us lease_id)
small offset st (ack_record id lease_id) st' step = omega (arith, length-settle_payload id lease_id)
small offset st (nack_record id lease_id) st' step =
    omega (arith, length-settle_payload id lease_id)
small offset st (expire_record id lease_id) st' step =
    omega (arith, length-settle_payload id lease_id)

module _ {W : Type 0} ⦃os : Platform W⦄ (reads : ReadsSucceed os) (allocs : AllocsSucceed os) where
  abbrev Reaches : ℕ → ℕ → Session W → List LogRecord → State → Type 0
  Reaches fuel offset s rs st' =
      (w' : W) × (replay_loop fuel offset s
        ≡ ok tt (record { db = counted_all rs s.db; st = st'; world = w' }))
      × (os.bytes w' ≡ os.bytes s.world)

  -- The loop from the offset of a record on makes the steps of the records up to the end of the log.
  replay_loop-Steps :
      (rs : List LogRecord) (fuel : ℕ) (s : Session W) (front : List ℕ) (offset : ℕ) (st' : State)
      → offset ≡ length front
      → os.bytes s.world s.db.fd ≡ front ++ log_bytes rs
      → s.db.log_end_offset ≡ offset + length (log_bytes rs)
      → length (log_bytes rs) < fuel
      → s.db.log_end_offset + (max_record_payload + 2000) < 2 ^ 64
      → Steps offset s.st rs st'
      → Reaches fuel offset s rs st'
  unfolding replay_loop Steps log_bytes counted_all
  replay_loop-Steps rs zero s front offset st' e content end enough fits steps =
      absurd (omega arith)
  replay_loop-Steps [] (suc fuel) s front offset st' e content end enough fits done =
      let over : ltb offset s.db.log_end_offset ≡ false = ground arith in
      (s.world, rw (over, sym done) refl, refl)
  replay_loop-Steps (r ∷ rs) (suc fuel) s front offset st' e content end enough fits
        (mid, step, steps) =
      let payload = record_payload r in
      let few = small offset s.st r mid step in
      let long : length (encoded r) ≡ length payload + 10 =
        length-record_bytes (record_type r) payload in
      let both = length-append (encoded r) (log_bytes rs) in
      let more : ltb offset s.db.log_end_offset ≡ true =
        lt→ltb offset s.db.log_end_offset (omega arith) in
      let (w1, scan, same1) =
        scan_record-append reads s.db.fd (record_type r) payload front (log_bytes rs) offset
          s.db.log_end_offset s.world content e (known r) few (omega arith) (omega arith) in
      let s1 : Session W = record s { world = w1 } in
      let (w2, made, same2) =
        replay_record-Step reads allocs s1 front (log_bytes rs) offset e r mid
          (ap (λ f. f s.db.fd) same1 ∙ content) (omega (arith, few, fits)) (omega (arith, few))
          step in
      let s2 : Session W = record { db = counted r s.db; st = mid; world = w2 } in
      let (same_fd, same_end) = counted-keeps r s.db in
      let (w3, rest, same3) =
        replay_loop-Steps rs fuel s2 (front ++ encoded r) (offset + length (encoded r)) st'
          (omega (arith, length-append front (encoded r)))
          (ap (os.bytes w2) same_fd
            ∙ ap (λ f. f s.db.fd) (same2 ∙ same1)
            ∙ content
            ∙ sym (append_assoc front (encoded r) (log_bytes rs)))
          (omega arith) (omega arith) (omega arith) steps in
      let next : offset + (length payload + 10) ≡ offset + length (encoded r) = omega arith in
      (
        w3,
        rw (more, scan, made) (ap (λ n. replay_loop fuel n s2) next ∙ rest),
        same3 ∙ same2 ∙ same1,
      )

  replay_log-run :
      (h : Handle W) (w0 : W) (t : Session W)
      → os.alloc h.world ≡ ok tt w0
      → replay_loop
          (log_fuel h.db)
          h.db.log_start_offset
          (record { db = h.db; st = state_alloc; world = w0 })
        ≡ ok tt t
      → replay_log h ≡ ok tt (record { db = t.db; state = some t.st; world = t.world })
  unfolding replay_log
  replay_log-run h w0 t room run = grind (arith, room, run)

  -- The replay of the log of a handle's file makes in memory, from nothing, the state that the records
  -- of the log stand for, raises the counters past the ids in them, and writes nothing, on a system
  -- whose reads succeed and which has memory left.
  pub replay_log-Steps :
      (h : Handle W) (rs : List LogRecord) (st : State)
      → Durable os h.db (log_bytes rs) h.world
      → h.db.log_start_offset ≡ hdr_size
      → h.db.log_end_offset + (max_record_payload + 2000) < 2 ^ 64
      → Steps hdr_size state_alloc rs st
      → (w' : W) × (replay_log h
          ≡ ok tt (record { db = counted_all rs h.db; state = some st; world = w' }))
        × (os.bytes w' ≡ os.bytes h.world)
  replay_log-Steps h rs st d start fits steps =
      let (w0, room, same0) = allocs.alloc_total h.world in
      let s : Session W = record { db = h.db; st = state_alloc; world = w0 } in
      let (w', run, same) =
        replay_loop-Steps rs (log_fuel h.db) s (header_encode h.db) hdr_size st
          (sym (length-header_encode h.db)) (ap (λ f. f h.db.fd) same0 ∙ d.content) d.log_end
          (omega (arith, d.log_end, start)) fits steps in
      (
        w',
        replay_log-run h w0 (record { db = counted_all rs h.db; st = st; world = w' }) room
            (ap (λ n. replay_loop (log_fuel h.db) n s) start ∙ run),
        same ∙ same0,
      )
