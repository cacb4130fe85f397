-- ===== src/Replay/Enough.antt =====
-- The replay of the log has fuel enough.
use qdb.Base.{
  ℕ, zero, suc, ◌+◌, ◌-◌, ◌^◌, ◌<◌, ◌≤◌, ◌≡◌, ◌≢◌, Exec, crash, arith, ltb, Bool-cases, inl, inr,
  ◌>>◌, pure, ok-ends, bind-returns, ap, sym, subst, ltb→lt,
}
use qdb.Word.{u64}
use qdb.Format.{max_record_payload, rec_hdr_size}
use qdb.Platform.{Platform, NoCrash}
use qdb.Db.{Db, Handle, Session, io, Ensures-io}
use qdb.Io.{Scan, scanned, scan_end, scan_partial, scan_record}
use qdb.Io.ScanLaws.{Moves, scan_record-Moves}
use qdb.Io.Returns.{scan_record-returns}
use qdb.Replay.{replay_record, replay_loop, replay_log, log_fuel}
use qdb.State.{state_alloc}
use qdb.Replay.Keeps.{replay_record-returns, replay_record-Ensures}

module _ {W : Type 0} ⦃os : Platform W⦄ (nc : NoCrash os) where
  io-returns : {A : Type 0} (m : Exec W A) (s : Session W) → m s.world ≢ crash → io m s ≢ crash
  io-returns m s returns e = grind arith

  -- What is behind a scan returns, if the loop does from a record's end on.
  rest-returns :
      (fuel offset : ℕ) (found : Scan) (s : Session W)
      → ((next : ℕ) (t : Session W)
          → t.db.log_end_offset ≡ s.db.log_end_offset
          → offset < next
          → next ≤ s.db.log_end_offset
          → replay_loop fuel next t ≢ crash)
      → Moves offset s.db.log_end_offset found
      → (elim found as (λ _. Exec (Session W) (Unit {0})) [
        | scan_end ↦ pure tt
        | scan_partial ↦ pure tt
        | scanned type plen next ↦
            replay_record type (u64 (offset + rec_hdr_size)) plen >> replay_loop fuel next
      ])
          s
        ≢ crash
  rest-returns fuel offset scan_end s loop moves = ok-ends
  rest-returns fuel offset scan_partial s loop moves = ok-ends
  rest-returns fuel offset (scanned type plen next) s loop (e, inside) =
      let payload_off = u64 (offset + rec_hdr_size) in
      bind-returns (replay_record type payload_off plen s) _
        (replay_record-Ensures nc type payload_off plen s)
        (replay_record-returns nc type payload_off plen s)
        (λ _ t same. loop next t same (omega arith) inside)

  loop-returns :
      (fuel offset : ℕ) (s : Session W)
      → s.db.log_end_offset - offset < fuel
      → s.db.log_end_offset + (max_record_payload + 10) < 2 ^ 64
      → replay_loop fuel offset s ≢ crash
  unfolding replay_loop
  loop-returns zero offset s enough fits = absurd (omega arith)
  loop-returns (suc fuel) offset s enough fits =
      let end = s.db.log_end_offset in
      let scan = scan_record s.db.fd offset end in
      elim (Bool-cases (ltb offset end)) [
        | inr done ↦ rw done ok-ends
        | inl more ↦ rw more (
            bind-returns (io scan s) _
              (Ensures-io scan s (scan_record-Moves s.db.fd offset end s.world fits))
              (io-returns scan s (scan_record-returns nc s.db.fd offset end s.world))
              (λ found t (same, state, moves).
                rest-returns fuel offset found t
                  (λ next t' same' past inside.
                    loop-returns fuel next t'
                      (omega (arith, ap Db.log_end_offset same, ltb→lt offset end more))
                      (omega (arith, ap Db.log_end_offset same)))
                  (subst (λ db. Moves offset db.log_end_offset found) (sym same) moves)))
      ]

  start-returns :
      (h : Handle W)
      → h.db.log_end_offset + (max_record_payload + 10) < 2 ^ 64
      → (w : W)
      → replay_loop
          (log_fuel h.db)
          h.db.log_start_offset
          (record { db = h.db; st = state_alloc; world = w })
        ≢ crash
  start-returns h fits w =
      loop-returns (log_fuel h.db) h.db.log_start_offset
        (record { db = h.db; st = state_alloc; world = w }) (omega arith) fits

  -- With a unit of fuel for each byte of the log, and one for the last test, the replay returns a
  -- code.
  pub replay_log-returns :
      (h : Handle W)
      → h.db.log_end_offset + (max_record_payload + 10) < 2 ^ 64
      → replay_log h ≢ crash
  unfolding replay_log
  replay_log-returns h fits e = grind (arith, nc.alloc_ends, start-returns h fits)
