-- ===== src/Api/Check/Enough.antt =====
-- The check of the log at the opening has fuel enough.
use qdb.Base.{
  ℕ, zero, suc, ◌+◌, ◌-◌, ◌^◌, ◌<◌, ◌≤◌, ◌≢◌, Exec, crash, arith, ltb, Bool-cases, inl, inr, pure,
  ok-ends, bind-returns, ap, ltb→lt,
}
use qdb.Format.{max_record_payload}
use qdb.Platform.{Platform, NoCrash}
use qdb.Db.{Db, Handle, io_handle, Ensures-io_handle}
use qdb.Io.{Scan, scanned, scan_end, scan_partial, scan_record}
use qdb.Io.ScanLaws.{Moves, scan_record-Moves}
use qdb.Io.Returns.{scan_record-returns, header_update-returns}
use qdb.Api.Check.{truncate_tail, validate_loop, validate_log}

module _ {W : Type 0} ⦃os : Platform W⦄ (nc : NoCrash os) where
  truncate_tail-returns : (offset : ℕ) (h : Handle W) → truncate_tail offset h ≢ crash
  unfolding truncate_tail
  truncate_tail-returns offset h e = grind (arith, header_update-returns nc, nc.file_truncate_ends)

  io-returns :
      {A : Type 0} (m : Exec W A) (h : Handle W) → m h.world ≢ crash → io_handle m h ≢ crash
  io-returns m h returns e = grind arith

  -- What is behind a scan returns, if the loop does from a record's end on.
  rest-returns :
      (fuel offset end : ℕ) (found : Scan) (g : Handle W)
      → ((next : ℕ) → offset < next → next ≤ end → validate_loop fuel next g ≢ crash)
      → Moves offset end found
      → (elim found as (λ _. Exec (Handle W) (Unit {0})) [
        | scan_end ↦ pure tt
        | scan_partial ↦ truncate_tail offset
        | scanned type plen next ↦ validate_loop fuel next
      ])
          g
        ≢ crash
  rest-returns fuel offset end scan_end g loop moves = ok-ends
  rest-returns fuel offset end scan_partial g loop moves = truncate_tail-returns offset g
  rest-returns fuel offset end (scanned type plen next) g loop (e, inside) =
      loop next (omega arith) inside

  loop-returns :
      (fuel offset : ℕ) (h : Handle W)
      → h.db.log_end_offset - offset < fuel
      → h.db.log_end_offset + (max_record_payload + 10) < 2 ^ 64
      → validate_loop fuel offset h ≢ crash
  unfolding validate_loop
  loop-returns zero offset h enough fits = absurd (omega arith)
  loop-returns (suc fuel) offset h enough fits =
      let end = h.db.log_end_offset in
      let scan = scan_record h.db.fd offset end in
      elim (Bool-cases (ltb offset end)) [
        | inr done ↦ rw done ok-ends
        | inl more ↦ rw more (
            bind-returns (io_handle scan h) _
              (Ensures-io_handle scan h (scan_record-Moves h.db.fd offset end h.world fits))
              (io-returns scan h (scan_record-returns nc h.db.fd offset end h.world))
              (λ found g (same, state, moves).
                rest-returns fuel offset end found g
                  (λ next past inside.
                    loop-returns fuel next g
                      (omega (arith, ap Db.log_end_offset same, ltb→lt offset end more))
                      (omega (arith, ap Db.log_end_offset same)))
                  moves))
      ]

  -- With a unit of fuel for each byte of the log, and one for the last test, the loop returns a code.
  pub validate_log-returns :
      (h : Handle W)
      → h.db.log_end_offset + (max_record_payload + 10) < 2 ^ 64
      → validate_log h ≢ crash
  unfolding validate_log
  validate_log-returns h fits =
      loop-returns (suc (h.db.log_end_offset - h.db.log_start_offset)) h.db.log_start_offset h
        (omega arith) fits
