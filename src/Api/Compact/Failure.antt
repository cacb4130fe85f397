-- ===== src/Api/Compact/Failure.antt =====
-- What a handle is worth after a compaction that failed.
use qdb.Base.{ℕ, ◌≡◌, ◌⊎◌, true, none, some, List, Code, ok, err, crash, arith}
use qdb.Format.{invalid_fd}
use qdb.Platform.{Platform}
use qdb.Db.{Handle}
use qdb.Api.Push.{valid_name}
use qdb.Api.Pop.{pop, pop_any}
use qdb.Api.Settle.{ack, nack, process_expired_leases}
use qdb.Api.Compact.{reopen_after_compact, stage_handle, compact}

module _ {W : Type 0} ⦃os : Platform W⦄ where
  -- The handle has neither a file nor a state.
  abbrev pub IsDead : Handle W → Type 0
  IsDead h = (h.db.fd ≡ invalid_fd) × (h.state ≡ none)

  reopen-IsDead :
      (h : Handle W) {c : Code} {h' : Handle W} → reopen_after_compact h ≡ err c h' → IsDead h'
  unfolding reopen_after_compact
  reopen-IsDead h e = ground arith

  stage-keeps :
      (fd : ℕ) (h : Handle W) {c : Code} {h' : Handle W}
      → stage_handle fd h ≡ err c h'
      → (h'.db ≡ h.db) × (h'.state ≡ h.state)
  unfolding stage_handle
  stage-keeps fd h e = ground arith

  stage-keeps_ok :
      (fd : ℕ) (h : Handle W) {h' : Handle W}
      → stage_handle fd h ≡ ok tt h'
      → (h'.db ≡ h.db) × (h'.state ≡ h.state)
  unfolding stage_handle
  stage-keeps_ok fd h e = ground arith

  -- A compaction that fails has left the handle's fields and its state as they were, or it has left a
  -- handle with neither a file nor a state.
  pub compact_failure :
      (h : Handle W) {c : Code} {h' : Handle W}
      → compact h ≡ err c h'
      → ((h'.db ≡ h.db) × (h'.state ≡ h.state)) ⊎ IsDead h'
  unfolding compact
  compact_failure h e = grind (arith, stage-keeps, stage-keeps_ok, reopen-IsDead)

  -- On such a handle a pop from a queue of a valid name, a pop from any queue, an ACK, a NACK and the
  -- expiry dereference the null state: they crash.
  pub dead_handle_crashes :
      (h : Handle W) (queue : List ℕ) (msg_id lease_id : ℕ)
      → IsDead h
      → valid_name queue ≡ true
      → (pop (some queue) h ≡ crash)
        × (pop_any h ≡ crash)
        × (ack msg_id lease_id h ≡ crash)
        × (nack msg_id lease_id h ≡ crash)
        × (process_expired_leases h ≡ crash)
  unfolding pop pop_any ack nack process_expired_leases
  dead_handle_crashes h queue msg_id lease_id d v = ground arith
