-- ===== src/Replay/Keeps.antt =====
-- The handlers of the records return a code, and leave the log's end where it is.
use qdb.Base.{
  ℕ, ◌≡◌, ◌≢◌, refl, List, Bool, true, false, Run, Exec, ok, err, crash, arith, subst, Ensures,
  Ensures-run, if◌then◌else◌, ◌==◌,
}
use qdb.Platform.{Platform, NoCrash}
use qdb.Db.{Session}
use qdb.Io.Returns.{read_full-returns}
use qdb.Replay.{
  queue_get_or_create, replay_push, replay_lease, replay_ack, replay_nack, replay_expire,
  replay_checkpoint, replay_record,
}

-- The run returned, with the log's end as it was.
abbrev pub KeepsEnd : {W A : Type 0} → ℕ → Run (Session W) A → Type 0
KeepsEnd end (ok a s) = s.db.log_end_offset ≡ end
KeepsEnd end (err c s) = Unit
KeepsEnd end crash = ⊥

KeepsEnd-if :
    {W A : Type 0} (end : ℕ) (s : Session W) (m n : Exec (Session W) A) (b : Bool)
    → KeepsEnd end (m s)
    → KeepsEnd end (n s)
    → KeepsEnd end ((if b then m else n) s)
KeepsEnd-if end s m n true one other = one
KeepsEnd-if end s m n false one other = other

module _ {W : Type 0} ⦃os : Platform W⦄ (nc : NoCrash os) where
  nack-KeepsEnd :
      (payload_off plen : ℕ) (s : Session W)
      → KeepsEnd s.db.log_end_offset (replay_nack payload_off plen s)
  unfolding replay_nack
  nack-KeepsEnd payload_off plen s = grind (arith, read_full-returns nc)

  expire-KeepsEnd :
      (payload_off plen : ℕ) (s : Session W)
      → KeepsEnd s.db.log_end_offset (replay_expire payload_off plen s)
  unfolding replay_expire
  expire-KeepsEnd payload_off plen s = nack-KeepsEnd payload_off plen s

  lease-KeepsEnd :
      (payload_off plen : ℕ) (s : Session W)
      → KeepsEnd s.db.log_end_offset (replay_lease payload_off plen s)
  unfolding replay_lease
  lease-KeepsEnd payload_off plen s = grind (arith, read_full-returns nc, nc.alloc_ends)

  ack-KeepsEnd :
      (payload_off plen : ℕ) (s : Session W)
      → KeepsEnd s.db.log_end_offset (replay_ack payload_off plen s)
  unfolding replay_ack
  ack-KeepsEnd payload_off plen s = grind (arith, read_full-returns nc)

  checkpoint-KeepsEnd :
      (payload_off plen : ℕ) (s : Session W)
      → KeepsEnd s.db.log_end_offset (replay_checkpoint payload_off plen s)
  unfolding replay_checkpoint
  checkpoint-KeepsEnd payload_off plen s = grind (arith, read_full-returns nc)

  create-KeepsEnd :
      (name : List ℕ) (name_len : ℕ) (s : Session W)
      → KeepsEnd s.db.log_end_offset (queue_get_or_create name name_len s)
  unfolding queue_get_or_create
  create-KeepsEnd name name_len s = grind (arith, nc.alloc_ends)

  push-KeepsEnd :
      (payload_off plen : ℕ) (s : Session W)
      → KeepsEnd s.db.log_end_offset (replay_push payload_off plen s)
  unfolding replay_push
  push-KeepsEnd payload_off plen s =
      grind (arith, read_full-returns nc, nc.alloc_ends, create-KeepsEnd)

  -- Whatever the type of a record, its handler returns a code, and leaves the log's end where it is.
  pub replay_record-KeepsEnd :
      (type payload_off plen : ℕ) (s : Session W)
      → KeepsEnd s.db.log_end_offset (replay_record type payload_off plen s)
  unfolding replay_record
  replay_record-KeepsEnd type payload_off plen s =
      KeepsEnd-if _ s _ _ (type == 1) (push-KeepsEnd payload_off plen s) (
        KeepsEnd-if _ s _ _ (type == 2) (lease-KeepsEnd payload_off plen s) (
          KeepsEnd-if _ s _ _ (type == 3) (ack-KeepsEnd payload_off plen s) (
            KeepsEnd-if _ s _ _ (type == 4) (nack-KeepsEnd payload_off plen s) (
              KeepsEnd-if _ s _ _ (type == 5) (expire-KeepsEnd payload_off plen s) (
                KeepsEnd-if _ s _ _ (type == 16) (checkpoint-KeepsEnd payload_off plen s)
                  (KeepsEnd-if _ s _ _ (type == 255) refl tt))))))

  -- The same for a handler in the loop.
  pub replay_record-returns :
      (type payload_off plen : ℕ) (s : Session W) → replay_record type payload_off plen s ≢ crash
  replay_record-returns type payload_off plen s e =
      subst (KeepsEnd s.db.log_end_offset) e (replay_record-KeepsEnd type payload_off plen s)

  pub replay_record-Ensures :
      (type payload_off plen : ℕ) (s : Session W)
      → Ensures
          (λ _ t. t.db.log_end_offset ≡ s.db.log_end_offset)
          (replay_record type payload_off plen s)
  replay_record-Ensures type payload_off plen s = Ensures-run _ (λ _ t e.
      subst (KeepsEnd s.db.log_end_offset) e (replay_record-KeepsEnd type payload_off plen s))
