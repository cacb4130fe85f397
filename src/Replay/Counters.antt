-- ===== src/Replay/Counters.antt =====
-- The counters of the next ids behind the replay of a CHECKPOINT record.
use qdb.Base.{ℕ, ◌^◌, ◌≤◌, ◌<◌, ◌≡◌, ◌⊎◌, refl, ok, arith, ltb, if◌then◌else◌}
use qdb.Platform.{Platform}
use qdb.Db.{Session}
use qdb.Io.{read_full}
use qdb.Replay.{replay_checkpoint}
use qdb.Replay.Live.{lease_fields}
use qdb.Api.Compact.{checkpoint_payload}
use qdb.Api.Pop.{lease_payload}

-- `m` is the larger one of `a` and `b`.
abbrev pub Larger : ℕ → ℕ → ℕ → Type 0
Larger a b m = (a ≤ m) × (b ≤ m) × ((m ≡ a) ⊎ (m ≡ b))

larger : (a b : ℕ) → Larger a b (if ltb a b then b else a)
larger a b = ground arith

module _ {W : Type 0} ⦃os : Platform W⦄ where
  -- The replay of a CHECKPOINT record that can be read, with the payload that a compaction writes,
  -- makes of each counter the larger one of its value and the record's, and changes nothing else of
  -- the handle or of the state in memory. The three fields of the record fit 64 bits.
  pub replay_checkpoint-counters :
      (s : Session W) (payload_off time msg_id lease_id : ℕ) (w' : W)
      → time < 2 ^ 64
      → msg_id < 2 ^ 64
      → lease_id < 2 ^ 64
      → read_full s.db.fd 24 payload_off s.world ≡ ok (checkpoint_payload time msg_id lease_id) w'
      → (next_msg_id : ℕ) × (next_lease_id : ℕ) × Larger s.db.next_msg_id msg_id next_msg_id
        × Larger s.db.next_lease_id lease_id next_lease_id
        × (replay_checkpoint payload_off 24 s
            ≡ ok tt (record {
              db = record s.db { next_msg_id = next_msg_id; next_lease_id = next_lease_id };
              st = s.st;
              world = w';
            }))
  unfolding replay_checkpoint checkpoint_payload lease_payload
  replay_checkpoint-counters s payload_off time msg_id lease_id w' t m l read =
      let (a, b, c) = lease_fields time msg_id lease_id t m l in
      (
        _,
        _,
        larger s.db.next_msg_id msg_id,
        larger s.db.next_lease_id lease_id,
        rw (read, b, c) refl,
      )
