-- ===== src/History/Reopen.antt =====
-- A handle in service, and the handle that reads its file again.
use qdb.Base.{ℕ, ◌+◌, ◌^◌, ◌<◌, ◌≡◌, refl, sym, ap, ◌∙◌, none, some, Option, List, ◌++◌, ok}
use qdb.Format.{max_record_payload}
use qdb.Platform.{Platform, ReadsSucceed, AllocsSucceed}
use qdb.State.{State}
use qdb.Db.{Db, Handle}
use qdb.Io.{header_encode, header_prefix}
use qdb.Replay.{replay_log}
use qdb.Api.Durable.{Durable}
use qdb.History.{LogRecord, log_bytes}
use qdb.History.Loop.{counted_all, replay_log-Steps}
use qdb.History.Counters.{counted_all-below}
use qdb.History.Recorded.{Recorded}

-- The handle as `qdb_open` has it before the replay: the header's fields, no state, and leases from 1.
abbrev pub reopened : {W : Type 0} → Handle W → Handle W
reopened h = record h { db = record h.db { next_lease_id = 1 }; state = none }

header_encode-lease :
    (db : Db) (n : ℕ) → header_encode (record db { next_lease_id = n }) ≡ header_encode db
unfolding header_encode header_prefix
header_encode-lease db n = refl

-- The replay of the file of a handle in service, from the header's fields on, makes the handle's
-- state in memory and its counters again: the handle that it leaves is the one before, and no file
-- has changed. Reads and allocations succeed, and the log ends 64 MiB and some bytes below the
-- largest offset.
pub replay_log-Recorded :
    {W : Type 0} ⦃os : Platform W⦄ (reads : ReadsSucceed os) (allocs : AllocsSucceed os)
    (h : Handle W) (rs : List LogRecord) (st : State)
    → Recorded os h rs st
    → h.db.log_end_offset + (max_record_payload + 2000) < 2 ^ 64
    → (w' : W) × (replay_log (reopened h) ≡ ok tt (record h { world = w' }))
      × (os.bytes w' ≡ os.bytes h.world)
replay_log-Recorded ⦃os⦄ reads allocs h rs st known fits =
    let durable : Durable os (reopened h).db (log_bytes rs) h.world = record {
      content =
          known.durable.content ∙ ap (λ l. l ++ log_bytes rs) (sym (header_encode-lease h.db 1));
      log_end = known.durable.log_end;
    } in
    let (w', run, same) =
      replay_log-Steps reads allocs (reopened h) rs st durable known.start fits known.steps in
    let db_eq : counted_all rs (reopened h).db ≡ h.db =
      counted_all-below rs (reopened h).db known.pushed_below
      ∙ ap (λ (n : ℕ). record h.db { next_lease_id = n }) known.leases_counted in
    (
      w',
      run
          ∙ ap (λ (p : Db). ok tt (record h { db = p; state = some st; world = w' })) db_eq
          ∙ ap (λ (o : Option State). ok tt (record h { state = o; world = w' }))
              (sym known.in_memory),
      same,
    )
