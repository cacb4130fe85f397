-- ===== src/History/Recorded.antt =====
-- A handle in service: its file holds the header and the log, and its state in memory is what the
-- log's records stand for.
use qdb.Base.{
  ℕ, ◌+◌, ◌<◌, ◌≤◌, ◌≡◌, refl, sym, ap, subst, ◌∙◌, none, some, some_inj, Option, List, [], ◌∷◌,
  ◌++◌, length, append_assoc, append-nil, arith, All, Bool, true, false, Code, ◌>>◌, ◌>>=◌, Run,
  Exec, ok, err, crash, Ensures, ends, fails, crashes,
}
use qdb.Format.{hdr_size}
use qdb.Platform.{Platform}
use qdb.State.{State, state_alloc, msg_get, lease_get, find}
use qdb.Db.{Db, Handle, Session, with_state, guard, require}
use qdb.Io.{header_encode}
use qdb.Api.Durable.{Durable}
use qdb.State.WellFormed.{IsWellFormed}
use qdb.History.{LogRecord, encoded, log_bytes, Step, Steps, Steps-snoc}
use qdb.History.Keeps.{history-WellFormed}
use qdb.History.Fresh.{BringsNot, Step-none}
use qdb.History.Counters.{
  lease_past, lease_counter, lease_counter-snoc, PushesBelow, PushesBelow-snoc,
}
use qdb.History.FreshLease.{LeasesNot, Step-none_lease}

-- The ids that the handle will give next are of no message and of no lease; the counter of leases is
-- what the replay counts from 1 on.
pub record Recorded {W : Type 0} (os : Platform W) (h : Handle W) (rs : List LogRecord) (st : State)
    : Type 0 where
  pub durable : Durable os h.db (log_bytes rs) h.world
  pub start : h.db.log_start_offset ≡ hdr_size
  pub in_memory : h.state ≡ some st
  pub steps : Steps hdr_size state_alloc rs st
  pub next_pos : 0 < h.db.next_msg_id
  pub fresh : (id : ℕ) → h.db.next_msg_id ≤ id → msg_get st id ≡ none
  pub next_lease_pos : 0 < h.db.next_lease_id
  pub fresh_lease : (id : ℕ) → h.db.next_lease_id ≤ id → lease_get st id ≡ none
  pub pushed_below : All (PushesBelow h.db.next_msg_id) rs
  pub leases_counted : lease_counter rs 1 ≡ h.db.next_lease_id

log_bytes-snoc :
    (rs : List LogRecord) (r : LogRecord) → log_bytes (rs ++ r ∷ []) ≡ log_bytes rs ++ encoded r
unfolding log_bytes
log_bytes-snoc [] r = append-nil (encoded r)
log_bytes-snoc (r0 ∷ rs) r =
    ap (λ l. encoded r0 ++ l) (log_bytes-snoc rs r)
    ∙ sym (append_assoc (encoded r0) (log_bytes rs) (encoded r))

-- A run on the state behind the pointer is a run on the handle.
pub Ensures-with_state :
    {W A : Type 0} {P : A → Handle W → Type 0} (m : Exec (Session W) A) (h : Handle W) (st : State)
    → h.state ≡ some st
    → Ensures
        (λ a t. P a (record { db = t.db; state = some t.st; world = t.world }))
        (m (record { db = h.db; st = st; world = h.world }))
    → Ensures P (with_state m h)
Ensures-with_state {W} {A} {P} m h st e run = opened h.state e
  where
    closed :
        (r : Run (Session W) A)
        → Ensures (λ a t. P a (record { db = t.db; state = some t.st; world = t.world })) r
        → Ensures P (elim r as (λ _. Run (Handle W) A) [
          | ok a s ↦ ok a (record { db = s.db; state = some s.st; world = s.world })
          | err c s ↦ err c (record { db = s.db; state = some s.st; world = s.world })
          | crash ↦ crash
        ])
    closed (ok a s) (ends p) = ends p
    closed (err c s) x = fails
    closed crash x = crashes

    opened : (o : Option State) → o ≡ some st → Ensures P (with_state m (record h { state = o }))
    opened none e = cc
    opened (some st') e = closed (m (record { db = h.db; st = st'; world = h.world })) (
        subst
          (λ s.
            Ensures (λ a t. P a (record { db = t.db; state = some t.st; world = t.world }))
              (m (record { db = h.db; st = s; world = h.world })))
          (sym (some_inj e)) run)

module _ {W : Type 0} (os : Platform W) (h : Handle W) (rs : List LogRecord) (st : State)
    (known : Recorded os h rs st) where
  pub log_offset : h.db.log_end_offset ≡ hdr_size + length (log_bytes rs)
  log_offset = known.durable.log_end

  pub recorded-WellFormed : IsWellFormed st 0
  recorded-WellFormed = history-WellFormed hdr_size rs st known.steps

  -- One more record, and its step in memory.
  pub Recorded-snoc :
      (g : Handle W) (r : LogRecord) (st' : State)
      → Step h.db.log_end_offset st r st'
      → g.state ≡ some st'
      → Durable os g.db (log_bytes rs ++ encoded r) g.world
      → g.db.log_start_offset ≡ h.db.log_start_offset
      → h.db.next_msg_id ≤ g.db.next_msg_id
      → h.db.next_lease_id ≤ g.db.next_lease_id
      → ((id : ℕ) → g.db.next_msg_id ≤ id → BringsNot r id)
      → ((id : ℕ) → g.db.next_lease_id ≤ id → LeasesNot r id)
      → PushesBelow g.db.next_msg_id r
      → lease_past r h.db.next_lease_id ≡ g.db.next_lease_id
      → Recorded os g (rs ++ r ∷ []) st'
  Recorded-snoc g r st' step in_memory durable same more more_leases brings leases below counts =
      record {
        durable = subst (λ l. Durable os g.db l g.world) (sym (log_bytes-snoc rs r)) durable;
        start = same ∙ known.start;
        in_memory = in_memory;
        steps =
            Steps-snoc hdr_size state_alloc rs st r st' known.steps
              (subst (λ n. Step n st r st') log_offset step);
        next_pos = omega (arith, known.next_pos, more);
        fresh = λ id above.
            Step-none h.db.log_end_offset st r st' id step (brings id above)
              (known.fresh id (omega (arith, more, above)));
        next_lease_pos = omega (arith, known.next_lease_pos, more_leases);
        fresh_lease = λ id above.
            Step-none_lease h.db.log_end_offset st r st' id step (leases id above)
              (known.fresh_lease id (omega (arith, more_leases, above)));
        pushed_below =
            PushesBelow-snoc h.db.next_msg_id g.db.next_msg_id rs r more known.pushed_below below;
        leases_counted =
            lease_counter-snoc rs r 1 ∙ ap (lease_past r) known.leases_counted ∙ counts;
      }

pub Durable-same :
    {W : Type 0} ⦃os : Platform W⦄ (old db : Db) (log : List ℕ) (w w' : W)
    → db ≡ old
    → os.bytes w' ≡ os.bytes w
    → Durable os old log w
    → Durable os db log w'
Durable-same ⦃os⦄ old db log w w' same_db same durable = record {
  content =
      ap (os.bytes w') (ap Db.fd same_db)
      ∙ ap (λ f. f old.fd) same
      ∙ durable.content
      ∙ ap (λ d. header_encode d ++ log) (sym same_db);
  log_end = ap Db.log_end_offset same_db ∙ durable.log_end;
}

-- What a run that neither touches the handle nor the files leaves.
pub Recorded-same :
    {W : Type 0} ⦃os : Platform W⦄ (h g : Handle W) (rs : List LogRecord) (st : State)
    → g.db ≡ h.db
    → g.state ≡ h.state
    → os.bytes g.world ≡ os.bytes h.world
    → Recorded os h rs st
    → Recorded os g rs st
Recorded-same ⦃os⦄ h g rs st same_db same_state same known = record {
  durable = Durable-same h.db g.db (log_bytes rs) h.world g.world same_db same known.durable;
  start = ap Db.log_start_offset same_db ∙ known.start;
  in_memory = same_state ∙ known.in_memory;
  steps = known.steps;
  next_pos = omega (arith, known.next_pos, ap Db.next_msg_id same_db);
  fresh = λ id above. known.fresh id (omega (arith, above, ap Db.next_msg_id same_db));
  next_lease_pos = omega (arith, known.next_lease_pos, ap Db.next_lease_id same_db);
  fresh_lease =
      λ id above. known.fresh_lease id (omega (arith, above, ap Db.next_lease_id same_db));
  pushed_below =
      subst (λ n. All (PushesBelow n) rs) (sym (ap Db.next_msg_id same_db)) known.pushed_below;
  leases_counted = known.leases_counted ∙ sym (ap Db.next_lease_id same_db);
}

-- A guard that refuses ends with a code.
pub Ensures-guarded :
    {S A : Type 0} {P : A → S → Type 0} (b : Bool) (c : Code) (k : Exec S A) (s : S)
    → (b ≡ true → Ensures P (k s))
    → Ensures P ((guard b c >> k) s)
Ensures-guarded true c k s next = next refl
Ensures-guarded false c k s next = fails

pub Ensures-required :
    {S A B : Type 0} {P : A → S → Type 0} (o : Option B) (c : Code) (k : B → Exec S A) (s : S)
    → ((b : B) → o ≡ some b → Ensures P (k b s))
    → Ensures P ((require o c >>= k) s)
Ensures-required none c k s next = fails
Ensures-required (some b) c k s next = next b refl

-- A new file: no record, and an empty state.
pub blank-Recorded :
    {W : Type 0} (os : Platform W) (h : Handle W)
    → Durable os h.db [] h.world
    → h.db.log_start_offset ≡ hdr_size
    → h.state ≡ some state_alloc
    → 0 < h.db.next_msg_id
    → h.db.next_lease_id ≡ 1
    → Recorded os h [] state_alloc
unfolding log_bytes Steps lease_counter msg_get lease_get find
blank-Recorded os h durable start in_memory next_pos leases = record {
  durable = durable;
  start = start;
  in_memory = in_memory;
  steps = refl;
  next_pos = next_pos;
  fresh = λ id above. refl;
  next_lease_pos = omega arith;
  fresh_lease = λ id above. refl;
  pushed_below = tt;
  leases_counted = sym leases;
}
