-- ===== src/Db.antt =====
-- The database handle, `struct qdb` of src/qdb_internal.h, and the states that the functions work
-- on. `Handle` is the handle with the system around it; its `state` is `none` where the pointer is
-- NULL. `Session` is the same with the state dereferenced.
use qdb.Base.{
  ℕ, List, Option, none, some, Bool, true, false, Code, Run, Exec, ok, err, crash, err_io,
  err_nomem, ◌≡◌, refl, Ensures, ends, fails, crashes,
}
use qdb.State.{State}

pub record Db : Type 0 where
  pub fd : ℕ
  pub lock_fd : ℕ
  pub path : List ℕ
  pub wal_path : List ℕ
  pub lock_path : List ℕ
  pub next_msg_id : ℕ
  pub next_lease_id : ℕ
  pub log_start_offset : ℕ
  pub log_end_offset : ℕ
  pub create_time_us : ℕ
  pub flags : ℕ
  pub lease_timeout_us : ℕ

pub record Handle (W : Type 0) : Type 0 where
  pub db : Db
  pub state : Option State
  pub world : W

pub record Session (W : Type 0) : Type 0 where
  pub db : Db
  pub st : State
  pub world : W

module _ {S : Type 0} where
  abbrev pub get_state : Exec S S
  get_state s = ok s s

  abbrev pub modify_state : (S → S) → Exec S (Unit {0})
  modify_state f s = ok tt (f s)

  abbrev pub guard : Bool → Code → Exec S (Unit {0})
  guard true c s = ok tt s
  guard false c s = err c s

module _ {S : Type 0} where
  pub Ensures-guard : (b : Bool) (c : Code) (s : S) → Ensures (λ _ _. b ≡ true) (guard b c s)
  Ensures-guard true c s = ends refl
  Ensures-guard false c s = fails

module _ {S A : Type 0} where
  abbrev pub as_code : Code → Run S A → Run S A
  as_code c (ok a s) = ok a s
  as_code c (err d s) = err c s
  as_code c crash = crash

  -- `if (f(...) != QDB_OK) return QDB_ERR_IO;`
  abbrev pub or_io : Exec S A → Exec S A
  or_io m s = as_code err_io (m s)

  -- `if (!malloc(...)) return QDB_ERR_NOMEM;`
  abbrev pub or_nomem : Exec S A → Exec S A
  or_nomem m s = as_code err_nomem (m s)

  -- `if (!p) return c;`
  abbrev pub require : Option A → Code → Exec S A
  require none c s = err c s
  require (some a) c s = ok a s

  -- `if (p) return c;`
  abbrev pub refuse : Option A → Code → Exec S (Unit {0})
  refuse none c s = ok tt s
  refuse (some a) c s = err c s

  pub as_code-ok : (c : Code) (r : Run S A) {a : A} {s : S} → as_code c r ≡ ok a s → r ≡ ok a s
  as_code-ok c (ok a s) h = h
  as_code-ok c (err d s) h = cc
  as_code-ok c crash h = cc

  pub Ensures-as_code :
      (c : Code) {P : A → S → Type 0} {r : Run S A} → Ensures P r → Ensures P (as_code c r)
  Ensures-as_code c (ends p) = ends p
  Ensures-as_code c fails = fails
  Ensures-as_code c crashes = crashes

  abbrev forget : Run S A → Run S (Unit {0})
  forget (ok a s) = ok tt s
  forget (err c s) = ok tt s
  forget crash = crash

  -- `(void)f(...);`
  abbrev pub ignore : Exec S A → Exec S (Unit {0})
  ignore m s = forget (m s)

module _ {W A : Type 0} where
  abbrev in_session : Db → State → Run W A → Run (Session W) A
  in_session db st (ok a w) = ok a (record { db = db; st = st; world = w })
  in_session db st (err c w) = err c (record { db = db; st = st; world = w })
  in_session db st crash = crash

  -- A system call or a file operation in a session.
  abbrev pub io : Exec W A → Exec (Session W) A
  io m s = in_session s.db s.st (m s.world)

  abbrev in_handle : Db → Option State → Run W A → Run (Handle W) A
  in_handle db st (ok a w) = ok a (record { db = db; state = st; world = w })
  in_handle db st (err c w) = err c (record { db = db; state = st; world = w })
  in_handle db st crash = crash

  abbrev pub io_handle : Exec W A → Exec (Handle W) A
  io_handle m h = in_handle h.db h.state (m h.world)

  abbrev close_session : Run (Session W) A → Run (Handle W) A
  close_session (ok a s) = ok a (record { db = s.db; state = some s.st; world = s.world })
  close_session (err c s) = err c (record { db = s.db; state = some s.st; world = s.world })
  close_session crash = crash

  abbrev dereference : Option State → Handle W → Exec (Session W) A → Run (Handle W) A
  dereference none h m = crash
  dereference (some st) h m = close_session (m (record { db = h.db; st = st; world = h.world }))

  -- A function that follows `db->state`: it crashes where that is NULL.
  abbrev pub with_state : Exec (Session W) A → Exec (Handle W) A
  with_state m h = dereference h.state h m

module _ {W : Type 0} where
  abbrev pub set_db : (Db → Db) → Exec (Session W) (Unit {0})
  set_db f s = ok tt (record s { db = f s.db })

  abbrev pub set_st : (State → State) → Exec (Session W) (Unit {0})
  set_st f s = ok tt (record s { st = f s.st })

  abbrev pub set_handle_db : (Db → Db) → Exec (Handle W) (Unit {0})
  set_handle_db f h = ok tt (record h { db = f h.db })

-- A run that ends well on the system ends well in the session or the handle, and changes there
-- nothing but the system.
module _ {W A : Type 0} {P : A → W → Type 0} where
  pub Ensures-io :
      (m : Exec W A) (s : Session W)
      → Ensures P (m s.world)
      → Ensures (λ a t. (t.db ≡ s.db) × (t.st ≡ s.st) × P a t.world) (io m s)
  Ensures-io m s e = lift (m s.world) e
    where
      lift :
          (r : Run W A)
          → Ensures P r
          → Ensures (λ a t. (t.db ≡ s.db) × (t.st ≡ s.st) × P a t.world) (in_session s.db s.st r)
      lift (ok a w) (ends p) = ends (refl, refl, p)
      lift (err c w) e = fails
      lift crash e = crashes

  pub Ensures-io_handle :
      (m : Exec W A) (h : Handle W)
      → Ensures P (m h.world)
      → Ensures (λ a g. (g.db ≡ h.db) × (g.state ≡ h.state) × P a g.world) (io_handle m h)
  Ensures-io_handle m h e = lift (m h.world) e
    where
      lift :
          (r : Run W A)
          → Ensures P r
          → Ensures
              (λ a g. (g.db ≡ h.db) × (g.state ≡ h.state) × P a g.world)
              (in_handle h.db h.state r)
      lift (ok a w) (ends p) = ends (refl, refl, p)
      lift (err c w) e = fails
      lift crash e = crashes
