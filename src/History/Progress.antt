-- ===== src/History/Progress.antt =====
-- Where the system does not fail, a pop of a queue that has messages does not either.
use qdb.Base.{
  ℕ, ◌%◌, ◌^◌, ◌<◌, ◌≡◌, refl, sym, ap, subst, ◌∙◌, Bool, true, false, none, some, some_inj, Option,
  List, [], ◌∷◌, length, arith, if◌then◌else◌, ltb, eq→==, Run, Code, Exec, ok, pure, ◌>>=◌, ◌>>◌,
  and_then, Ensures, ensured, Ensures-any, Bool-cases, inl, inr, err_nomem, err_io, err_inval,
  err_empty, err_corrupt,
}
use qdb.Format.{hdr_size, rt_msg_lease}
use qdb.Platform.{Platform, PlatformLaws, AllSucceed, slice}
use qdb.State.{Msg, Queue, State, state_alloc, msg_get, queue_get}
use qdb.State.Pending.{Linked, Holds}
use qdb.Db.{
  Db, Handle, Session, io, or_io, or_nomem, with_state, guard, require, Ensures-io, Ensures-as_code,
  as_code,
}
use qdb.Io.{read_full, header_encode, append_record, header_update, write_full}
use qdb.Api.Push.{valid_name}
use qdb.Api.Pop.{OutMsg, has_pending, copy_data, pop_append, do_pop, pop_session, pop}
use qdb.Api.Durable.{length-header_encode}
use qdb.History.{LogRecord}
use qdb.History.Recorded.{Recorded, recorded-WellFormed}
use qdb.History.Pushing.{name_bounds, alloc-Ensures}
use qdb.History.Stored.{Steps-Pushed, data-slice}
use qdb.History.Delivery.{nothing}

-- The run ends well.
abbrev pub Succeeds : {S A : Type 0} → Run S A → Type 0
Succeeds {S} {A} r = (a : A) × (s : S) × (r ≡ ok a s)

module _ {S A B : Type 0} where
  Succeeds-bind :
      {Q : A → S → Type 0} (r : Run S A) (k : A → Exec S B)
      → Succeeds r
      → Ensures Q r
      → ((a : A) (s : S) → Q a s → Succeeds (k a s))
      → Succeeds (and_then r k)
  Succeeds-bind r k (a, s, e) ensures next =
      let (b, t, e') = next a s (ensured ensures e) in (b, t, ap (λ x. and_then x k) e ∙ e')

  Succeeds-then :
      (r : Run S A) (k : A → Exec S B)
      → Succeeds r
      → ((a : A) (s : S) → Succeeds (k a s))
      → Succeeds (and_then r k)
  Succeeds-then r k run next = Succeeds-bind r k run (Ensures-any r) (λ a s u. next a s)

Succeeds-as_code : {S A : Type 0} (c : Code) (r : Run S A) → Succeeds r → Succeeds (as_code c r)
Succeeds-as_code c r (a, s, e) = (a, s, ap (as_code c) e)

Succeeds-io :
    {W A : Type 0} (m : Exec W A) (s : Session W) → Succeeds (m s.world) → Succeeds (io m s)
Succeeds-io m s (a, w, e) = (a, record s { world = w }, rw e refl)

module _ {W : Type 0} ⦃os : Platform W⦄ (laws : PlatformLaws os) (all : AllSucceed os) where
  alloc-Succeeds : (w : W) → Succeeds (os.alloc w)
  alloc-Succeeds w = let (w', e, same) = all.allocs.alloc_total w in (tt, w', e)

  alloc-Succeeds_session : (s : Session W) → Succeeds (or_nomem (io os.alloc) s)
  alloc-Succeeds_session s =
      Succeeds-as_code err_nomem (io os.alloc s) (Succeeds-io os.alloc s (alloc-Succeeds s.world))

  write-Succeeds :
      (fd : ℕ) (buf : List ℕ) (offset : ℕ) (w : W) → Succeeds (or_io (write_full fd buf offset) w)
  unfolding write_full
  write-Succeeds fd buf offset w =
      let (w', e) = all.pwrite_total fd buf offset w in
      Succeeds-as_code err_io (os.pwrite fd buf offset w) (tt, w', e)

  sync-Succeeds : (fd : ℕ) (w : W) → Succeeds (or_io (os.file_sync fd) w)
  sync-Succeeds fd w =
      let (w', e) = all.file_sync_total fd w in
      Succeeds-as_code err_io (os.file_sync fd w) (tt, w', e)

  payload-Succeeds :
      (fd : ℕ) (payload : List ℕ) (offset : ℕ) (b : Bool) (w : W)
      → Succeeds ((if b then or_io (write_full fd payload offset) else pure tt) w)
  payload-Succeeds fd payload offset true w = write-Succeeds fd payload offset w
  payload-Succeeds fd payload offset false w = (tt, w, refl)

  append-Succeeds :
      (fd type : ℕ) (payload : List ℕ) (offset : ℕ) (w : W)
      → Succeeds (append_record fd type payload offset w)
  unfolding append_record
  append-Succeeds fd type payload offset w =
      Succeeds-then _ _ (write-Succeeds fd _ offset w) λ _ w1.
        Succeeds-then _ _ (payload-Succeeds fd payload _ (ltb 0 (length payload)) w1) λ _ w2.
          Succeeds-then _ _ (sync-Succeeds fd w2) λ _ w3.
            Succeeds-then _ _ (write-Succeeds fd _ _ w3)
              λ _ w4. Succeeds-then _ _ (sync-Succeeds fd w4) λ _ w5. (_, w5, refl)

  update-Succeeds : (fd : ℕ) (db : Db) (w : W) → Succeeds (header_update fd db w)
  unfolding header_update
  update-Succeeds fd db w =
      Succeeds-then _ _ (write-Succeeds fd _ 24 w)
        λ _ w1. let (w', e) = all.file_sync_total fd w1 in (tt, w', e)

  pop_append-Succeeds : (m : Msg) (s : Session W) → Succeeds (pop_append m s)
  unfolding pop_append
  pop_append-Succeeds m s =
      Succeeds-then _ _
        (Succeeds-io (append_record s.db.fd rt_msg_lease _ s.db.log_end_offset)
          (record s { world = (os.time_us s.world).1 })
          (append-Succeeds s.db.fd rt_msg_lease _ s.db.log_end_offset (os.time_us s.world).1))
        λ end s1.
          Succeeds-then _ _
            (Succeeds-io (or_io (header_update _ _)) _
              (Succeeds-as_code err_io _ (update-Succeeds _ _ _)))
            λ _ s2. (_, s2, refl)

  -- The data of a message are in the file.
  copy_data-Succeeds :
      (m : Msg) (s : Session W)
      → length (slice m.data_file_offset m.data_len (os.bytes s.world s.db.fd)) ≡ m.data_len
      → Succeeds (copy_data m s)
  unfolding copy_data read_full
  copy_data-Succeeds m s long = elim (Bool-cases (ltb 0 m.data_len)) [
    | inr empty ↦ rw empty (none, s, refl)
    | inl some_data ↦ rw some_data (
        Succeeds-bind _ _ (alloc-Succeeds_session s)
          (Ensures-as_code err_nomem (Ensures-io os.alloc s (alloc-Ensures laws s.world)))
          λ _ t (a, b, c).
            let (w', read, same) =
              all.reads.pread_total t.db.fd m.data_len m.data_file_offset t.world in
            let content : os.bytes t.world t.db.fd ≡ os.bytes s.world s.db.fd =
              ap (os.bytes t.world) (ap Db.fd a) ∙ ap (λ f. f s.db.fd) c in
            let full : length (slice m.data_file_offset m.data_len (os.bytes t.world t.db.fd))
                ≡ m.data_len =
              ap (λ (l : List ℕ). length (slice m.data_file_offset m.data_len l)) content ∙ long in
            Succeeds-then _ _
              (Succeeds-io (read_full t.db.fd m.data_len m.data_file_offset) t (
                rw read (
                  rw
                    (eq→== (length (slice m.data_file_offset m.data_len (os.bytes t.world t.db.fd)))
                      m.data_len full)
                    (_, w', refl))))
              λ bytes g. (some bytes, g, refl))
  ]

  do_pop-Succeeds :
      (s : Session W) (q : Queue) (m : Msg)
      → length (slice m.data_file_offset m.data_len (os.bytes s.world s.db.fd)) ≡ m.data_len
      → Succeeds (do_pop q m s)
  unfolding do_pop
  do_pop-Succeeds s q m long =
      Succeeds-bind _ _ (alloc-Succeeds_session s)
        (Ensures-as_code err_nomem (Ensures-io os.alloc s (alloc-Ensures laws s.world)))
        λ _ t (a, b, c).
          Succeeds-then _ _
            (copy_data-Succeeds m t (
              ap (λ (l : List ℕ). length (slice m.data_file_offset m.data_len l))
                (ap (os.bytes t.world) (ap Db.fd a) ∙ ap (λ f. f s.db.fd) c)
              ∙ long))
            λ copy s2.
              Succeeds-then _ _ (alloc-Succeeds_session s2)
                λ _ s3. Succeeds-then _ _ (pop_append-Succeeds m s3) λ leased s4. (_, _, refl)

Succeeds-with_state :
    {W A : Type 0} (m : Exec (Session W) A) (h : Handle W) (st : State)
    → h.state ≡ some st
    → Succeeds (m (record { db = h.db; st = st; world = h.world }))
    → Succeeds (with_state m h)
Succeeds-with_state m h st at (a, s, e) = (
  a,
  record { db = s.db; state = some s.st; world = s.world },
  ap (λ o. with_state m (record h { state = o })) at ∙ rw e refl,
)

Succeeds-guarded :
    {S A : Type 0} (b : Bool) (c : Code) (k : Exec S A) (s : S)
    → b ≡ true
    → Succeeds (k s)
    → Succeeds ((guard b c >> k) s)
Succeeds-guarded true c k s e run = run
Succeeds-guarded false c k s e run = cc

Succeeds-required :
    {S A B : Type 0} (o : Option B) (c : Code) (k : B → Exec S A) (s : S) {b : B}
    → o ≡ some b
    → Succeeds (k b s)
    → Succeeds ((require o c >>= k) s)
Succeeds-required none c k s e run = cc
Succeeds-required (some b') c k s e run = subst (λ x. Succeeds (k x s)) (sym (some_inj e)) run

-- The head of a list that is not empty is a message.
head_found :
    (get : ℕ → Option Msg) (q : Queue) (ids : List ℕ)
    → Holds get q ids
    → has_pending q ≡ true
    → (m : Msg) × (get q.pending_head ≡ some m)
unfolding Holds Linked
head_found get q [] ((e, end), distinct, count) some_pending = absurd (ground arith)
head_found get q (id ∷ ids) ((e, pos, m, found, back, links), distinct, count) some_pending =
    (m, ap get e ∙ found)

-- On a handle in service, over a system whose operations succeed, a pop of a queue of a valid name
-- that has a pending message ends well. The log ends within the 64-bit range.
pub pop-succeeds :
    {W : Type 0} ⦃os : Platform W⦄ (laws : PlatformLaws os) (all : AllSucceed os) (h : Handle W)
    (rs : List LogRecord) (st : State) (queue : List ℕ) (q : Queue)
    → Recorded os h rs st
    → h.db.log_end_offset < 2 ^ 64
    → valid_name queue ≡ true
    → queue_get st queue (length queue) ≡ some q
    → has_pending q ≡ true
    → (out : OutMsg) × (g : Handle W) × (pop (some queue) h ≡ ok out g)
unfolding pop pop_session
pop-succeeds ⦃os⦄ laws all h rs st queue q known fits valid at some_pending =
    let (e, l, ids, holds, waiting, others) =
      (recorded-WellFormed os h rs st known).lists queue q at in
    let (m, found) = head_found (msg_get st) q ids holds some_pending in
    let p =
      Steps-Pushed hdr_size state_alloc rs st q.pending_head m known.steps (nothing q.pending_head)
        found in
    let there : slice m.data_file_offset m.data_len (os.bytes h.world h.db.fd) ≡ p.contents =
      ap (slice m.data_file_offset m.data_len) known.durable.content
      ∙ data-slice (header_encode h.db) hdr_size rs q.pending_head m p
          (sym (length-header_encode h.db)) (omega (arith, known.durable.log_end, fits)) in
    let short : length queue % 2 ^ 8 ≡ length queue = omega (arith, name_bounds queue valid) in
    Succeeds-guarded (valid_name queue) err_inval _ h valid (
      Succeeds-with_state (pop_session queue) h st known.in_memory (
        Succeeds-required (queue_get st queue (length queue % 2 ^ 8)) err_empty _ _
          (ap (queue_get st queue) short ∙ at)
          (Succeeds-guarded (has_pending q) err_empty _ _ some_pending (
            Succeeds-required (msg_get st q.pending_head) err_corrupt _ _ found (
              do_pop-Succeeds laws all _ q m
                (ap length there ∙ sym (ap (λ (t : ℕ × ℕ × List ℕ). t.1) (some_inj p.place))))))))
