-- ===== src/Api/Pop/Least.antt =====
-- Which message `qdb_pop_any` takes.
use qdb.Base.{
  Ensures, Ensures-bind, Ensures-any, ends, ℕ, ◌^◌, ◌-◌, ◌≤◌, ◌<◌, ◌≡◌, refl, true, ◌&&◌, not,
  Option, some, List, [], ◌∷◌, All, arith, ◌==◌, ltb, ok, Bool-cases, ◌⊎◌, inl, inr, ◌+◌, ◌++◌,
  zero, suc, none, ap, subst,
}
use qdb.Platform.{Platform}
use qdb.State.{
  Msg, Queue, State, Buckets, has_name, queue_bucket, queue_get, msg_get, entries_from,
  queue_buckets_n,
}
use qdb.State.Entries.{All-find, All-entries_from, All-bucket, queue_bucket-lt}
use qdb.Db.{io, or_nomem, Handle, Session, with_state}
use qdb.History.Recorded.{Ensures-with_state}
use qdb.Api.Pop.{
  copy_data, pop_append, best_id, has_pending, best_loop, do_pop, pop_any_session, pop_any,
}

-- The first message of a queue that has one is in the table, below the sentinel.
abbrev pub HasFirst : State → Queue → Type 0
HasFirst st q =
    has_pending q ≡ true → (m : Msg) × (msg_get st q.pending_head ≡ some m) × (m.id < 2 ^ 64 - 1)

-- `r` is at most the id of the queue's first message, if it has one.
abbrev pub NotAbove : State → ℕ → Queue → Type 0
NotAbove st r q = (m : Msg) → has_pending q ≡ true → msg_get st q.pending_head ≡ some m → r ≤ m.id

-- The choice is one of the queues that have a message, with its first.
pub data OneOf (st : State) (r : Option (Queue × Msg)) : List Queue → Type 0 where
  here :
      {q : Queue} {m : Msg} {qs : List Queue}
      → has_pending q ≡ true
      → msg_get st q.pending_head ≡ some m
      → r ≡ some (q, m)
      → OneOf st r (q ∷ qs)
  there : {q : Queue} {qs : List Queue} → OneOf st r qs → OneOf st r (q ∷ qs)

module _ {st : State} {q : Queue} {r best : Option (Queue × Msg)} {qs : List Queue} where
  skipped : (r ≡ best) ⊎ OneOf st r qs → (r ≡ best) ⊎ OneOf st r (q ∷ qs)
  skipped (inl e) = inl e
  skipped (inr c) = inr (there c)

  taken :
      {m : Msg}
      → has_pending q ≡ true
      → msg_get st q.pending_head ≡ some m
      → (r ≡ some (q, m)) ⊎ OneOf st r qs
      → (r ≡ best) ⊎ OneOf st r (q ∷ qs)
  taken full found (inl e) = inr (here full found e)
  taken full found (inr c) = inr (there c)

-- The loop's test is that of `qdb_pop`.
loop_test : (q : Queue) → (ltb 0 q.pending_count && not (q.pending_head == 0)) ≡ has_pending q
loop_test q = ground arith

-- A choice from the entries is one from a bucket.
OneOf-some :
    {st : State} {r : Option (Queue × Msg)} {qs : List Queue}
    → OneOf st r qs
    → (q : Queue) × (m : Msg) × (r ≡ some (q, m))
OneOf-some (here {q} {m} full found e) = (q, m, e)
OneOf-some (there c) = OneOf-some c

OneOf-append :
    {st : State} {r : Option (Queue × Msg)} (ps qs : List Queue)
    → OneOf st r (ps ++ qs)
    → OneOf st r ps ⊎ OneOf st r qs
OneOf-append [] qs c = inr c
OneOf-append (p ∷ ps) qs (here full found e) = inl (here full found e)
OneOf-append (p ∷ ps) qs (there c) = elim (OneOf-append ps qs c) [
  | inl a ↦ inl (there a)
  | inr b ↦ inr b
]

OneOf-bucket :
    {st : State} {r : Option (Queue × Msg)} (n b : ℕ) (buckets : Buckets Queue)
    → OneOf st r (entries_from n b buckets)
    → (k : ℕ) × (k < b + n) × OneOf st r (buckets k)
unfolding entries_from
OneOf-bucket zero b buckets c = elim c [ ]
OneOf-bucket (suc n) b buckets c =
    elim (OneOf-append (buckets b) (entries_from n (suc b) buckets) c) [
      | inl a ↦ (b, omega arith, a)
      | inr d ↦ let (k, h, e) = OneOf-bucket n (suc b) buckets d in (k, omega arith, e)
    ]

module _ {W : Type 0} ⦃os : Platform W⦄ where
  -- The loop of `qdb_pop_any` ends well where every queue that has messages has its first one in the
  -- table; it changes nothing, and its choice is none above any first message. It is the choice that
  -- it started with, or one of the first messages.
  best_loop-least :
      (st : State) (qs : List Queue) (best : Option (Queue × Msg)) (s : Session W)
      → All (HasFirst st) qs
      → (r : Option (Queue × Msg)) × (best_loop st qs best s ≡ ok r s)
        × (best_id r ≤ best_id best)
        × All (NotAbove st (best_id r)) qs
        × ((r ≡ best) ⊎ OneOf st r qs)
  unfolding best_loop
  best_loop-least st [] best s firsts = (best, refl, omega arith, tt, inl refl)
  best_loop-least st (q ∷ qs) best s (first, firsts) = elim (Bool-cases (has_pending q)) [
    | inr empty ↦
        let (r, e, below, all, choice) = best_loop-least st qs best s firsts in
        rw (loop_test q, empty) (r, e, below, (λ m full found. cc, all), skipped choice)
    | inl full ↦
        let (m, found, fits) = first full in
        elim (Bool-cases (ltb m.id (best_id best))) [
          | inl less ↦
              let (r, e, below, all, choice) = best_loop-least st qs (some (q, m)) s firsts in
              rw (loop_test q, full, found, less)
                (r, e, grind arith, (λ m' full' found'. grind arith, all), taken full found choice)
          | inr more ↦
              let (r, e, below, all, choice) = best_loop-least st qs best s firsts in
              rw (loop_test q, full, found, more)
                (r, e, below, (λ m' full' found'. grind arith, all), skipped choice)
        ]
  ]

-- The id is at most that of the first message of any queue that a lookup finds and that has one.
abbrev pub LeastOf : State → ℕ → Type 0
LeastOf st r =
    (name : List ℕ) (name_len : ℕ) (q : Queue)
    → queue_get st name name_len ≡ some q
    → NotAbove st r q

LeastOf-entries :
    (st : State) (r : ℕ)
    → All (NotAbove st r) (entries_from queue_buckets_n 0 st.queue_buckets)
    → LeastOf st r
unfolding queue_get
LeastOf-entries st r all name name_len q found =
    let b = queue_bucket name name_len in
    All-find (NotAbove st r) (has_name name name_len) (st.queue_buckets b)
      (All-bucket (NotAbove st r) queue_buckets_n 0 st.queue_buckets all b (omega arith)
        (queue_bucket-lt name name_len))
      found

module _ {W : Type 0} ⦃os : Platform W⦄ where
  do_pop-id :
      (q : Queue) (m : Msg) (s : Session W) → Ensures (λ out _. out.id ≡ m.id) (do_pop q m s)
  unfolding do_pop
  do_pop-id q m s = Ensures-bind (Ensures-any (or_nomem (io os.alloc) s)) λ _ s1 _.
      Ensures-bind (Ensures-any (copy_data m s1)) λ _ s2 _.
        Ensures-bind (Ensures-any (or_nomem (io os.alloc) s2))
          λ _ s3 _. Ensures-bind (Ensures-any (pop_append m s3)) λ lease s4 _. ends refl

  -- On a handle whose state is not null, with a queue that has a pending message, `qdb_pop_any` is
  -- the `do_pop` of one of the queues in the 64 buckets with its first message, whose id it returns
  -- if it ends well; no queue that a lookup finds has a first message of a smaller id. The first
  -- message of every queue in the buckets that has one is in the table, with an id below UINT64_MAX,
  -- the sentinel of the loop.
  pub pop_any-least :
      (h : Handle W) (st : State) (name : List ℕ) (name_len : ℕ) (some_queue : Queue)
      → h.state ≡ some st
      → ((b : ℕ) → b < queue_buckets_n → All (HasFirst st) (st.queue_buckets b))
      → queue_get st name name_len ≡ some some_queue
      → has_pending some_queue ≡ true
      → (q : Queue) × (m : Msg) × (pop_any h ≡ with_state (do_pop q m) h)
        × ((b : ℕ) × (b < queue_buckets_n) × OneOf st (some (q, m)) (st.queue_buckets b))
        × Ensures (λ out _. out.id ≡ m.id) (pop_any h)
        × LeastOf st m.id
  unfolding pop_any pop_any_session queue_get
  pop_any-least h st name name_len some_queue in_service firsts found full =
      let qs = entries_from queue_buckets_n 0 st.queue_buckets in
      let s : Session W = record { db = h.db; st = st; world = h.world } in
      let first = All-entries_from (HasFirst st) queue_buckets_n 0 st.queue_buckets firsts in
      let (r, e, below, all, choice) = best_loop-least st qs none s first in
      let least : LeastOf st (best_id r) = LeastOf-entries st (best_id r) all in
      elim choice [
        | inl nothing ↦
            let (m, at_head, fits) =
              All-find (HasFirst st) (has_name name name_len)
                (st.queue_buckets (queue_bucket name name_len))
                (firsts (queue_bucket name name_len) (queue_bucket-lt name name_len)) found full in
            let below_it = least name name_len some_queue found m full at_head in
            absurd (omega (arith, below_it, ap best_id nothing, fits))
        | inr c ↦
            let (q, m, chosen) = OneOf-some c in
            (
              q,
              m,
              rw (in_service, e, chosen) refl,
              OneOf-bucket queue_buckets_n 0 st.queue_buckets (subst (λ x. OneOf st x qs) chosen c),
              Ensures-with_state pop_any_session h st in_service (rw (e, chosen) (do_pop-id q m s)),
              subst (λ x. LeastOf st (best_id x)) chosen least,
            )
      ]
