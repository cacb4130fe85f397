-- ===== src/History/Fresh.antt =====
-- No operation brings an id back: what a lookup does not find, it does not find behind a record
-- either, but for the id that the record brings in.
use qdb.Base.{
  ℕ, ◌+◌, ◌≡◌, ◌≢◌, refl, ap, subst, ◌∙◌, Option, none, some, List, [], ◌∷◌, length, arith,
  Option-cases, inl, inr,
}
use qdb.State.{Msg, State, msg_get, queue_get, queue_create, new_queue}
use qdb.Word.{u64}
use qdb.State.Names.{msg_get-create}
use qdb.History.{
  LogRecord, push_record, lease_record, ack_record, nack_record, expire_record, enqueued-found,
  enqueued-absent, Step, Steps, encoded,
}
use qdb.History.Fixed.{
  fixed, facts, lease_message-fixed, ack_message-fixed, return_message-fixed, pushed-fixed,
  pushed-fixed_self,
}

-- A message that a record does not bring in is not there behind it, if it was not before.
abbrev pub BringsNot : LogRecord → ℕ → Type 0
BringsNot (push_record n queue bytes) id = n ≢ id
BringsNot (lease_record n expiry_us lease_id) id = Unit {0}
BringsNot (ack_record n lease_id) id = Unit {0}
BringsNot (nack_record n lease_id) id = Unit {0}
BringsNot (expire_record n lease_id) id = Unit {0}

pub Step-fixed :
    {o : Option (ℕ × ℕ × List ℕ)} (offset : ℕ) (st : State) (r : LogRecord) (st' : State) (id : ℕ)
    → Step offset st r st'
    → BringsNot r id
    → facts st id ≡ o
    → facts st' id ≡ o
Step-fixed offset st (push_record n queue bytes) st' id (pushes, made) ne kept =
    ap (λ s. facts s id) made ∙ elim (Option-cases (queue_get st queue (length queue))) [
      | inl none_found ↦
          ap (λ s. facts s id) (enqueued-absent offset n queue (length bytes) st none_found)
          ∙ pushed-fixed (queue_create st queue (length queue)) id
              (ap fixed (msg_get-create st queue id) ∙ kept) (new_queue queue (length queue)) n
              offset (length bytes) queue ne
      | inr (q, found) ↦
          ap (λ s. facts s id) (enqueued-found offset n queue (length bytes) st q found)
          ∙ pushed-fixed st id kept q n offset (length bytes) queue ne
    ]
Step-fixed offset st (lease_record n expiry_us lease_id) st' id (m, q, leases, made) ne kept =
    ap (λ s. facts s id) made ∙ lease_message-fixed st id kept q m lease_id expiry_us
Step-fixed offset st (ack_record n lease_id) st' id (m, q, settles, made) ne kept =
    ap (λ s. facts s id) made ∙ ack_message-fixed st id kept m lease_id
Step-fixed offset st (nack_record n lease_id) st' id (m, q, settles, pos, room, made) ne kept =
    ap (λ s. facts s id) made ∙ return_message-fixed st id kept m lease_id
Step-fixed offset st (expire_record n lease_id) st' id (m, q, settles, pos, room, made) ne kept =
    ap (λ s. facts s id) made ∙ return_message-fixed st id kept m lease_id

-- The message that a PUSH record brings in.
pub Step-fixed_push :
    (offset : ℕ) (st : State) (n : ℕ) (queue bytes : List ℕ) (st' : State)
    → Step offset st (push_record n queue bytes) st'
    → facts st' n ≡ some (u64 (offset + 9 + 9 + length queue), length bytes, queue)
Step-fixed_push offset st n queue bytes st' (pushes, made) =
    ap (λ s. facts s n) made ∙ elim (Option-cases (queue_get st queue (length queue))) [
      | inl absent ↦
          ap (λ s. facts s n) (enqueued-absent offset n queue (length bytes) st absent)
          ∙ pushed-fixed_self (queue_create st queue (length queue))
              (new_queue queue (length queue)) n offset (length bytes) queue
      | inr (q, found) ↦
          ap (λ s. facts s n) (enqueued-found offset n queue (length bytes) st q found)
          ∙ pushed-fixed_self st q n offset (length bytes) queue
    ]

fixed-none : (o : Option Msg) → fixed o ≡ none → o ≡ none
fixed-none none e = refl
fixed-none (some m) e = cc

pub Step-none :
    (offset : ℕ) (st : State) (r : LogRecord) (st' : State) (id : ℕ)
    → Step offset st r st'
    → BringsNot r id
    → msg_get st id ≡ none
    → msg_get st' id ≡ none
Step-none offset st r st' id step ne absent =
    fixed-none (msg_get st' id) (Step-fixed offset st r st' id step ne (ap fixed absent))

-- No message has the id 0.
pub zero-none :
    (offset : ℕ) (st : State) (rs : List LogRecord) (st' : State)
    → Steps offset st rs st'
    → msg_get st 0 ≡ none
    → msg_get st' 0 ≡ none
unfolding Steps
zero-none offset st [] st' e absent = subst (λ s. msg_get s 0 ≡ none) e absent
zero-none offset st (r ∷ rs) st' (mid, step, steps) absent =
    zero-none (offset + length (encoded r)) mid rs st' steps
      (Step-none offset st r mid 0 step (brings r step) absent)
  where
    brings : (r : LogRecord) → Step offset st r mid → BringsNot r 0
    brings (push_record n queue bytes) ((pos, a, b, c, d, e, f), made) = λ e. omega arith
    brings (lease_record n expiry_us lease_id) step = tt
    brings (ack_record n lease_id) step = tt
    brings (nack_record n lease_id) step = tt
    brings (expire_record n lease_id) step = tt
