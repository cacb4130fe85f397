-- ===== src/History/Fixed.antt =====
-- What no operation changes of a message: where its data stand in the file, and its queue's name.
use qdb.Base.{
  ℕ, ◌+◌, ◌-◌, ◌^◌, ◌≡◌, ◌≢◌, refl, ap, ◌∙◌, Bool, true, false, Option, none, some, List, length,
  if◌then◌else◌, ◌==◌, ne→==, eq→==, Bool-cases, ==→eq, inl, inr,
}
use qdb.State.{
  Msg, Queue, State, msg_get, msg_insert, msg_write, queue_get, queue_write, queue_pending_append,
  queue_pending_remove, lease_insert, lease_remove,
}
use qdb.Word.{u32, u64}
use qdb.State.Tables.{updated, msg_get-write, msg_get-insert, msg_get-queue_write}
use qdb.State.Pending.{set_next, set_prev}
use qdb.State.Fifo.{linked}
use qdb.State.Leave.{cleared}
use qdb.Api.WellFormed.{msg_get-lease_remove}
use qdb.Api.Pop.{lease_message}
use qdb.Api.Settle.{ack_message, return_message, when_found}
use qdb.Replay.{new_msg, set_leased, set_acked, set_returned, add_leased, drop_leased, add_acked}
use qdb.Replay.LivePush.{pushed}

-- The fields of a message that no operation changes: where its data stand, and its queue's name.
abbrev pub fixed : Option Msg → Option (ℕ × ℕ × List ℕ)
fixed none = none
fixed (some m) = some (m.data_file_offset, m.data_len, m.queue_name)

abbrev pub facts : State → ℕ → Option (ℕ × ℕ × List ℕ)
facts st id = fixed (msg_get st id)

fixed-updated :
    (f : Msg → Msg)
    → ((m : Msg) → fixed (some (f m)) ≡ fixed (some m))
    → (o : Option Msg) → fixed (updated f o) ≡ fixed o
fixed-updated f same none = refl
fixed-updated f same (some m) = same m

-- A write through a pointer leaves them.
msg_write-fixed :
    {o : Option (ℕ × ℕ × List ℕ)} (st : State) (x id : ℕ) (f : Msg → Msg)
    → ((m : Msg) → (f m).id ≡ m.id)
    → ((m : Msg) → fixed (some (f m)) ≡ fixed (some m))
    → facts st id ≡ o
    → facts (msg_write st x f) id ≡ o
msg_write-fixed st x id f keeps same kept =
    ap fixed (msg_get-write st f keeps x id)
    ∙ elim (Bool-cases (x == id)) [
      | inl e ↦
          ap (λ b. fixed (if b then updated f (msg_get st x) else msg_get st id)) e
          ∙ fixed-updated f same (msg_get st x)
          ∙ ap (facts st) (==→eq x id e)
      | inr e ↦ ap (λ b. fixed (if b then updated f (msg_get st x) else msg_get st id)) e
    ]
    ∙ kept

-- The same for either branch of a test, and behind a write to a queue.
branch-fixed :
    {o : Option (ℕ × ℕ × List ℕ)} (b : Bool) (s t : State) (id : ℕ)
    → facts s id ≡ o
    → facts t id ≡ o
    → facts (if b then s else t) id ≡ o
branch-fixed true s t id p q = p
branch-fixed false s t id p q = q

queue_write-fixed :
    {o : Option (ℕ × ℕ × List ℕ)} (st : State) (q : Queue) (f : Queue → Queue) (id : ℕ)
    → facts st id ≡ o
    → facts (queue_write st q.name q.name_len f) id ≡ o
queue_write-fixed st q f id kept = ap fixed (msg_get-queue_write st q.name q.name_len f id) ∙ kept

module _ {o : Option (ℕ × ℕ × List ℕ)} (st : State) (id : ℕ) (kept : facts st id ≡ o) where
  append-fixed : (q : Queue) (n : ℕ) → facts (queue_pending_append st q n) id ≡ o
  unfolding queue_pending_append
  append-fixed q n =
      let st1 = msg_write st n (linked q.pending_tail) in
      let one = msg_write-fixed st n id (linked q.pending_tail) (λ m. refl) (λ m. refl) kept in
      let head : Queue → Queue = λ r. record r { pending_head = n } in
      queue_write-fixed _ q
        (λ r. record r { pending_tail = n; pending_count = u32 (r.pending_count + 1) }) id
        (branch-fixed (q.pending_tail == 0) (queue_write st1 q.name q.name_len head)
          (msg_write st1 q.pending_tail (set_next n)) id (queue_write-fixed st1 q head id one)
          (msg_write-fixed st1 q.pending_tail id (set_next n) (λ m. refl) (λ m. refl) one))

  remove-fixed : (q : Queue) (m : Msg) → facts (queue_pending_remove st q m) id ≡ o
  unfolding queue_pending_remove
  remove-fixed q m =
      let head : Queue → Queue = λ r. record r { pending_head = m.next_pending } in
      let tail : Queue → Queue = λ r. record r { pending_tail = m.prev_pending } in
      let before =
        if m.prev_pending == 0
        then queue_write st q.name q.name_len head
        else msg_write st m.prev_pending (set_next m.next_pending) in
      let one =
        branch-fixed (m.prev_pending == 0) (queue_write st q.name q.name_len head)
          (msg_write st m.prev_pending (set_next m.next_pending)) id
          (queue_write-fixed st q head id kept)
          (msg_write-fixed st m.prev_pending id (set_next m.next_pending) (λ n. refl) (λ n. refl)
            kept) in
      let behind =
        if m.next_pending == 0
        then queue_write before q.name q.name_len tail
        else msg_write before m.next_pending (set_prev m.prev_pending) in
      let two =
        branch-fixed (m.next_pending == 0) (queue_write before q.name q.name_len tail)
          (msg_write before m.next_pending (set_prev m.prev_pending)) id
          (queue_write-fixed before q tail id one)
          (msg_write-fixed before m.next_pending id (set_prev m.prev_pending) (λ n. refl)
            (λ n. refl) one) in
      queue_write-fixed (msg_write behind m.id cleared) q
        (λ r. record r { pending_count = u32 (r.pending_count + 2 ^ 32 - 1) }) id
        (msg_write-fixed behind m.id id cleared (λ n. refl) (λ n. refl) two)

  pub lease_message-fixed :
      (q : Queue) (m : Msg) (lease_id expiry_us : ℕ)
      → facts (lease_message q m lease_id expiry_us st) id ≡ o
  unfolding lease_message lease_insert msg_get
  lease_message-fixed q m lease_id expiry_us =
      let set = set_leased lease_id expiry_us in
      queue_write-fixed (msg_write (queue_pending_remove st q m) m.id set) q add_leased id (
        msg_write-fixed (queue_pending_remove st q m) m.id id set (λ n. refl) (λ n. refl)
          (remove-fixed q m))

counted-fixed :
    {x : Option (ℕ × ℕ × List ℕ)} (o : Option Queue) (st : State) (id : ℕ)
    → facts st id ≡ x
    → facts
        (when_found o
          (λ q t.
            queue_write (queue_write t q.name q.name_len drop_leased) q.name q.name_len add_acked)
          st)
        id
      ≡ x
counted-fixed none st id kept = kept
counted-fixed (some q) st id kept =
    queue_write-fixed (queue_write st q.name q.name_len drop_leased) q add_acked id
      (queue_write-fixed st q drop_leased id kept)

appended-fixed :
    {x : Option (ℕ × ℕ × List ℕ)} (o : Option Queue) (st : State) (n id : ℕ)
    → facts st id ≡ x
    → facts
        (when_found o
          (λ r t. queue_pending_append (queue_write t r.name r.name_len drop_leased) r n)
          st)
        id
      ≡ x
appended-fixed none st n id kept = kept
appended-fixed (some q) st n id kept =
    append-fixed (queue_write st q.name q.name_len drop_leased) id
      (queue_write-fixed st q drop_leased id kept) q n

module _ {o : Option (ℕ × ℕ × List ℕ)} (st : State) (id : ℕ) (kept : facts st id ≡ o) where
  pub ack_message-fixed : (m : Msg) (lease_id : ℕ) → facts (ack_message m lease_id st) id ≡ o
  unfolding ack_message
  ack_message-fixed m lease_id =
      let o = queue_get st m.queue_name m.queue_name_len in
      let counted =
        when_found o
          (λ q t.
            queue_write (queue_write t q.name q.name_len drop_leased) q.name q.name_len add_acked)
          st in
      msg_write-fixed (lease_remove counted lease_id) m.id id set_acked (λ n. refl) (λ n. refl)
        (ap fixed (msg_get-lease_remove counted lease_id id) ∙ counted-fixed o st id kept)

  pub return_message-fixed : (m : Msg) (lease_id : ℕ) → facts (return_message m lease_id st) id ≡ o
  unfolding return_message
  return_message-fixed m lease_id =
      appended-fixed (queue_get st m.queue_name m.queue_name_len)
        (msg_write (lease_remove st lease_id) m.id set_returned) m.id id
        (msg_write-fixed (lease_remove st lease_id) m.id id set_returned (λ n. refl) (λ n. refl)
          (ap fixed (msg_get-lease_remove st lease_id id) ∙ kept))

  pub pushed-fixed :
      (q : Queue) (n offset len : ℕ) (name : List ℕ)
      → n ≢ id
      → facts (pushed st q n offset name len) id ≡ o
  pushed-fixed q n offset len name ne =
      let m = new_msg n (u64 (offset + 9 + 9 + length name)) len (length name) name in
      append-fixed (msg_insert st m) id
        (ap fixed (msg_get-insert st m id ∙ rw (ne→== n id ne) refl) ∙ kept) q n

-- The message that a push brings in.
pub pushed-fixed_self :
    (st : State) (q : Queue) (n offset len : ℕ) (name : List ℕ)
    → facts (pushed st q n offset name len) n ≡ some (u64 (offset + 9 + 9 + length name), len, name)
pushed-fixed_self st q n offset len name =
    let m = new_msg n (u64 (offset + 9 + 9 + length name)) len (length name) name in
    append-fixed (msg_insert st m) n
      (ap fixed
        (msg_get-insert st m n ∙ ap (λ b. if b then some m else msg_get st n) (eq→== n n refl)))
      q n
