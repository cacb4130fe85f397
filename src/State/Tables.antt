-- ===== src/State/Tables.antt =====
-- What a lookup in the message, queue and lease tables finds behind each operation on them.
use qdb.Base.{
  ℕ, ◌≡◌, ◌≢◌, refl, sym, ap, ◌∙◌, Bool, Option, none, some, List, [], ◌∷◌, arith, if◌then◌else◌,
  ◌==◌, ==→eq, eq→==, Bool-cases, inl, inr,
}
use qdb.State.{
  Msg, Queue, Lease, State, find, modify, has_name, msg_bucket, msg_get, msg_insert, msg_write,
  queue_get, queue_write, queue_bucket, lease_get, lease_insert,
}

-- The value that is written through a pointer that may be null.
abbrev pub updated : {A : Type 0} → (A → A) → Option A → Option A
updated f none = none
updated f (some a) = some (f a)

module _ {A : Type 0} (key : A → ℕ) where
  find-modify_same :
      (f : A → A) (keeps : (a : A) → key (f a) ≡ key a) (k : ℕ) (l : List A)
      → find (λ a. key a == k) (modify (λ a. key a == k) f l) ≡ updated f (find (λ a. key a == k) l)
  unfolding find modify
  find-modify_same f keeps k [] = refl
  find-modify_same f keeps k (a ∷ l) = grind (arith, keeps a, find-modify_same f keeps k l)

  find-modify_other :
      (f : A → A) (keeps : (a : A) → key (f a) ≡ key a) (k k' : ℕ) (l : List A)
      → k ≢ k'
      → find (λ a. key a == k') (modify (λ a. key a == k) f l) ≡ find (λ a. key a == k') l
  unfolding find modify
  find-modify_other f keeps k k' [] ne = refl
  find-modify_other f keeps k k' (a ∷ l) ne =
      grind (arith, keeps a, find-modify_other f keeps k k' l ne)

-- A message that is inserted is found, and hides what was found under its id; the lookup of another
-- id finds what it found before.
pub msg_get-insert :
    (st : State) (m : Msg) (id : ℕ)
    → msg_get (msg_insert st m) id ≡ (if m.id == id then some m else msg_get st id)
unfolding msg_get msg_insert find
msg_get-insert st m id = grind arith

-- A write through the pointer to a message, which keeps its id, is what the next lookup of that id
-- finds, and changes what no other id finds.
pub msg_get-write :
    (st : State) (f : Msg → Msg) (keeps : (m : Msg) → (f m).id ≡ m.id) (id id' : ℕ)
    → msg_get (msg_write st id f) id'
      ≡ (if id == id' then updated f (msg_get st id) else msg_get st id')
unfolding msg_get msg_write
msg_get-write st f keeps id id' = elim (Bool-cases (id == id')) [
  | inl e ↦
      rw (e, sym (==→eq id id' e), eq→== (msg_bucket id) (msg_bucket id) refl)
        (find-modify_same Msg.id f keeps id (st.msg_buckets (msg_bucket id)))
  | inr e ↦ rw e (elim (Bool-cases (msg_bucket id' == msg_bucket id)) [
    | inl b ↦
        rw (b, ==→eq (msg_bucket id') (msg_bucket id) b)
          (find-modify_other Msg.id f keeps id id' (st.msg_buckets (msg_bucket id))
            (λ d. grind arith))
    | inr b ↦ rw b refl
  ])
]

-- A lease that is inserted is found under its id, and no other lookup changes.
pub lease_get-insert :
    (st : State) (l : Lease) (id : ℕ)
    → lease_get (lease_insert st l) id ≡ (if l.lease_id == id then some l else lease_get st id)
unfolding lease_get lease_insert find
lease_get-insert st l id = grind arith

find-modify :
    {A : Type 0} (test : A → Bool) (f : A → A) (keeps : (a : A) → test (f a) ≡ test a) (l : List A)
    → find test (modify test f l) ≡ updated f (find test l)
unfolding find modify
find-modify test f keeps [] = refl
find-modify test f keeps (a ∷ l) = grind (arith, keeps a, find-modify test f keeps l)

-- A write through the pointer to a queue, which keeps its name, is what the next lookup finds.
pub queue_get-write :
    (st : State) (name : List ℕ) (name_len : ℕ) (f : Queue → Queue)
    → ((q : Queue) → has_name name name_len (f q) ≡ has_name name name_len q)
    → queue_get (queue_write st name name_len f) name name_len
      ≡ updated f (queue_get st name name_len)
unfolding queue_get queue_write
queue_get-write st name name_len f keeps =
    let b = queue_bucket name name_len in
    rw (eq→== b b refl) (find-modify (has_name name name_len) f keeps (st.queue_buckets b))

pub msg_get-queue_write :
    (st : State) (name : List ℕ) (name_len : ℕ) (f : Queue → Queue) (id : ℕ)
    → msg_get (queue_write st name name_len f) id ≡ msg_get st id
unfolding msg_get queue_write
msg_get-queue_write st name name_len f id = refl

pub queue_get-msg_write :
    (st : State) (id : ℕ) (f : Msg → Msg) (name : List ℕ) (name_len : ℕ)
    → queue_get (msg_write st id f) name name_len ≡ queue_get st name name_len
unfolding queue_get msg_write
queue_get-msg_write st id f name name_len = refl

-- A write to the queue after others that are known.
pub write_queue :
    (st : State) (q r : Queue) (f : Queue → Queue)
    → ((q' : Queue) → has_name q.name q.name_len (f q') ≡ has_name q.name q.name_len q')
    → queue_get st q.name q.name_len ≡ some r
    → queue_get (queue_write st q.name q.name_len f) q.name q.name_len ≡ some (f r)
write_queue st q r f keeps found =
    queue_get-write st q.name q.name_len f keeps ∙ ap (updated f) found
