-- ===== src/State/Names.antt =====
-- Lookups of queues by their names: of another queue behind a write, and behind a creation.
use qdb.Base.{
  ℕ, ◌≡◌, ◌≢◌, refl, Bool, true, false, some, List, [], ◌∷◌, length, take, drop, arith, ◌==◌, eq→==,
  Bool-cases, inl, inr, ==→eq, subst,
}
use qdb.State.{
  Msg, msg_bucket, Queue, State, find, modify, memcmp_eq, has_name, queue_bucket, queue_get,
  queue_write, queue_create, new_queue, msg_get,
}

-- Two names that agree with the same bytes are one.
memcmp_eq_unique :
    (xs ys zs : List ℕ)
    → memcmp_eq (length xs) zs xs ≡ true
    → memcmp_eq (length xs) zs ys ≡ true
    → length ys ≡ length xs
    → xs ≡ ys
unfolding memcmp_eq
memcmp_eq_unique [] [] zs p r e = refl
memcmp_eq_unique [] (y ∷ ys) zs p r e = absurd (omega arith)
memcmp_eq_unique (x ∷ xs) [] zs p r e = absurd (omega arith)
memcmp_eq_unique (x ∷ xs) (y ∷ ys) zs p r e = grind (arith, memcmp_eq_unique xs ys (drop 1 zs))

memcmp_eq-take : (xs : List ℕ) → memcmp_eq (length xs) (take (length xs) xs) xs ≡ true
unfolding memcmp_eq
memcmp_eq-take [] = refl
memcmp_eq-take (x ∷ xs) = grind (arith, memcmp_eq-take xs)

-- No queue has two names.
apart :
    (a b : List ℕ) (q : Queue)
    → a ≢ b
    → has_name a (length a) q ≡ true
    → has_name b (length b) q ≡ false
apart a b q ne h = elim (Bool-cases (has_name b (length b) q)) [
  | inr f ↦ f
  | inl t ↦
      let same : length b ≡ length a = grind arith in
      let found : memcmp_eq (length b) q.name b ≡ true = grind arith in
      absurd (
        ne (
          memcmp_eq_unique a b q.name (grind arith)
            (subst (λ n. memcmp_eq n q.name b ≡ true) same found) same))
]

find-modify_apart :
    {A : Type 0} (test test' : A → Bool) (f : A → A)
    → ((a : A) → test a ≡ true → test' a ≡ false)
    → ((a : A) → test' (f a) ≡ test' a)
    → (l : List A) → find test' (modify test f l) ≡ find test' l
unfolding find modify
find-modify_apart test test' f differ keeps [] = refl
find-modify_apart test test' f differ keeps (a ∷ l) =
    grind (arith, differ a, keeps a, find-modify_apart test test' f differ keeps l)

-- A write that keeps name and length is not seen under another name.
pub queue_get-write_other :
    (st : State) (a b : List ℕ) (f : Queue → Queue)
    → a ≢ b
    → ((q : Queue) → has_name b (length b) (f q) ≡ has_name b (length b) q)
    → queue_get (queue_write st a (length a) f) b (length b) ≡ queue_get st b (length b)
unfolding queue_get queue_write
queue_get-write_other st a b f ne keeps =
    elim (Bool-cases (queue_bucket b (length b) == queue_bucket a (length a))) [
      | inr e ↦ rw e refl
      | inl e ↦
          rw (e, ==→eq (queue_bucket b (length b)) (queue_bucket a (length a)) e)
            (find-modify_apart (has_name a (length a)) (has_name b (length b)) f
              (λ q. apart a b q ne) keeps (st.queue_buckets (queue_bucket a (length a))))
    ]

new_queue-has_name :
    (name : List ℕ) → has_name name (length name) (new_queue name (length name)) ≡ true
new_queue-has_name name = grind (arith, memcmp_eq-take name, eq→== (length name) (length name) refl)

-- A queue that is created is found.
pub queue_get-create :
    (st : State) (name : List ℕ)
    → queue_get (queue_create st name (length name)) name (length name)
      ≡ some (new_queue name (length name))
unfolding queue_get queue_create find
queue_get-create st name =
    let b = queue_bucket name (length name) in rw (eq→== b b refl, new_queue-has_name name) refl

-- No other queue appears.
pub queue_get-create_other :
    (st : State) (a b : List ℕ)
    → a ≢ b
    → queue_get (queue_create st a (length a)) b (length b) ≡ queue_get st b (length b)
unfolding queue_get queue_create find
queue_get-create_other st a b ne =
    elim (Bool-cases (queue_bucket b (length b) == queue_bucket a (length a))) [
      | inr e ↦ rw e refl
      | inl e ↦
          rw
            (
              e,
              ==→eq (queue_bucket b (length b)) (queue_bucket a (length a)) e,
              apart a b (new_queue a (length a)) ne (new_queue-has_name a),
            )
            refl
    ]

pub msg_get-create :
    (st : State) (name : List ℕ) (id : ℕ)
    → msg_get (queue_create st name (length name)) id ≡ msg_get st id
unfolding msg_get queue_create
msg_get-create st name id = refl

-- A message is found under its own id.
find_key :
    {A : Type 0} (key : A → ℕ) (k : ℕ) (l : List A) (a : A)
    → find (λ b. key b == k) l ≡ some a
    → key a ≡ k
unfolding find
find_key key k [] a e = cc
find_key key k (b ∷ l) a e = grind (arith, find_key key k l a)

pub msg_get-id : (st : State) (id : ℕ) (m : Msg) → msg_get st id ≡ some m → m.id ≡ id
unfolding msg_get
msg_get-id st id m found = find_key Msg.id id (st.msg_buckets (msg_bucket id)) m found
