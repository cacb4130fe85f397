-- ===== src/State/WellFormed/Tables.antt =====
-- The invariant behind a write to a queue's counters, the creation of a queue, and the insertion of
-- a message.
use qdb.Base.{
  ℕ, ◌≡◌, ◌≢◌, refl, sym, ap, subst, ◌∙◌, none, some, List, [], ◌∷◌, length, take-all, arith,
  if◌then◌else◌, ◌==◌, ne→==, fun_ext, Bool-cases, Option-cases, not-none-some, some_inj, ◌⊎◌, inl,
  inr,
}
use qdb.State.{
  Msg, Queue, State, msg_get, msg_insert, queue_get, queue_write, queue_create, new_queue, has_name,
}
use qdb.State.Tables.{updated, msg_get-insert, msg_get-queue_write, queue_get-write}
use qdb.State.Pending.{Linked, Distinct, Holds}
use qdb.State.Names.{
  queue_get-write_other, queue_get-create, queue_get-create_other, msg_get-create,
}
use qdb.State.WellFormed.{Lists, HasQueue, Homes, named, IsWellFormed, Lists-frame, Homes-grow}

pub name_cases : (a b : List ℕ) → (a ≡ b) ⊎ (a ≢ b)
name_cases [] [] = inl refl
name_cases [] (y ∷ ys) = inr (λ e. grind arith)
name_cases (x ∷ xs) [] = inr (λ e. grind arith)
name_cases (x ∷ xs) (y ∷ ys) = elim (Bool-cases (x == y)) [
  | inr d ↦ inr (λ e. grind arith)
  | inl h ↦ elim (name_cases xs ys) [ inl e ↦ inl (grind arith) | inr d ↦ inr (λ e. grind arith) ]
]

-- A change of a queue that leaves its name and its list alone.
pub record KeepsList (f : Queue → Queue) : Type 0 where
  pub keeps_name : (q : Queue) → (f q).name ≡ q.name
  pub keeps_name_len : (q : Queue) → (f q).name_len ≡ q.name_len
  pub keeps_head : (q : Queue) → (f q).pending_head ≡ q.pending_head
  pub keeps_tail : (q : Queue) → (f q).pending_tail ≡ q.pending_tail
  pub keeps_count : (q : Queue) → (f q).pending_count ≡ q.pending_count

module _ (st : State) (x : ℕ) (name : List ℕ) (f : Queue → Queue) (keeps : KeepsList f) where
  has_name-kept : (b : List ℕ) (q : Queue) → has_name b (length b) (f q) ≡ has_name b (length b) q
  has_name-kept b q = rw (keeps.keeps_name q, keeps.keeps_name_len q) refl

  same_name : named (queue_write st name (length name) f) name ≡ updated f (named st name)
  same_name = queue_get-write st name (length name) f (has_name-kept name)

  other_name : (b : List ℕ) → name ≢ b → named (queue_write st name (length name) f) b ≡ named st b
  other_name b ne = queue_get-write_other st name b f ne (has_name-kept b)

  grows :
      (b : List ℕ) (q : Queue)
      → named st b ≡ some q
      → (q' : Queue) × (named (queue_write st name (length name) f) b ≡ some q')
  grows b q has = elim (name_cases name b) [
    | inr ne ↦ (q, other_name b ne ∙ has)
    | inl e ↦ (
      f q,
      ap (named (queue_write st name (length name) f)) (sym e)
          ∙ same_name
          ∙ ap (updated f) (ap (named st) e ∙ has),
    )
  ]

  Lists-kept : (b : List ℕ) (q : Queue) → Lists (msg_get st) x b q → Lists (msg_get st) x b (f q)
  unfolding Holds
  Lists-kept b q (e, l, ids, (links, distinct, count), waiting, others) = (
    keeps.keeps_name q ∙ e,
    keeps.keeps_name_len q ∙ l,
    ids,
    (rw (keeps.keeps_head q, keeps.keeps_tail q) links, distinct, keeps.keeps_count q ∙ count),
    waiting,
    others,
  )

  Lists-behind :
      ((b : List ℕ) (q : Queue) → named st b ≡ some q → Lists (msg_get st) x b q)
      → (b : List ℕ) (r : Queue) → named (queue_write st name (length name) f) b ≡ some r
      → Lists (msg_get st) x b r
  Lists-behind lists b r at = elim (name_cases name b) [
    | inr ne ↦ lists b r (sym (other_name b ne) ∙ at)
    | inl e ↦
        let eq : updated f (named st b) ≡ some r =
          ap (λ n. updated f (named st n)) (sym e)
          ∙ sym same_name
          ∙ ap (named (queue_write st name (length name) f)) e
          ∙ at in
        elim (Option-cases (named st b)) [
          | inl absent ↦ absurd (not-none-some (sym (ap (updated f) absent) ∙ eq))
          | inr (q, found) ↦
              subst (Lists (msg_get st) x b) (some_inj (sym (ap (updated f) found) ∙ eq))
                (Lists-kept b q (lists b q found))
        ]
  ]

  -- The counters of leased and acked messages do not matter.
  pub queue_write-WellFormed :
      IsWellFormed st x → IsWellFormed (queue_write st name (length name) f) x
  queue_write-WellFormed wf =
      let get = fun_ext (λ id. sym (msg_get-queue_write st name (length name) f id)) in
      record {
        home =
            subst (λ g. Homes g (named (queue_write st name (length name) f))) get
              (Homes-grow (msg_get st) (named st) (named (queue_write st name (length name) f))
                grows wf.home);
        lists = λ b r at. subst (λ g. Lists g x b r) get (Lists-behind wf.lists b r at);
      }

-- A queue that is created is empty.
module _ (st : State) (x : ℕ) (name : List ℕ) (absent : named st name ≡ none) where
  abbrev made : State
  made = queue_create st name (length name)

  grows_made :
      (b : List ℕ) (q : Queue) → named st b ≡ some q → (q' : Queue) × (named made b ≡ some q')
  grows_made b q has = elim (name_cases name b) [
    | inr ne ↦ (q, queue_get-create_other st name b ne ∙ has)
    | inl e ↦ absurd (not-none-some (sym absent ∙ ap (named st) e ∙ has))
  ]

  new_Lists : Lists (msg_get st) x name (new_queue name (length name))
  unfolding Holds Linked Distinct
  new_Lists =
      (take-all name (length name) (omega arith), refl, [], ((refl, refl), tt, refl), tt, tt)

  Lists-made :
      ((b : List ℕ) (q : Queue) → named st b ≡ some q → Lists (msg_get st) x b q)
      → (b : List ℕ) (r : Queue) → named made b ≡ some r
      → Lists (msg_get st) x b r
  Lists-made lists b r at = elim (name_cases name b) [
    | inr ne ↦ lists b r (sym (queue_get-create_other st name b ne) ∙ at)
    | inl e ↦
        subst (λ n. Lists (msg_get st) x n r) e
          (subst (Lists (msg_get st) x name)
            (some_inj (sym (queue_get-create st name) ∙ ap (named made) e ∙ at)) new_Lists)
  ]

  pub queue_create-WellFormed :
      IsWellFormed st x → IsWellFormed (queue_create st name (length name)) x
  queue_create-WellFormed wf =
      let get = fun_ext (λ id. sym (msg_get-create st name id)) in
      record {
        home =
            subst (λ g. Homes g (named made)) get
              (Homes-grow (msg_get st) (named st) (named made) grows_made wf.home);
        lists = λ b r at. subst (λ g. Lists g x b r) get (Lists-made wf.lists b r at);
      }

pub queue_get-msg_insert :
    (st : State) (m : Msg) (name : List ℕ) → named (msg_insert st m) name ≡ named st name
unfolding queue_get msg_insert
queue_get-msg_insert st m name = refl

-- A message that is inserted under a fresh id is in no list.
pub msg_insert-WellFormed :
    (st : State) (m : Msg)
    → msg_get st m.id ≡ none
    → HasQueue (named st) m
    → IsWellFormed st 0
    → IsWellFormed (msg_insert st m) m.id
msg_insert-WellFormed st m fresh housed wf =
    let que = fun_ext (λ name. sym (queue_get-msg_insert st m name)) in
    record {
      home = subst (Homes (msg_get (msg_insert st m))) que inserted;
      lists = λ name q at.
          Lists-frame (msg_get st) (msg_get (msg_insert st m)) 0 m.id name q
            (λ k (n, found, waits, b, c) d. same k n found)
            (wf.lists name q (sym (queue_get-msg_insert st m name) ∙ at));
    }
  where
    same :
        (k : ℕ) (n : Msg)
        → msg_get st k ≡ some n
        → (msg_get (msg_insert st m) k ≡ msg_get st k) × (k ≢ m.id)
    same k n found =
        let ne : k ≢ m.id = λ e. not-none-some (sym fresh ∙ ap (msg_get st) (sym e) ∙ found) in
        (msg_get-insert st m k ∙ rw (ne→== m.id k (λ e. ne (sym e))) refl, ne)

    inserted : Homes (msg_get (msg_insert st m)) (named st)
    inserted id n found =
        let eq = sym (msg_get-insert st m id) ∙ found in
        elim (Bool-cases (m.id == id)) [
          | inl e ↦
              subst (HasQueue (named st))
                (some_inj (sym (ap (λ b. if b then some m else msg_get st id) e) ∙ eq)) housed
          | inr ne ↦ wf.home id n (sym (ap (λ b. if b then some m else msg_get st id) ne) ∙ eq)
        ]
