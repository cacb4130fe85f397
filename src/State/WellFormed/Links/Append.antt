-- ===== src/State/WellFormed/Links/Append.antt =====
-- The invariant behind `qdb__queue_pending_append`.
use qdb.Base.{
  ℕ, ◌+◌, ◌^◌, ◌<◌, ◌≡◌, ◌≢◌, refl, sym, ap, subst, ◌∙◌, Option, some, List, [], ◌∷◌, ◌++◌, length,
  All, arith, if◌then◌else◌, ◌==◌, fun_ext, Bool-cases, some_inj, ◌⊎◌, inl, inr,
}
use qdb.Word.{u32}
use qdb.State.{
  Msg, pending, Queue, State, msg_get, msg_write, queue_get, queue_write, queue_pending_append,
}
use qdb.State.Tables.{queue_get-msg_write}
use qdb.State.Pending.{Linked, Holds, positive, set_next}
use qdb.State.Names.{queue_get-write_other}
use qdb.State.Fifo.{
  linked, appended, append_lookup, append_other, append_self, append_queue, fresh_tail,
  queue_pending_append-Holds,
}
use qdb.State.WellFormed.{Waiting, Lists, Homes, named, IsWellFormed, Homes-grow, Homes-msg_write}
use qdb.State.WellFormed.Links.{All-Waiting-relinked, Lists-relinked, only_here, Lists-here}

All-snoc : (P : ℕ → Type 0) (l : List ℕ) (n : ℕ) → All P l → P n → All P (l ++ n ∷ [])
All-snoc P [] n ps p = (p, tt)
All-snoc P (a ∷ l) n (q, ps) p = (q, All-snoc P l n ps p)

last-All :
    (get : ℕ → Option Msg) (P : ℕ → Type 0) (prev first : ℕ) (id : ℕ) (ids : List ℕ) (last : ℕ)
    → Linked get prev first (id ∷ ids) last
    → All P (id ∷ ids)
    → P last
unfolding Linked
last-All get P prev first id [] last (e, pos, m, found, back, (next, end)) (p, ps) =
    subst P (sym end) p
last-All get P prev first id (k ∷ ids) last (e, pos, m, found, back, links) (p, ps) =
    last-All get P id m.next_pending k ids last links ps

tail_waits :
    (get : ℕ → Option Msg) (P : ℕ → Type 0) (first : ℕ) (ids : List ℕ) (last : ℕ)
    → Linked get 0 first ids last
    → All P ids
    → (last ≡ 0) ⊎ P last
unfolding Linked
tail_waits get P first [] last (e, end) ps = inl end
tail_waits get P first (id ∷ ids) last links ps = inr (last-All get P 0 first id ids last links ps)

module _ (st : State) (q : Queue) (full : q.name_len ≡ length q.name) where
  append_queue_other :
      (n : ℕ) (b : List ℕ) → q.name ≢ b → named (queue_pending_append st q n) b ≡ named st b
  unfolding queue_pending_append
  append_queue_other n b ne =
      let st1 = msg_write st n (linked q.pending_tail) in
      elim (Bool-cases (q.pending_tail == 0)) [
        | inl e ↦
            rw (e, full)
              (queue_get-write_other
                  (queue_write st1 q.name (length q.name) (λ r. record r { pending_head = n }))
                  q.name b
                  (λ r. record r { pending_tail = n; pending_count = u32 (r.pending_count + 1) }) ne
                  (λ r. refl)
                ∙ queue_get-write_other st1 q.name b (λ r. record r { pending_head = n }) ne
                    (λ r. refl)
                ∙ queue_get-msg_write st n (linked q.pending_tail) b (length b))
        | inr e ↦
            rw (e, full)
              (queue_get-write_other (msg_write st1 q.pending_tail (set_next n)) q.name b
                  (λ r. record r { pending_tail = n; pending_count = u32 (r.pending_count + 1) }) ne
                  (λ r. refl)
                ∙ queue_get-msg_write st1 q.pending_tail (set_next n) b (length b)
                ∙ queue_get-msg_write st n (linked q.pending_tail) b (length b))
      ]

-- The queue, its name, and the message to be appended, which waits in it but is in no list.
module _ (st : State) (q : Queue) (n : ℕ) (m : Msg)
    (queue : queue_get st q.name q.name_len ≡ some q) (full : q.name_len ≡ length q.name)
    (found : msg_get st n ≡ some m) (waits : m.state ≡ pending) (named_by : m.queue_name ≡ q.name)
    (len : m.queue_name_len ≡ length q.name) (pos : 0 < n) where
  abbrev after : State
  after = queue_pending_append st q n

  queue_named : named st q.name ≡ some q
  queue_named = ap (queue_get st q.name) (sym full) ∙ queue

  after-named : named after q.name ≡ some (appended q n)
  after-named = ap (queue_get after q.name) (sym full) ∙ append_queue st q n queue

  after-Homes : Homes (msg_get st) (named st) → Homes (msg_get after) (named after)
  after-Homes home =
      let st1 = msg_write st n (linked q.pending_tail) in
      let home1 =
        Homes-msg_write st (named st) n (linked q.pending_tail) (λ m. refl) (λ m. refl) (λ m. refl)
          home in
      let home2 =
        Homes-msg_write st1 (named st) q.pending_tail (set_next n) (λ m. refl) (λ m. refl)
          (λ m. refl) home1 in
      Homes-grow (msg_get after) (named st) (named after)
        (only_here (named st) (named after) q.name (appended q n) after-named
          (append_queue_other st q full n))
        (elim (Bool-cases (q.pending_tail == 0)) [
          | inl e ↦
              subst (λ g. Homes g (named st))
                (fun_ext (λ k. sym (
                  append_lookup st q n k
                  ∙ ap
                      (λ b.
                        if b
                        then msg_get st1 k
                        else msg_get (msg_write st1 q.pending_tail (set_next n)) k)
                      e)))
                home1
          | inr e ↦
              subst (λ g. Homes g (named st))
                (fun_ext (λ k. sym (
                  append_lookup st q n k
                  ∙ ap
                      (λ b.
                        if b
                        then msg_get st1 k
                        else msg_get (msg_write st1 q.pending_tail (set_next n)) k)
                      e)))
                home2
        ])

  append_Lists :
      Lists (msg_get st) n q.name q
      → q.pending_count + 1 < 2 ^ 32
      → ((q' : Queue) × (named after q.name ≡ some q') × Lists (msg_get after) 0 q.name q')
        × ((q.pending_tail ≡ 0) ⊎ Waiting (msg_get st) q.name q.pending_tail)
  unfolding Holds
  append_Lists (e, l, ids, holds, waiting, fresh) fits =
      let (links, distinct, count) = holds in
      let all_positive = positive (msg_get st) 0 q.pending_head ids q.pending_tail links in
      let (q', at, holds') =
        queue_pending_append-Holds st q n m ids holds queue found pos fresh (omega arith) in
      let same : appended q n ≡ q' = some_inj (sym (append_queue st q n queue) ∙ at) in
      let self = append_self st q n m found (fresh_tail n (msg_get st) q ids links pos fresh) in
      (
        (
          appended q n,
          after-named,
          (
            refl,
            full,
            ids ++ n ∷ [],
            subst (λ r. Holds (msg_get after) r (ids ++ n ∷ [])) (sym same) holds',
            All-snoc (Waiting (msg_get after) q.name) ids n
                (All-Waiting-relinked (msg_get st) (msg_get after) n q.pending_tail q.name
                  (set_next n) (λ m. refl) (λ m. refl) (λ m. refl) (append_other st q n) ids
                  all_positive fresh waiting)
                (linked q.pending_tail m, self, waits, named_by, len),
            All-snoc (λ k. k ≢ 0) ids n all_positive (λ z. omega arith),
          ),
        ),
        tail_waits (msg_get st) (Waiting (msg_get st) q.name) q.pending_head ids q.pending_tail
            links waiting,
      )

  -- The appended message is in the list of its queue.
  pub append-WellFormed : IsWellFormed st n → q.pending_count + 1 < 2 ^ 32 → IsWellFormed after 0
  append-WellFormed wf fits =
      let ((q', at, lists'), one) = append_Lists (wf.lists q.name q queue_named) fits in
      record {
        home = after-Homes wf.home;
        lists =
            Lists-here (msg_get after) 0 (named st) (named after) q.name q' at
              (append_queue_other st q full n) lists'
              (λ b r ne has.
                Lists-relinked (msg_get st) (msg_get after) n q.pending_tail q.name (set_next n)
                  (λ m. refl) (λ m. refl) (λ m. refl) (append_other st q n) one 0 n b r ne
                  (λ k w d p. (d, p)) (wf.lists b r has));
      }
