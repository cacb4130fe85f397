-- ===== src/State/WellFormed/Links/Remove.antt =====
-- The invariant behind `qdb__queue_pending_remove` of a queue's first message.
use qdb.Base.{
  ℕ, ◌+◌, ◌-◌, ◌^◌, ◌<◌, ◌≡◌, ◌≢◌, refl, sym, ap, subst, ◌∙◌, Option, some, List, [], ◌∷◌, length,
  All, arith, if◌then◌else◌, ◌==◌, eq→==, fun_ext, Bool-cases, some_inj, ◌⊎◌, inl, inr,
}
use qdb.Word.{u32}
use qdb.State.{Msg, Queue, State, msg_get, msg_write, queue_get, queue_write, queue_pending_remove}
use qdb.State.Tables.{queue_get-msg_write}
use qdb.State.Pending.{Linked, Distinct, Holds, positive, set_prev}
use qdb.State.Names.{queue_get-write_other}
use qdb.State.Leave.{
  cleared, removed, remove_lookup, remove_other, remove_queue, queue_pending_remove-Holds,
}
use qdb.State.WellFormed.{Waiting, Lists, Homes, named, IsWellFormed, Homes-grow, Homes-msg_write}
use qdb.State.WellFormed.Links.{All-Waiting-relinked, Lists-relinked, only_here, Lists-here}

head_waits :
    (get : ℕ → Option Msg) (P : ℕ → Type 0) (prev first : ℕ) (ids : List ℕ) (last : ℕ)
    → Linked get prev first ids last
    → All P ids
    → (first ≡ 0) ⊎ P first
unfolding Linked
head_waits get P prev first [] last (e, end) ps = inl e
head_waits get P prev first (id ∷ ids) last (e, pos, m, found, back, links) (p, ps) =
    inr (subst P (sym e) p)

module _ (st : State) (q : Queue) (full : q.name_len ≡ length q.name) where
  remove_queue_other :
      (m : Msg) (b : List ℕ)
      → m.prev_pending ≡ 0
      → q.name ≢ b
      → named (queue_pending_remove st q m) b ≡ named st b
  unfolding queue_pending_remove
  remove_queue_other m b first ne =
      let head : Queue → Queue = λ r. record r { pending_head = m.next_pending } in
      let tail : Queue → Queue = λ r. record r { pending_tail = m.prev_pending } in
      let count : Queue → Queue =
        λ r. record r { pending_count = u32 (r.pending_count + 2 ^ 32 - 1) } in
      let st1 = queue_write st q.name (length q.name) head in
      let st2 = queue_write st1 q.name (length q.name) tail in
      let st3 = msg_write st1 m.next_pending (set_prev m.prev_pending) in
      let one = queue_get-write_other st q.name b head ne (λ r. refl) in
      elim (Bool-cases (m.next_pending == 0)) [
        | inl h ↦
            rw (eq→== m.prev_pending 0 first, h, full)
              (queue_get-write_other (msg_write st2 m.id cleared) q.name b count ne (λ r. refl)
                ∙ queue_get-msg_write st2 m.id cleared b (length b)
                ∙ queue_get-write_other st1 q.name b tail ne (λ r. refl)
                ∙ one)
        | inr h ↦
            rw (eq→== m.prev_pending 0 first, h, full)
              (queue_get-write_other (msg_write st3 m.id cleared) q.name b count ne (λ r. refl)
                ∙ queue_get-msg_write st3 m.id cleared b (length b)
                ∙ queue_get-msg_write st1 m.next_pending (set_prev m.prev_pending) b (length b)
                ∙ one)
      ]

-- The queue, its name, and its first message, which is taken out.
module _ (st : State) (q : Queue) (m : Msg) (queue : queue_get st q.name q.name_len ≡ some q)
    (full : q.name_len ≡ length q.name) (found : msg_get st m.id ≡ some m)
    (first : q.pending_head ≡ m.id) (some_first : q.pending_head ≢ 0) where
  abbrev behind : State
  behind = queue_pending_remove st q m

  still_named : named st q.name ≡ some q
  still_named = ap (queue_get st q.name) (sym full) ∙ queue

  behind-Homes :
      m.prev_pending ≡ 0 → Homes (msg_get st) (named st) → Homes (msg_get behind) (named st)
  behind-Homes none_before home =
      let prev = set_prev m.prev_pending in
      let st1 = msg_write st m.next_pending prev in
      let home1 =
        Homes-msg_write st (named st) m.next_pending prev (λ m. refl) (λ m. refl) (λ m. refl)
          home in
      elim (Bool-cases (m.next_pending == 0)) [
        | inl e ↦
            subst (λ g. Homes g (named st))
              (fun_ext (λ k. sym (
                remove_lookup st q m k none_before
                ∙ ap
                    (λ b.
                      if b
                      then msg_get (msg_write st m.id cleared) k
                      else msg_get (msg_write st1 m.id cleared) k)
                    e)))
              (Homes-msg_write st (named st) m.id cleared (λ m. refl) (λ m. refl) (λ m. refl) home)
        | inr e ↦
            subst (λ g. Homes g (named st))
              (fun_ext (λ k. sym (
                remove_lookup st q m k none_before
                ∙ ap
                    (λ b.
                      if b
                      then msg_get (msg_write st m.id cleared) k
                      else msg_get (msg_write st1 m.id cleared) k)
                    e)))
              (Homes-msg_write st1 (named st) m.id cleared (λ m. refl) (λ m. refl) (λ m. refl)
                home1)
      ]

  -- What is known of the first message and of the rest of the list.
  record Cut : Type 0 where
    rest : List ℕ
    none_before : m.prev_pending ≡ 0
    first_waits : Waiting (msg_get st) q.name m.id
    whole : Holds (msg_get st) q (m.id ∷ rest)
    rest_positive : All (λ k. k ≢ 0) rest
    rest_others : All (λ k. k ≢ m.id) rest
    rest_waits : All (Waiting (msg_get st) q.name) rest
    next_waits : (m.next_pending ≡ 0) ⊎ Waiting (msg_get st) q.name m.next_pending

  cut : Lists (msg_get st) 0 q.name q → Cut
  unfolding Holds Linked Distinct
  cut (e, l, [], ((none_first, end), distinct, count), waiting, others) =
      absurd (some_first none_first)
  cut
        (
          e,
          l,
          id ∷ ids,
          ((at, pos, m', found', back, links), (ne, distinct), count),
          (w, waiting),
          others,
        ) =
      let eq : id ≡ m.id = sym at ∙ first in
      let same : m' ≡ m = some_inj (sym found' ∙ ap (msg_get st) eq ∙ found) in
      record {
        rest = ids;
        none_before = sym (ap Msg.prev_pending same) ∙ back;
        first_waits = subst (Waiting (msg_get st) q.name) eq w;
        whole =
            subst (λ i. Holds (msg_get st) q (i ∷ ids)) eq
              ((at, pos, m', found', back, links), (ne, distinct), count);
        rest_positive = positive (msg_get st) id m'.next_pending ids q.pending_tail links;
        rest_others = subst (λ i. All (λ k. k ≢ i) ids) eq ne;
        rest_waits = waiting;
        next_waits =
            subst (λ (n : Msg). (n.next_pending ≡ 0) ⊎ Waiting (msg_get st) q.name n.next_pending)
              same
              (head_waits (msg_get st) (Waiting (msg_get st) q.name) id m'.next_pending ids
                q.pending_tail links waiting);
      }

  remove_Lists :
      Cut
      → q.pending_count < 2 ^ 32
      → (q' : Queue) × (named behind q.name ≡ some q') × Lists (msg_get behind) m.id q.name q'
  unfolding Holds
  remove_Lists c fits =
      let (q', at, holds') =
        queue_pending_remove-Holds st q m c.rest c.whole queue found (omega (arith, c.whole)) in
      let same : removed q m ≡ q' = some_inj (sym (remove_queue st q m c.none_before queue) ∙ at) in
      (
        removed q m,
        ap (queue_get behind q.name) (sym full) ∙ remove_queue st q m c.none_before queue,
        (
          refl,
          full,
          c.rest,
          subst (λ r. Holds (msg_get behind) r c.rest) (sym same) holds',
          All-Waiting-relinked (msg_get st) (msg_get behind) m.id m.next_pending q.name (set_prev 0)
              (λ m. refl) (λ m. refl) (λ m. refl) (λ k p d. remove_other st q m k c.none_before d p)
              c.rest c.rest_positive c.rest_others c.rest_waits,
          c.rest_others,
        ),
      )

  -- The first message is in no list any more.
  pub remove-WellFormed : IsWellFormed st 0 → q.pending_count < 2 ^ 32 → IsWellFormed behind m.id
  remove-WellFormed wf fits =
      let c = cut (wf.lists q.name q still_named) in
      let (q', at, lists') = remove_Lists c fits in
      let other : (b : List ℕ) → q.name ≢ b → named behind b ≡ named st b =
        λ b ne. remove_queue_other st q full m b c.none_before ne in
      record {
        home =
            Homes-grow (msg_get behind) (named st) (named behind)
              (only_here (named st) (named behind) q.name q' at other)
              (behind-Homes c.none_before wf.home);
        lists =
            Lists-here (msg_get behind) m.id (named st) (named behind) q.name q' at other lists'
              (λ b r ne has.
                Lists-relinked (msg_get st) (msg_get behind) m.id m.next_pending q.name (set_prev 0)
                  (λ m. refl) (λ m. refl) (λ m. refl)
                  (λ k p d. remove_other st q m k c.none_before d p) c.next_waits m.id 0 b r ne
                  (λ k w d p. let away = elsewhere b k ne c.first_waits w in (away, away))
                  (wf.lists b r has));
      }
    where
      elsewhere :
          (b : List ℕ) (k : ℕ)
          → q.name ≢ b
          → Waiting (msg_get st) q.name m.id
          → Waiting (msg_get st) b k
          → k ≢ m.id
      elsewhere b k ne (m1, found1, s1, n1, l1) (m2, found2, s2, n2, l2) e =
          let same : m1 ≡ m2 = some_inj (sym found1 ∙ ap (msg_get st) (sym e) ∙ found2) in
          ne (sym n1 ∙ ap Msg.queue_name same ∙ n2)

  -- The first message of a queue is one that waits in it.
  pub head-Waiting : IsWellFormed st 0 → Waiting (msg_get st) q.name m.id
  head-Waiting wf = (cut (wf.lists q.name q still_named)).first_waits
