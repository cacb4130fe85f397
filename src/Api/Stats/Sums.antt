-- ===== src/Api/Stats/Sums.antt =====
-- What `qdb_stats` adds up: the counts of the queues of the whole table.
use qdb.Base.{
  ℕ, zero, suc, ◌+◌, ◌^◌, ◌<◌, ◌≡◌, refl, ap, ◌∙◌, List, [], ◌∷◌, ◌++◌, arith, some, ok, false,
}
use qdb.Word.{u64}
use qdb.Platform.{Platform}
use qdb.State.{Queue, State, Buckets, entries_from, queue_buckets_n}
use qdb.Db.{Handle}
use qdb.Api.Stats.{Stats, or_zero, stats_loop, stats_session, stats}

abbrev pub sum : (Queue → ℕ) → List Queue → ℕ
sum count [] = 0
sum count (q ∷ qs) = count q + sum count qs

-- The sum over the chains of the first `n` buckets.
abbrev pub total : (Queue → ℕ) → ℕ → Buckets Queue → ℕ
total count zero buckets = 0
total count (suc n) buckets = total count n buckets + sum count (buckets n)

sum-append :
    (count : Queue → ℕ) (ps qs : List Queue) → sum count (ps ++ qs) ≡ sum count ps + sum count qs
sum-append count [] qs = omega arith
sum-append count (p ∷ ps) qs = omega (arith, sum-append count ps qs)

add_zero : (b : ℕ) → b + 0 ≡ b
add_zero b = omega arith

add_suc : (b n : ℕ) → b + suc n ≡ suc b + n
add_suc b n = omega arith

sum-entries_from :
    (count : Queue → ℕ) (n b : ℕ) (buckets : Buckets Queue)
    → total count b buckets + sum count (entries_from n b buckets) ≡ total count (b + n) buckets
unfolding entries_from
sum-entries_from count zero b buckets = omega (arith, ap (λ k. total count k buckets) (add_zero b))
sum-entries_from count (suc n) b buckets = omega (
  arith,
  ap (λ k. total count k buckets) (add_suc b n),
  sum-append count (buckets b) (entries_from n (suc b) buckets),
  sum-entries_from count n (suc b) buckets,
)

-- The three counts are the sums over the queues, on 64 bits; the other fields stay.
stats_loop-sum :
    (qs : List Queue) (out : Stats)
    → out.pending_count < 2 ^ 64
    → out.leased_count < 2 ^ 64
    → out.acked_count < 2 ^ 64
    → stats_loop qs out ≡ record out {
      pending_count = u64 (out.pending_count + sum Queue.pending_count qs);
      leased_count = u64 (out.leased_count + sum Queue.leased_count qs);
      acked_count = u64 (out.acked_count + sum Queue.acked_count qs);
    }
unfolding stats_loop
stats_loop-sum [] out p l a = λ i. record out {
  pending_count = same out.pending_count p i;
  leased_count = same out.leased_count l i;
  acked_count = same out.acked_count a i;
}
  where
    same : (n : ℕ) → n < 2 ^ 64 → n ≡ u64 (n + 0)
    same n h = omega arith
stats_loop-sum (q ∷ qs) out p l a =
    let next : Stats = record out {
      pending_count = u64 (out.pending_count + q.pending_count);
      leased_count = u64 (out.leased_count + q.leased_count);
      acked_count = u64 (out.acked_count + q.acked_count);
    } in
    stats_loop-sum qs next (omega arith) (omega arith) (omega arith) ∙ (λ i. record out {
      pending_count = carry out.pending_count q.pending_count (sum Queue.pending_count qs) i;
      leased_count = carry out.leased_count q.leased_count (sum Queue.leased_count qs) i;
      acked_count = carry out.acked_count q.acked_count (sum Queue.acked_count qs) i;
    })
  where
    carry : (a b c : ℕ) → u64 (u64 (a + b) + c) ≡ u64 (a + (b + c))
    carry a b c = omega arith

-- What the loop starts with.
abbrev no_counts : ℕ → Stats
no_counts n = record {
  queue_count = n;
  pending_count = 0;
  leased_count = 0;
  acked_count = 0;
  file_size_bytes = 0;
}

module _ {W : Type 0} ⦃os : Platform W⦄ where
  -- On a handle whose state is not null, and where the query for the size of the file does not crash,
  -- `qdb_stats` ends well and changes nothing but the system that it asks: it answers the number of
  -- queues, the sums of the queues' three counts over the chains of all 64 buckets, on 64 bits, and
  -- the size of the file, or 0 if the query fails.
  pub stats-total :
      (h : Handle W) (st : State) (size : ℕ) (w' : W)
      → h.state ≡ some st
      → or_zero (os.file_size h.db.fd) h.world ≡ ok size w'
      → stats false h
        ≡ ok
            (record {
              queue_count = st.queue_count;
              pending_count = u64 (total Queue.pending_count queue_buckets_n st.queue_buckets);
              leased_count = u64 (total Queue.leased_count queue_buckets_n st.queue_buckets);
              acked_count = u64 (total Queue.acked_count queue_buckets_n st.queue_buckets);
              file_size_bytes = size;
            })
            (record { db = h.db; state = some st; world = w' })
  unfolding stats stats_session
  stats-total h st size w' in_memory told =
      let qs = entries_from queue_buckets_n 0 st.queue_buckets in
      let all : (count : Queue → ℕ)
          → 0 + sum count qs ≡ total count queue_buckets_n st.queue_buckets =
        λ count. sum-entries_from count queue_buckets_n 0 st.queue_buckets in
      rw
        (
          in_memory,
          told,
          stats_loop-sum qs (no_counts st.queue_count) (omega arith) (omega arith) (omega arith),
          all Queue.pending_count,
          all Queue.leased_count,
          all Queue.acked_count,
        )
        refl
