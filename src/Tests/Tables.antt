-- ===== src/Tests/Tables.antt =====
-- The theorems on the choice of `qdb_pop_any`, the lease table and `qdb_stats`, at concrete inputs.
use qdb.Base.{
  Ensures, ℕ, ◌<◌, ◌≡◌, refl, false, none, some, List, [], ◌∷◌, All, ok, arith, if◌then◌else◌, ◌==◌,
  Bool-cases, inl, inr,
}
use qdb.Word.{u64}
use qdb.Platform.Memory.{Memory, memory}
use qdb.State.{
  Msg, Queue, Lease, State, state_alloc, msg_get, msg_insert, queue_get, lease_bucket, lease_get,
  lease_remove, new_queue, queue_buckets_n,
}
use qdb.State.Leases.{count_without, lease_get-remove}
use qdb.Db.{Handle, with_state}
use qdb.Replay.{new_msg}
use qdb.Api.Pop.{do_pop, pop_any}
use qdb.Api.Pop.Least.{HasFirst, OneOf, LeastOf, pop_any-least}
use qdb.Api.Stats.{stats}
use qdb.Api.Stats.Sums.{total, stats-total}
use qdb.Tests.Data.{sample, holding, queue_name}

-- Two queues in two buckets, with the messages 2 and 1.
abbrev other_name : List ℕ
other_name = b'r' ∷ []

abbrev queue_with : List ℕ → ℕ → Queue
queue_with name id = record (new_queue name 1) {
  pending_count = 1;
  pending_head = id;
  pending_tail = id;
}

abbrev two_queues : State
two_queues =
    record (msg_insert (msg_insert state_alloc (new_msg 1 4114 5 1 other_name))
      (new_msg 2 4200 5 1 queue_name)) {
        queue_buckets = λ b.
            if b == 28
            then queue_with queue_name 2 ∷ []
            else if b == 21
            then queue_with other_name 1 ∷ []
            else [];
        queue_count = 2;
      }

abbrev two_handle : Handle Memory
two_handle = record { db = sample; state = some two_queues; world = holding (5 ∷ 6 ∷ []) }

two_firsts : (b : ℕ) → b < queue_buckets_n → All (HasFirst two_queues) (two_queues.queue_buckets b)
unfolding msg_get msg_insert
two_firsts b small = elim (Bool-cases (b == 28)) [
  | inl e ↦ rw e ((λ full. (new_msg 2 4200 5 1 queue_name, refl, omega arith)), tt)
  | inr n ↦ elim (Bool-cases (b == 21)) [
    | inl e ↦ rw (n, e) ((λ full. (new_msg 1 4114 5 1 other_name, refl, omega arith)), tt)
    | inr n' ↦ rw (n, n') tt
  ]
]

pop_any-least_example :
    (q : Queue) × (m : Msg) × (pop_any two_handle ≡ with_state (do_pop q m) two_handle)
    × ((b : ℕ) × (b < queue_buckets_n)
        × OneOf two_queues (some (q, m)) (two_queues.queue_buckets b))
    × Ensures (λ out _. out.id ≡ m.id) (pop_any two_handle)
    × LeastOf two_queues m.id
unfolding queue_get
pop_any-least_example =
    pop_any-least two_handle two_queues queue_name 1 (queue_with queue_name 2) refl two_firsts refl
      refl

-- Two leases in one chain, and the later one removed.
abbrev lease_of : ℕ → Lease
lease_of id = record { lease_id = id; msg_id = id; expiry_us = 9000 }

abbrev two_leases : State
two_leases = record state_alloc {
  lease_buckets = λ b. if b == 725 then lease_of 6 ∷ lease_of 616 ∷ [] else [];
  lease_count = 2;
}

lease_get-remove_example :
    ((id' : ℕ)
      → lease_get (lease_remove two_leases 616) id'
        ≡ (if 616 == id' then none else lease_get two_leases id'))
    × ((lease_remove two_leases 616).lease_count ≡ count_without (lease_get two_leases 616) 2)
unfolding lease_bucket lease_get
lease_get-remove_example =
    lease_get-remove two_leases 616 (refl, (refl, tt)) (λ l found. omega arith) (omega arith)

stats-total_example :
    stats false two_handle
    ≡ ok
        (record {
          queue_count = 2;
          pending_count = u64 (total Queue.pending_count queue_buckets_n two_queues.queue_buckets);
          leased_count = u64 (total Queue.leased_count queue_buckets_n two_queues.queue_buckets);
          acked_count = u64 (total Queue.acked_count queue_buckets_n two_queues.queue_buckets);
          file_size_bytes = 2;
        })
        two_handle
unfolding memory
stats-total_example = stats-total two_handle two_queues 2 (holding (5 ∷ 6 ∷ [])) refl refl
