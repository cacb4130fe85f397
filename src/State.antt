-- ===== src/State.antt =====
-- The in-memory queue state, of src/qdb_state.h and src/qdb_state.c: messages, queues and leases in
-- hash tables with chains. An array of buckets is a function of the bucket's number. A pointer to an
-- entry is the key by which its lookup found it, and a write through the pointer changes the first
-- entry of the bucket that has the key. A name is its bytes, without the terminating NUL.
pub mod Tables
pub mod Pending
pub mod Fifo
pub mod Leave
pub mod Names
pub mod Leases
pub mod Entries
pub mod WellFormed
use qdb.Base.{
  ℕ, zero, suc, ◌+◌, ◌-◌, ◌*◌, ◌/◌, ◌%◌, ◌^◌, Bool, true, false, ◌&&◌, Option, none, some, List, [],
  ◌∷◌, ◌++◌, take, drop, if◌then◌else◌, ◌==◌, bit_and, bit_xor,
}
use qdb.Word.{u32, u64, at, ◌>>◌}

pub data MsgState : Type 0 where
  pending leased acked dead : MsgState

pub record Msg : Type 0 where
  pub id : ℕ
  pub data_file_offset : ℕ
  pub data_len : ℕ
  pub queue_name_len : ℕ
  pub queue_name : List ℕ
  pub state : MsgState
  pub lease_id : ℕ
  pub lease_expiry_us : ℕ
  pub retry_count : ℕ
  pub next_pending : ℕ
  pub prev_pending : ℕ

pub record Queue : Type 0 where
  pub name : List ℕ
  pub name_len : ℕ
  pub pending_count : ℕ
  pub leased_count : ℕ
  pub acked_count : ℕ
  pub pending_head : ℕ
  pub pending_tail : ℕ

pub record Lease : Type 0 where
  pub lease_id : ℕ
  pub msg_id : ℕ
  pub expiry_us : ℕ

abbrev pub Buckets : Type 0 → Type 0
Buckets A = ℕ → List A

pub record State : Type 0 where
  pub msg_buckets : Buckets Msg
  pub queue_buckets : Buckets Queue
  pub lease_buckets : Buckets Lease
  pub msg_count : ℕ
  pub queue_count : ℕ
  pub lease_count : ℕ

abbrev pub msg_buckets_n : ℕ
msg_buckets_n = 1024

abbrev pub queue_buckets_n : ℕ
queue_buckets_n = 64

abbrev pub lease_buckets_n : ℕ
lease_buckets_n = 1024

-- Chains.
module _ {A : Type 0} where
  unfoldable pub find : (A → Bool) → List A → Option A
  find test [] = none
  find test (a ∷ rest) = if test a then some a else find test rest

  unfoldable pub modify : (A → Bool) → (A → A) → List A → List A
  modify test f [] = []
  modify test f (a ∷ rest) = if test a then f a ∷ rest else a ∷ modify test f rest

  unfoldable pub unlink : (A → Bool) → List A → List A
  unlink test [] = []
  unlink test (a ∷ rest) = if test a then rest else a ∷ unlink test rest

  abbrev pub set_bucket : Buckets A → ℕ → List A → Buckets A
  set_bucket buckets b chain i = if i == b then chain else buckets i

-- Fibonacci hashing; the bucket of a message and that of a lease.
unfoldable pub msg_bucket : ℕ → ℕ
msg_bucket id = u64 (id * 11400714819323198485) >> (64 - 10)

unfoldable pub lease_bucket : ℕ → ℕ
lease_bucket id = u64 (id * 11400714819323198485) >> (64 - 10)

-- FNV-1a, from the hash so far.
unfoldable pub fnv_loop : ℕ → List ℕ → ℕ
fnv_loop h [] = h
fnv_loop h (c ∷ cs) = fnv_loop (u32 (bit_xor h c * 16777619)) cs

unfoldable pub queue_bucket : List ℕ → ℕ → ℕ
unfolding fnv_loop
queue_bucket name name_len =
    bit_and (fnv_loop 2166136261 (take name_len name)) (queue_buckets_n - 1)

abbrev pub state_alloc : State
state_alloc = record {
  msg_buckets = λ _. [];
  queue_buckets = λ _. [];
  lease_buckets = λ _. [];
  msg_count = 0;
  queue_count = 0;
  lease_count = 0;
}

-- `memcmp(xs, ys, n) == 0`
unfoldable pub memcmp_eq : ℕ → List ℕ → List ℕ → Bool
memcmp_eq zero xs ys = true
memcmp_eq (suc n) xs ys = at xs 0 == at ys 0 && memcmp_eq n (drop 1 xs) (drop 1 ys)

abbrev pub has_id : ℕ → Msg → Bool
has_id id m = m.id == id

abbrev pub has_lease_id : ℕ → Lease → Bool
has_lease_id id l = l.lease_id == id

abbrev pub has_name : List ℕ → ℕ → Queue → Bool
has_name name name_len q = q.name_len == name_len && memcmp_eq name_len q.name name

unfoldable pub msg_get : State → ℕ → Option Msg
unfolding find msg_bucket
msg_get st id = find (has_id id) (st.msg_buckets (msg_bucket id))

unfoldable pub msg_insert : State → Msg → State
unfolding msg_bucket
msg_insert st m = record st {
  msg_buckets = set_bucket st.msg_buckets (msg_bucket m.id) (m ∷ st.msg_buckets (msg_bucket m.id));
  msg_count = u64 (st.msg_count + 1);
}

-- A write through the pointer to the message `id`.
unfoldable pub msg_write : State → ℕ → (Msg → Msg) → State
unfolding modify msg_bucket
msg_write st id f = record st {
  msg_buckets =
      set_bucket st.msg_buckets (msg_bucket id)
        (modify (has_id id) f (st.msg_buckets (msg_bucket id)));
}

unfoldable pub queue_get : State → List ℕ → ℕ → Option Queue
unfolding find queue_bucket memcmp_eq
queue_get st name name_len =
    find (has_name name name_len) (st.queue_buckets (queue_bucket name name_len))

abbrev pub new_queue : List ℕ → ℕ → Queue
new_queue name name_len = record {
  name = take name_len name;
  name_len = name_len;
  pending_count = 0;
  leased_count = 0;
  acked_count = 0;
  pending_head = 0;
  pending_tail = 0;
}

-- What `queue_get_or_create` does once the queue is not found and its entry is allocated.
unfoldable pub queue_create : State → List ℕ → ℕ → State
unfolding queue_bucket
queue_create st name name_len =
    let b = queue_bucket name name_len in
    record st {
      queue_buckets = set_bucket st.queue_buckets b (new_queue name name_len ∷ st.queue_buckets b);
      queue_count = u64 (st.queue_count + 1);
    }

-- A write through the pointer to the queue `name`.
unfoldable pub queue_write : State → List ℕ → ℕ → (Queue → Queue) → State
unfolding modify queue_bucket memcmp_eq
queue_write st name name_len f =
    let b = queue_bucket name name_len in
    record st {
      queue_buckets =
          set_bucket st.queue_buckets b (modify (has_name name name_len) f (st.queue_buckets b));
    }

-- `q` is what the queue holds at the call, and `m_id` the message to be appended.
unfoldable pub queue_pending_append : State → Queue → ℕ → State
unfolding msg_write queue_write
queue_pending_append st q m_id =
    let linked =
      msg_write st m_id (λ m. record m { next_pending = 0; prev_pending = q.pending_tail }) in
    let joined =
      if q.pending_tail == 0
      then queue_write linked q.name q.name_len (λ r. record r { pending_head = m_id })
      else msg_write linked q.pending_tail (λ t. record t { next_pending = m_id }) in
    queue_write joined q.name q.name_len
      (λ r. record r { pending_tail = m_id; pending_count = u32 (r.pending_count + 1) })

unfoldable pub queue_pending_remove : State → Queue → Msg → State
unfolding msg_write queue_write
queue_pending_remove st q m =
    let before =
      if m.prev_pending == 0
      then queue_write st q.name q.name_len (λ r. record r { pending_head = m.next_pending })
      else msg_write st m.prev_pending (λ p. record p { next_pending = m.next_pending }) in
    let behind =
      if m.next_pending == 0
      then queue_write before q.name q.name_len (λ r. record r { pending_tail = m.prev_pending })
      else msg_write before m.next_pending (λ n. record n { prev_pending = m.prev_pending }) in
    let cleared = msg_write behind m.id (λ m'. record m' { next_pending = 0; prev_pending = 0 }) in
    queue_write cleared q.name q.name_len
      (λ r. record r { pending_count = u32 (r.pending_count + 2 ^ 32 - 1) })

unfoldable pub lease_get : State → ℕ → Option Lease
unfolding find lease_bucket
lease_get st id = find (has_lease_id id) (st.lease_buckets (lease_bucket id))

unfoldable pub lease_insert : State → Lease → State
unfolding lease_bucket
lease_insert st l = record st {
  lease_buckets =
      set_bucket st.lease_buckets (lease_bucket l.lease_id)
        (l ∷ st.lease_buckets (lease_bucket l.lease_id));
  lease_count = u64 (st.lease_count + 1);
}

unfoldable pub lease_remove : State → ℕ → State
unfolding unlink lease_bucket find
lease_remove st id =
    let b = lease_bucket id in
    elim (find (has_lease_id id) (st.lease_buckets b)) [
      | none ↦ st
      | some _ ↦ record st {
        lease_buckets =
            set_bucket st.lease_buckets b (unlink (has_lease_id id) (st.lease_buckets b));
        lease_count = u64 (st.lease_count + 2 ^ 64 - 1);
      }
    ]

-- The entries of the buckets `b`, `b + 1`, … of the next `n`: what the loops over a table visit.
unfoldable pub entries_from : {A : Type 0} → ℕ → ℕ → Buckets A → List A
entries_from zero b buckets = []
entries_from (suc n) b buckets = buckets b ++ entries_from n (suc b) buckets
