-- ===== src/Api/Stats.antt =====
-- `qdb_stats`, `qdb_queue_stats`, `qdb_queue_list` and `qdb_compact_recommended`. The
-- structure that a function fills is what it returns.
pub mod Sums
use qdb.Base.{
  ℕ, zero, suc, ◌+◌, ◌-◌, ◌%◌, ◌^◌, not, ◌||◌, ◌&&◌, Bool, true, false, Option, none, some, List,
  [], ◌∷◌, ◌++◌, length, take, if◌then◌else◌, ◌==◌, ltb, leb, map, Code, Run, Exec, ok, err, crash,
  err_io, err_inval, err_noent, err_corrupt, err_empty, err_nomem, err_locked, pure, raise, ◌>>=◌,
  ◌>>◌,
}
use qdb.Word.{u64}
use qdb.Platform.{Platform}
use qdb.State.{Queue, State, queue_get, entries_from, queue_buckets_n}
use qdb.Db.{Db, Handle, Session, require, io, get_state, guard, with_state}
use qdb.Api.Push.{valid_name}

pub record Stats : Type 0 where
  pub queue_count : ℕ
  pub pending_count : ℕ
  pub leased_count : ℕ
  pub acked_count : ℕ
  pub file_size_bytes : ℕ

pub record QueueStats : Type 0 where
  pub pending_count : ℕ
  pub leased_count : ℕ
  pub acked_count : ℕ

-- The loop over the queues, which adds up their counts.
unfoldable pub stats_loop : List Queue → Stats → Stats
stats_loop [] out = out
stats_loop (q ∷ rest) out = stats_loop rest (record out {
  pending_count = u64 (out.pending_count + q.pending_count);
  leased_count = u64 (out.leased_count + q.leased_count);
  acked_count = u64 (out.acked_count + q.acked_count);
})

abbrev all_queues : State → List Queue
all_queues st = entries_from queue_buckets_n 0 st.queue_buckets

-- The names that fit the array `out` of `cap` entries (`none` where it is NULL), and the count.
unfoldable pub list_names : State → Bool → ℕ → List (List ℕ) × ℕ
unfolding entries_from
list_names st out_null cap =
    let names = map (λ q. take q.name_len q.name) (all_queues st) in
    ((if out_null then [] else take cap names), length names)

module _ {W : Type 0} where
  -- `(void)f(..., &out);` with `out` zeroed before.
  abbrev or_zero_run : Run W ℕ → Run W ℕ
  or_zero_run (ok n w) = ok n w
  or_zero_run (err c w) = ok 0 w
  or_zero_run crash = crash

  abbrev pub or_zero : Exec W ℕ → Exec W ℕ
  or_zero m w = or_zero_run (m w)

module _ {W : Type 0} ⦃os : Platform W⦄ where
  unfoldable pub stats_session : Exec (Session W) Stats
  unfolding stats_loop entries_from
  stats_session = do
    s ← get_state
    let empty : Stats = record {
      queue_count = s.st.queue_count;
      pending_count = 0;
      leased_count = 0;
      acked_count = 0;
      file_size_bytes = 0;
    }
    size ← io (or_zero (os.file_size s.db.fd))
    pure (record (stats_loop (all_queues s.st) empty) { file_size_bytes = size })

  -- `out_null` tells that the pointer `out` is NULL.
  unfoldable pub stats : Bool → Exec (Handle W) Stats
  unfolding stats_session
  stats out_null = do guard (not out_null) err_inval; with_state stats_session

  unfoldable pub queue_stats_session : List ℕ → Exec (Session W) QueueStats
  queue_stats_session queue = do
    s ← get_state
    q ← require (queue_get s.st queue (length queue % 2 ^ 8)) err_noent
    pure (record {
      pending_count = q.pending_count;
      leased_count = q.leased_count;
      acked_count = q.acked_count;
    })

  unfoldable pub queue_stats : Option (List ℕ) → Bool → Exec (Handle W) QueueStats
  unfolding queue_stats_session
  queue_stats queue_arg out_null = do
    queue ← require queue_arg err_inval
    guard (not out_null) err_inval
    guard (valid_name queue) err_inval
    with_state (queue_stats_session queue)

  unfoldable pub queue_list : Bool → ℕ → Bool → Exec (Handle W) (List (List ℕ) × ℕ)
  queue_list out_null cap count_null = do
    guard (not count_null) err_inval
    guard (not (out_null && ltb 0 cap)) err_inval
    with_state (do s ← get_state; pure (list_names s.st out_null cap))

  unfoldable pub compact_recommended : Bool → Exec (Handle W) Bool
  unfolding stats
  compact_recommended out_null = do
    guard (not out_null) err_inval
    st ← stats false
    pure (ltb 0 st.acked_count && ltb (u64 (st.pending_count + st.leased_count)) st.acked_count)
