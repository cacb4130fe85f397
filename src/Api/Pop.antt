-- ===== src/Api/Pop.antt =====
-- `qdb_pop`, `qdb_pop_any` and the `do_pop` that they share.
pub mod Least
use qdb.Base.{
  ℕ, ◌+◌, ◌-◌, ◌%◌, ◌^◌, not, ◌||◌, ◌&&◌, Bool, true, false, Option, none, some, List, [], ◌∷◌,
  ◌++◌, length, if◌then◌else◌, ◌==◌, ltb, leb, Exec, ok, err, err_inval, err_empty, err_corrupt,
  pure, raise, ◌>>=◌, ◌>>◌,
}
use qdb.Word.{u32, u64, put_u64le}
use qdb.Format.{rt_msg_lease}
use qdb.Platform.{Platform}
use qdb.State.{
  Msg, Queue, Lease, State, msg_get, msg_write, queue_get, queue_write, queue_pending_remove,
  lease_insert, entries_from, queue_buckets_n,
}
use qdb.Db.{
  Db, Handle, Session, or_io, or_nomem, require, io, get_state, guard, set_db, set_st, with_state,
}
use qdb.Io.{read_full, append_record, header_update}
use qdb.Replay.{set_leased, add_leased}
use qdb.Api.Push.{valid_name}

-- `qdb_msg_t`; `data` is null where the message is empty.
pub record OutMsg : Type 0 where
  pub id : ℕ
  pub lease_id : ℕ
  pub queue : List ℕ
  pub payload : Option (List ℕ)
  pub len : ℕ
  pub retry_count : ℕ

-- The payload of a LEASE record.
unfoldable pub lease_payload : ℕ → ℕ → ℕ → List ℕ
lease_payload msg_id expiry_us lease_id =
    put_u64le msg_id ++ (put_u64le expiry_us ++ put_u64le lease_id)

-- `best_id`, with its sentinel UINT64_MAX.
abbrev pub best_id : Option (Queue × Msg) → ℕ
best_id none = 2 ^ 64 - 1
best_id (some (q, m)) = m.id

abbrev pub has_pending : Queue → Bool
has_pending q = not (q.pending_count == 0 || q.pending_head == 0)

-- The change of the in-memory state.
unfoldable pub lease_message : Queue → Msg → ℕ → ℕ → State → State
lease_message q m lease_id expiry_us st =
    let removed = queue_pending_remove st q m in
    let marked = msg_write removed m.id (set_leased lease_id expiry_us) in
    let counted = queue_write marked q.name q.name_len add_leased in
    lease_insert counted (record { lease_id = lease_id; msg_id = m.id; expiry_us = expiry_us })

module _ {W : Type 0} ⦃os : Platform W⦄ where
  abbrev pub clock : Exec W ℕ
  clock w = ok (os.time_us w).0 (os.time_us w).1

  -- The copy of the data that the caller gets.
  unfoldable pub copy_data : Msg → Exec (Session W) (Option (List ℕ))
  copy_data m =
      if ltb 0 m.data_len
      then (do
        or_nomem (io os.alloc)
        s ← get_state
        bytes ← io (read_full s.db.fd m.data_len m.data_file_offset)
        pure (some bytes))
      else pure none

  -- The durable part: the record, then the header. Returns the lease's id and expiry.
  unfoldable pub pop_append : Msg → Exec (Session W) (ℕ × ℕ)
  pop_append m = do
    s ← get_state
    let lease_id = s.db.next_lease_id
    now ← io clock
    let expiry_us = u64 (now + s.db.lease_timeout_us)
    let payload = lease_payload m.id expiry_us lease_id
    new_end ← io (append_record s.db.fd rt_msg_lease payload s.db.log_end_offset)
    set_db (λ db. record db { log_end_offset = new_end; next_lease_id = u64 (lease_id + 1) })
    t ← get_state
    io (or_io (header_update t.db.fd t.db))
    pure (lease_id, expiry_us)

  unfoldable pub do_pop : Queue → Msg → Exec (Session W) OutMsg
  unfolding copy_data pop_append lease_message
  do_pop q m = do
    or_nomem (io os.alloc)
    bytes ← copy_data m
    or_nomem (io os.alloc)
    (lease_id, expiry_us) ← pop_append m
    set_st (lease_message q m lease_id expiry_us)
    pure (record {
      id = m.id;
      lease_id = lease_id;
      queue = m.queue_name;
      payload = bytes;
      len = m.data_len;
      retry_count = m.retry_count;
    })

  unfoldable pub pop_session : List ℕ → Exec (Session W) OutMsg
  unfolding do_pop
  pop_session queue = do
    s ← get_state
    q ← require (queue_get s.st queue (length queue % 2 ^ 8)) err_empty
    guard (has_pending q) err_empty
    m ← require (msg_get s.st q.pending_head) err_corrupt
    do_pop q m

  unfoldable pub pop : Option (List ℕ) → Exec (Handle W) OutMsg
  unfolding pop_session
  pop queue_arg = do
    queue ← require queue_arg err_inval
    guard (valid_name queue) err_inval
    with_state (pop_session queue)

  -- The loop over all queues, with the best queue so far and its first message.
  unfoldable pub best_loop :
      State → List Queue → Option (Queue × Msg) → Exec (Session W) (Option (Queue × Msg))
  best_loop st [] best = pure best
  best_loop st (q ∷ rest) best =
      let skip = best_loop st rest best in
      let take_it : Msg → Exec (Session W) (Option (Queue × Msg)) =
        λ m. best_loop st rest (if ltb m.id (best_id best) then some (q, m) else best) in
      if ltb 0 q.pending_count && not (q.pending_head == 0)
      then (require (msg_get st q.pending_head) err_corrupt >>= take_it)
      else skip

  unfoldable pub pop_any_session : Exec (Session W) OutMsg
  unfolding do_pop best_loop entries_from
  pop_any_session = do
    s ← get_state
    best ← best_loop s.st (entries_from queue_buckets_n 0 s.st.queue_buckets) none
    (q, m) ← require best err_empty
    do_pop q m

  unfoldable pub pop_any : Exec (Handle W) OutMsg
  unfolding pop_any_session
  pop_any = with_state pop_any_session
