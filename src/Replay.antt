-- ===== src/Replay.antt =====
-- The replay of the log, of src/qdb_replay.c: one handler for each type of record, and the loop.
pub mod Live
pub mod LivePush
pub mod Keeps
pub mod Counters
pub mod Enough
use qdb.Base.{
  ℕ, zero, suc, ◌+◌, ◌-◌, ◌^◌, not, Bool, true, false, Option, none, some, List, take, drop,
  if◌then◌else◌, ◌==◌, ltb, leb, Run, Exec, ok, err, crash, err_io, err_corrupt, err_nomem, pure,
  raise, ◌>>=◌, ◌>>◌,
}
use qdb.Word.{u32, u64, at, get_u64le}
use qdb.Format.{
  rt_msg_push, rt_msg_lease, rt_msg_ack, rt_msg_nack, rt_msg_expire, rt_checkpoint, rt_padding,
  rec_hdr_size, push_hdr_size, push_min_plen, payload_lease_size, payload_ack_size,
  payload_checkpoint_size,
}
use qdb.Platform.{Platform}
use qdb.State.{
  MsgState, pending, leased, acked, dead, Msg, Queue, Lease, State, state_alloc, msg_get,
  msg_insert, msg_write, queue_get, queue_create, queue_write, new_queue, queue_pending_append,
  queue_pending_remove, lease_get, lease_insert, lease_remove,
}
use qdb.Db.{
  Db, Handle, Session, or_io, or_nomem, require, refuse, io, get_state, guard, set_db, set_st,
}
use qdb.Io.{Scan, scanned, scan_end, scan_partial, read_full, scan_record}

abbrev pub is_pending : MsgState → Bool
is_pending pending = true
is_pending _ = false

abbrev pub is_leased : MsgState → Bool
is_leased leased = true
is_leased _ = false

-- A message as a PUSH record makes it; the fields left out of the C code are zeroed by `calloc`.
abbrev pub new_msg : ℕ → ℕ → ℕ → ℕ → List ℕ → Msg
new_msg id data_off data_len name_len name = record {
  id = id;
  data_file_offset = data_off;
  data_len = data_len;
  queue_name_len = name_len;
  queue_name = name;
  state = pending;
  lease_id = 0;
  lease_expiry_us = 0;
  retry_count = 0;
  next_pending = 0;
  prev_pending = 0;
}

-- The writes to a message that is leased, settled, or given back.
abbrev pub set_leased : ℕ → ℕ → Msg → Msg
set_leased lease_id expiry_us m = record m {
  state = leased;
  lease_id = lease_id;
  lease_expiry_us = expiry_us;
}

abbrev pub set_acked : Msg → Msg
set_acked m = record m { state = acked; lease_id = 0; lease_expiry_us = 0 }

abbrev pub set_returned : Msg → Msg
set_returned m = record m {
  state = pending;
  lease_id = 0;
  lease_expiry_us = 0;
  retry_count = u32 (m.retry_count + 1);
}

-- `leased_count++`, `leased_count--`, `acked_count++` on 32 bits
abbrev pub add_leased : Queue → Queue
add_leased q = record q { leased_count = u32 (q.leased_count + 1) }

abbrev pub drop_leased : Queue → Queue
drop_leased q = record q { leased_count = u32 (q.leased_count + 2 ^ 32 - 1) }

abbrev pub add_acked : Queue → Queue
add_acked q = record q { acked_count = u32 (q.acked_count + 1) }

-- `if (seen >= next) next = seen + 1;`
abbrev pub past : ℕ → ℕ → ℕ
past seen next = if ltb seen next then next else u64 (seen + 1)

-- The fuel of a whole replay: a unit for each byte of the log, and one for the last test.
abbrev pub log_fuel : Db → ℕ
log_fuel db = suc (db.log_end_offset - db.log_start_offset)

module _ {W : Type 0} ⦃os : Platform W⦄ where
  unfoldable pub queue_get_or_create : List ℕ → ℕ → Exec (Session W) Queue
  queue_get_or_create name name_len s = elim (queue_get s.st name name_len) [
    | some q ↦ ok q s
    | none ↦
        (do
          or_nomem (io os.alloc)
          set_st (λ st. queue_create st name name_len)
          pure (new_queue name name_len))
          s
  ]

  unfoldable pub replay_push : ℕ → ℕ → Exec (Session W) (Unit {0})
  unfolding queue_get_or_create
  replay_push payload_off plen = do
    guard (not (ltb plen push_min_plen)) err_corrupt
    s ← get_state
    prefix ← io (or_io (read_full s.db.fd push_hdr_size payload_off))
    let msg_id = get_u64le prefix
    let name_len = at prefix 8
    guard (not (name_len == 0)) err_corrupt
    guard (not (ltb plen (push_hdr_size + name_len))) err_corrupt
    guard (not (msg_id == 0)) err_corrupt
    name ← io (or_io (read_full s.db.fd name_len (u64 (payload_off + push_hdr_size))))
    refuse (msg_get s.st msg_id) err_corrupt
    let data_len = plen - push_hdr_size - name_len
    let data_off = u64 (payload_off + push_hdr_size + name_len)
    or_nomem (io os.alloc)
    set_st (λ st. msg_insert st (new_msg msg_id data_off data_len name_len name))
    q ← queue_get_or_create name name_len
    set_st (λ st. queue_pending_append st q msg_id)
    set_db (λ db. record db { next_msg_id = past msg_id db.next_msg_id })

  unfoldable pub replay_lease : ℕ → ℕ → Exec (Session W) (Unit {0})
  replay_lease payload_off plen = do
    guard (plen == payload_lease_size) err_corrupt
    s ← get_state
    buf ← io (or_io (read_full s.db.fd payload_lease_size payload_off))
    let msg_id = get_u64le buf
    let expiry_us = get_u64le (drop 8 buf)
    let lease_id = get_u64le (drop 16 buf)
    guard (not (lease_id == 0)) err_corrupt
    m ← require (msg_get s.st msg_id) err_corrupt
    guard (is_pending m.state) err_corrupt
    refuse (lease_get s.st lease_id) err_corrupt
    q ← require (queue_get s.st m.queue_name m.queue_name_len) err_corrupt
    set_st (λ st. queue_pending_remove st q m)
    set_st (λ st. msg_write st m.id (set_leased lease_id expiry_us))
    set_st (λ st. queue_write st q.name q.name_len add_leased)
    or_nomem (io os.alloc)
    set_st (λ st.
        lease_insert st (record { lease_id = lease_id; msg_id = msg_id; expiry_us = expiry_us }))
    set_db (λ db. record db { next_lease_id = past lease_id db.next_lease_id })

  unfoldable pub replay_ack : ℕ → ℕ → Exec (Session W) (Unit {0})
  replay_ack payload_off plen = do
    guard (plen == payload_ack_size) err_corrupt
    s ← get_state
    buf ← io (or_io (read_full s.db.fd payload_ack_size payload_off))
    let msg_id = get_u64le buf
    let lease_id = get_u64le (drop 8 buf)
    m ← require (msg_get s.st msg_id) err_corrupt
    guard (is_leased m.state) err_corrupt
    guard (m.lease_id == lease_id) err_corrupt
    q ← require (queue_get s.st m.queue_name m.queue_name_len) err_corrupt
    set_st (λ st. lease_remove st lease_id)
    set_st (λ st. msg_write st m.id set_acked)
    set_st (λ st. queue_write st q.name q.name_len drop_leased)
    set_st (λ st. queue_write st q.name q.name_len add_acked)

  unfoldable pub replay_nack : ℕ → ℕ → Exec (Session W) (Unit {0})
  replay_nack payload_off plen = do
    guard (plen == payload_ack_size) err_corrupt
    s ← get_state
    buf ← io (or_io (read_full s.db.fd payload_ack_size payload_off))
    let msg_id = get_u64le buf
    let lease_id = get_u64le (drop 8 buf)
    m ← require (msg_get s.st msg_id) err_corrupt
    guard (is_leased m.state) err_corrupt
    guard (m.lease_id == lease_id) err_corrupt
    q ← require (queue_get s.st m.queue_name m.queue_name_len) err_corrupt
    set_st (λ st. lease_remove st lease_id)
    set_st (λ st. msg_write st m.id set_returned)
    set_st (λ st. queue_write st q.name q.name_len drop_leased)
    set_st (λ st. queue_pending_append st q m.id)

  unfoldable pub replay_expire : ℕ → ℕ → Exec (Session W) (Unit {0})
  unfolding replay_nack
  replay_expire payload_off plen = replay_nack payload_off plen

  unfoldable pub replay_checkpoint : ℕ → ℕ → Exec (Session W) (Unit {0})
  replay_checkpoint payload_off plen = do
    guard (plen == payload_checkpoint_size) err_corrupt
    s ← get_state
    buf ← io (or_io (read_full s.db.fd payload_checkpoint_size payload_off))
    let next_msg_id = get_u64le (drop 8 buf)
    let next_lease_id = get_u64le (drop 16 buf)
    set_db (λ db. record db {
      next_msg_id = if ltb db.next_msg_id next_msg_id then next_msg_id else db.next_msg_id;
      next_lease_id =
          if ltb db.next_lease_id next_lease_id then next_lease_id else db.next_lease_id;
    })

  -- The `switch` on the type of a record.
  unfoldable pub replay_record : ℕ → ℕ → ℕ → Exec (Session W) (Unit {0})
  replay_record type payload_off plen =
      if type == rt_msg_push
      then replay_push payload_off plen
      else if type == rt_msg_lease
      then replay_lease payload_off plen
      else if type == rt_msg_ack
      then replay_ack payload_off plen
      else if type == rt_msg_nack
      then replay_nack payload_off plen
      else if type == rt_msg_expire
      then replay_expire payload_off plen
      else if type == rt_checkpoint
      then replay_checkpoint payload_off plen
      else if type == rt_padding
      then pure tt
      else raise err_corrupt

  -- The loop from `offset` on. Without fuel it crashes, which no run does that has a unit of fuel
  -- for each byte of the log.
  unfoldable pub replay_loop : ℕ → ℕ → Exec (Session W) (Unit {0})
  unfolding replay_record
  replay_loop zero offset = λ _. crash
  replay_loop (suc fuel) offset =
      let rest : Scan → Exec (Session W) (Unit {0}) = elim [
        | scan_end ↦ pure tt
        | scan_partial ↦ pure tt
        | scanned type plen next ↦
            replay_record type (u64 (offset + rec_hdr_size)) plen >> replay_loop fuel next
      ] in
      λ s.
        (if ltb offset s.db.log_end_offset
            then (io (scan_record s.db.fd offset s.db.log_end_offset) >>= rest)
            else pure tt)
          s

  -- The state is set where the replay succeeds, and stays what it was otherwise.
  unfoldable pub replay_log : Exec (Handle W) (Unit {0})
  unfolding replay_loop
  replay_log h = elim (or_nomem os.alloc h.world) [
    | err c w ↦ err c (record h { world = w })
    | crash ↦ crash
    | ok _ w ↦
        elim (replay_loop (log_fuel h.db) h.db.log_start_offset
          (record { db = h.db; st = state_alloc; world = w })) [
            | ok _ s ↦ ok tt (record { db = s.db; state = some s.st; world = s.world })
            | err c s ↦ err c (record { db = s.db; state = h.state; world = s.world })
            | crash ↦ crash
          ]
  ]
