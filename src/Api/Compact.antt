-- ===== src/Api/Compact.antt =====
-- `qdb_compact`: the live messages are written to a staging file, which then takes the place of the
-- database and is opened again.
pub mod Failure
use qdb.Base.{
  ℕ, zero, suc, ◌+◌, ◌-◌, ◌%◌, ◌^◌, not, ◌||◌, Bool, true, false, Option, none, some, List, [], ◌∷◌,
  ◌++◌, length, take, if◌then◌else◌, ◌==◌, ltb, Code, Run, Exec, ok, err, crash, err_io,
  err_corrupt, pure, raise, ◌>>=◌, ◌>>◌, bit_or,
}
use qdb.Word.{u64, put_u64le}
use qdb.Format.{
  hdr_size, flag_wal_present, flag_dirty, rt_msg_push, rt_checkpoint, rt_msg_lease, invalid_fd,
}
use qdb.Platform.{Platform}
use qdb.State.{Msg, Queue, Lease, State, msg_get, entries_from, queue_buckets_n, lease_buckets_n}
use qdb.Db.{
  Db, Handle, or_io, or_nomem, ignore, require, io_handle, get_state, modify_state, guard,
  set_handle_db,
}
use qdb.Io.{read_full, append_record, header_write, header_read, header_update}
use qdb.Replay.{replay_log}
use qdb.Api.Pop.{clock, lease_payload}
use qdb.Api.Wal.{has_flag, replay_wal}
use qdb.Api.Check.{validate_log}
use qdb.Api.Open.{sidecar, compact_suffix}

-- The payload of the PUSH record that a message had.
unfoldable pub repush_payload : Msg → List ℕ → List ℕ
repush_payload m bytes =
    put_u64le m.id ++ (m.queue_name_len ∷ (take m.queue_name_len m.queue_name ++ bytes))

-- The payload of a CHECKPOINT record.
unfoldable pub checkpoint_payload : ℕ → ℕ → ℕ → List ℕ
checkpoint_payload time next_msg_id next_lease_id =
    put_u64le time ++ (put_u64le next_msg_id ++ put_u64le next_lease_id)

-- What is written to the header of the staging file: `memset` zeroes the rest.
abbrev pub staging_db : Db → ℕ → Db
staging_db db log_end = record {
  fd = 0;
  lock_fd = 0;
  path = [];
  wal_path = [];
  lock_path = [];
  next_msg_id = db.next_msg_id;
  next_lease_id = db.next_lease_id;
  log_start_offset = hdr_size;
  log_end_offset = log_end;
  create_time_us = db.create_time_us;
  flags = flag_dirty;
  lease_timeout_us = 0;
}

module _ {S A : Type 0} where
  abbrev rescue_after : Code → Run S (Unit {0}) → Run S A
  rescue_after c (ok _ s) = err c s
  rescue_after c (err _ s) = err c s
  rescue_after c crash = crash

  abbrev rescue : Run S A → Exec S (Unit {0}) → Run S A
  rescue (ok a s) cleanup = ok a s
  rescue (err c s) cleanup = rescue_after c (cleanup s)
  rescue crash cleanup = crash

  -- `goto cleanup` where `m` fails; the code that it failed with is returned.
  abbrev pub on_error : Exec S A → Exec S (Unit {0}) → Exec S A
  on_error m cleanup s = rescue (m s) cleanup

module _ {W : Type 0} ⦃os : Platform W⦄ where
  unfoldable pub compact_write_push : ℕ → ℕ → Msg → ℕ → Exec W ℕ
  compact_write_push src_fd dst_fd m offset = do
    or_nomem os.alloc
    bytes ← (if ltb 0 m.data_len then read_full src_fd m.data_len m.data_file_offset else pure [])
    append_record dst_fd rt_msg_push (repush_payload m bytes) offset

  unfoldable pub compact_write_lease : ℕ → Msg → ℕ → Exec W ℕ
  compact_write_lease dst_fd m offset =
      append_record dst_fd rt_msg_lease (lease_payload m.id m.lease_expiry_us m.lease_id) offset

  unfoldable pub compact_write_checkpoint : ℕ → Db → ℕ → Exec W ℕ
  compact_write_checkpoint dst_fd db offset = do
    now ← clock
    let payload = checkpoint_payload now db.next_msg_id db.next_lease_id
    append_record dst_fd rt_checkpoint payload offset

  -- A queue's chain from the message `m_id` on. A chain has at most as many messages as the table,
  -- so `compact_queues` gives that much fuel; without fuel the loop crashes.
  unfoldable pub compact_chain : ℕ → State → ℕ → ℕ → ℕ → ℕ → Exec W ℕ
  unfolding compact_write_push
  compact_chain zero st src_fd dst_fd m_id offset = λ _. crash
  compact_chain (suc fuel) st src_fd dst_fd m_id offset =
      let rest : Exec W ℕ = do
        m ← require (msg_get st m_id) err_corrupt
        end ← compact_write_push src_fd dst_fd m offset
        compact_chain fuel st src_fd dst_fd m.next_pending end
      in if m_id == 0 then pure offset else rest

  unfoldable pub compact_queues : List Queue → State → ℕ → ℕ → ℕ → Exec W ℕ
  unfolding compact_chain
  compact_queues [] st src_fd dst_fd offset = pure offset
  compact_queues (q ∷ rest) st src_fd dst_fd offset = do
    end ← compact_chain (suc st.msg_count) st src_fd dst_fd q.pending_head offset
    compact_queues rest st src_fd dst_fd end

  unfoldable pub compact_leases : List Lease → State → ℕ → ℕ → ℕ → Exec W ℕ
  unfolding compact_write_push compact_write_lease
  compact_leases [] st src_fd dst_fd offset = pure offset
  compact_leases (l ∷ rest) st src_fd dst_fd offset = do
    m ← require (msg_get st l.msg_id) err_corrupt
    pushed ← compact_write_push src_fd dst_fd m offset
    end ← compact_write_lease dst_fd m pushed
    compact_leases rest st src_fd dst_fd end

  -- All the records of the staging file, and its header.
  unfoldable pub compact_stage : State → Db → ℕ → Exec W (Unit {0})
  unfolding compact_queues compact_leases compact_write_checkpoint entries_from
  compact_stage st db dst_fd = do
    header_write dst_fd (staging_db db hdr_size)
    a ← compact_queues (entries_from queue_buckets_n 0 st.queue_buckets) st db.fd dst_fd hdr_size
    b ← compact_leases (entries_from lease_buckets_n 0 st.lease_buckets) st db.fd dst_fd a
    end ← compact_write_checkpoint dst_fd db b
    header_update dst_fd (staging_db db end)
    os.file_sync dst_fd

  unfoldable pub stage_handle : ℕ → Exec (Handle W) (Unit {0})
  unfolding compact_stage
  stage_handle dst_fd h = elim h.state [
    | none ↦ crash
    | some st ↦ io_handle (compact_stage st h.db dst_fd) h
  ]

  abbrev close_main : Handle W → Handle W
  close_main h =
      if h.db.fd == invalid_fd
      then h
      else record h { db = record h.db { fd = invalid_fd }; world = os.file_close h.db.fd h.world }

  unfoldable pub reopen_steps : Exec (Handle W) (Unit {0})
  reopen_steps = do
    modify_state close_main
    h ← get_state
    (fd, is_new) ← io_handle (os.file_open h.db.path false)
    set_handle_db (λ db. record db { fd = fd })
    header_read fd
    set_handle_db (λ db. record db { next_lease_id = 1 })
    g ← get_state
    if has_flag g.db.flags flag_wal_present || has_flag g.db.flags flag_dirty
        then replay_wal
        else pure tt
    f ← get_state
    size ← io_handle (or_io (os.file_size fd))
    if ltb f.db.log_end_offset size
        then io_handle (or_io (os.file_truncate fd f.db.log_end_offset))
        else pure tt
    validate_log
    modify_state (λ e. record e { state = none })
    replay_log
    set_handle_db (λ db. record db { flags = bit_or db.flags flag_dirty })
    d ← get_state
    io_handle (header_update d.db.fd d.db)

  -- Where a step fails, the handle is left with no file and no state.
  unfoldable pub reopen_after_compact : Exec (Handle W) (Unit {0})
  unfolding reopen_steps
  reopen_after_compact =
      on_error reopen_steps (modify_state (λ h. record (close_main h) { state = none }))

  unfoldable pub compact : Exec (Handle W) (Unit {0})
  compact = do
    h ← get_state
    let staging = sidecar h.db.path compact_suffix
    let delete_staging = ignore (io_handle (os.file_delete staging))
    let close_staging =
        λ (fd : ℕ). modify_state {S = Handle W} (λ g. record g { world = os.file_close fd g.world })
    or_nomem (io_handle os.alloc)
    delete_staging
    (fd, is_new) ← on_error (io_handle (os.file_open staging true)) delete_staging
    on_error (stage_handle fd) (close_staging fd >> delete_staging)
    close_staging fd
    on_error (io_handle (os.file_rename staging h.db.path)) delete_staging
    reopen_after_compact
