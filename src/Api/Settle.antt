-- ===== src/Api/Settle.antt =====
-- `qdb_ack`, `qdb_nack` and `qdb_process_expired_leases`.
pub mod Refusal
pub mod Once
use qdb.Base.{
  ℕ, zero, suc, ◌+◌, not, Bool, true, false, Option, none, some, List, [], ◌∷◌, ◌++◌, if◌then◌else◌,
  ◌==◌, ◌&&◌, ltb, leb, Exec, ok, err, err_inval, err_noent, pure, raise, ◌>>=◌, ◌>>◌,
}
use qdb.Word.{u64, put_u64le}
use qdb.Format.{rt_msg_ack, rt_msg_nack, rt_msg_expire}
use qdb.Platform.{Platform}
use qdb.State.{
  Msg, Queue, Lease, State, msg_get, msg_write, queue_get, queue_write, queue_pending_append,
  lease_remove, lease_buckets_n,
}
use qdb.Db.{Db, Handle, Session, or_io, require, io, get_state, guard, set_db, set_st, with_state}
use qdb.Io.{append_record, header_update}
use qdb.Replay.{is_leased, set_acked, set_returned, drop_leased, add_acked}
use qdb.Api.Pop.{clock}

-- The payload of an ACK, NACK or EXPIRE record.
unfoldable pub settle_payload : ℕ → ℕ → List ℕ
settle_payload msg_id lease_id = put_u64le msg_id ++ put_u64le lease_id

-- `if (q) { … }`
abbrev pub when_found : Option Queue → (Queue → State → State) → State → State
when_found none f st = st
when_found (some q) f st = f q st

unfoldable pub ack_message : Msg → ℕ → State → State
ack_message m lease_id st =
    let counted =
      when_found (queue_get st m.queue_name m.queue_name_len)
        (λ q t.
          queue_write (queue_write t q.name q.name_len drop_leased) q.name q.name_len add_acked)
        st in
    msg_write (lease_remove counted lease_id) m.id set_acked

-- The message goes back to the tail of its queue, after a NACK or an expiry.
unfoldable pub return_message : Msg → ℕ → State → State
return_message m lease_id st =
    let q = queue_get st m.queue_name m.queue_name_len in
    let unleased = msg_write (lease_remove st lease_id) m.id set_returned in
    when_found q (λ r t. queue_pending_append (queue_write t r.name r.name_len drop_leased) r m.id)
      unleased

module _ {W : Type 0} ⦃os : Platform W⦄ where
  -- The message, if it is leased under this lease.
  unfoldable pub leased_message : ℕ → ℕ → Exec (Session W) Msg
  leased_message msg_id lease_id = do
    s ← get_state
    m ← require (msg_get s.st msg_id) err_noent
    guard (is_leased m.state) err_noent
    guard (m.lease_id == lease_id) err_inval
    pure m

  -- The record, then the header.
  unfoldable pub settle_append : ℕ → ℕ → ℕ → Exec (Session W) (Unit {0})
  settle_append type msg_id lease_id = do
    s ← get_state
    new_end ← io (append_record s.db.fd type (settle_payload msg_id lease_id) s.db.log_end_offset)
    set_db (λ db. record db { log_end_offset = new_end })
    t ← get_state
    io (or_io (header_update t.db.fd t.db))

  unfoldable pub ack_session : ℕ → ℕ → Exec (Session W) (Unit {0})
  unfolding leased_message settle_append ack_message
  ack_session msg_id lease_id = do
    m ← leased_message msg_id lease_id
    settle_append rt_msg_ack msg_id lease_id
    set_st (ack_message m lease_id)

  unfoldable pub ack : ℕ → ℕ → Exec (Handle W) (Unit {0})
  unfolding ack_session
  ack msg_id lease_id = with_state (ack_session msg_id lease_id)

  unfoldable pub nack_session : ℕ → ℕ → Exec (Session W) (Unit {0})
  unfolding leased_message settle_append return_message
  nack_session msg_id lease_id = do
    m ← leased_message msg_id lease_id
    settle_append rt_msg_nack msg_id lease_id
    set_st (return_message m lease_id)

  unfoldable pub nack : ℕ → ℕ → Exec (Handle W) (Unit {0})
  unfolding nack_session
  nack msg_id lease_id = with_state (nack_session msg_id lease_id)

  unfoldable pub expire_leased : Msg → ℕ → ℕ → Exec (Session W) (Unit {0})
  unfolding settle_append return_message
  expire_leased m msg_id lease_id = do
    settle_append rt_msg_expire msg_id lease_id
    set_st (return_message m lease_id)

  -- An entry that is stale is skipped without an error.
  unfoldable pub expire_one : ℕ → ℕ → Exec (Session W) (Unit {0})
  unfolding expire_leased
  expire_one lease_id msg_id s = elim (msg_get s.st msg_id) [
    | none ↦ ok tt s
    | some m ↦
        (if is_leased m.state && m.lease_id == lease_id
            then expire_leased m msg_id lease_id
            else pure tt)
          s
  ]

  -- The chain of one bucket, as it is when the loop comes to it: `expire_one` unlinks no other entry
  -- than the one in hand. Returns how many entries were processed.
  unfoldable pub expire_chain : ℕ → List Lease → ℕ → Exec (Session W) ℕ
  unfolding expire_one
  expire_chain now [] processed = pure processed
  expire_chain now (l ∷ rest) processed =
      let skip = expire_chain now rest processed in
      let go_on : Unit {0} → Exec (Session W) ℕ = λ _. expire_chain now rest (processed + 1) in
      if ltb l.expiry_us now then (expire_one l.lease_id l.msg_id >>= go_on) else skip

  -- The buckets `b`, `b + 1`, … of the next `n`.
  unfoldable pub expire_buckets : ℕ → ℕ → ℕ → ℕ → Exec (Session W) ℕ
  unfolding expire_chain
  expire_buckets zero b now processed = pure processed
  expire_buckets (suc n) b now processed = do
    s ← get_state
    done ← expire_chain now (s.st.lease_buckets b) processed
    expire_buckets n (suc b) now done

  unfoldable pub process_expired_session : Exec (Session W) ℕ
  unfolding expire_buckets
  process_expired_session = do now ← io clock; expire_buckets lease_buckets_n 0 now 0

  unfoldable pub process_expired_leases : Exec (Handle W) ℕ
  unfolding process_expired_session
  process_expired_leases = with_state process_expired_session
