-- ===== src/Api/Push.antt =====
-- `qdb_push`.
pub mod Refusal
use qdb.Base.{
  ℕ, ◌+◌, ◌%◌, ◌^◌, not, ◌||◌, Bool, true, false, Option, none, some, List, [], ◌∷◌, ◌++◌, length,
  take, if◌then◌else◌, ◌==◌, ltb, leb, Exec, ok, err, err_inval, pure, raise, ◌>>=◌, ◌>>◌,
}
use qdb.Word.{u32, u64, put_u64le}
use qdb.Format.{rt_msg_push, rec_hdr_size, push_hdr_size, queue_name_max, msg_max_len}
use qdb.Platform.{Platform}
use qdb.State.{queue_pending_append, msg_insert}
use qdb.Db.{
  Db, Handle, Session, or_io, or_nomem, require, io, io_handle, get_state, guard, set_handle_db,
  set_st, with_state,
}
use qdb.Io.{append_record, header_update}
use qdb.Replay.{new_msg, queue_get_or_create}

-- `qlen == 0 || qlen > QDB_QUEUE_NAME_MAX` is refused.
abbrev pub valid_name : List ℕ → Bool
valid_name queue = not (length queue == 0 || ltb queue_name_max (length queue))

abbrev pub is_null {ℓ} : {A : Type ℓ} → Option A → Bool
is_null none = true
is_null (some a) = false

-- The `len` bytes at a data pointer; nothing is read where `len` is 0.
abbrev pub data_bytes : Option (List ℕ) → ℕ → List ℕ
data_bytes none len = []
data_bytes (some bytes) len = take len bytes

-- The payload of a PUSH record: id, length of the name, name, data.
unfoldable pub push_payload : ℕ → List ℕ → List ℕ → List ℕ
push_payload msg_id queue bytes = put_u64le msg_id ++ (length queue % 2 ^ 8 ∷ (queue ++ bytes))

module _ {W : Type 0} ⦃os : Platform W⦄ where
  -- The message and its place in the queue, once the record and the header are durable.
  unfoldable pub push_enqueue : ℕ → ℕ → List ℕ → ℕ → Exec (Session W) (Unit {0})
  unfolding queue_get_or_create
  push_enqueue msg_id rec_start queue len = do
    let name_len = length queue % 2 ^ 8
    let data_off = u64 (rec_start + rec_hdr_size + push_hdr_size + name_len)
    or_nomem (io os.alloc)
    set_st (λ st. msg_insert st (new_msg msg_id data_off (u32 len) name_len queue))
    q ← queue_get_or_create queue name_len
    set_st (λ st. queue_pending_append st q msg_id)

  -- The durable part: the record, then the header.
  unfoldable pub push_append : List ℕ → List ℕ → Exec (Handle W) (Unit {0})
  push_append queue bytes = do
    h ← get_state
    let msg_id = h.db.next_msg_id
    let payload = push_payload msg_id queue bytes
    new_end ← io_handle (append_record h.db.fd rt_msg_push payload h.db.log_end_offset)
    set_handle_db (λ db. record db { log_end_offset = new_end; next_msg_id = u64 (msg_id + 1) })
    g ← get_state
    io_handle (or_io (header_update g.db.fd g.db))

  unfoldable pub push : Option (List ℕ) → Option (List ℕ) → ℕ → Exec (Handle W) (Unit {0})
  unfolding push_append push_enqueue
  push queue_arg data_arg len = do
    queue ← require queue_arg err_inval
    guard (valid_name queue) err_inval
    guard (not (if ltb 0 len then is_null data_arg else false)) err_inval
    guard (leb len msg_max_len) err_inval
    or_nomem (io_handle os.alloc)
    h ← get_state
    push_append queue (data_bytes data_arg len)
    with_state (push_enqueue h.db.next_msg_id h.db.log_end_offset queue len)
