-- ===== src/Replay/Live.antt =====
-- The change that `qdb_ack`, `qdb_nack`, the expiry, `qdb_pop` and `qdb_push` make to the state in
-- memory, against the replay of the record that they wrote.
use qdb.Base.{
  ℕ, ◌^◌, ◌<◌, ◌≡◌, refl, ap, sym, ◌∙◌, none, some, [], ◌++◌, drop, arith, ok, Option-cases, inl,
  inr, append-nil, drop-append-length, drop-drop,
}
use qdb.Word.{put_u64le, get_u64le}
use qdb.Word.RoundTrip.{get_u64le-put, length-put_u64le}
use qdb.Platform.{Platform}
use qdb.State.{
  Msg, Queue, State, leased, pending, find, msg_get, msg_write, queue_write, has_lease_id,
  lease_bucket, lease_get, queue_get, lease_remove,
}
use qdb.Db.{Session}
use qdb.Io.{read_full}
use qdb.Replay.{
  replay_ack, replay_nack, replay_expire, replay_lease, past, set_acked, drop_leased, add_acked,
}
use qdb.Api.Settle.{settle_payload, ack_message, return_message}
use qdb.Api.Pop.{lease_payload, lease_message}

module _ (msg_id lease_id : ℕ) (id_fits : msg_id < 2 ^ 64) (lease_fits : lease_id < 2 ^ 64) where
  settle_fields :
      (get_u64le (settle_payload msg_id lease_id) ≡ msg_id)
      × (get_u64le (drop 8 (settle_payload msg_id lease_id)) ≡ lease_id)
  unfolding settle_payload
  settle_fields = (
    get_u64le-put msg_id (put_u64le lease_id) id_fits,
    ap get_u64le (
          drop-append-length (put_u64le msg_id) (put_u64le lease_id) 8
            (sym (length-put_u64le msg_id)))
        ∙ ap get_u64le (sym (append-nil (put_u64le lease_id)))
        ∙ get_u64le-put lease_id [] lease_fits,
  )

pub lease_fields :
    (msg_id expiry_us lease_id : ℕ)
    → msg_id < 2 ^ 64
    → expiry_us < 2 ^ 64
    → lease_id < 2 ^ 64
    → (get_u64le (lease_payload msg_id expiry_us lease_id) ≡ msg_id)
      × (get_u64le (drop 8 (lease_payload msg_id expiry_us lease_id)) ≡ expiry_us)
      × (get_u64le (drop 16 (lease_payload msg_id expiry_us lease_id)) ≡ lease_id)
unfolding lease_payload
lease_fields msg_id expiry_us lease_id id_fits expiry_fits lease_fits =
    let last = put_u64le lease_id in
    let more = put_u64le expiry_us ++ last in
    let second : drop 8 (put_u64le msg_id ++ more) ≡ more =
      drop-append-length (put_u64le msg_id) more 8 (sym (length-put_u64le msg_id)) in
    let third : drop 8 more ≡ last =
      drop-append-length (put_u64le expiry_us) last 8 (sym (length-put_u64le expiry_us)) in
    (
      get_u64le-put msg_id more id_fits,
      ap get_u64le second ∙ get_u64le-put expiry_us last expiry_fits,
      ap get_u64le (
            sym (drop-drop 8 8 (put_u64le msg_id ++ more))
            ∙ ap (drop 8) second
            ∙ third
            ∙ sym (append-nil last))
          ∙ get_u64le-put lease_id [] lease_fits,
    )

-- The two orders in which the state is written on an ACK.
ack_order :
    (st : State) (m : Msg) (q : Queue) (lease_id : ℕ)
    → queue_get st m.queue_name m.queue_name_len ≡ some q
    → queue_write
        (queue_write
          (msg_write (lease_remove st lease_id) m.id set_acked)
          q.name
          q.name_len
          drop_leased)
        q.name
        q.name_len
        add_acked
      ≡ ack_message m lease_id st
unfolding ack_message lease_remove msg_write queue_write
ack_order st m q lease_id queue =
    rw queue
      (elim (Option-cases
        (find (has_lease_id lease_id) (st.lease_buckets (lease_bucket lease_id)))) [
          | inl absent ↦ rw (lease_remove, absent) refl
          | inr (l, present) ↦ rw (lease_remove, present) refl
        ])

module _ {W : Type 0} ⦃os : Platform W⦄ where
  -- The replay of an ACK record, of a message that is leased under the record's lease, makes of the
  -- state what `qdb_ack` made of it.
  pub replay_ack-message :
      (s : Session W) (m : Msg) (q : Queue) (msg_id lease_id payload_off : ℕ) (w' : W)
      → msg_id < 2 ^ 64
      → lease_id < 2 ^ 64
      → msg_get s.st msg_id ≡ some m
      → m.state ≡ leased
      → m.lease_id ≡ lease_id
      → queue_get s.st m.queue_name m.queue_name_len ≡ some q
      → read_full s.db.fd 16 payload_off s.world ≡ ok (settle_payload msg_id lease_id) w'
      → replay_ack payload_off 16 s
        ≡ ok tt (record s { st = ack_message m lease_id s.st; world = w' })
  unfolding replay_ack
  replay_ack-message s m q msg_id lease_id payload_off w' id_fits lease_fits found held same queue
        read =
      let (a, b) = settle_fields msg_id lease_id id_fits lease_fits in
      grind (arith, a, b, ack_order s.st m q lease_id queue)

  -- The replay of a NACK or EXPIRE record, of a message that is leased under the record's lease, makes
  -- of the state what `qdb_nack` and the expiry made of it.
  pub replay_nack-message :
      (s : Session W) (m : Msg) (q : Queue) (msg_id lease_id payload_off : ℕ) (w' : W)
      → msg_id < 2 ^ 64
      → lease_id < 2 ^ 64
      → msg_get s.st msg_id ≡ some m
      → m.state ≡ leased
      → m.lease_id ≡ lease_id
      → queue_get s.st m.queue_name m.queue_name_len ≡ some q
      → read_full s.db.fd 16 payload_off s.world ≡ ok (settle_payload msg_id lease_id) w'
      → (replay_nack payload_off 16 s
          ≡ ok tt (record s { st = return_message m lease_id s.st; world = w' }))
        × (replay_expire payload_off 16 s
            ≡ ok tt (record s { st = return_message m lease_id s.st; world = w' }))
  unfolding replay_nack replay_expire return_message
  replay_nack-message s m q msg_id lease_id payload_off w' id_fits lease_fits found held same queue
        read =
      let (a, b) = settle_fields msg_id lease_id id_fits lease_fits in grind (arith, a, b)

  -- The replay of a LEASE record, of a message that is pending, makes of the state what `qdb_pop` made
  -- of it, and moves the next lease's id past the record's.
  pub replay_lease-message :
      (s : Session W) (m : Msg) (q : Queue) (msg_id expiry_us lease_id payload_off : ℕ) (w' w'' : W)
      → msg_id < 2 ^ 64
      → expiry_us < 2 ^ 64
      → 0 < lease_id
      → lease_id < 2 ^ 64
      → msg_get s.st msg_id ≡ some m
      → m.id ≡ msg_id
      → m.state ≡ pending
      → lease_get s.st lease_id ≡ none
      → queue_get s.st m.queue_name m.queue_name_len ≡ some q
      → read_full s.db.fd 24 payload_off s.world ≡ ok (lease_payload msg_id expiry_us lease_id) w'
      → os.alloc w' ≡ ok tt w''
      → replay_lease payload_off 24 s
        ≡ ok tt (record {
          db = record s.db { next_lease_id = past lease_id s.db.next_lease_id };
          st = lease_message q m lease_id expiry_us s.st;
          world = w'';
        })
  unfolding replay_lease lease_message
  replay_lease-message s m q msg_id expiry_us lease_id payload_off w' w'' id_fits expiry_fits
        positive lease_fits found same waiting free queue read room =
      let (a, b, c) = lease_fields msg_id expiry_us lease_id id_fits expiry_fits lease_fits in
      grind (arith, a, b, c)
