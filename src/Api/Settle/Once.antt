-- ===== src/Api/Settle/Once.antt =====
-- A message is settled once.
use qdb.Base.{ℕ, ◌≡◌, refl, ap, ◌∙◌, Option, none, some, err, err_noent, eq→==}
use qdb.Platform.{Platform}
use qdb.State.{Msg, Queue, State, msg_get, queue_get, queue_write, lease_remove}
use qdb.State.Tables.{updated, msg_get-write, msg_get-queue_write}
use qdb.Db.{Handle}
use qdb.Replay.{set_acked, drop_leased, add_acked}
use qdb.Api.WellFormed.{msg_get-lease_remove}
use qdb.Api.Settle.{ack_message, when_found, ack, nack}
use qdb.Api.Settle.Refusal.{refusal, ack_refused}

counted_lem :
    (o : Option Queue) (st : State) (id : ℕ)
    → msg_get
        (when_found o
          (λ q t.
            queue_write (queue_write t q.name q.name_len drop_leased) q.name q.name_len add_acked)
          st)
        id
      ≡ msg_get st id
counted_lem none st id = refl
counted_lem (some q) st id =
    msg_get-queue_write (queue_write st q.name q.name_len drop_leased) q.name q.name_len add_acked
      id
    ∙ msg_get-queue_write st q.name q.name_len drop_leased id

-- The message that was settled is found, as settled.
msg_get-ack_message :
    (st : State) (m : Msg) (lease_id : ℕ)
    → msg_get st m.id ≡ some m
    → msg_get (ack_message m lease_id st) m.id ≡ some (set_acked m)
unfolding ack_message
msg_get-ack_message st m lease_id found =
    let o = queue_get st m.queue_name m.queue_name_len in
    let counted =
      when_found o
        (λ q t.
          queue_write (queue_write t q.name q.name_len drop_leased) q.name q.name_len add_acked)
        st in
    msg_get-write (lease_remove counted lease_id) set_acked (λ n. refl) m.id m.id
    ∙ rw (eq→== m.id m.id refl) (
        ap (updated set_acked)
          (msg_get-lease_remove counted lease_id m.id ∙ counted_lem o st m.id ∙ found))

module _ {W : Type 0} ⦃os : Platform W⦄ where
  -- On a handle whose state is that behind the ACK of a message, every further ACK or NACK of the
  -- message, under whatever lease, is refused with `err_noent`, and changes nothing.
  pub ack_once :
      (h : Handle W) (st : State) (m : Msg) (lease_id later : ℕ)
      → msg_get st m.id ≡ some m
      → h.state ≡ some (ack_message m lease_id st)
      → (ack m.id later h ≡ err err_noent h) × (nack m.id later h ≡ err err_noent h)
  ack_once h st m lease_id later found settled =
      ack_refused h (ack_message m lease_id st) m.id later err_noent settled
        (ap (λ o. refusal o later) (msg_get-ack_message st m lease_id found))
