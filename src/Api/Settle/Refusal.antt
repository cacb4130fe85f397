-- ===== src/Api/Settle/Refusal.antt =====
-- When `ack` and `nack` refuse, and that a refusal changes nothing.
use qdb.Base.{
  ℕ, ◌≡◌, Option, none, some, Code, err, err_noent, err_inval, arith, if◌then◌else◌, ◌==◌,
}
use qdb.Platform.{Platform}
use qdb.State.{State, Msg, msg_get}
use qdb.Db.{Handle}
use qdb.Replay.{is_leased}
use qdb.Api.Settle.{ack, nack}

-- The code with which a message that is not held under `lease_id` is refused.
abbrev pub refusal : Option Msg → ℕ → Option Code
refusal none lease_id = some err_noent
refusal (some m) lease_id =
    if is_leased m.state
    then (if m.lease_id == lease_id then none else some err_inval)
    else some err_noent

module _ {W : Type 0} ⦃os : Platform W⦄ where
  pub ack_refused :
      (h : Handle W) (st : State) (msg_id lease_id : ℕ) (c : Code)
      → h.state ≡ some st
      → refusal (msg_get st msg_id) lease_id ≡ some c
      → (ack msg_id lease_id h ≡ err c h) × (nack msg_id lease_id h ≡ err c h)
  unfolding ack nack
  ack_refused h st msg_id lease_id c hs r = ground arith
