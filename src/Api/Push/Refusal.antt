-- ===== src/Api/Push/Refusal.antt =====
-- When `qdb_push` refuses its arguments, and that a refusal changes nothing.
use qdb.Base.{
  ℕ, ◌≡◌, refl, Bool, false, ◌&&◌, not, Option, none, some, List, err, err_inval, arith, ltb, leb,
}
use qdb.Format.{msg_max_len}
use qdb.Platform.{Platform}
use qdb.Db.{Handle}
use qdb.Api.Push.{valid_name, is_null, push}

-- A name of 1 to 255 bytes, data where the length is not 0, and a length of at most 64 MiB.
abbrev pub accepts : Option (List ℕ) → Option (List ℕ) → ℕ → Bool
accepts none data_arg len = false
accepts (some queue) data_arg len =
    valid_name queue && (not (ltb 0 len && is_null data_arg) && leb len msg_max_len)

module _ {W : Type 0} ⦃os : Platform W⦄ where
  -- Arguments that are not accepted are refused as invalid, with nothing written, allocated or
  -- changed.
  pub push_refused :
      (queue_arg data_arg : Option (List ℕ)) (len : ℕ) (h : Handle W)
      → accepts queue_arg data_arg len ≡ false
      → push queue_arg data_arg len h ≡ err err_inval h
  unfolding push
  push_refused none data_arg len h refused = refl
  push_refused (some queue) data_arg len h refused = ground arith
