-- ===== src/History/Counters.antt =====
-- The counters that the replay computes: the next message's id is kept in the header, and the next
-- lease's is counted from the log.
use qdb.Base.{ℕ, ◌<◌, ◌≤◌, ◌≡◌, refl, ap, ◌∙◌, List, [], ◌∷◌, ◌++◌, All, arith, lt→ltb}
use qdb.Db.{Db}
use qdb.Replay.{past}
use qdb.History.{LogRecord, push_record, lease_record, ack_record, nack_record, expire_record}
use qdb.History.Recovery.{counted}
use qdb.History.Loop.{counted_all}

-- The next lease's id behind a record.
abbrev pub lease_past : LogRecord → ℕ → ℕ
lease_past (push_record id queue bytes) n = n
lease_past (lease_record id expiry_us lease_id) n = past lease_id n
lease_past (ack_record id lease_id) n = n
lease_past (nack_record id lease_id) n = n
lease_past (expire_record id lease_id) n = n

unfoldable pub lease_counter : List LogRecord → ℕ → ℕ
lease_counter [] n = n
lease_counter (r ∷ rs) n = lease_counter rs (lease_past r n)

-- The record brings in no message whose id is yet to be given.
abbrev pub PushesBelow : ℕ → LogRecord → Type 0
PushesBelow n (push_record id queue bytes) = id < n
PushesBelow n (lease_record id expiry_us lease_id) = Unit {0}
PushesBelow n (ack_record id lease_id) = Unit {0}
PushesBelow n (nack_record id lease_id) = Unit {0}
PushesBelow n (expire_record id lease_id) = Unit {0}

pub lease_counter-snoc :
    (rs : List LogRecord) (r : LogRecord) (n : ℕ)
    → lease_counter (rs ++ r ∷ []) n ≡ lease_past r (lease_counter rs n)
unfolding lease_counter
lease_counter-snoc [] r n = refl
lease_counter-snoc (r0 ∷ rs) r n = lease_counter-snoc rs r (lease_past r0 n)

pub PushesBelow-snoc :
    (n n' : ℕ) (rs : List LogRecord) (r : LogRecord)
    → n ≤ n'
    → All (PushesBelow n) rs
    → PushesBelow n' r
    → All (PushesBelow n') (rs ++ r ∷ [])
PushesBelow-snoc n n' [] r more below last = (last, tt)
PushesBelow-snoc n n' (r0 ∷ rs) r more (b, below) last =
    (first r0 b, PushesBelow-snoc n n' rs r more below last)
  where
    first : (r : LogRecord) → PushesBelow n r → PushesBelow n' r
    first (push_record id queue bytes) b = omega arith
    first (lease_record id expiry_us lease_id) b = tt
    first (ack_record id lease_id) b = tt
    first (nack_record id lease_id) b = tt
    first (expire_record id lease_id) b = tt

counted-below :
    (r : LogRecord) (db : Db)
    → PushesBelow db.next_msg_id r
    → counted r db ≡ record db { next_lease_id = lease_past r db.next_lease_id }
counted-below (push_record id queue bytes) db b = rw (lt→ltb id db.next_msg_id b) refl
counted-below (lease_record id expiry_us lease_id) db b = refl
counted-below (ack_record id lease_id) db b = refl
counted-below (nack_record id lease_id) db b = refl
counted-below (expire_record id lease_id) db b = refl

-- The replay changes of the handle the next lease's id alone.
pub counted_all-below :
    (rs : List LogRecord) (db : Db)
    → All (PushesBelow db.next_msg_id) rs
    → counted_all rs db ≡ record db { next_lease_id = lease_counter rs db.next_lease_id }
unfolding counted_all lease_counter
counted_all-below [] db below = refl
counted_all-below (r ∷ rs) db (b, below) =
    ap (counted_all rs) (counted-below r db b)
    ∙ counted_all-below rs (record db { next_lease_id = lease_past r db.next_lease_id }) below
