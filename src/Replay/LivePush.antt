-- ===== src/Replay/LivePush.antt =====
-- The change that `qdb_push` makes to the state in memory, against the replay of its PUSH record.
use qdb.Base.{
  ℕ, ◌+◌, ◌-◌, ◌%◌, ◌^◌, ◌<◌, ◌≡◌, refl, ◌∙◌, false, none, some, List, [], ◌∷◌, ◌++◌, length, arith,
  ok, ltb, ◌==◌, ap,
}
use qdb.Word.{u32, u64, put_u32le, put_u64le, at}
use qdb.Word.RoundTrip.{get_u64le-put}
use qdb.Platform.{Platform}
use qdb.State.{
  Msg, Queue, State, msg_get, msg_insert, queue_get, queue_pending_append, queue_create, new_queue,
}
use qdb.Db.{Session}
use qdb.Io.{read_full}
use qdb.Replay.{new_msg, past, queue_get_or_create, replay_push}
use qdb.Api.Push.{push_enqueue}

pub queue_get-msg_insert :
    (st : State) (m : Msg) (name : List ℕ) (name_len : ℕ)
    → queue_get (msg_insert st m) name name_len ≡ queue_get st name name_len
unfolding queue_get msg_insert
queue_get-msg_insert st m name name_len = refl

-- The first nine bytes of the payload.
abbrev push_head : ℕ → ℕ → List ℕ
push_head msg_id name_len = put_u64le msg_id ++ (name_len ∷ [])

length_at : (msg_id name_len : ℕ) → at (push_head msg_id name_len) 8 ≡ name_len
unfolding put_u64le put_u32le
length_at msg_id name_len = refl

-- The state behind the push of `len` bytes to the queue `q`, whose record starts at `rec_start`.
abbrev pub pushed : State → Queue → ℕ → ℕ → List ℕ → ℕ → State
pushed st q msg_id rec_start name len =
    queue_pending_append
      (msg_insert st
        (new_msg msg_id (u64 (rec_start + 9 + 9 + length name)) len (length name) name))
      q msg_id

pub create-insert :
    (st : State) (m : Msg) (name : List ℕ) (name_len : ℕ)
    → queue_create (msg_insert st m) name name_len ≡ msg_insert (queue_create st name name_len) m
unfolding queue_create msg_insert
create-insert st m name name_len = refl

-- The same where the queue is missing.
abbrev pub pushed_new : State → ℕ → ℕ → List ℕ → ℕ → State
pushed_new st msg_id rec_start name len =
    pushed (queue_create st name (length name)) (new_queue name (length name)) msg_id rec_start name
      len

module _ {W : Type 0} ⦃os : Platform W⦄ where
  -- A push to a queue that exists, and the replay of its record on the same state, end well with the
  -- same state in memory; the replay moves the next id past the message's.
  pub replay_push-enqueue :
      (s : Session W) (q : Queue) (msg_id rec_start len : ℕ) (name : List ℕ) (w1 w2 w3 w4 : W)
      → 0 < msg_id
      → msg_id < 2 ^ 64
      → 0 < length name
      → length name < 2 ^ 8
      → len < 2 ^ 32
      → rec_start + (len + 1000) < 2 ^ 64
      → msg_get s.st msg_id ≡ none
      → queue_get s.st name (length name) ≡ some q
      → read_full s.db.fd 9 (rec_start + 9) s.world ≡ ok (put_u64le msg_id ++ (length name ∷ [])) w1
      → read_full s.db.fd (length name) (rec_start + 9 + 9) w1 ≡ ok name w2
      → os.alloc w2 ≡ ok tt w3
      → os.alloc s.world ≡ ok tt w4
      → (replay_push (rec_start + 9) (9 + length name + len) s
          ≡ ok tt (record {
            db = record s.db { next_msg_id = past msg_id s.db.next_msg_id };
            st = pushed s.st q msg_id rec_start name len;
            world = w3;
          }))
        × (push_enqueue msg_id rec_start name len s
            ≡ ok tt (record s { st = pushed s.st q msg_id rec_start name len; world = w4 }))
  unfolding replay_push push_enqueue queue_get_or_create
  replay_push-enqueue s q msg_id rec_start len name w1 w2 w3 w4 pos id_fits named short len_fits
        fits fresh queue read1 read2 room1 room2 =
      let id_at = get_u64le-put msg_id (length name ∷ []) id_fits in
      let n_at = length_at msg_id (length name) in
      let off : u64 ((rec_start + 9) + 9) ≡ rec_start + 9 + 9 = omega arith in
      let rest : ((9 + length name + len) - 9) - length name ≡ len = omega arith in
      let same_len : length name % 2 ^ 8 ≡ length name = omega arith in
      let narrow : u32 len ≡ len = omega arith in
      let found = λ (m : Msg). queue_get-msg_insert s.st m name (length name) ∙ queue in
      let ltb1 : ltb (9 + length name + len) 10 ≡ false = ground arith in
      let ltb2 : ltb (9 + length name + len) (9 + length name) ≡ false = ground arith in
      (
        rw (ltb1, read1, id_at, n_at) (grind (arith, found, off, rest, read2, fresh)),
        rw (room2, same_len, narrow) (grind (arith, found)),
      )

  queue_get_or_create-absent :
      (t : Session W) (name : List ℕ) (name_len : ℕ) (w' : W)
      → queue_get t.st name name_len ≡ none
      → os.alloc t.world ≡ ok tt w'
      → queue_get_or_create name name_len t
        ≡ ok
            (new_queue name name_len)
            (record t { st = queue_create t.st name name_len; world = w' })
  unfolding queue_get_or_create
  queue_get_or_create-absent t name name_len w' absent room = grind (arith, absent, room)

  -- A push to a queue that does not exist, and the replay of its record, create the queue.
  pub replay_push-create :
      (s : Session W) (msg_id rec_start len : ℕ) (name : List ℕ) (w1 w2 w3 w4 w5 w6 : W)
      → 0 < msg_id
      → msg_id < 2 ^ 64
      → 0 < length name
      → length name < 2 ^ 8
      → len < 2 ^ 32
      → rec_start + (len + 1000) < 2 ^ 64
      → msg_get s.st msg_id ≡ none
      → queue_get s.st name (length name) ≡ none
      → read_full s.db.fd 9 (rec_start + 9) s.world ≡ ok (put_u64le msg_id ++ (length name ∷ [])) w1
      → read_full s.db.fd (length name) (rec_start + 9 + 9) w1 ≡ ok name w2
      → os.alloc w2 ≡ ok tt w3
      → os.alloc w3 ≡ ok tt w4
      → os.alloc s.world ≡ ok tt w5
      → os.alloc w5 ≡ ok tt w6
      → (replay_push (rec_start + 9) (9 + length name + len) s
          ≡ ok tt (record {
            db = record s.db { next_msg_id = past msg_id s.db.next_msg_id };
            st = pushed_new s.st msg_id rec_start name len;
            world = w4;
          }))
        × (push_enqueue msg_id rec_start name len s
            ≡ ok tt (record s { st = pushed_new s.st msg_id rec_start name len; world = w6 }))
  unfolding replay_push push_enqueue
  replay_push-create s msg_id rec_start len name w1 w2 w3 w4 w5 w6 pos id_fits named short len_fits
        fits fresh absent read1 read2 room1 room2 room3 room4 =
      let id_at = get_u64le-put msg_id (length name ∷ []) id_fits in
      let n_at = length_at msg_id (length name) in
      let off : u64 ((rec_start + 9) + 9) ≡ rec_start + 9 + 9 = omega arith in
      let rest : ((9 + length name + len) - 9) - length name ≡ len = omega arith in
      let same_len : length name % 2 ^ 8 ≡ length name = omega arith in
      let narrow : u32 len ≡ len = omega arith in
      let m = new_msg msg_id (u64 (rec_start + 9 + 9 + length name)) len (length name) name in
      let missing = queue_get-msg_insert s.st m name (length name) ∙ absent in
      let made = λ (w w' : W) (e : os.alloc w ≡ ok tt w').
        queue_get_or_create-absent (record s { st = msg_insert s.st m; world = w }) name
          (length name) w' missing e in
      let one = made w3 w4 room2 in
      let two = made w5 w6 room4 in
      let ltb1 : ltb (9 + length name + len) 10 ≡ false = ground arith in
      let ltb2 : ltb (9 + length name + len) (9 + length name) ≡ false = ground arith in
      let ltb3 : ◌==◌ (length name) 0 ≡ false = ground arith in
      let ltb4 : ◌==◌ msg_id 0 ≡ false = ground arith in
      (
        rw (ltb1, read1, id_at, n_at, ltb3, ltb2, ltb4, off, read2, fresh, room1, rest, one)
            (ap
              (λ x. ok tt (record {
                db = record s.db { next_msg_id = past msg_id s.db.next_msg_id };
                st = queue_pending_append x (new_queue name (length name)) msg_id;
                world = w4;
              }))
              (create-insert s.st m name (length name))),
        rw (room3, same_len, narrow, two)
            (ap
              (λ x. ok tt (record s {
                st = queue_pending_append x (new_queue name (length name)) msg_id;
                world = w6;
              }))
              (create-insert s.st m name (length name))),
      )
