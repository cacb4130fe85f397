-- ===== src/History/Delivery.antt =====
-- What a pop returns is what was pushed.
use qdb.Base.{
  ℕ, ◌%◌, ◌^◌, ◌<◌, ◌≡◌, refl, sym, ap, ◌∙◌, none, some, some_inj, Option, List, [], ◌∷◌, ◌++◌,
  length, arith, if◌then◌else◌, ltb, ◌==◌, pure, Ensures, ends, fails, Ensures-bind, Ensures-map,
  Ensures-run, Ensures-if, Ensures-any, err_nomem, err_inval, err_empty, err_corrupt,
}
use qdb.Format.{hdr_size}
use qdb.Platform.{Platform, PlatformLaws, slice}
use qdb.State.{Msg, Queue, State, state_alloc, msg_get, queue_get, find}
use qdb.Db.{Db, Handle, Session, io, or_nomem, Ensures-io, Ensures-as_code}
use qdb.Io.{read_full, header_encode}
use qdb.Api.Push.{valid_name}
use qdb.Api.Pop.{has_pending, copy_data, pop_append, do_pop, pop_session, pop}
use qdb.Api.Durable.{length-header_encode}
use qdb.State.Names.{msg_get-id}
use qdb.History.{LogRecord, push_record}
use qdb.History.Recorded.{Recorded, Ensures-with_state, Ensures-guarded, Ensures-required}
use qdb.History.Pushing.{name_bounds, alloc-Ensures}
use qdb.History.Stored.{Steps-Pushed, data-slice}

-- The pointer to the data in `qdb_msg_t`: it is null where the message is empty.
abbrev pub delivered : List ℕ → Option (List ℕ)
delivered [] = none
delivered (b ∷ bytes) = some (b ∷ bytes)

delivered_lem :
    (len : ℕ) (bytes : List ℕ)
    → len ≡ length bytes
    → (if ltb 0 len then some bytes else none) ≡ delivered bytes
delivered_lem len [] e = ground arith
delivered_lem len (b ∷ bytes) e = ground arith

pub nothing : (id : ℕ) → msg_get state_alloc id ≡ none
unfolding msg_get find
nothing id = refl

module _ {W : Type 0} ⦃os : Platform W⦄ (laws : PlatformLaws os) where
  read_full-slice_ok :
      (fd len offset : ℕ) (w : W)
      → Ensures (λ got _. got ≡ slice offset len (os.bytes w fd)) (read_full fd len offset w)
  unfolding read_full
  read_full-slice_ok fd len offset w =
      Ensures-bind
        (Ensures-run (os.pread fd len offset w) (λ got w' e. (laws.pread_ok fd len offset w e).0))
        λ got w' same. Ensures-if (length got == len) (pure got) _ (λ e. ends same) (λ e. fails)

  copy_data-slice :
      (m : Msg) (s : Session W)
      → Ensures
          (λ copy _. copy ≡ (
            if ltb 0 m.data_len
            then some (slice m.data_file_offset m.data_len (os.bytes s.world s.db.fd))
            else none))
          (copy_data m s)
  unfolding copy_data
  copy_data-slice m s =
      Ensures-if (ltb 0 m.data_len) _ (pure none)
        (λ e.
          Ensures-bind
            (Ensures-as_code err_nomem (Ensures-io os.alloc s (alloc-Ensures laws s.world)))
            λ _ t (a, b, c).
              Ensures-bind
                (Ensures-io (read_full t.db.fd m.data_len m.data_file_offset) t
                  (read_full-slice_ok t.db.fd m.data_len m.data_file_offset t.world))
                λ bytes g (a', b', got). ends (
                  ap some (
                    got
                    ∙ ap (λ (l : List ℕ). slice m.data_file_offset m.data_len l)
                        (ap (os.bytes t.world) (ap Db.fd a) ∙ ap (λ f. f s.db.fd) c))
                  ∙ ap
                      (λ b.
                        if b
                        then some (slice m.data_file_offset m.data_len (os.bytes s.world s.db.fd))
                        else none)
                      (sym e)))
        (λ e. ends (
          ap
            (λ b.
              if b
              then some (slice m.data_file_offset m.data_len (os.bytes s.world s.db.fd))
              else none)
            (sym e)))

  -- What the caller gets, for a message whose data are at hand.
  do_pop-delivers :
      (s : Session W) (q : Queue) (m : Msg) (contents : List ℕ)
      → slice m.data_file_offset m.data_len (os.bytes s.world s.db.fd) ≡ contents
      → m.data_len ≡ length contents
      → Ensures
          (λ out _.
            (out.id ≡ m.id)
            × (out.queue ≡ m.queue_name)
            × (out.len ≡ length contents)
            × (out.payload ≡ delivered contents))
          (do_pop q m s)
  unfolding do_pop
  do_pop-delivers s q m contents there len =
      Ensures-bind (Ensures-as_code err_nomem (Ensures-io os.alloc s (alloc-Ensures laws s.world)))
        λ _ s1 (a, b, c). Ensures-bind (copy_data-slice m s1) λ copy s2 e.
          Ensures-bind (Ensures-any (or_nomem (io os.alloc) s2)) λ _ s3 _.
            Ensures-bind (Ensures-any (pop_append m s3)) λ (lease_id, expiry_us) s4 _. ends (
              refl,
              refl,
              len,
              e
                  ∙ ap
                      (λ (l : List ℕ).
                        if ltb 0 m.data_len
                        then some (slice m.data_file_offset m.data_len l)
                        else none)
                      (ap (os.bytes s1.world) (ap Db.fd a) ∙ ap (λ f. f s.db.fd) c)
                  ∙ ap (λ (l : List ℕ). if ltb 0 m.data_len then some l else none) there
                  ∙ delivered_lem m.data_len contents len,
            )

  -- On a handle in service, a pop that ends well returns the first message of its queue, with the
  -- bytes and the queue's name of the PUSH record of this message in the log; an empty message has
  -- a null pointer for its data. The log ends within the 64-bit range.
  pub pop-delivers :
      (h : Handle W) (rs : List LogRecord) (st : State) (queue : List ℕ)
      → Recorded os h rs st
      → h.db.log_end_offset < 2 ^ 64
      → Ensures
          (λ out _.
            (q : Queue) × (queue_get st queue (length queue) ≡ some q)
            × (out.id ≡ q.pending_head)
            × (before : List LogRecord) × (behind : List LogRecord) × (contents : List ℕ) × (rs
                ≡ before ++ push_record out.id out.queue contents ∷ behind)
            × (out.payload ≡ delivered contents)
            × (out.len ≡ length contents))
          (pop (some queue) h)
  unfolding pop pop_session
  pop-delivers h rs st queue known fits =
      let s : Session W = record { db = h.db; st = st; world = h.world } in
      Ensures-guarded (valid_name queue) err_inval _ h λ valid.
        let short : length queue % 2 ^ 8 ≡ length queue = omega (arith, name_bounds queue valid) in
        Ensures-with_state (pop_session queue) h st known.in_memory (
          Ensures-required (queue_get st queue (length queue % 2 ^ 8)) err_empty _ s λ q at'.
            Ensures-guarded (has_pending q) err_empty _ s λ some_pending.
              Ensures-required (msg_get st q.pending_head) err_corrupt _ s λ m found.
                let id_at = msg_get-id st q.pending_head m found in
                let p =
                  Steps-Pushed hdr_size state_alloc rs st q.pending_head m known.steps
                    (nothing q.pending_head) found in
                let place = some_inj p.place in
                let there =
                  ap (slice m.data_file_offset m.data_len) known.durable.content
                  ∙ data-slice (header_encode h.db) hdr_size rs q.pending_head m p
                      (sym (length-header_encode h.db))
                      (omega (arith, known.durable.log_end, fits)) in
                Ensures-map
                  (λ out t (id_eq, queue_eq, len_eq, payload_eq). (
                    q,
                    ap (queue_get st queue) (sym short) ∙ at',
                    id_eq ∙ id_at,
                    p.before,
                    p.behind,
                    p.contents,
                    p.split
                        ∙ ap (λ n. p.before ++ push_record n p.queue p.contents ∷ p.behind)
                            (sym (id_eq ∙ id_at))
                        ∙ ap (λ n. p.before ++ push_record out.id n p.contents ∷ p.behind)
                            (sym (queue_eq ∙ ap (λ (t : ℕ × ℕ × List ℕ). t.2) place)),
                    payload_eq,
                    len_eq,
                  ))
                  (do_pop-delivers s q m p.contents there (ap (λ (t : ℕ × ℕ × List ℕ). t.1) place)))
