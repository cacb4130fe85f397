-- ===== src/Api/Durable.antt =====
-- What a handle's file holds: the header of the handle, and behind it the log. The durable part of
-- `qdb_push`, `qdb_pop`, `qdb_ack`, `qdb_nack` and the expiry appends one record.
use qdb.Base.{
  ℕ, zero, suc, ◌+◌, ◌-◌, ◌%◌, ◌^◌, ◌<◌, ◌≡◌, refl, ap, sym, subst, ◌∙◌, List, [], ◌∷◌, ◌++◌,
  length, drop, replicate, length-append, append_assoc, append-nil, arith, Ensures, ends,
  Ensures-bind, Ensures-map, length-replicate,
}
use qdb.Word.{u64, put_u32le, put_u64le}
use qdb.Crc.{crc32}
use qdb.Format.{hdr_size, rt_msg_push, rt_msg_lease}
use qdb.Platform.{Platform, PlatformLaws}
use qdb.State.{Msg}
use qdb.Db.{
  Db, Handle, Session, or_io, io, io_handle, Ensures-as_code, Ensures-io, Ensures-io_handle,
}
use qdb.Io.{header_prefix, header_encode, append_record, header_update}
use qdb.Io.Append.{record_bytes, length-record_bytes, append_record-bytes}
use qdb.Word.RoundTrip.{length-put_u32le, length-put_u64le}
use qdb.Io.Header.{length-prefix}
use qdb.Io.Patch.{header_update-encode}
use qdb.Api.Push.{push_payload, push_append}
use qdb.Api.Pop.{lease_payload, pop_append}
use qdb.Api.Settle.{settle_payload, settle_append}

-- The file behind the handle's descriptor is the encoded header and `log`, which ends where the
-- handle says.
pub record Durable {W : Type 0} (os : Platform W) (db : Db) (log : List ℕ) (w : W) : Type 0 where
  pub content : os.bytes w db.fd ≡ header_encode db ++ log
  pub log_end : db.log_end_offset ≡ hdr_size + length log

drop-nil : (n : ℕ) → drop {A = ℕ} n [] ≡ []
drop-nil zero = refl
drop-nil (suc n) = refl

pub length-header_encode : (db : Db) → length (header_encode db) ≡ hdr_size
unfolding header_encode
length-header_encode db =
    let crc = put_u32le (crc32 (header_prefix db)) in
    omega (
      arith,
      length-append (header_prefix db) (crc ++ replicate (4096 - 56) 0),
      length-prefix db [],
      length-append crc (replicate (4096 - 56) 0),
      length-put_u32le (crc32 (header_prefix db)),
      length-replicate {A = ℕ} (4096 - 56) 0,
    )

-- The record stands behind the log.
joined :
    (db : Db) (log : List ℕ) (record_ : List ℕ)
    → (header_encode db ++ log) ++ (record_ ++ drop (length record_) [])
      ≡ header_encode db ++ (log ++ record_)
joined db log record_ =
    ap (λ l. (header_encode db ++ log) ++ (record_ ++ l)) (drop-nil (length record_))
    ∙ ap (λ l. (header_encode db ++ log) ++ l) (append-nil record_)
    ∙ append_assoc (header_encode db) log record_

pub length-settle_payload : (msg_id lease_id : ℕ) → length (settle_payload msg_id lease_id) ≡ 16
unfolding settle_payload put_u64le put_u32le
length-settle_payload msg_id lease_id = refl

pub length-lease_payload :
    (msg_id expiry_us lease_id : ℕ) → length (lease_payload msg_id expiry_us lease_id) ≡ 24
unfolding lease_payload put_u64le put_u32le
length-lease_payload msg_id expiry_us lease_id = refl

pub length-push_payload :
    (msg_id : ℕ) (queue bytes : List ℕ)
    → length (push_payload msg_id queue bytes) ≡ length queue + length bytes + 9
unfolding push_payload
length-push_payload msg_id queue bytes = omega (
  arith,
  length-append (put_u64le msg_id) (length queue % 2 ^ 8 ∷ (queue ++ bytes)),
  length-put_u64le msg_id,
  length-append queue bytes,
)

module _ {W : Type 0} ⦃os : Platform W⦄ (laws : PlatformLaws os) where
  append_behind :
      (db : Db) (log : List ℕ) (type : ℕ) (payload : List ℕ) (w : W)
      → Durable os db log w
      → db.log_end_offset + (length payload + 10) < 2 ^ 64
      → Ensures
          (λ end w'.
            (end ≡ db.log_end_offset + (length payload + 10))
            × (os.bytes w' db.fd ≡ header_encode db ++ (log ++ record_bytes type payload)))
          (append_record db.fd type payload db.log_end_offset w)
  append_behind db log type payload w d fits =
      Ensures-map (λ end w' (e, c). (e, c ∙ joined db log (record_bytes type payload)))
        (append_record-bytes laws db.fd type payload (header_encode db ++ log) [] db.log_end_offset
          w (d.content ∙ sym (append-nil (header_encode db ++ log)))
          (omega (arith, d.log_end, length-append (header_encode db) log, length-header_encode db))
          fits)

  -- The header that follows a record makes the handle and the file agree again.
  update_behind :
      (old db : Db) (log : List ℕ) (type : ℕ) (payload : List ℕ) (w : W)
      → os.bytes w db.fd ≡ header_encode old ++ (log ++ record_bytes type payload)
      → old.create_time_us ≡ db.create_time_us
      → old.log_end_offset ≡ hdr_size + length log
      → db.log_end_offset ≡ old.log_end_offset + (length payload + 10)
      → Ensures
          (λ _ w'. Durable os db (log ++ record_bytes type payload) w')
          (header_update db.fd db w)
  update_behind old db log type payload w c time before moved =
      Ensures-map
        (λ _ w' c'. record {
          content = c';
          log_end = omega (
            arith,
            length-append log (record_bytes type payload),
            length-record_bytes type payload,
          );
        })
        (header_update-encode laws db.fd old db (log ++ record_bytes type payload) w c time)

  -- The same in a session, and in a handle, where `new` is the handle with its fields updated.
  session_update :
      (s1 : Session W) (old new : Db) (log : List ℕ) (type : ℕ) (payload : List ℕ)
      → old.fd ≡ new.fd
      → os.bytes s1.world old.fd ≡ header_encode old ++ (log ++ record_bytes type payload)
      → old.create_time_us ≡ new.create_time_us
      → old.log_end_offset ≡ hdr_size + length log
      → new.log_end_offset ≡ old.log_end_offset + (length payload + 10)
      → Ensures
          (λ _ t.
            (t.db ≡ new)
            × (t.st ≡ s1.st)
            × Durable os t.db (log ++ record_bytes type payload) t.world)
          (io (or_io (header_update new.fd new)) (record s1 { db = new }))
  session_update s1 old new log type payload same c time before moved =
      Ensures-map
        (λ _ t (a, b, d).
          (a, b, subst (λ db. Durable os db (log ++ record_bytes type payload) t.world) (sym a) d))
        (Ensures-io (or_io (header_update new.fd new)) (record s1 { db = new })
          (Ensures-as_code _ (
            update_behind old new log type payload s1.world
              (subst
                (λ fd.
                  os.bytes s1.world fd ≡ header_encode old ++ (log ++ record_bytes type payload))
                same c)
              time before moved)))

  handle_update :
      (h1 : Handle W) (old new : Db) (log : List ℕ) (type : ℕ) (payload : List ℕ)
      → old.fd ≡ new.fd
      → os.bytes h1.world old.fd ≡ header_encode old ++ (log ++ record_bytes type payload)
      → old.create_time_us ≡ new.create_time_us
      → old.log_end_offset ≡ hdr_size + length log
      → new.log_end_offset ≡ old.log_end_offset + (length payload + 10)
      → Ensures
          (λ _ t.
            (t.db ≡ new)
            × (t.state ≡ h1.state)
            × Durable os t.db (log ++ record_bytes type payload) t.world)
          (io_handle (or_io (header_update new.fd new)) (record h1 { db = new }))
  handle_update h1 old new log type payload same c time before moved =
      Ensures-map
        (λ _ t (a, b, d).
          (a, b, subst (λ db. Durable os db (log ++ record_bytes type payload) t.world) (sym a) d))
        (Ensures-io_handle (or_io (header_update new.fd new)) (record h1 { db = new })
          (Ensures-as_code _ (
            update_behind old new log type payload h1.world
              (subst
                (λ fd.
                  os.bytes h1.world fd ≡ header_encode old ++ (log ++ record_bytes type payload))
                same c)
              time before moved)))

  -- An ACK, NACK or EXPIRE that ends well has appended its record to the log, changed no other byte
  -- of it, moved the end of the log behind the record and no other field of the handle, and left the
  -- queues in memory alone.
  pub settle_append-Durable :
      (s : Session W) (log : List ℕ) (type msg_id lease_id : ℕ)
      → Durable os s.db log s.world
      → s.db.log_end_offset + 26 < 2 ^ 64
      → Ensures
          (λ _ t.
            (t.st ≡ s.st)
            × (t.db ≡ record s.db { log_end_offset = s.db.log_end_offset + 26 })
            × Durable os t.db (log ++ record_bytes type (settle_payload msg_id lease_id)) t.world)
          (settle_append type msg_id lease_id s)
  unfolding settle_append
  settle_append-Durable s log type msg_id lease_id d fits =
      let payload = settle_payload msg_id lease_id in
      Ensures-bind
        (Ensures-io (append_record s.db.fd type payload s.db.log_end_offset) s (
          append_behind s.db log type payload s.world d
            (omega (arith, length-settle_payload msg_id lease_id))))
        λ end s1 (same_db, same_st, (moved, c1)).
          Ensures-map
            (λ _ t (a, b, dur). (
              b ∙ same_st,
              a
                  ∙ ap (λ (db : Db). record db { log_end_offset = end }) same_db
                  ∙ ap (λ (e : ℕ). record s.db { log_end_offset = e })
                      (moved
                        ∙ ap (λ n. s.db.log_end_offset + (n + 10))
                            (length-settle_payload msg_id lease_id)),
              dur,
            ))
            (session_update s1 s.db (record s1.db { log_end_offset = end }) log type payload
              (ap Db.fd (sym same_db)) c1 (ap Db.create_time_us (sym same_db)) d.log_end moved)

  -- A pop that ends well has appended a LEASE record of the lease that it returns, whose id is the
  -- next one, and raised the next one; the expiry fits 64 bits, and the rest is as for
  -- `settle_append`.
  pub pop_append-Durable :
      (s : Session W) (m : Msg) (log : List ℕ)
      → Durable os s.db log s.world
      → s.db.log_end_offset + 34 < 2 ^ 64
      → Ensures
          (λ (lease_id, expiry_us) t.
            (t.st ≡ s.st)
            × (lease_id ≡ s.db.next_lease_id)
            × (expiry_us < 2 ^ 64)
            × (t.db ≡ record s.db {
              log_end_offset = s.db.log_end_offset + 34;
              next_lease_id = u64 (lease_id + 1);
            })
            × Durable os t.db
                (log ++ record_bytes rt_msg_lease (lease_payload m.id expiry_us lease_id))
                t.world)
          (pop_append m s)
  unfolding pop_append
  pop_append-Durable s m log d fits =
      let lease_id = s.db.next_lease_id in
      let (now, w0) = os.time_us s.world in
      let expiry_us = u64 (now + s.db.lease_timeout_us) in
      let payload = lease_payload m.id expiry_us lease_id in
      let d0 : Durable os s.db log w0 = record {
        content = ap (λ f. f s.db.fd) (laws.time_us_bytes s.world) ∙ d.content;
        log_end = d.log_end;
      } in
      Ensures-bind
        (Ensures-io (append_record s.db.fd rt_msg_lease payload s.db.log_end_offset)
          (record s { world = w0 })
          (append_behind s.db log rt_msg_lease payload w0 d0
            (omega (arith, length-lease_payload m.id expiry_us lease_id))))
        λ end s1 (same_db, same_st, (moved, c1)).
          Ensures-bind
            (session_update s1 s.db
              (record s1.db { log_end_offset = end; next_lease_id = u64 (lease_id + 1) }) log
              rt_msg_lease payload (ap Db.fd (sym same_db)) c1 (ap Db.create_time_us (sym same_db))
              d.log_end moved)
            λ _ t (a, b, dur). ends {a = (lease_id, expiry_us)} (
              b ∙ same_st,
              refl,
              omega arith,
              a
                  ∙ ap
                      (λ (db : Db). record db {
                        log_end_offset = end;
                        next_lease_id = u64 (lease_id + 1);
                      })
                      same_db
                  ∙ ap
                      (λ (e : ℕ). record s.db {
                        log_end_offset = e;
                        next_lease_id = u64 (lease_id + 1);
                      })
                      (moved
                        ∙ ap (λ n. s.db.log_end_offset + (n + 10))
                            (length-lease_payload m.id expiry_us lease_id)),
              dur,
            )

  -- A push whose durable part ends well has appended a PUSH record under the next id, and raised the
  -- next id; the rest is as for `settle_append`.
  pub push_append-Durable :
      (h : Handle W) (queue bytes log : List ℕ)
      → Durable os h.db log h.world
      → h.db.log_end_offset + (length queue + length bytes + 19) < 2 ^ 64
      → Ensures
          (λ _ g.
            (g.state ≡ h.state)
            × (g.db ≡ record h.db {
              log_end_offset = h.db.log_end_offset + (length queue + length bytes + 19);
              next_msg_id = u64 (h.db.next_msg_id + 1);
            })
            × Durable os g.db
                (log ++ record_bytes rt_msg_push (push_payload h.db.next_msg_id queue bytes))
                g.world)
          (push_append queue bytes h)
  unfolding push_append
  push_append-Durable h queue bytes log d fits =
      let payload = push_payload h.db.next_msg_id queue bytes in
      Ensures-bind
        (Ensures-io_handle (append_record h.db.fd rt_msg_push payload h.db.log_end_offset) h (
          append_behind h.db log rt_msg_push payload h.world d
            (omega (arith, length-push_payload h.db.next_msg_id queue bytes))))
        λ end h1 (same_db, same_st, (moved, c1)).
          Ensures-map
            (λ _ t (a, b, dur). (
              b ∙ same_st,
              a
                  ∙ ap
                      (λ (db : Db). record db {
                        log_end_offset = end;
                        next_msg_id = u64 (h.db.next_msg_id + 1);
                      })
                      same_db
                  ∙ ap
                      (λ (e : ℕ). record h.db {
                        log_end_offset = e;
                        next_msg_id = u64 (h.db.next_msg_id + 1);
                      })
                      (moved
                        ∙ ap (◌+◌ h.db.log_end_offset)
                            (omega (arith, length-push_payload h.db.next_msg_id queue bytes))),
              dur,
            ))
            (handle_update h1 h.db
              (record h1.db { log_end_offset = end; next_msg_id = u64 (h.db.next_msg_id + 1) }) log
              rt_msg_push payload (ap Db.fd (sym same_db)) c1 (ap Db.create_time_us (sym same_db))
              d.log_end moved)
