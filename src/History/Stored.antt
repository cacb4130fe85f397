-- ===== src/History/Stored.antt =====
-- The data of a message: a pop reads the bytes that were pushed.
use qdb.Base.{
  ℕ, ◌+◌, ◌%◌, ◌^◌, ◌<◌, ◌≡◌, ◌≢◌, refl, sym, ap, subst, ◌∙◌, none, some, some_inj, not-none-some,
  Option, List, [], ◌∷◌, ◌++◌, length, length-append, append_assoc, arith, ◌⊎◌, inl, inr, ◌==◌,
  Bool-cases, ==→eq,
}
use qdb.Word.{u64, put_u64le}
use qdb.Word.RoundTrip.{length-put_u64le}
use qdb.Format.{commit_marker}
use qdb.Platform.{slice}
use qdb.Platform.Files.{slice-append}
use qdb.Io.{record_header}
use qdb.Io.Append.{record_bytes, length-record_header}
use qdb.Api.Push.{push_payload}
use qdb.State.{Msg, State, msg_get}
use qdb.History.{
  LogRecord, push_record, lease_record, ack_record, nack_record, expire_record, encoded, log_bytes,
  Step, Steps,
}
use qdb.History.Fixed.{fixed, facts}
use qdb.History.Fresh.{BringsNot, Step-fixed, Step-fixed_push, Step-none}

some-fixed : (o : Option Msg) (f : ℕ × ℕ × List ℕ) → fixed o ≡ some f → o ≢ none
some-fixed none f e = absurd (not-none-some e)
some-fixed (some m) f e = λ z. grind arith

-- A record brings in another message than one that is there.
brings-other :
    (offset : ℕ) (st : State) (r : LogRecord) (st' : State) (id : ℕ)
    → Step offset st r st'
    → msg_get st id ≢ none
    → BringsNot r id
brings-other offset st (push_record n queue bytes) st' id ((pos, a, b, c, d, fresh, f), made)
      there =
    λ e. there (ap (msg_get st) (sym e) ∙ fresh)
brings-other offset st (lease_record n expiry_us lease_id) st' id step there = tt
brings-other offset st (ack_record n lease_id) st' id step there = tt
brings-other offset st (nack_record n lease_id) st' id step there = tt
brings-other offset st (expire_record n lease_id) st' id step there = tt

-- A message that is there keeps its data.
Steps-fixed :
    (offset : ℕ) (st : State) (rs : List LogRecord) (st' : State) (id : ℕ) (f : ℕ × ℕ × List ℕ)
    → Steps offset st rs st'
    → facts st id ≡ some f
    → facts st' id ≡ some f
unfolding Steps
Steps-fixed offset st [] st' id f e kept = subst (λ s. facts s id ≡ some f) e kept
Steps-fixed offset st (r ∷ rs) st' id f (mid, step, steps) kept =
    Steps-fixed (offset + length (encoded r)) mid rs st' id f steps (
      Step-fixed offset st r mid id step
        (brings-other offset st r mid id step (some-fixed (msg_get st id) f kept)) kept)

-- The record of the message, with the log before and behind it, and where its data stand.
pub record Pushed (offset : ℕ) (rs : List LogRecord) (id : ℕ) (m : Msg) : Type 0 where
  pub before : List LogRecord
  pub queue : List ℕ
  pub contents : List ℕ
  pub behind : List LogRecord
  pub split : rs ≡ before ++ push_record id queue contents ∷ behind
  pub place :
      fixed (some m)
      ≡ some
          (u64 (offset + length (log_bytes before) + 9 + 9 + length queue), length contents, queue)

-- Whether the record brings in the message.
brings_cases :
    (r : LogRecord) (id : ℕ)
    → (BringsNot r id) ⊎ ((queue : List ℕ) × (bytes : List ℕ) × (r ≡ push_record id queue bytes))
brings_cases (push_record n queue bytes) id = elim (Bool-cases (n == id)) [
  | inl e ↦ inr (queue, bytes, ap (λ k. push_record k queue bytes) (==→eq n id e))
  | inr ne ↦ inl (λ e. grind arith)
]
brings_cases (lease_record n expiry_us lease_id) id = inl tt
brings_cases (ack_record n lease_id) id = inl tt
brings_cases (nack_record n lease_id) id = inl tt
brings_cases (expire_record n lease_id) id = inl tt

-- Every message was pushed by a record of the log, and has the record's data and queue.
pub Steps-Pushed :
    (offset : ℕ) (st : State) (rs : List LogRecord) (st' : State) (id : ℕ) (m : Msg)
    → Steps offset st rs st'
    → msg_get st id ≡ none
    → msg_get st' id ≡ some m
    → Pushed offset rs id m
unfolding Steps log_bytes
Steps-Pushed offset st [] st' id m e absent found =
    absurd (not-none-some (sym absent ∙ ap (λ s. msg_get s id) e ∙ found))
Steps-Pushed offset st (r ∷ rs) st' id m (mid, step, steps) absent found =
    elim (brings_cases r id) [
      | inr (queue, bytes, e) ↦ record {
        before = [];
        queue = queue;
        contents = bytes;
        behind = rs;
        split = ap (λ x. x ∷ rs) e;
        place =
            ap fixed (sym found)
            ∙ Steps-fixed (offset + length (encoded r)) mid rs st' id
                (u64 (offset + 9 + 9 + length queue), length bytes, queue) steps
                (Step-fixed_push offset st id queue bytes mid
                  (subst (λ x. Step offset st x mid) e step))
            ∙ ap (λ n. some (u64 (n + 9 + 9 + length queue), length bytes, queue)) {x = offset}
                {y = offset + 0} (omega arith);
      }
      | inl other ↦
          let p =
            Steps-Pushed (offset + length (encoded r)) mid rs st' id m steps
              (Step-none offset st r mid id step other absent) found in
          record {
            before = r ∷ p.before;
            queue = p.queue;
            contents = p.contents;
            behind = p.behind;
            split = ap (λ l. r ∷ l) p.split;
            place =
                p.place
                ∙ ap (λ n. some (u64 (n + 9 + 9 + length p.queue), length p.contents, p.queue))
                    {x = (offset + length (encoded r)) + length (log_bytes p.before)}
                    {y = offset + length (encoded r ++ log_bytes p.before)}
                    (omega (arith, length-append (encoded r) (log_bytes p.before)));
          }
    ]

log_bytes-append : (a b : List LogRecord) → log_bytes (a ++ b) ≡ log_bytes a ++ log_bytes b
unfolding log_bytes
log_bytes-append [] b = refl
log_bytes-append (r ∷ a) b =
    ap (λ l. encoded r ++ l) (log_bytes-append a b)
    ∙ sym (append_assoc (encoded r) (log_bytes a) (log_bytes b))

-- The place of a message's data holds the bytes that were pushed.
pub data-slice :
    (header : List ℕ) (offset : ℕ) (rs : List LogRecord) (id : ℕ) (m : Msg)
    (p : Pushed offset rs id m)
    → offset ≡ length header
    → offset + length (log_bytes rs) < 2 ^ 64
    → slice m.data_file_offset m.data_len (header ++ log_bytes rs) ≡ p.contents
unfolding log_bytes record_bytes push_payload
data-slice header offset rs id m p e fits =
    let payload = push_payload id p.queue p.contents in
    let hdr = record_header 1 payload in
    let head = put_u64le id ++ (length p.queue % 2 ^ 8 ∷ []) in
    let tail = (commit_marker ∷ []) ++ log_bytes p.behind in
    let front = (((header ++ log_bytes p.before) ++ hdr) ++ head) ++ p.queue in
    let content : log_bytes rs
        ≡ log_bytes p.before
          ++ (encoded (push_record id p.queue p.contents) ++ log_bytes p.behind) =
      ap log_bytes p.split
      ∙ log_bytes-append p.before (push_record id p.queue p.contents ∷ p.behind) in
    let regroup : header ++ log_bytes rs ≡ front ++ (p.contents ++ tail) =
      ap (λ l. header ++ l) content ∙ simp append_assoc in
    let long : length front ≡ offset + length (log_bytes p.before) + 9 + 9 + length p.queue =
      omega (
        arith,
        e,
        length-append (((header ++ log_bytes p.before) ++ hdr) ++ head) p.queue,
        length-append ((header ++ log_bytes p.before) ++ hdr) head,
        length-append (header ++ log_bytes p.before) hdr,
        length-append header (log_bytes p.before),
        length-record_header 1 payload,
        length-append (put_u64le id) (length p.queue % 2 ^ 8 ∷ []),
        length-put_u64le id,
      ) in
    let inside : length front < 2 ^ 64 = omega (
      arith,
      e,
      fits,
      ap length regroup,
      length-append header (log_bytes rs),
      length-append front (p.contents ++ tail),
    ) in
    let f = some_inj p.place in
    let place : m.data_file_offset ≡ length front =
      ap (λ (t : ℕ × ℕ × List ℕ). t.0) f ∙ omega (arith, long, inside) in
    ap (slice m.data_file_offset m.data_len) regroup
    ∙ slice-append front p.contents tail m.data_file_offset m.data_len place
        (ap (λ (t : ℕ × ℕ × List ℕ). t.1) f)
