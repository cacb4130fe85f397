-- ===== src/Io/Patch.antt =====
-- The short update of a header against the encoding of the whole.
use qdb.Base.{
  ℕ, ◌+◌, ◌-◌, ◌≡◌, refl, ap, sym, ◌∙◌, List, ◌++◌, length, take, drop, replicate,
  drop-append-length, length-append, append_assoc, take-append_le, Ensures, Ensures-run,
  Ensures-bind, arith,
}
use qdb.Word.{put_u32le, put_u64le}
use qdb.Crc.{crc32}
use qdb.Platform.{Platform, PlatformLaws, splice}
use qdb.Platform.Files.{pwrite-splice}
use qdb.Db.{Db, Ensures-as_code}
use qdb.Io.{header_prefix, header_encode, header_update, write_full}

regroup : (a b c d : List ℕ) → (a ++ (b ++ c)) ++ d ≡ (a ++ b) ++ (c ++ d)
regroup a b c d = simp append_assoc

-- The header's first 56 bytes.
abbrev head : Db → List ℕ
head db = header_prefix db ++ put_u32le (crc32 (header_prefix db))

length-head : (db : Db) → length (head db) ≡ 56
unfolding header_prefix put_u64le put_u32le
length-head db = refl

-- The first 24 bytes hold no field that changes after the creation.
take-head :
    (old db : Db) → old.create_time_us ≡ db.create_time_us → take 24 (head old) ≡ take 24 (head db)
unfolding header_prefix put_u64le put_u32le
take-head old db e = ap (λ t. take 24 (head (record db { create_time_us = t }))) e

patch_split :
    (db : Db)
    → take 24 (head db) ++ (drop 24 (header_prefix db) ++ put_u32le (crc32 (header_prefix db)))
      ≡ head db
unfolding header_prefix put_u64le put_u32le
patch_split db = refl

length-patch :
    (db : Db) → length (drop 24 (header_prefix db) ++ put_u32le (crc32 (header_prefix db))) ≡ 32
unfolding header_prefix put_u64le put_u32le
length-patch db = refl

-- Writing the patch at offset 24 over a header of the same creation time gives the new header.
splice-head :
    (old db : Db) (rest : List ℕ)
    → old.create_time_us ≡ db.create_time_us
    → splice 24
        (drop 24 (header_prefix db) ++ put_u32le (crc32 (header_prefix db)))
        (head old ++ rest)
      ≡ head db ++ rest
unfolding splice
splice-head old db rest e =
    let patch = drop 24 (header_prefix db) ++ put_u32le (crc32 (header_prefix db)) in
    let front : take 24 (head old ++ rest) ≡ take 24 (head db) =
      take-append_le 24 (head old) rest (omega (arith, length-head old)) ∙ take-head old db e in
    let gap : 24 - length (head old ++ rest) ≡ 0 =
      omega (arith, length-append (head old) rest, length-head old) in
    let back : drop (24 + length patch) (head old ++ rest) ≡ rest =
      drop-append-length (head old) rest (24 + length patch)
        (omega (arith, length-head old, length-patch db)) in
    rw (front, gap, back)
      (sym (append_assoc (take 24 (head db)) patch rest) ∙ ap (λ l. l ++ rest) (patch_split db))

module _ {W : Type 0} ⦃os : Platform W⦄ (laws : PlatformLaws os) where
  -- An update that succeeds, of a file that starts with an encoded header of the same creation time,
  -- leaves the file with the encoded header of `db` in its place, and the log behind it untouched.
  pub header_update-encode :
      (fd : ℕ) (old db : Db) (log : List ℕ) (w : W)
      → os.bytes w fd ≡ header_encode old ++ log
      → old.create_time_us ≡ db.create_time_us
      → Ensures (λ _ w'. os.bytes w' fd ≡ header_encode db ++ log) (header_update fd db w)
  unfolding header_update write_full header_encode
  header_update-encode fd old db log w content e =
      let zeros : List ℕ = replicate (4096 - 56) 0 in
      let patch = drop 24 (header_prefix db) ++ put_u32le (crc32 (header_prefix db)) in
      Ensures-bind
        (Ensures-as_code _
          (Ensures-run (os.pwrite fd patch 24 w) λ _ w1 p. pwrite-splice laws fd patch 24 w p))
        λ _ w1 c1. Ensures-run _ λ _ w2 p.
          ap (λ f. f fd) (laws.file_sync_ok fd w1 p)
          ∙ c1
          ∙ ap (splice 24 patch) (content ∙ regroup (header_prefix old) _ zeros log)
          ∙ splice-head old db (zeros ++ log) e
          ∙ sym (regroup (header_prefix db) _ zeros log)
