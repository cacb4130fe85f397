-- ===== src/Crc/Laws.antt =====
-- Facts about the checksum: it may be computed piece by piece, and it fits 32 bits.
use qdb.Base.{ℕ, zero, suc, ◌/◌, ◌^◌, ◌<◌, ◌≡◌, refl, List, [], ◌∷◌, ◌++◌, arith, bit_and, bit_xor}
use qdb.Word.Bits.{bit_xor-lt, bit_and_mask}
use qdb.Crc.{
  table_step, table_rounds, table_entry, crc32_begin, update_byte, crc32_update, crc32_end, crc32,
}

-- The checksum of two pieces one after the other is that of the whole.
pub crc32_update-append :
    (state : ℕ) (xs ys : List ℕ)
    → crc32_update (crc32_update state xs) ys ≡ crc32_update state (xs ++ ys)
unfolding crc32_update
crc32_update-append state [] ys = refl
crc32_update-append state (x ∷ xs) ys = crc32_update-append (update_byte state x) xs ys

table_step-lt : (v : ℕ) → v < 2 ^ 32 → table_step v < 2 ^ 32
unfolding table_step
table_step-lt v h = ground (arith, bit_xor-lt 32 (v / 2) 0xedb88320)

table_rounds-lt : (b v : ℕ) → v < 2 ^ 32 → table_rounds b v < 2 ^ 32
unfolding table_rounds
table_rounds-lt zero v h = h
table_rounds-lt (suc b) v h = table_rounds-lt b (table_step v) (table_step-lt v h)

update_byte-lt : (state b : ℕ) → state < 2 ^ 32 → update_byte state b < 2 ^ 32
unfolding update_byte
update_byte-lt state b h =
    bit_xor-lt 32 (state / 2 ^ 8) (table_entry (bit_and (bit_xor state b) 0xff)) (omega arith) (
      unfold table_entry in
      table_rounds-lt 8 (bit_and (bit_xor state b) 0xff)
        (rw (bit_and_mask 8 (bit_xor state b)) (omega arith)))

crc32_update-lt : (state : ℕ) (bs : List ℕ) → state < 2 ^ 32 → crc32_update state bs < 2 ^ 32
unfolding crc32_update
crc32_update-lt state [] h = h
crc32_update-lt state (b ∷ bs) h =
    crc32_update-lt (update_byte state b) bs (update_byte-lt state b h)

-- The checksum of any bytes fits the 32-bit field of a record.
pub crc32-lt : (bs : List ℕ) → crc32 bs < 2 ^ 32
unfolding crc32 crc32_end
crc32-lt bs =
    bit_xor-lt 32 (crc32_update crc32_begin bs) 0xffffffff
      (crc32_update-lt crc32_begin bs (omega arith)) (omega arith)
