-- ===== src/Crc.antt =====
-- CRC-32 of src/qdb_crc32.c: the table and the loop over the bytes. The table is computed once, at
-- the first `crc32_begin`, and never changes; here an entry is computed where it is read.
pub mod Laws
use qdb.Base.{ℕ, zero, suc, ◌/◌, List, [], ◌∷◌, bit_and, bit_xor, if◌then◌else◌, ◌==◌}
use qdb.Word.{◌>>◌}

abbrev pub polynomial : ℕ
polynomial = 0xedb88320

-- One round of the inner loop of `table_init`.
unfoldable pub table_step : ℕ → ℕ
table_step v = if bit_and v 1 == 0 then v >> 1 else bit_xor (v >> 1) polynomial

unfoldable pub table_rounds : ℕ → ℕ → ℕ
unfolding table_step
table_rounds zero v = v
table_rounds (suc b) v = table_rounds b (table_step v)

-- `s_table[i]`
unfoldable pub table_entry : ℕ → ℕ
unfolding table_rounds
table_entry i = table_rounds 8 i

abbrev pub crc32_begin : ℕ
crc32_begin = 0xffffffff

-- The body of the loop of `crc32_update`.
unfoldable pub update_byte : ℕ → ℕ → ℕ
unfolding table_entry
update_byte state b = bit_xor (state >> 8) (table_entry (bit_and (bit_xor state b) 0xff))

unfoldable pub crc32_update : ℕ → List ℕ → ℕ
unfolding update_byte
crc32_update state [] = state
crc32_update state (b ∷ bs) = crc32_update (update_byte state b) bs

unfoldable pub crc32_end : ℕ → ℕ
crc32_end state = bit_xor state 0xffffffff

unfoldable pub crc32 : List ℕ → ℕ
unfolding crc32_update crc32_end
crc32 bs = crc32_end (crc32_update crc32_begin bs)
