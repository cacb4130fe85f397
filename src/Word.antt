-- ===== src/Word.antt =====
-- Words of 8, 16, 32 and 64 bits, and their little-endian form: the inline functions of
-- src/qdb_internal.h.
pub mod Bits
pub mod RoundTrip
use qdb.Base.{ℕ, ◌*◌, ◌/◌, ◌%◌, ◌^◌, List, [], ◌∷◌, ◌++◌, drop, bit_and, bit_or, get_or}

abbrev pub u8 : ℕ → ℕ
u8 n = n % 2 ^ 8

abbrev pub u16 : ℕ → ℕ
u16 n = n % 2 ^ 16

abbrev pub u32 : ℕ → ℕ
u32 n = n % 2 ^ 32

abbrev pub u64 : ℕ → ℕ
u64 n = n % 2 ^ 64

infixl 75 ◌<<◌ ◌>>◌
abbrev pub ◌<<◌ : ℕ → ℕ → ℕ
n << k = n * 2 ^ k

abbrev pub ◌>>◌ : ℕ → ℕ → ℕ
n >> k = n / 2 ^ k

-- The byte `p[i]`; the buffers that are read are long enough.
abbrev pub at : List ℕ → ℕ → ℕ
at p i = get_or p i 0

unfoldable pub get_u16le : List ℕ → ℕ
get_u16le p = bit_or (at p 0) (u16 (at p 1 << 8))

unfoldable pub get_u32le : List ℕ → ℕ
get_u32le p =
    bit_or (bit_or (bit_or (at p 0) (u32 (at p 1 << 8))) (u32 (at p 2 << 16))) (u32 (at p 3 << 24))

unfoldable pub get_u64le : List ℕ → ℕ
get_u64le p = bit_or (get_u32le p) (u64 (get_u32le (drop 4 p) << 32))

unfoldable pub put_u16le : ℕ → List ℕ
put_u16le v = u8 (bit_and v 0xff) ∷ u8 (bit_and (v >> 8) 0xff) ∷ []

unfoldable pub put_u32le : ℕ → List ℕ
put_u32le v =
    u8 (bit_and v 0xff)
    ∷ u8 (bit_and (v >> 8) 0xff)
    ∷ u8 (bit_and (v >> 16) 0xff)
    ∷ u8 (bit_and (v >> 24) 0xff)
    ∷ []

unfoldable pub put_u64le : ℕ → List ℕ
put_u64le v = put_u32le (u32 (bit_and v 0xffffffff)) ++ put_u32le (u32 (v >> 32))
