-- ===== src/Word/RoundTrip.antt =====
-- What `put_*` wrote, `get_*` reads back; the encoded integers are bytes.
use qdb.Base.{
  ℕ, ◌+◌, ◌*◌, ◌/◌, ◌%◌, ◌^◌, ◌<◌, ◌≡◌, List, [], ◌∷◌, ◌++◌, bit_and, arith, length, refl, drop,
  append_assoc,
}
use qdb.Word.{u32, u64, get_u32le, get_u64le, put_u32le, put_u64le, ◌<<◌}
use native.Mathlib.Nat.{mod-mod}
use qdb.Word.Bits.{bit_and_mask, bit_or_fields}

-- A byte of the buffer: below 256.
abbrev pub IsByte : ℕ → Type 0
IsByte b = b < 256

mask_8 : (x : ℕ) → bit_and x 0xff ≡ x % 256
mask_8 = bit_and_mask 8

-- Every integer put in a buffer is made of bytes.
put_u32le-digits :
    (v : ℕ)
    → put_u32le v ≡ v % 256 ∷ (v / 2 ^ 8) % 256 ∷ (v / 2 ^ 16) % 256 ∷ (v / 2 ^ 24) % 256 ∷ []
unfolding put_u32le
put_u32le-digits v =
    rw (mask_8 v, mask_8 (v / 2 ^ 8), mask_8 (v / 2 ^ 16), mask_8 (v / 2 ^ 24)) (simp mod-mod)

-- Four bytes are joined as the digits of a number to the base 256.
get_u32le-sum :
    (a b c d : ℕ) (rest : List ℕ)
    → IsByte a
    → IsByte b
    → IsByte c
    → IsByte d
    → get_u32le (a ∷ b ∷ c ∷ d ∷ rest) ≡ a + b * 2 ^ 8 + c * 2 ^ 16 + d * 2 ^ 24
unfolding get_u32le
get_u32le-sum a b c d rest ha hb hc hd =
    let b' : u32 (b << 8) ≡ b << 8 = omega arith in
    let c' : u32 (c << 16) ≡ c << 16 = omega arith in
    let d' : u32 (d << 24) ≡ d << 24 = omega arith in
    let ab = bit_or_fields 8 a b ha in
    let abc = bit_or_fields 16 (a + b << 8) c (omega arith) in
    let abcd = bit_or_fields 24 (a + b << 8 + c << 16) d (omega arith) in
    rw (b', c', d', ab, abc, abcd)

-- A 32-bit integer survives the round trip, whatever follows it in the buffer.
pub get_u32le-put : (v : ℕ) (rest : List ℕ) → v < 2 ^ 32 → get_u32le (put_u32le v ++ rest) ≡ v
get_u32le-put v rest h =
    rw
      (
        put_u32le-digits v,
        get_u32le-sum (v % 256) ((v / 2 ^ 8) % 256) ((v / 2 ^ 16) % 256) ((v / 2 ^ 24) % 256) rest
            (omega arith) (omega arith) (omega arith) (omega arith),
      )
      (omega arith)

pub length-put_u32le : (v : ℕ) → length (put_u32le v) ≡ 4
unfolding put_u32le
length-put_u32le v = refl

pub length-put_u64le : (v : ℕ) → length (put_u64le v) ≡ 8
unfolding put_u64le put_u32le
length-put_u64le v = refl

pub drop-put_u32le : (v : ℕ) (rest : List ℕ) → drop 4 (put_u32le v ++ rest) ≡ rest
unfolding put_u32le
drop-put_u32le v rest = refl

-- A 64-bit integer survives the round trip, whatever follows it in the buffer.
pub get_u64le-put : (v : ℕ) (rest : List ℕ) → v < 2 ^ 64 → get_u64le (put_u64le v ++ rest) ≡ v
unfolding get_u64le put_u64le
get_u64le-put v rest h =
    let low : bit_and v 0xffffffff % 2 ^ 32 ≡ v % 2 ^ 32 = rw (bit_and_mask 32 v) (omega arith) in
    let high : v / 2 ^ 32 % 2 ^ 32 ≡ v / 2 ^ 32 = omega arith in
    let top = put_u32le (v / 2 ^ 32) in
    let shifted : u64 ((v / 2 ^ 32) << 32) ≡ (v / 2 ^ 32) << 32 = omega arith in
    rw
      (
        low,
        high,
        append_assoc (put_u32le (v % 2 ^ 32)) top rest,
        get_u32le-put (v % 2 ^ 32) (top ++ rest) (omega arith),
        drop-put_u32le (v % 2 ^ 32) (top ++ rest),
        get_u32le-put (v / 2 ^ 32) rest (omega arith),
        shifted,
        bit_or_fields 32 (v % 2 ^ 32) (v / 2 ^ 32) (omega arith),
      )
      (omega arith)
