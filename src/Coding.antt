-- ===== src/Coding.antt =====
-- include/mlsm/coding.h: 32-bit numbers as four bytes, lowest first.
pub mod Tests
use Prim.Native.Nat.{bit_and, bit_or}
use mini_lsm.Prelude.{
  ℕ, suc, ◌+◌, ◌*◌, ◌/◌, ◌%◌, ◌^◌, ◌<◌, ◌≡◌, refl, ◌∙◌, List, [], ◌∷◌, ◌++◌, arith, u32, get_or,
  length, All,
}
use mini_lsm.Prelude.Bits.{bit_or-add, bit_and-byte}

abbrev pub IsByte : ℕ → Type 0
IsByte b = b < 256

-- `p[i]`; 0 stands for a byte out of range, which C++ leaves undefined.
abbrev pub byte_at : List ℕ → ℕ → ℕ
byte_at bs i = get_or bs i 0

unfoldable pub encode_fixed32 : ℕ → List ℕ
encode_fixed32 value =
    bit_and value 0xff
    ∷ bit_and (value / 2 ^ 8) 0xff
    ∷ bit_and (value / 2 ^ 16) 0xff
    ∷ bit_and (value / 2 ^ 24) 0xff
    ∷ []

unfoldable pub decode_fixed32 : List ℕ → ℕ
decode_fixed32 p =
    bit_or (bit_or (bit_or (byte_at p 0) (byte_at p 1 * 2 ^ 8)) (byte_at p 2 * 2 ^ 16))
      (byte_at p 3 * 2 ^ 24)

-- Four bytes stand for a sum.
pub decode_fixed32_sum :
    (p : List ℕ)
    → byte_at p 0 < 256
    → byte_at p 1 < 256
    → byte_at p 2 < 256
    → decode_fixed32 p
      ≡ byte_at p 0 + byte_at p 1 * 2 ^ 8 + byte_at p 2 * 2 ^ 16 + byte_at p 3 * 2 ^ 24
unfolding decode_fixed32
decode_fixed32_sum p h0 h1 h2 =
    rw
      (
        bit_or-add 8 (byte_at p 0) (byte_at p 1) h0,
        bit_or-add 16 (byte_at p 0 + byte_at p 1 * 2 ^ 8) (byte_at p 2) (omega arith),
        bit_or-add 24 (byte_at p 0 + byte_at p 1 * 2 ^ 8 + byte_at p 2 * 2 ^ 16) (byte_at p 3)
            (omega arith),
      )
      refl

encode_bytes :
    (v : ℕ)
    → encode_fixed32 v ≡ v % 256 ∷ v / 2 ^ 8 % 256 ∷ v / 2 ^ 16 % 256 ∷ v / 2 ^ 24 % 256 ∷ []
unfolding encode_fixed32
encode_bytes v = simp bit_and-byte

-- What is encoded is four bytes.
pub encode_fixed32_shape : (v : ℕ) → (length (encode_fixed32 v) ≡ 4) × All IsByte (encode_fixed32 v)
encode_fixed32_shape v = rw (encode_bytes v) (refl, omega arith)

-- A 32-bit number is decoded from its bytes, whatever follows them.
pub decode_fixed32-encode_fixed32 :
    (v : ℕ) (rest : List ℕ) → v < u32 → decode_fixed32 (encode_fixed32 v ++ rest) ≡ v
decode_fixed32-encode_fixed32 v rest h = rw (encode_bytes v) (
    decode_fixed32_sum (v % 256 ∷ v / 2 ^ 8 % 256 ∷ v / 2 ^ 16 % 256 ∷ v / 2 ^ 24 % 256 ∷ rest)
      (omega arith) (omega arith) (omega arith)
    ∙ omega arith)

-- Four bytes are encoded back from the number that they stand for.
pub encode_fixed32-decode_fixed32 :
    (a b c d : ℕ)
    → IsByte a
    → IsByte b
    → IsByte c
    → IsByte d
    → encode_fixed32 (decode_fixed32 (a ∷ b ∷ c ∷ d ∷ [])) ≡ a ∷ b ∷ c ∷ d ∷ []
encode_fixed32-decode_fixed32 a b c d ha hb hc hd =
    rw (decode_fixed32_sum (a ∷ b ∷ c ∷ d ∷ []) ha hb hc, encode_bytes) (ground arith)
