-- ===== src/Crc32c.antt =====
-- include/mlsm/crc32c.h and src/crc32c.cc: the checksum of the write-ahead log.
pub mod Tests
use Prim.Native.Nat.{bit_and, bit_or, bit_xor}
use mini_lsm.Prelude.{
  ℕ, zero, suc, ◌+◌, ◌-◌, ◌*◌, ◌/◌, ◌%◌, ◌^◌, ◌<◌, ◌≡◌, refl, sym, ap, ◌∙◌, List, [], ◌∷◌, ◌++◌,
  arith, u32, ◌==◌, if◌then◌else◌, Bool-cases, inl, inr,
}
use mini_lsm.Prelude.Bits.{bit_or-add, bit_and-byte, bit_xor-lt, bit_xor-cancel}
use mini_lsm.Coding.{IsByte}

-- One of the eight rounds for an entry of the table.
unfoldable pub table_round : ℕ → ℕ
table_round c = if bit_and c 1 == 1 then bit_xor 0x82f63b78 (c / 2 ^ 1) else c / 2 ^ 1

unfoldable pub table_rounds : ℕ → ℕ → ℕ
table_rounds zero c = c
table_rounds (suc k) c = table_rounds k (table_round c)

-- `kTable[i]`.
unfoldable pub table : ℕ → ℕ
unfolding table_round table_rounds
table i = table_rounds 8 i

-- One round of the loop of `Extend`.
unfoldable pub fold_byte : ℕ → ℕ → ℕ
fold_byte c b = bit_xor (table (bit_and (bit_xor c b) 0xff)) (c / 2 ^ 8)

unfoldable pub fold_bytes : ℕ → List ℕ → ℕ
fold_bytes c [] = c
fold_bytes c (b ∷ bs) = fold_bytes (fold_byte c b) bs

unfoldable pub extend : ℕ → List ℕ → ℕ
extend crc bytes = bit_xor (fold_bytes (bit_xor crc 0xffffffff) bytes) 0xffffffff

unfoldable pub value : List ℕ → ℕ
value bytes = extend 0 bytes

abbrev pub mask_delta : ℕ
mask_delta = 0xa282ead8

unfoldable pub mask : ℕ → ℕ
mask crc = (bit_or (crc / 2 ^ 15) (crc * 2 ^ 17 % u32) + mask_delta) % u32

unfoldable pub unmask : ℕ → ℕ
unmask masked =
    let rot = (masked + u32 - mask_delta) % u32 in bit_or (rot / 2 ^ 17) (rot * 2 ^ 15 % u32)

fold_bytes-append :
    (c : ℕ) (xs ys : List ℕ) → fold_bytes c (xs ++ ys) ≡ fold_bytes (fold_bytes c xs) ys
unfolding fold_bytes
fold_bytes-append c [] ys = refl
fold_bytes-append c (x ∷ xs) ys = fold_bytes-append (fold_byte c x) xs ys

-- A checksum continues: the bytes of two parts have the checksum of the parts in turn.
pub extend-append : (crc : ℕ) (xs ys : List ℕ) → extend crc (xs ++ ys) ≡ extend (extend crc xs) ys
unfolding extend
extend-append crc xs ys = rw (bit_xor-cancel, fold_bytes-append) refl

table_round-lt : (c : ℕ) → c < 2 ^ 32 → table_round c < 2 ^ 32
unfolding table_round
table_round-lt c h = elim (Bool-cases (bit_and c 1 == 1)) [
  | inl odd ↦ rw odd (bit_xor-lt 32 0x82f63b78 (c / 2 ^ 1) (omega arith) (omega arith))
  | inr even ↦ rw even (omega arith)
]

table_rounds-lt : (k c : ℕ) → c < 2 ^ 32 → table_rounds k c < 2 ^ 32
unfolding table_rounds
table_rounds-lt zero c h = h
table_rounds-lt (suc k) c h = table_rounds-lt k (table_round c) (table_round-lt c h)

fold_byte-lt : (c b : ℕ) → c < 2 ^ 32 → fold_byte c b < 2 ^ 32
unfolding fold_byte table
fold_byte-lt c b h =
    let i = bit_and (bit_xor c b) 0xff in
    let in_table : i < 2 ^ 32 = omega (arith, bit_and-byte (bit_xor c b)) in
    bit_xor-lt 32 (table_rounds 8 i) (c / 2 ^ 8) (table_rounds-lt 8 i in_table) (omega arith)

fold_bytes-lt : (c : ℕ) (bytes : List ℕ) → c < 2 ^ 32 → fold_bytes c bytes < 2 ^ 32
unfolding fold_bytes
fold_bytes-lt c [] h = h
fold_bytes-lt c (b ∷ bs) h = fold_bytes-lt (fold_byte c b) bs (fold_byte-lt c b h)

-- A checksum that starts as a 32-bit number stays one.
pub extend-lt : (crc : ℕ) (bytes : List ℕ) → crc < u32 → extend crc bytes < u32
unfolding extend
extend-lt crc bytes h =
    bit_xor-lt 32 _ 0xffffffff
      (fold_bytes-lt (bit_xor crc 0xffffffff) bytes (bit_xor-lt 32 crc 0xffffffff h (omega arith)))
      (omega arith)

mask_sum : (c : ℕ) → c < u32 → mask c ≡ (c / 2 ^ 15 + c % 2 ^ 15 * 2 ^ 17 + mask_delta) % u32
unfolding mask
mask_sum c h =
    let high : c * 2 ^ 17 % u32 ≡ c % 2 ^ 15 * 2 ^ 17 = omega arith in
    rw (high, bit_or-add 17 (c / 2 ^ 15) (c % 2 ^ 15) (omega arith)) refl

unmask_sum :
    (m : ℕ)
    → m < u32
    → unmask m ≡ (let rot = (m + u32 - mask_delta) % u32 in rot / 2 ^ 17 + rot % 2 ^ 17 * 2 ^ 15)
unfolding unmask
unmask_sum m h =
    let rot = (m + u32 - mask_delta) % u32 in
    let high : rot * 2 ^ 15 % u32 ≡ rot % 2 ^ 17 * 2 ^ 15 = omega arith in
    rw (high, bit_or-add 15 (rot / 2 ^ 17) (rot % 2 ^ 17) (omega arith)) refl

-- Masking a 32-bit number gives one, and unmasking undoes it.
pub unmask-mask : (c : ℕ) → c < u32 → (mask c < u32) × (unmask (mask c) ≡ c)
unmask-mask c h = (
  omega (arith, mask_sum c h),
  omega (arith, mask_sum c h, unmask_sum (mask c) (omega (arith, mask_sum c h))),
)

-- Unmasking a 32-bit number gives one, and masking undoes it.
pub mask-unmask : (m : ℕ) → m < u32 → (unmask m < u32) × (mask (unmask m) ≡ m)
mask-unmask m h = (
  omega (arith, unmask_sum m h),
  omega (arith, unmask_sum m h, mask_sum (unmask m) (omega (arith, unmask_sum m h))),
)
