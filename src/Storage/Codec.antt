-- ===== src/Storage/Codec.antt =====
-- The bytes of the records of src/raft/storage.cc, and the `Decoder` that reads them.
use Prim.Native.Nat.{bit_and, bit_or}
use mini_lsm.Prelude.{
  ℕ, ◌*◌, ◌/◌, ◌%◌, ◌^◌, ◌<◌, ◌≡◌, refl, sym, ap, ◌∙◌, Bool, false, List, [], ◌∷◌, ◌++◌,
  append_assoc, arith, ltb, if◌then◌else◌, length, length-append, take, drop, take-append_length,
  drop-append_length, u32, u64,
}
use mini_lsm.Prelude.Bits.{bit_or-add, bit_and-32}
use mini_lsm.Coding.{
  encode_fixed32, decode_fixed32, encode_fixed32_shape, decode_fixed32-encode_fixed32,
}
use mini_lsm.Raft.Messages.{NodeId, Term, LogEntry}

abbrev pub tag_hard_state : ℕ
tag_hard_state = 1

abbrev pub tag_entry : ℕ
tag_entry = 2

abbrev pub tag_truncate : ℕ
tag_truncate = 3

unfoldable pub put_u32 : ℕ → List ℕ
put_u32 v = encode_fixed32 v

unfoldable pub put_u64 : ℕ → List ℕ
put_u64 v = put_u32 (bit_and v 0xffffffff) ++ put_u32 (v / 2 ^ 32)

-- `left` holds the bytes from `p` on, `remaining` in number.
pub record Decoder : Type 0 where
  pub left : List ℕ
  pub ok : Bool

unfoldable pub get_u32 : Decoder → ℕ × Decoder
get_u32 d =
    if ltb (length d.left) 4
    then (0, record d { ok = false })
    else (decode_fixed32 d.left, record d { left = drop 4 d.left })

unfoldable pub get_u64 : Decoder → ℕ × Decoder
get_u64 d = let (lo, d') = get_u32 d in let (hi, d'') = get_u32 d' in (bit_or lo (hi * 2 ^ 32), d'')

unfoldable pub get_bytes : ℕ → Decoder → List ℕ × Decoder
get_bytes n d =
    if ltb (length d.left) n
    then ([], record d { ok = false })
    else (take n d.left, record d { left = drop n d.left })

-- The records that `Save` writes.
unfoldable pub hard_record : Term → NodeId → List ℕ
hard_record term vote = tag_hard_state ∷ put_u64 term ++ put_u64 vote

unfoldable pub truncate_record : ℕ → List ℕ
truncate_record from = tag_truncate ∷ put_u64 from

unfoldable pub entry_record : LogEntry → List ℕ
entry_record e =
    tag_entry ∷ put_u64 e.term ++ put_u64 e.index ++ put_u32 (length e.payload % u32) ++ e.payload

pub get_u32-put_u32 :
    (v : ℕ) (rest : List ℕ) (b : Bool)
    → v < u32
    → get_u32 (record { left = put_u32 v ++ rest; ok = b }) ≡ (v, record { left = rest; ok = b })
unfolding get_u32 put_u32
get_u32-put_u32 v rest b h =
    let four = (encode_fixed32_shape v).0 in
    let behind : drop 4 (encode_fixed32 v ++ rest) ≡ rest =
      drop-append_length (encode_fixed32 v) rest 4 (sym four) in
    let enough : ltb (length (encode_fixed32 v ++ rest)) 4 ≡ false =
      ground (arith, length-append (encode_fixed32 v) rest, four) in
    simp (enough, behind, decode_fixed32-encode_fixed32 v rest h)

-- A 64-bit number is read back from its two halves.
pub get_u64-put_u64 :
    (v : ℕ) (rest : List ℕ) (b : Bool)
    → v < u64
    → get_u64 (record { left = put_u64 v ++ rest; ok = b }) ≡ (v, record { left = rest; ok = b })
unfolding get_u64 put_u64
get_u64-put_u64 v rest b h =
    let lo = bit_and v 0xffffffff in
    let hi = v / 2 ^ 32 in
    let low : lo ≡ v % 2 ^ 32 = bit_and-32 v in
    let whole : bit_or lo (hi * 2 ^ 32) ≡ v =
      ap (λ x. bit_or x (hi * 2 ^ 32)) low
      ∙ bit_or-add 32 (v % 2 ^ 32) hi (omega arith)
      ∙ omega arith in
    rw (append_assoc (put_u32 lo) (put_u32 hi) rest) (
      simp (
        get_u32-put_u32 lo (put_u32 hi ++ rest) b (omega (arith, low)),
        get_u32-put_u32 hi rest b (omega arith),
        whole,
      ))

pub get_bytes-append :
    (xs rest : List ℕ) (b : Bool)
    → get_bytes (length xs) (record { left = xs ++ rest; ok = b })
      ≡ (xs, record { left = rest; ok = b })
unfolding get_bytes
get_bytes-append xs rest b =
    let enough : ltb (length (xs ++ rest)) (length xs) ≡ false =
      ground (arith, length-append xs rest) in
    simp (
      enough,
      take-append_length xs rest (length xs) refl,
      drop-append_length xs rest (length xs) refl,
    )
