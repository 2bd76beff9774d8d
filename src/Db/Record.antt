-- ===== src/Db/Record.antt =====
-- `EncodeRecord` and `DecodeRecord` of src/db.cc.
use mini_lsm.Prelude.{
  ℕ, ◌%◌, ◌≤◌, ◌<◌, ◌≡◌, refl, sym, ◌∙◌, subst, inl, inr, false, Option, none, some, List, [], ◌∷◌,
  ◌++◌, append_assoc, arith, Bool-cases, eq_of_beq, ltb, ◌==◌, if◌then◌else◌, length, take, drop,
  u32, length-append, take-append_length, drop-append_length,
}
use mini_lsm.Coding.{
  encode_fixed32, decode_fixed32, encode_fixed32_shape, decode_fixed32-encode_fixed32,
}

-- The `uint8_t` behind the enumeration: a record may hold any byte there.
abbrev pub ValueType : Type 0
ValueType = ℕ

abbrev pub type_delete : ValueType
type_delete = 0

abbrev pub type_put : ValueType
type_put = 1

-- A field behind its length in four bytes.
unfoldable pub put_field : List ℕ → List ℕ
put_field field = encode_fixed32 (length field % u32) ++ field

unfoldable pub encode_record : ValueType → List ℕ → List ℕ → List ℕ
encode_record type key value =
    type ∷ put_field key ++ (if type == type_put then put_field value else [])

pub record Decoded : Type 0 where
  pub type : ValueType
  pub key : List ℕ
  pub value : List ℕ

-- A field and the bytes behind it, or `none` where the bytes are too short.
unfoldable pub take_field : List ℕ → Option (List ℕ × List ℕ)
take_field bytes =
    if ltb (length bytes) 4
    then none
    else let size = decode_fixed32 bytes in
      let body = drop 4 bytes in
      if ltb (length body) size then none else some (take size body, drop size body)

unfoldable pub decode_value : ValueType → List ℕ → List ℕ → Option Decoded
decode_value type key left =
    if type == type_put
    then elim (take_field left) [
      | none ↦ none
      | some (value, rest) ↦ some (record { type = type; key = key; value = value })
    ]
    else some (record { type = type; key = key; value = [] })

-- The first test of the code, for five bytes, is the type and the length of the key.
unfoldable pub decode_record : List ℕ → Option Decoded
decode_record [] = none
decode_record (type ∷ bytes) = elim (take_field bytes) [
  | none ↦ none
  | some (key, left) ↦ decode_value type key left
]

take_field_long :
    (n : ℕ) (body : List ℕ)
    → n < u32
    → n ≤ length body
    → take_field (encode_fixed32 n ++ body) ≡ some (take n body, drop n body)
unfolding take_field
take_field_long n body h le =
    let four = (encode_fixed32_shape n).0 in
    let size : decode_fixed32 (encode_fixed32 n ++ body) ≡ n =
      decode_fixed32-encode_fixed32 n body h in
    let behind : drop 4 (encode_fixed32 n ++ body) ≡ body =
      drop-append_length (encode_fixed32 n) body 4 (sym four) in
    let enough : ltb (length (encode_fixed32 n ++ body)) 4 ≡ false =
      ground (arith, length-append (encode_fixed32 n) body, four) in
    let fits_body : ltb (length body) n ≡ false = ground arith in
    simp (enough, behind, size, fits_body)

pub take_field-put_field :
    (field rest : List ℕ)
    → length field < u32
    → take_field (put_field field ++ rest) ≡ some (field, rest)
unfolding put_field
take_field-put_field field rest h =
    let n : length field % u32 ≡ length field = omega arith in
    rw (n, append_assoc (encode_fixed32 (length field)) field rest)
      (take_field_long (length field) (field ++ rest) h (omega (arith, length-append field rest))
        ∙ rw
            (
              take-append_length field rest (length field) refl,
              drop-append_length field rest (length field) refl,
            )
            refl)

decode_value_put :
    (key value rest : List ℕ)
    → length value < u32
    → decode_value type_put key (put_field value ++ rest)
      ≡ some (record { type = type_put; key = key; value = value })
unfolding decode_value
decode_value_put key value rest h = rw (take_field-put_field value rest h) refl

-- What is encoded is decoded, whatever bytes follow, if the lengths fit 32 bits; a record that is no
-- put has no value.
pub decode_record-encode_record :
    (type : ValueType) (key value rest : List ℕ)
    → length key < u32
    → length value < u32
    → decode_record (encode_record type key value ++ rest)
      ≡ some (record { type = type; key = key; value = if type == type_put then value else [] })
unfolding decode_record encode_record
decode_record-encode_record type key value rest hk hv =
    let tail = if type == type_put then put_field value else [] in
    rw
      (
        append_assoc (put_field key) tail rest,
        take_field-put_field key (tail ++ rest) hk,
        decode_record,
      )
      (elim (Bool-cases (type == type_put)) [
        | inl put ↦
            let e : type ≡ type_put = eq_of_beq type type_put put in
            subst
              (λ t.
                decode_value t key ((if t == type_put then put_field value else []) ++ rest)
                ≡ some
                    (record { type = t; key = key; value = if t == type_put then value else [] }))
              (sym e) (decode_value_put key value rest hv)
        | inr other ↦ unfold decode_value in (rw other refl)
      ])
