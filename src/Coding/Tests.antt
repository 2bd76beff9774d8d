-- ===== src/Coding/Tests.antt =====
-- The four bytes of small numbers.
use mini_lsm.Prelude.{◌≡◌, refl, [], ◌∷◌, ◌++◌, arith}
use mini_lsm.Coding.{encode_fixed32, decode_fixed32, decode_fixed32-encode_fixed32}

lowest_first : encode_fixed32 0x01020304 ≡ 4 ∷ 3 ∷ 2 ∷ 1 ∷ []
unfolding encode_fixed32
lowest_first = refl

decode_fixed32-encode_fixed32_example :
    decode_fixed32 (encode_fixed32 0x01020304 ++ (9 ∷ [])) ≡ 0x01020304
decode_fixed32-encode_fixed32_example =
    decode_fixed32-encode_fixed32 0x01020304 (9 ∷ []) (omega arith)
