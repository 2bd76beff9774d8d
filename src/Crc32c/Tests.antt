-- ===== src/Crc32c/Tests.antt =====
-- The checksum on small inputs.
use mini_lsm.Prelude.{◌≡◌, refl, [], ◌∷◌, ◌++◌}
use mini_lsm.Crc32c.{value, extend, fold_bytes, fold_byte, table, extend-append}

-- The check value of CRC-32C, of the text "123456789".
check_value : value (49 ∷ 50 ∷ 51 ∷ 52 ∷ 53 ∷ 54 ∷ 55 ∷ 56 ∷ 57 ∷ []) ≡ 0xe3069283
unfolding value extend fold_bytes fold_byte table
check_value = refl

extend-append_example :
    extend 0 ((49 ∷ 50 ∷ []) ++ (51 ∷ [])) ≡ extend (extend 0 (49 ∷ 50 ∷ [])) (51 ∷ [])
extend-append_example = extend-append 0 (49 ∷ 50 ∷ []) (51 ∷ [])
