-- ===== src/Status.antt =====
-- include/mlsm/status.h: the result of an operation that can fail.
use Prim.Native.Char.{code}
use Prim.Native.String.{String}
use mini_lsm.Prelude.{ℕ, Bool, true, false, List, [], ◌∷◌}

pub data Code : Type 0 where
  ok not_found corruption io_error invalid_argument : Code

-- `message` is the text as bytes.
pub record Status : Type 0 where
  pub code : Code
  pub message : List ℕ

abbrev pub success : Status
success = record { code = ok; message = [] }

abbrev pub is_ok_code : Code → Bool
is_ok_code ok = true
is_ok_code _ = false

-- The method `ok()`.
abbrev pub is_ok : Status → Bool
is_ok s = is_ok_code s.code

-- The bytes of an ASCII text.
abbrev pub codes : String → List ℕ
codes String.[] = []
codes (String.◌∷◌ c s) = code c ∷ codes s

-- `Corruption(msg)`, `IOError(msg)` and `InvalidArgument(msg)`.
abbrev pub corrupted : String → Status
corrupted msg = record { code = corruption; message = codes msg }

abbrev pub io_failed : List ℕ → Status
io_failed msg = record { code = io_error; message = msg }

abbrev pub invalid : List ℕ → Status
invalid msg = record { code = invalid_argument; message = msg }
