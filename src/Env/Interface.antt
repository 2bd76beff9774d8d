-- ===== src/Env/Interface.antt =====
-- The functions of include/mlsm/env.h that open files, as the stores use them.
use mini_lsm.Prelude.{ℕ, ◌≡◌, Bool, true, false, Option, some, List, [], length}
use mini_lsm.Status.{Status, is_ok}
use mini_lsm.Wal.File.{WritableFile, SequentialFile}

-- `disk` is what the file of a path holds, nothing where there is none. To ask and to make a directory
-- changes no file, and a file that is opened with success shows what the path holds.
pub record Environment {F R : Type 0} (K : Type 0) (out : WritableFile F) (in_ : SequentialFile R)
    : Type 0 where
  pub make_dir : List ℕ → K → Status × K
  pub file_exists : List ℕ → K → Bool × K
  pub get_file_size : List ℕ → K → Status × ℕ × K
  pub new_appendable_file : List ℕ → K → Status × Option F × K
  pub new_sequential_file : List ℕ → K → Status × Option R × K
  pub disk : List ℕ → K → List ℕ
  pub made : (dir path : List ℕ) (k : K) → disk path (make_dir dir k).1 ≡ disk path k
  pub asked : (other path : List ℕ) (k : K) → disk path (file_exists other k).1 ≡ disk path k
  pub sized :
      (path : List ℕ) (k : K)
      → (disk path (get_file_size path k).2 ≡ disk path k)
        × (is_ok (get_file_size path k).0 ≡ true → (get_file_size path k).1 ≡ length (disk path k))
  pub appendable :
      (path : List ℕ) (k : K)
      → is_ok (new_appendable_file path k).0 ≡ true
      → (f : F) × ((new_appendable_file path k).1 ≡ some f) × (out.contents f ≡ disk path k)
  pub sequential :
      (path : List ℕ) (k : K)
      → (disk path (new_sequential_file path k).2 ≡ disk path k)
        × (is_ok (new_sequential_file path k).0 ≡ true
            → (r : R) × ((new_sequential_file path k).1 ≡ some r) × (in_.left r ≡ disk path k))

-- `FileExists` says no only where the path holds nothing. `access` also fails where a directory may not be
-- searched, so that this is no law of an environment.
abbrev pub IsTold :
    {F R K : Type 0} {out : WritableFile F} {in_ : SequentialFile R}
    → Environment K out in_
    → List ℕ
    → Type 0
IsTold env path = (k : _) → (env.file_exists path k).0 ≡ false → env.disk path k ≡ []
