-- ===== src/Wal/File.antt =====
-- include/mlsm/writable_file.h and include/mlsm/sequential_file.h: the files that the log writes and
-- reads, as interfaces with the laws that their comments promise.
use mini_lsm.Prelude.{ℕ, ◌≡◌, true, List, ◌++◌, take, drop}
use mini_lsm.Status.{Status, is_ok}

-- A `WritableFile`: what `Append` adds with success comes last in the contents.
pub record WritableFile (F : Type 0) : Type 0 where
  pub append : List ℕ → F → Status × F
  pub flush : F → Status × F
  pub sync : F → Status × F
  pub contents : F → List ℕ
  pub appended :
      (bytes : List ℕ) (f : F)
      → is_ok (append bytes f).0 ≡ true
      → contents (append bytes f).1 ≡ contents f ++ bytes
  pub flushed : (f : F) → contents (flush f).1 ≡ contents f
  pub synced : (f : F) → contents (sync f).1 ≡ contents f

-- A `SequentialFile`: `left` is what has not been read, and a `Read` that returns success takes the
-- bytes asked for from its front, or all of it where there are fewer.
pub record SequentialFile (R : Type 0) : Type 0 where
  pub read : ℕ → R → Status × List ℕ × R
  pub left : R → List ℕ
  pub taken :
      (n : ℕ) (r : R)
      → is_ok (read n r).0 ≡ true
      → ((read n r).1 ≡ take n (left r)) × (left (read n r).2 ≡ drop n (left r))

-- A file of which no read fails.
abbrev pub IsReliable : {R : Type 0} → SequentialFile R → Type 0
IsReliable {R} file = (n : ℕ) (r : R) → is_ok (file.read n r).0 ≡ true
