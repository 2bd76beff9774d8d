-- ===== src/Wal.antt =====
-- The write-ahead log of src/wal_writer.cc and src/wal_reader.cc as its clients see it.
pub mod File
pub mod Writer
pub mod Reader
pub mod Physical
pub mod View
pub mod Frame
pub mod RoundTrip
pub mod Records
pub mod Torn
pub mod Total
pub mod Log
pub mod Open
pub mod Opened
pub mod Implements
pub mod Aligned
pub mod Tests
use mini_lsm.Prelude.{◌≡◌, true, List, [], ◌∷◌, ◌++◌, ℕ}
use mini_lsm.Status.{Status, is_ok}

-- `log::Writer` and its file. `records` is what a reader returns of the file after a restart. In a
-- state that `IsSound` describes, a record that is added with success comes last there, and a sync
-- changes no record; the state stays sound.
pub record RecordLog (W : Type 0) (IsSound : W → Type 0) : Type 0 where
  pub add_record : List ℕ → W → Status × W
  pub sync : W → Status × W
  pub records : W → List (List ℕ)
  pub added :
      (b : List ℕ) (w : W)
      → IsSound w
      → is_ok (add_record b w).0 ≡ true
      → (records (add_record b w).1 ≡ records w ++ b ∷ []) × IsSound (add_record b w).1
  pub synced : (w : W) → IsSound w → (records (sync w).1 ≡ records w) × IsSound (sync w).1
