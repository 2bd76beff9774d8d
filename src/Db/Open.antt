-- ===== src/Db/Open.antt =====
-- `DB::Open` of src/db.cc over the environment: `Recover` and `ReplayWal` are those of Wal.Open, with the
-- table as what is made of the records.
use mini_lsm.Prelude.{ℕ, Bool, Option, none, some, List, ◌++◌, if◌then◌else◌}
use mini_lsm.Status.{is_ok, invalid, codes}
use mini_lsm.Wal.File.{WritableFile, SequentialFile}
use mini_lsm.Wal.Writer.{Writer}
use mini_lsm.Wal.Open.{Result, recover}
use mini_lsm.Env.Interface.{Environment}
use mini_lsm.Db.Table.{Table, empty, replay}

abbrev pub wal_path : List ℕ → List ℕ
wal_path dbpath = dbpath ++ codes "/" ++ codes "wal.log"

abbrev pub table_of : List (List ℕ) → Table
table_of records = replay records empty

module _ {K F R : Type 0} {out : WritableFile F} {in_ : SequentialFile R}
    (env : Environment K out in_) where
  -- The table and the writer are the fields of the store.
  abbrev pub DbResult : Type 0
  DbResult = Result env table_of (Option (Table × Writer F))

  unfoldable pub open_store : Bool → List ℕ → K → DbResult
  open_store create_if_missing dbpath k =
      if create_if_missing
      then (let (s, k1) = env.make_dir dbpath k in
          if is_ok s then recover env table_of (wal_path dbpath) k1 else some (s, none, k1))
      else (let (exists, k1) = env.file_exists dbpath k in
          if exists
          then recover env table_of (wal_path dbpath) k1
          else some (invalid (dbpath ++ codes " does not exist"), none, k1))
