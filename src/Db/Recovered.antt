-- ===== src/Db/Recovered.antt =====
-- What `DB::Open` of src/db.cc finds: the table of the records that a writer left in the log.
use mini_lsm.Prelude.{ℕ, ◌≡◌, sym, ap, ◌∙◌, inl, inr, Bool, true, false, Bool-cases, List}
use mini_lsm.Status.{is_ok}
use mini_lsm.Wal.File.{WritableFile, SequentialFile, IsReliable}
use mini_lsm.Wal.Writer.{Writer}
use mini_lsm.Wal.Log.{HoldsLog}
use mini_lsm.Wal.Implements.{IsSoundLog, wal, log_records-HoldsLog}
use mini_lsm.Wal.Opened.{IsRecovered, Opens, recover-Opens}
use mini_lsm.Env.Interface.{Environment, IsTold}
use mini_lsm.Db.Table.{Table}
use mini_lsm.Db.Store.{IsDurable}
use mini_lsm.Db.Open.{wal_path, table_of, open_store}

module _ {K F R : Type 0} {out : WritableFile F} {in_ : SequentialFile R}
    (env : Environment K out in_) where
  -- `Open` returns, and where it returns success the store has the table of the records that a writer
  -- left in the log, and goes on with that log, whether the file was there or not, if the log holds whole
  -- records to its end, no read fails, and `FileExists` says of the log that it is not there only where its
  -- path holds nothing.
  pub open_store-Opens :
      (create_if_missing : Bool) (dbpath : List ℕ) (k : K) (bs : List (List ℕ)) (w : Writer F)
      → IsReliable in_
      → IsTold env (wal_path dbpath)
      → HoldsLog out bs w
      → env.disk (wal_path dbpath) k ≡ out.contents w.dest
      → Opens env table_of bs (open_store env create_if_missing dbpath k)
  unfolding open_store
  open_store-Opens true dbpath k bs w reliable told h left =
      elim (Bool-cases (is_ok (env.make_dir dbpath k).0)) [
        | inr bad ↦ rw bad (λ fine. absurd (cc))
        | inl ok ↦ rw ok (
            recover-Opens env table_of bs w (wal_path dbpath) h told (env.make_dir dbpath k).1
              reliable (env.made dbpath (wal_path dbpath) k ∙ left))
      ]
  open_store-Opens false dbpath k bs w reliable told h left =
      elim (Bool-cases (env.file_exists dbpath k).0) [
        | inr missing ↦ rw missing (λ fine. absurd (cc))
        | inl there ↦ rw there (
            recover-Opens env table_of bs w (wal_path dbpath) h told (env.file_exists dbpath k).1
              reliable (env.asked dbpath (wal_path dbpath) k ∙ left))
      ]

  -- A store that was recovered is durable and its log is sound, as `Put` and `Delete` need it, on the log
  -- of Wal.Implements.
  pub IsRecovered-IsDurable :
      (bs : List (List ℕ)) (table : Table) (w : Writer F)
      → IsRecovered env table_of bs table w
      → IsSoundLog out w × IsDurable (wal out) (record { table = table; writer = w })
  IsRecovered-IsDurable bs table w r =
      ((bs, r.log), r.built ∙ ap table_of (sym (log_records-HoldsLog out bs w r.log)))
