-- ===== src/Storage/Open.antt =====
-- `RaftStorage::Open` of src/raft/storage.cc, with the recovered hard state and entries as what is made of
-- the records.
use mini_lsm.Prelude.{
  ℕ, ◌≡◌, ◌∙◌, inl, inr, Bool-cases, Option, none, some, List, [], ◌∷◌, ◌==◌, if◌then◌else◌,
}
use mini_lsm.Status.{is_ok, codes}
use mini_lsm.Wal.File.{WritableFile, SequentialFile, IsReliable}
use mini_lsm.Wal.Writer.{Writer}
use mini_lsm.Wal.Log.{HoldsLog}
use mini_lsm.Wal.Open.{Result, recover}
use mini_lsm.Wal.Opened.{Opens, recover-Opens}
use mini_lsm.Env.Interface.{Environment, IsTold}
use mini_lsm.Storage.Replay.{Recovered, fresh, replay_file}

-- What stands before the last `/`.
unfoldable pub before_slash : List ℕ → Option (List ℕ)
before_slash [] = none
before_slash (c ∷ cs) = elim (before_slash cs) [
  | some front ↦ some (c ∷ front)
  | none ↦ if c == 47 then some [] else none
]

unfoldable pub parent_of : Option (List ℕ) → List ℕ
parent_of none = codes "."
parent_of (some []) = codes "/"
parent_of (some (c ∷ cs)) = c ∷ cs

unfoldable pub parent_dir : List ℕ → List ℕ
parent_dir path = parent_of (before_slash path)

abbrev pub recovered_of : List (List ℕ) → Recovered
recovered_of records = replay_file records fresh

module _ {K F R : Type 0} {out : WritableFile F} {in_ : SequentialFile R}
    (env : Environment K out in_) where
  unfoldable pub open_storage : List ℕ → K → Result env recovered_of (Option (Recovered × Writer F))
  open_storage path k =
      let (s, k1) = env.make_dir (parent_dir path) k in
      if is_ok s then recover env recovered_of path k1 else some (s, none, k1)

  -- `Open` returns, and where it returns success it has recovered the hard state and the entries that the
  -- records make that a writer left in the file, and goes on with that file, whether it was there or not, if
  -- the file holds whole records to its end, no read fails, and `FileExists` says of the file that it is not
  -- there only where its path holds nothing.
  pub open_storage-Opens :
      (path : List ℕ) (k : K) (bs : List (List ℕ)) (w : Writer F)
      → IsReliable in_
      → IsTold env path
      → HoldsLog out bs w
      → env.disk path k ≡ out.contents w.dest
      → Opens env recovered_of bs (open_storage path k)
  unfolding open_storage
  open_storage-Opens path k bs w reliable told h left =
      elim (Bool-cases (is_ok (env.make_dir (parent_dir path) k).0)) [
        | inr bad ↦ rw bad (λ fine. absurd (cc))
        | inl ok ↦ rw ok (
            recover-Opens env recovered_of bs w path h told (env.make_dir (parent_dir path) k).1
              reliable (env.made (parent_dir path) path k ∙ left))
      ]
