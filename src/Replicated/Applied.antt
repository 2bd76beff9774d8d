-- ===== src/Replicated/Applied.antt =====
-- `ApplyCommitted` and `Sync` of src/raft/replicated_db.cc: the table shows the committed entries.
use mini_lsm.Prelude.{
  ℕ, zero, suc, ◌+◌, ◌≤◌, ◌<◌, ◌≡◌, refl, sym, ap, ◌∙◌, inl, inr, true, false, Bool-cases, List, [],
  ◌∷◌, ◌++◌, arith, leb, length, take, length-drop, add64, u64,
}
use mini_lsm.Status.{success, is_ok}
use mini_lsm.Wal.{RecordLog}
use mini_lsm.Raft.Messages.{LogEntry}
use mini_lsm.Raft.State.{Raft, Role, leader, follower, candidate, entry_at}
use mini_lsm.Db.Table.{Table, empty, Operation}
use mini_lsm.Raft.Log.{take_snoc}
use mini_lsm.Storage.Recovery.{stored, entry_at-suc, FitsRaft, Covers, IsSaved}
use mini_lsm.Storage.Save.{save}
use mini_lsm.Storage.Durable.{save-IsSaved}
use mini_lsm.Db.Store.{found}
use mini_lsm.Storage.Restart.{save-Covers}
use mini_lsm.Replicated.Command.{decode_command}
use mini_lsm.Replicated.Store.{
  ReplicatedDb, apply_command, apply_entries, apply_from, apply_committed, save_and_apply, submit,
  submit_as, get_applied,
}

pub apply_entries-snoc :
    (xs : List LogEntry) (e : LogEntry) (table : Table)
    → apply_entries (xs ++ e ∷ []) table
      ≡ apply_command (decode_command e.payload) (apply_entries xs table)
unfolding apply_entries
apply_entries-snoc [] e table = refl
apply_entries-snoc (x ∷ xs) e table =
    apply_entries-snoc xs e (apply_command (decode_command x.payload) table)

-- The table that the first `n` entries behind the sentinel make.
abbrev pub table_at : Raft → ℕ → Table
table_at raft n = apply_entries (take n (stored raft)) empty

table_at-suc :
    (raft : Raft) (n : ℕ)
    → suc n < length raft.log
    → apply_command (decode_command (entry_at raft.log (suc n)).payload) (table_at raft n)
      ≡ table_at raft (suc n)
table_at-suc raft n h =
    ap (λ (e : LogEntry). apply_command (decode_command e.payload) (table_at raft n))
      (entry_at-suc n raft.log)
    ∙ sym (apply_entries-snoc (take n (stored raft)) (entry_at (stored raft) n) empty)
    ∙ ap (λ (es : List LogEntry). apply_entries es empty)
        (take_snoc n (stored raft) (omega (arith, length-drop 1 raft.log)))

apply_from-table_at :
    (fuel n : ℕ) (raft : Raft)
    → n ≤ raft.commit_index
    → raft.commit_index ≤ n + fuel
    → raft.commit_index < length raft.log
    → length raft.log < u64
    → apply_from fuel (add64 n 1) raft (table_at raft n) ≡ table_at raft raft.commit_index
unfolding apply_from
apply_from-table_at zero n raft le up held size =
    let same : n ≡ raft.commit_index = omega arith in ap (table_at raft) same
apply_from-table_at (suc fuel) n raft le up held size =
    let next : add64 n 1 ≡ suc n = omega arith in
    elim (Bool-cases (leb (suc n) raft.commit_index)) [
      | inr over ↦ rw (next, over) (ap (table_at raft) (ground arith))
      | inl more ↦
          rw (next, more)
            (ap (apply_from fuel (add64 (suc n) 1) raft) (table_at-suc raft n (ground arith))
              ∙ apply_from-table_at fuel (suc n) raft (ground arith) (omega arith) held size)
    ]

-- The table shows the entries up to the applied index, and these are committed.
pub record IsApplied {W : Type 0} (db : ReplicatedDb W) : Type 0 where
  pub within : db.applied_index ≤ db.raft.commit_index
  pub held : db.raft.commit_index < length db.raft.log
  pub size : length db.raft.log < u64
  pub shown : db.table ≡ table_at db.raft db.applied_index

apply_committed-table_at :
    {W : Type 0} (db : ReplicatedDb W)
    → IsApplied db
    → (apply_committed db).table ≡ table_at db.raft db.raft.commit_index
unfolding apply_committed
apply_committed-table_at db a =
    ap (apply_from db.raft.commit_index (add64 db.applied_index 1) db.raft) a.shown
    ∙ apply_from-table_at db.raft.commit_index db.applied_index db.raft a.within (omega arith)
        a.held a.size

-- `ApplyCommitted` brings the table to what all committed entries make of an empty one, in order, if it
-- showed the entries up to the applied index, that was not past the commit index, and this was in the
-- log.
pub apply_committed-IsApplied :
    {W : Type 0} (db : ReplicatedDb W)
    → IsApplied db
    → IsApplied (apply_committed db)
      × ((apply_committed db).table ≡ table_at db.raft db.raft.commit_index)
unfolding apply_committed
apply_committed-IsApplied db a =
    let t = apply_committed-table_at db a in
    (record { within = omega arith; held = a.held; size = a.size; shown = t }, t)

module _ {W : Type 0} {IsSound : W → Type 0} (L : RecordLog W IsSound) where
  -- What a `Sync` that returned success has done: the node is saved, and what is on disk agrees with
  -- it again, and the table shows what is committed.
  pub record IsSynced (db out : ReplicatedDb W) : Type 0 where
    pub saved : IsSaved L db.raft (success, out.storage, out.raft)
    pub covers : Covers L out.storage out.raft
    pub applied : IsApplied out
    pub level : out.applied_index ≡ out.raft.commit_index
    pub table : out.table ≡ table_at db.raft db.raft.commit_index

  pub save_and_apply-IsSynced :
      (db : ReplicatedDb W)
      → FitsRaft db.raft
      → IsSound db.storage.writer
      → Covers L db.storage db.raft
      → IsApplied db
      → is_ok (save_and_apply L db).0 ≡ true
      → IsSynced db (save_and_apply L db).1
  unfolding save_and_apply apply_committed
  save_and_apply-IsSynced db fits sound c a h =
      elim (Bool-cases (is_ok (save L db.storage db.raft).0)) [
        | inr failed ↦ absurd (ground (arith, failed, h))
        | inl fine ↦
            let s = save-IsSaved L db.storage db.raft fits sound c fine in
            let saved : ReplicatedDb W = record db {
              raft = (save L db.storage db.raft).2;
              storage = (save L db.storage db.raft).1;
            } in
            let b : IsApplied saved = record {
              within = rw s.core a.within;
              held = rw s.core a.held;
              size = rw s.core a.size;
              shown = a.shown ∙ ap (λ (r : Raft). table_at r db.applied_index) (sym s.core);
            } in
            let now = apply_committed-IsApplied saved b in
            rw fine (record {
              saved = record {
                sound = s.sound;
                disk = s.disk;
                persisted = s.persisted;
                core = s.core;
              };
              covers = (save-Covers L db.storage db.raft fits sound c fine).1;
              applied = now.0;
              level = refl;
              table = now.1 ∙ ap (λ (r : Raft). table_at r r.commit_index) s.core;
            })
      ]

  save_and_apply_failed :
      (db : ReplicatedDb W)
      → is_ok (save_and_apply L db).0 ≡ false
      → (save_and_apply L db).1.table ≡ db.table
  unfolding save_and_apply
  save_and_apply_failed db h = elim (Bool-cases (is_ok (save L db.storage db.raft).0)) [
    | inl fine ↦ absurd (ground (arith, fine, h))
    | inr failed ↦ rw failed refl
  ]

  submit_as_failed :
      (role : Role) (o : Operation) (db : ReplicatedDb W)
      → is_ok (submit_as L role o db).0 ≡ false
      → (submit_as L role o db).1.table ≡ db.table
  unfolding submit_as
  submit_as_failed leader o db h = save_and_apply_failed _ h
  submit_as_failed follower o db h = refl
  submit_as_failed candidate o db h = refl

  -- A Put or Delete that does not return success changes no read, whether the node does not lead or the
  -- save failed.
  pub submit_failed :
      (o : Operation) (db : ReplicatedDb W)
      → is_ok (submit L o db).0 ≡ false
      → (key : List ℕ) → get_applied key (submit L o db).1 ≡ get_applied key db
  unfolding submit get_applied
  submit_failed o db h key =
      ap (λ (t : Table). found key (t key)) (submit_as_failed db.raft.role o db h)
