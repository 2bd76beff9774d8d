-- ===== src/Replicated/Durable.antt =====
-- `Put` and `Delete` of src/raft/replicated_db.cc at a node that is the only peer: what they did is
-- visible, and a restart reads it back.
use mini_lsm.Prelude.{
  ℕ, suc, ◌<◌, ◌≡◌, refl, sym, ap, ◌∙◌, true, List, [], ◌∷◌, arith, length, length-append, u64, u32,
}
use mini_lsm.Status.{Status, is_ok}
use mini_lsm.Wal.{RecordLog}
use mini_lsm.Raft.Messages.{NodeId, LogEntry}
use mini_lsm.Raft.State.{Raft, Role}
use mini_lsm.Raft.Log.{IsLog, suc-last_index}
use mini_lsm.Raft.Propose.{proposal, IsLog-append}
use mini_lsm.Db.Table.{empty, Operation, perform, Fits}
use mini_lsm.Storage.Replay.{Recovered}
use mini_lsm.Storage.Recovery.{stored, FitsRaft, Covers}
use mini_lsm.Replicated.Store.{
  ReplicatedDb, apply_entries, save_and_apply, submit, submit_as, command_bytes, recovered_db,
}
use mini_lsm.Replicated.Applied.{table_at, IsApplied, IsSynced, save_and_apply-IsSynced}
use mini_lsm.Replicated.Alone.{
  IsAlone, proposed, propose-proposed, take-stored, last_index-proposed, proposed-FitsRaft,
  table_at-proposed, table_at-all, apply_command-command_bytes,
}

module _ {W : Type 0} {IsSound : W → Type 0} (L : RecordLog W IsSound) where
  -- What is on disk agrees with a node after a proposal as it did before.
  proposed-Covers :
      (payload : List ℕ) (db : ReplicatedDb W)
      → IsLog db.raft.log
      → Covers L db.storage db.raft
      → Covers L db.storage (proposed payload db.raft)
  proposed-Covers payload db h c = record {
    behind = c.behind;
    within =
        omega
          (arith, c.within, last_index-proposed payload db.raft h, suc-last_index db.raft.log h);
    count = c.count;
    indexed = c.indexed;
    same = c.same ∙ sym (take-stored payload db.raft db.raft.stable_index h c.within);
    clean = c.clean;
  }

  proposed-IsApplied :
      (payload : List ℕ) (db : ReplicatedDb W)
      → IsAlone db
      → suc (length db.raft.log) < u64
      → IsApplied (record db { raft = proposed payload db.raft })
  proposed-IsApplied payload db a room =
      let size = length-append db.raft.log (proposal payload db.raft ∷ []) in
      record {
        within = omega (arith, a.applied.within, a.applied.held);
        held = omega (arith, size);
        size = omega (arith, size);
        shown =
            a.applied.shown
            ∙ ap (λ (es : List LogEntry). apply_entries es empty)
                (sym (
                  take-stored payload db.raft db.applied_index a.shape
                    (omega (arith, a.level, a.committed))));
      }

  submit-eq :
      (o : Operation) (db : ReplicatedDb W)
      → IsAlone db
      → submit L o db ≡ save_and_apply L (record db { raft = proposed (command_bytes o) db.raft })
  unfolding submit submit_as
  submit-eq o db a =
      ap (λ (role : Role). submit_as L role o db) a.leads
      ∙ ap (λ (r : Raft). save_and_apply L (record db { raft = r }))
          (propose-proposed (command_bytes o) db.raft a.leads a.shape a.one
            (omega (arith, a.committed, suc-last_index db.raft.log a.shape)))

  -- What a Put or Delete that returned success at the only peer has done.
  pub record IsDone (o : Operation) (db out : ReplicatedDb W) : Type 0 where
    pub shown : out.table ≡ perform o db.table
    pub alone : IsAlone out
    pub sound : IsSound out.storage.writer
    pub covers : Covers L out.storage out.raft
    pub on_file :
        (id : NodeId) (peers : List NodeId)
        → (recovered_db L id peers out.storage.writer).table ≡ out.table

  IsSynced-IsDone :
      (o : Operation) (db out : ReplicatedDb W)
      → IsAlone db
      → Fits o
      → IsSynced L (record db { raft = proposed (command_bytes o) db.raft }) out
      → IsDone o db out
  unfolding recovered_db
  IsSynced-IsDone o db out a fits s =
      let payload = command_bytes o in
      let r = proposed payload db.raft in
      let shape = IsLog-append db.raft.log (proposal payload db.raft) a.shape refl in
      let core = s.saved.core in
      let before : db.table ≡ apply_entries (stored db.raft) empty =
        a.applied.shown
        ∙ ap (table_at db.raft) (a.level ∙ a.committed)
        ∙ table_at-all db.raft a.shape in
      let last = last_index-proposed payload db.raft a.shape in
      record {
        shown =
            s.table
            ∙ table_at-proposed payload db.raft a.shape
            ∙ apply_command-command_bytes o (apply_entries (stored db.raft) empty) fits
            ∙ ap (perform o) (sym before);
        alone = record {
          leads = rw core a.leads;
          shape = rw core shape;
          one = rw core a.one;
          committed = rw core (sym last);
          level = s.level;
          applied = s.applied;
        };
        sound = s.saved.sound;
        covers = s.covers;
        on_file = λ id peers.
            ap (λ (d : Recovered). apply_entries d.entries empty) s.saved.disk
            ∙ sym (table_at-all r shape)
            ∙ ap (table_at r) last
            ∙ sym s.table;
      }

  -- At a node that is the only peer and leads, with its log committed and shown, a Put or Delete that
  -- returns success does to the table what it is to do, leaves the node so, and a node that is opened
  -- on the file has that table, if the file was sound (as of Wal.Implements: whole records to its end, with
  -- no torn one, and the writer behind them) and what was on disk agreed with the node up to the stable
  -- index, both of which hold again, and the numbers and lengths fit their fields.
  pub submit-IsDone :
      (o : Operation) (db : ReplicatedDb W)
      → IsAlone db
      → FitsRaft db.raft
      → IsSound db.storage.writer
      → Covers L db.storage db.raft
      → Fits o
      → length (command_bytes o) < u32
      → suc (length db.raft.log) < u64
      → is_ok (submit L o db).0 ≡ true
      → IsDone o db (submit L o db).1
  submit-IsDone o db a f sound c fits small room h =
      let e = submit-eq o db a in
      let payload = command_bytes o in
      rw e (
        IsSynced-IsDone o db _ a fits (
          save_and_apply-IsSynced L (record db { raft = proposed payload db.raft })
            (proposed-FitsRaft payload db.raft f small room) sound
            (proposed-Covers payload db a.shape c) (proposed-IsApplied payload db a room)
            (sym (ap (λ (x : Status × ReplicatedDb W). is_ok x.0) e) ∙ h)))
