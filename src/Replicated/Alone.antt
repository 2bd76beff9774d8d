-- ===== src/Replicated/Alone.antt =====
-- A node that is the only peer, as src/raft/replicated_db.cc opens it: what is put is read, at once and
-- after a restart.
use mini_lsm.Prelude.{
  ℕ, suc, ◌≤◌, ◌<◌, ◌≡◌, refl, sym, ap, ◌∙◌, Option, none, some, List, [], ◌∷◌, ◌++◌, arith, Bool,
  length, length-append, take, drop, take-length, take-append_le, All-append, u64, u32,
}
use mini_lsm.Raft.Commit.{commit_from-eq}
use mini_lsm.Raft.Messages.{LogEntry}
use mini_lsm.Raft.State.{Raft, leader, last_index}
use mini_lsm.Raft.Leader.{maybe_commit}
use mini_lsm.Raft.Core.{propose}
use mini_lsm.Raft.Log.{IsLog, suc-last_index}
use mini_lsm.Raft.Propose.{proposal, extended, propose-eq, propose_alone, IsLog-append}
use mini_lsm.Db.Table.{
  Table, empty, Operation, put, delete, perform, Fits, log_record, decode_record-log_record,
  apply_decoded,
}
use mini_lsm.Db.Record.{decode_record, Decoded}
use mini_lsm.Storage.Replay.{FitsEntry}
use mini_lsm.Storage.Recovery.{stored, FitsRaft, length-stored}
use mini_lsm.Replicated.Command.{decode_command, command_of, command-record}
use mini_lsm.Replicated.Store.{ReplicatedDb, apply_command, apply_entries, command_bytes}
use mini_lsm.Replicated.Applied.{apply_entries-snoc, table_at, IsApplied}

apply_command-command_of :
    (o : Option Decoded) (table : Table)
    → apply_command (command_of o) table ≡ apply_decoded o table
unfolding apply_command apply_decoded
apply_command-command_of none table = refl
apply_command-command_of (some d) table = refl

command_bytes-log_record : (o : Operation) → command_bytes o ≡ log_record o
unfolding command_bytes log_record
command_bytes-log_record (put key value) = command-record.0 1 key value
command_bytes-log_record (delete key) = command-record.0 0 key []

-- A command has the effect of its operation.
pub apply_command-command_bytes :
    (o : Operation) (table : Table)
    → Fits o
    → apply_command (decode_command (command_bytes o)) table ≡ perform o table
apply_command-command_bytes o table h =
    ap (λ c. apply_command c table) (command-record.1 (command_bytes o))
    ∙ apply_command-command_of (decode_record (command_bytes o)) table
    ∙ ap (λ b. apply_decoded (decode_record b) table) (command_bytes-log_record o)
    ∙ decode_record-log_record o table h

-- The leader that is the only peer, with everything committed and shown.
pub record IsAlone {W : Type 0} (db : ReplicatedDb W) : Type 0 where
  pub leads : db.raft.role ≡ leader
  pub shape : IsLog db.raft.log
  pub one : db.raft.config.peers ≡ db.raft.config.id ∷ []
  pub committed : db.raft.commit_index ≡ last_index db.raft.log
  pub level : db.applied_index ≡ db.raft.commit_index
  pub applied : IsApplied db

pub table_at-all :
    (raft : Raft)
    → IsLog raft.log
    → table_at raft (last_index raft.log) ≡ apply_entries (stored raft) empty
table_at-all raft h =
    ap (λ (es : List LogEntry). apply_entries es empty)
      (take-length (last_index raft.log) (stored raft) (omega (arith, length-stored raft h)))

-- A node whose proposal is committed at once.
abbrev pub proposed : List ℕ → Raft → Raft
proposed payload r = record (extended payload r) { commit_index = length r.log }

pub propose-proposed :
    (payload : List ℕ) (r : Raft)
    → r.role ≡ leader
    → IsLog r.log
    → r.config.peers ≡ r.config.id ∷ []
    → r.commit_index < length r.log
    → (propose payload r).0 ≡ proposed payload r
unfolding maybe_commit
propose-proposed payload r e h one held =
    let q = propose-eq payload r e h in
    let x = extended payload r in
    ap (λ (p : Raft × Bool). p.0) q
    ∙ commit_from-eq (last_index x.log) x
    ∙ ap (λ n. record x { commit_index = n })
        (sym (ap (λ (p : Raft × Bool). p.0.commit_index) q) ∙ propose_alone payload r e h one held)

stored-append :
    (log : List LogEntry) (e : LogEntry) → IsLog log → drop 1 (log ++ e ∷ []) ≡ drop 1 log ++ e ∷ []
stored-append [] e h = absurd h
stored-append (x ∷ xs) e h = refl

-- The entries that a shorter log had are those of the longer one.
pub take-stored :
    (payload : List ℕ) (r : Raft) (n : ℕ)
    → IsLog r.log
    → n ≤ last_index r.log
    → take n (stored (proposed payload r)) ≡ take n (stored r)
take-stored payload r n h le =
    ap (take n) (stored-append r.log (proposal payload r) h)
    ∙ take-append_le (stored r) (proposal payload r ∷ []) n (omega (arith, length-stored r h))

pub last_index-proposed :
    (payload : List ℕ) (r : Raft) → IsLog r.log → last_index (proposed payload r).log ≡ length r.log
last_index-proposed payload r h =
    let shape = IsLog-append r.log (proposal payload r) h refl in
    omega (
      arith,
      suc-last_index (proposed payload r).log shape,
      length-append r.log (proposal payload r ∷ []),
    )

-- A proposal whose numbers fit their fields.
pub proposed-FitsRaft :
    (payload : List ℕ) (r : Raft)
    → FitsRaft r
    → length payload < u32
    → suc (length r.log) < u64
    → FitsRaft (proposed payload r)
proposed-FitsRaft payload r f small room =
    let e = proposal payload r in
    record {
      shape = IsLog-append r.log e f.shape refl;
      term = f.term;
      vote = f.vote;
      size = omega (arith, length-append r.log (e ∷ []));
      each =
          rw (stored-append r.log e f.shape)
            (All-append FitsEntry (stored r) (e ∷ []) f.each ((f.term, f.size, small), tt));
    }

-- What the table of a node is where everything is shown.
pub table_at-proposed :
    (payload : List ℕ) (r : Raft)
    → IsLog r.log
    → table_at (proposed payload r) (length r.log)
      ≡ apply_command (decode_command payload) (apply_entries (stored r) empty)
table_at-proposed payload r h =
    let e = proposal payload r in
    let size = length-append (stored r) (e ∷ []) in
    ap (λ (es : List LogEntry). apply_entries es empty)
      (ap (take (length r.log)) (stored-append r.log e h)
        ∙ take-length (length r.log) (stored r ++ e ∷ [])
            (omega (arith, size, length-stored r h, suc-last_index r.log h)))
    ∙ apply_entries-snoc (stored r) e empty
