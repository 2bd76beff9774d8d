-- ===== src/Cluster/Leading.antt =====
-- The logs that the members of a cluster of src/raft/raft.cc have led with, and what is on their disks,
-- beside the cluster itself: the history that its steps leave, and the contract of
-- include/mlsm/raft/storage.h that they keep.
pub mod Backed
pub mod Acked
pub mod Invariant
pub mod Moved
pub mod Preserve
pub mod Saved
pub mod Sent
pub mod Revived
pub mod Agreement
use mini_lsm.Prelude.{◌≡◌, Bool, true, false, List, [], ◌∷◌, ◌&&◌, ◌==◌, if◌then◌else◌, drop}
use mini_lsm.Raft.Messages.{NodeId, Term, LogEntry}
use mini_lsm.Raft.State.{Raft, Role, leader, follower, candidate, sentinel}
use mini_lsm.Raft.Core.{tick, step, propose, take_committed}
use mini_lsm.Cluster.{
  Setup, Cluster, update, start, Step, ticks, delivers, proposes, applies, saves, sends, restarts,
  Reach, here, next,
}

-- The log that a node has led with last, by term; empty where it did not lead.
abbrev pub Led : Type 0
Led = Term → List LogEntry

abbrev pub is_leader : Role → Bool
is_leader leader = true
is_leader follower = false
is_leader candidate = false

-- The log of a leader, written into its history.
abbrev pub note_log : Raft → Led → Led
note_log r l t = if is_leader r.role && r.current_term == t then r.log else l t

-- `fresh` is on where a node was saved after it last went on.
pub record Leading : Type 0 where
  pub disk : NodeId → List LogEntry
  pub led : NodeId → Led
  pub saved_led : NodeId → Led
  pub fresh : NodeId → Bool

abbrev pub no_leading : Leading
no_leading = record {
  disk = λ i. sentinel ∷ [];
  led = λ i t. [];
  saved_led = λ i t. [];
  fresh = λ i. true;
}

-- Node `i` goes on to the state `r`.
abbrev pub told : Leading → NodeId → Raft → Leading
told g i r = record g {
  led = update g.led i (note_log r (g.led i));
  fresh = update g.fresh i false;
}

abbrev pub follow : {s : Setup} {c d : Cluster} → Step s c d → Leading → Leading
follow {c} (ticks i m lt) g = told g i (tick (c.nodes i))
follow {c} (delivers m mem sent) g = told g m.to (step m (c.nodes m.to))
follow {c} (proposes i payload m) g = told g i (propose payload (c.nodes i)).0
follow (applies i m) g = g
follow {c} (saves i m) g = record g {
  disk = update g.disk i (c.nodes i).log;
  saved_led = update g.saved_led i (g.led i);
  fresh = update g.fresh i true;
}
follow (sends i m clean) g = g
follow (restarts i entries m) g = record g {
  led = update g.led i (g.saved_led i);
  fresh = update g.fresh i true;
}

-- A node is saved before it sends, and it comes back with the log on its disk.
abbrev pub Keeps : {s : Setup} {c d : Cluster} → Step s c d → Leading → Type 0
Keeps (ticks i m lt) g = Unit
Keeps (delivers m mem sent) g = Unit
Keeps (proposes i payload m) g = Unit
Keeps (applies i m) g = Unit
Keeps (saves i m) g = Unit
Keeps (sends i m clean) g = g.fresh i ≡ true
Keeps (restarts i entries m) g = entries ≡ drop 1 (g.disk i)

-- The states that a cluster can reach with that contract.
pub data ReachLog (s : Setup) : Cluster → Leading → Type 0 where
  begins : ReachLog s (start s) no_leading
  goes_on :
      {c d : Cluster} {g : Leading}
      → ReachLog s c g
      → (st : Step s c d) → Keeps st g
      → ReachLog s d (follow st g)

pub ReachLog-Reach : {s : Setup} {c : Cluster} {g : Leading} → ReachLog s c g → Reach s c
ReachLog-Reach begins = here
ReachLog-Reach (goes_on r st k) = next (ReachLog-Reach r) st
