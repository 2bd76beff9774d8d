-- ===== src/Cluster.antt =====
-- Nodes of src/raft/raft.cc on a network that may lose, repeat and reorder messages, driven as
-- include/mlsm/raft/storage.h and src/raft/replicated_db.cc say: what a node has produced is saved
-- before its messages are sent. A node may crash at any time; it comes back with the hard state
-- that was saved last.
pub mod Quorum
pub mod History
pub mod Invariant
pub mod Preserve
pub mod Election
pub mod Leading
pub mod LogMatching
pub mod MatchIndex
pub mod Tests
use mini_lsm.Prelude.{
  ℕ, ◌+◌, ◌<◌, ◌≡◌, Bool, true, false, List, [], ◌++◌, ◌∷◌, ◌⊎◌, ◌==◌, if◌then◌else◌, ℤ, u64,
}
use mini_lsm.Raft.Messages.{NodeId, Term, LogEntry, Message}
use mini_lsm.Raft.State.{Raft, Config, init, last_index}
use mini_lsm.Raft.Core.{tick, step, propose, take_committed, take_messages, restore, has_vote}
use mini_lsm.Raft.HardState.{HardState, hard}
use History.{Votes, note}

-- The members of the cluster and their timeouts.
pub record Setup : Type 0 where
  pub peers : List NodeId
  pub election_timeout : NodeId → ℤ
  pub heartbeat_timeout : NodeId → ℤ
  pub named : has_vote 0 peers ≡ false

abbrev pub config_of : Setup → NodeId → Config
config_of s i = record {
  id = i;
  peers = s.peers;
  election_timeout = s.election_timeout i;
  heartbeat_timeout = s.heartbeat_timeout i;
}

abbrev pub IsMember : Setup → NodeId → Type 0
IsMember s i = has_vote i s.peers ≡ true

abbrev pub update {ℓ} : {A : Type ℓ} → (NodeId → A) → NodeId → A → NodeId → A
update f i v j = if i == j then v else f j

-- `network` holds every message that was ever sent. `votes` and `saved_votes` are history: no step
-- reads them but to carry them on.
pub record Cluster : Type 0 where
  pub nodes : NodeId → Raft
  pub saved : NodeId → HardState
  pub network : List Message
  pub votes : NodeId → Votes
  pub saved_votes : NodeId → Votes

abbrev pub no_state : HardState
no_state = record { term = 0; vote = 0 }

abbrev pub start : Setup → Cluster
start s = record {
  nodes = λ i. init (config_of s i);
  saved = λ i. no_state;
  network = [];
  votes = λ i t. 0;
  saved_votes = λ i t. 0;
}

abbrev pub InNetwork : Message → List Message → Type 0
InNetwork m [] = ⊥
InNetwork m (x ∷ xs) = (m ≡ x) ⊎ InNetwork m xs

-- Node `i` goes on to the state `r`.
abbrev pub moved : Cluster → NodeId → Raft → Cluster
moved c i r = record c {
  nodes = update c.nodes i r;
  votes = update c.votes i (note (hard r) (c.votes i));
}

-- What a successful `RaftStorage::Save` leaves in the node and on the disk.
abbrev pub clean : Raft → Raft
clean r = record r { hard_state_dirty = false; stable_index = last_index r.log }

abbrev pub stored : Cluster → NodeId → Cluster
stored c i = record c {
  nodes = update c.nodes i (clean (c.nodes i));
  saved = update c.saved i (if (c.nodes i).hard_state_dirty then hard (c.nodes i) else c.saved i);
  saved_votes = update c.saved_votes i (c.votes i);
}

abbrev pub flushed : Cluster → NodeId → Cluster
flushed c i = record c {
  nodes = update c.nodes i (take_messages (c.nodes i)).0;
  network = (take_messages (c.nodes i)).1 ++ c.network;
}

abbrev pub revived : Setup → HardState → List LogEntry → NodeId → Raft
revived s h entries i = restore h.term h.vote entries (init (config_of s i))

abbrev pub restarted : Setup → Cluster → NodeId → List LogEntry → Cluster
restarted s c i entries = record c {
  nodes = update c.nodes i (revived s (c.saved i) entries i);
  votes = update c.votes i (c.saved_votes i);
}

-- One event at one member. A tick is taken only below the last 64-bit term.
pub data Step (s : Setup) (c : Cluster) : Cluster → Type 0 where
  ticks :
      (i : NodeId)
      → IsMember s i
      → (c.nodes i).current_term + 1 < u64
      → Step s c (moved c i (tick (c.nodes i)))
  delivers :
      (m : Message)
      → IsMember s m.to
      → InNetwork m c.network
      → Step s c (moved c m.to (step m (c.nodes m.to)))
  proposes :
      (i : NodeId) (payload : List ℕ)
      → IsMember s i
      → Step s c (moved c i (propose payload (c.nodes i)).0)
  applies : (i : NodeId) → IsMember s i → Step s c (moved c i (take_committed (c.nodes i)).0)
  saves : (i : NodeId) → IsMember s i → Step s c (stored c i)
  sends :
      (i : NodeId) → IsMember s i → (c.nodes i).hard_state_dirty ≡ false → Step s c (flushed c i)
  restarts :
      (i : NodeId) (entries : List LogEntry) → IsMember s i → Step s c (restarted s c i entries)

pub data Reach (s : Setup) : Cluster → Type 0 where
  here : Reach s (start s)
  next : {c d : Cluster} → Reach s c → Step s c d → Reach s d
