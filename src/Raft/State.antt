-- ===== src/Raft/State.antt =====
-- include/mlsm/raft/raft.h and the accessors at the end of src/raft/raft.cc: the state of one
-- node, its log with the sentinel at index 0, and the maps from peers to indices.
use mini_lsm.Prelude.{
  ℕ, ◌+◌, ◌-◌, ◌/◌, Bool, false, List, [], ◌∷◌, ◌++◌, ltb, ◌==◌, if◌then◌else◌, length, get_or, u64,
  ℤ,
}
use mini_lsm.Raft.Messages.{NodeId, Term, LogEntry, Message}

pub data Role : Type 0 where
  follower candidate leader : Role

pub record Config : Type 0 where
  pub id : NodeId
  pub peers : List NodeId
  pub election_timeout : ℤ
  pub heartbeat_timeout : ℤ

-- A `std::map<NodeId, uint64_t>` that is read and written by `operator[]` alone, which makes a
-- missing key 0: so a map and its reads are a total function.
abbrev pub IndexMap : Type 0
IndexMap = NodeId → ℕ

abbrev pub clear : IndexMap
clear k = 0

abbrev pub assign : IndexMap → NodeId → ℕ → IndexMap
assign m k v j = if k == j then v else m j

-- The fields of the class, without the underscores behind their names.
pub record Raft : Type 0 where
  pub config : Config
  pub role : Role
  pub current_term : Term
  pub voted_for : NodeId
  pub log : List LogEntry
  pub commit_index : ℕ
  pub last_applied : ℕ
  pub stable_index : ℕ
  pub leader_id : NodeId
  pub election_elapsed : ℕ
  pub heartbeat_elapsed : ℕ
  pub votes_granted : List NodeId
  pub next_index : IndexMap
  pub match_index : IndexMap
  pub hard_state_dirty : Bool
  pub out_msgs : List Message

abbrev pub sentinel : LogEntry
sentinel = record { term = 0; index = 0; payload = [] }

-- The constructor `Raft(config)`.
unfoldable pub init : Config → Raft
init config = record {
  config = config;
  role = follower;
  current_term = 0;
  voted_for = 0;
  log = sentinel ∷ [];
  commit_index = 0;
  last_applied = 0;
  stable_index = 0;
  leader_id = 0;
  election_elapsed = 0;
  heartbeat_elapsed = 0;
  votes_granted = [];
  next_index = clear;
  match_index = clear;
  hard_state_dirty = false;
  out_msgs = [];
}

-- `log_.size() - 1`, which wraps where the log is empty.
unfoldable pub last_index : List LogEntry → ℕ
last_index [] = u64 - 1
last_index (e ∷ es) = length es

-- `log_[i]`, which C++ leaves undefined out of range; the sentinel stands for it there.
abbrev pub entry_at : List LogEntry → ℕ → LogEntry
entry_at log i = get_or log i sentinel

-- `log_.back().term`, undefined for an empty log.
unfoldable pub last_term : List LogEntry → Term
last_term [] = 0
last_term (e ∷ []) = e.term
last_term (e ∷ f ∷ es) = last_term (f ∷ es)

unfoldable pub term_at : List LogEntry → ℕ → Term
term_at log i = if ltb (last_index log) i then 0 else (entry_at log i).term

unfoldable pub quorum_size : Raft → ℕ
quorum_size r = length r.config.peers / 2 + 1

unfoldable pub send : Message → Raft → Raft
send m r = record r { out_msgs = r.out_msgs ++ m ∷ [] }
