-- ===== src/Raft/Messages.antt =====
-- include/mlsm/raft/messages.h: log entries and the messages that nodes exchange.
use mini_lsm.Prelude.{ℕ, Bool, false, List, []}

-- 0 is reserved for "none".
abbrev pub NodeId : Type 0
NodeId = ℕ

abbrev pub Term : Type 0
Term = ℕ

-- `payload` is the field `data`: an opaque byte string.
pub record LogEntry : Type 0 where
  pub term : Term
  pub index : ℕ
  pub payload : List ℕ

pub data MessageType : Type 0 where
  request_vote request_vote_resp append_entries append_entries_resp : MessageType

pub record Message : Type 0 where
  pub type : MessageType
  pub from : NodeId
  pub to : NodeId
  pub term : Term
  pub vote_granted : Bool
  pub success : Bool
  pub last_log_index : ℕ
  pub last_log_term : Term
  pub prev_log_index : ℕ
  pub prev_log_term : Term
  pub entries : List LogEntry
  pub leader_commit : ℕ
  pub match_index : ℕ

-- A message with the default of every other field.
abbrev pub message : MessageType → NodeId → NodeId → Term → Message
message type from to term = record {
  type = type;
  from = from;
  to = to;
  term = term;
  vote_granted = false;
  success = false;
  last_log_index = 0;
  last_log_term = 0;
  prev_log_index = 0;
  prev_log_term = 0;
  entries = [];
  leader_commit = 0;
  match_index = 0;
}
