-- ===== src/Raft/Tests.antt =====
-- Runs of the Raft core on small inputs, and the theorems about it at concrete inputs.
use mini_lsm.Prelude.{ℕ, ◌≡◌, refl, true, false, [], ◌∷◌, pos, arith, inl, drop}
use mini_lsm.Raft.State.{
  Raft, Config, leader, candidate, follower, init, last_index, term_at, quorum_size, sentinel,
  clear, send,
}
use mini_lsm.Raft.Messages.{
  LogEntry, Message, message, request_vote, request_vote_resp, append_entries,
}
use mini_lsm.Raft.Leader.{
  broadcast_append_entries, broadcast_to, append_message, maybe_commit, commit_from, count_replicas,
  become_leader, take_office, reset_peers,
}
use mini_lsm.Raft.Follower.{
  handle_append_entries, append_all, append_entry, advance_commit, is_consistent, become_candidate,
  stand,
}
use mini_lsm.Raft.Core.{tick, tick_election, step, propose, take_committed, has_vote}
use mini_lsm.Raft.HardState.{Tracks, step-Tracks, tick-Tracks}
use mini_lsm.Raft.Outbox.{Queues}
use mini_lsm.Raft.Outbox.Moves.{step-Queues}
use mini_lsm.Raft.Standing.{IsStanding}
use mini_lsm.Raft.Standing.Steps.{step-IsStanding}
use mini_lsm.Raft.Log.Append.{HasMerged}
use mini_lsm.Raft.Replication.{
  IsBatch, Matches, KeepsCommitted, handle_append_entries-HasMerged,
  handle_append_entries-KeepsCommitted,
}
use mini_lsm.Raft.Commit.{IsCommit, maybe_commit-IsCommit}
use mini_lsm.Raft.Propose.{append_message_sends, take_committed_drains}

abbrev solo : Config
solo = record { id = 1; peers = 1 ∷ []; election_timeout = pos 1; heartbeat_timeout = pos 1 }

abbrev trio : ℕ → Config
trio i = record {
  id = i;
  peers = 1 ∷ 2 ∷ 3 ∷ [];
  election_timeout = pos 2;
  heartbeat_timeout = pos 1;
}

abbrev entry : ℕ → ℕ → LogEntry
entry t i = record { term = t; index = i; payload = i ∷ [] }

-- Node 2 of three, in term 1, with two entries of which one is committed.
abbrev two : Raft
two = record {
  config = trio 2;
  role = follower;
  current_term = 1;
  voted_for = 1;
  log = sentinel ∷ entry 1 1 ∷ entry 1 2 ∷ [];
  commit_index = 1;
  last_applied = 0;
  stable_index = 0;
  leader_id = 1;
  election_elapsed = 0;
  heartbeat_elapsed = 0;
  votes_granted = [];
  next_index = clear;
  match_index = clear;
  hard_state_dirty = false;
  out_msgs = [];
}

-- A node 1 that leads in term 1, and knows that node 2 holds the entries.
abbrev one : Raft
one = record two {
  config = trio 1;
  role = leader;
  votes_granted = 1 ∷ 2 ∷ [];
  next_index = λ i. 2;
  match_index = λ i. 2;
}

-- From the leader of term 2: entry 1 as it was, and an entry that replaces entry 2.
abbrev replacing : Message
replacing = record (message append_entries 3 2 2) {
  prev_log_index = 1;
  prev_log_term = 1;
  entries = entry 2 2 ∷ entry 2 3 ∷ [];
  leader_commit = 2;
}

abbrev ask : Message
ask = record (message request_vote 3 2 2) { last_log_index = 2; last_log_term = 1 }

abbrev grant : Message
grant = record (message request_vote_resp 2 1 1) { vote_granted = true }

-- A single node elects itself at its first tick, and commits what it is given.
solo_commits : (propose (7 ∷ []) (tick (init solo))).0.commit_index ≡ 1
unfolding init tick tick_election become_candidate stand become_leader take_office reset_peers
    broadcast_append_entries broadcast_to propose maybe_commit commit_from count_replicas term_at
    last_index quorum_size
solo_commits = refl

replaced :
    (handle_append_entries replacing two).log ≡ sentinel ∷ entry 1 1 ∷ entry 2 2 ∷ entry 2 3 ∷ []
unfolding handle_append_entries is_consistent append_all append_entry advance_commit send term_at
    last_index
replaced = refl

step-Tracks_example : Tracks two (step ask two)
step-Tracks_example = step-Tracks ask two

tick-Tracks_example : Tracks two (tick two)
tick-Tracks_example = tick-Tracks two (omega arith)

step-Queues_example : Queues two (step ask two)
step-Queues_example = step-Queues ask two (omega arith)

-- Node 1 as a candidate of term 1.
abbrev standing_one : Raft
standing_one = record one { role = candidate; votes_granted = 1 ∷ [] }

step-IsStanding_example : IsStanding (λ v t. ◌≡◌ {A = ℕ} v 2) (step grant standing_one)
unfolding has_vote
step-IsStanding_example =
    step-IsStanding (λ v t. ◌≡◌ {A = ℕ} v 2) grant standing_one (omega arith) (refl, refl)
      (refl, (((refl, inl refl), tt), (refl, tt)))

handle_append_entries-HasMerged_example :
    HasMerged 2 replacing.entries two.log (handle_append_entries replacing two).log
handle_append_entries-HasMerged_example =
    handle_append_entries-HasMerged replacing two (omega arith) (omega arith) (omega arith)

handle_append_entries-KeepsCommitted_example :
    KeepsCommitted replacing two (handle_append_entries replacing two)
handle_append_entries-KeepsCommitted_example =
    handle_append_entries-KeepsCommitted replacing two (omega arith) (omega arith) (omega arith)
      (omega arith)

maybe_commit-IsCommit_example : IsCommit one (last_index one.log) (maybe_commit one).commit_index
maybe_commit-IsCommit_example = maybe_commit-IsCommit one

append_message_sends_example :
    ((append_message 2 one).entries ≡ drop 2 one.log)
    × IsBatch (append_message 2 one)
    × Matches (append_message 2 one) one.log
append_message_sends_example =
    append_message_sends 2 one (omega arith) (omega arith) (omega arith) (omega arith)

take_committed_drains_example :
    ((take_committed two).1 ≡ entry 1 1 ∷ [])
    × ((take_committed two).0 ≡ record two { last_applied = 1 })
    × ((take_committed (take_committed two).0).1 ≡ [])
take_committed_drains_example = take_committed_drains two (omega arith) (omega arith)
