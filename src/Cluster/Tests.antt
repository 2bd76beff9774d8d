-- ===== src/Cluster/Tests.antt =====
-- A run of three nodes of src/raft/raft.cc in which node 1 wins an election.
use mini_lsm.Prelude.{
  ℕ, ◌≤◌, ◌≡◌, refl, true, false, [], ◌∷◌, pos, arith, inl, inr, take, ◌<◌, ◌⊎◌, length,
}
use mini_lsm.Raft.State.{entry_at, leader, init, last_index, last_term, term_at, quorum_size, send}
use mini_lsm.Raft.Messages.{
  Message, LogEntry, message, append_entries, request_vote, request_vote_resp, append_entries_resp,
}
use mini_lsm.Raft.Leader.{
  broadcast_append_entries, broadcast_to, send_append_entries, append_message, entries_from,
  become_leader, take_office, reset_peers, maybe_commit, commit_from, count_replicas,
  handle_append_entries_resp,
}
use mini_lsm.Raft.Follower.{
  handle_request_vote, can_vote, up_to_date, become_follower, become_candidate, stand,
  request_votes, request_message, handle_append_entries, append_all, append_entry, is_consistent,
  advance_commit,
}
use mini_lsm.Raft.Core.{
  has_vote, tick, tick_election, step, step_as, step_follower, step_candidate, with_vote,
  record_vote, count_vote, leader_of, take_messages, tick_as, tick_heartbeat, propose, propose_as,
  step_leader,
}
use mini_lsm.Cluster.{
  Setup, config_of, Cluster, start, moved, stored, flushed, ticks, delivers, saves, sends, proposes,
}
use mini_lsm.Cluster.Leading.{Leading, ReachLog, begins, goes_on, ReachLog-Reach}
use mini_lsm.Cluster.MatchIndex.{match_index_held}
use mini_lsm.Cluster.LogMatching.{log_matching, terms_in_order}
use mini_lsm.Cluster.Election.{election_safety}

members_named : has_vote 0 (1 ∷ 2 ∷ 3 ∷ []) ≡ false
unfolding has_vote
members_named = refl

abbrev trio : Setup
trio = record {
  peers = 1 ∷ 2 ∷ 3 ∷ [];
  election_timeout = λ i. pos i;
  heartbeat_timeout = λ i. pos 1;
  named = members_named;
}

abbrev ask : Message
ask = message request_vote 1 2 1

abbrev grant : Message
grant = record (message request_vote_resp 2 1 1) { vote_granted = true }

abbrev asked : Cluster
asked = flushed (stored (moved (start trio) 1 (tick (init (config_of trio 1)))) 1) 1

abbrev answered : Cluster
answered = flushed (stored (moved asked 2 (step ask (asked.nodes 2))) 2) 2

abbrev elected : Cluster
elected = moved answered 1 (step grant (answered.nodes 1))

abbrev Run : Cluster → Type 0
Run c = (g : Leading) × ReachLog trio c g

asked-Run : Run asked
unfolding has_vote init tick tick_election become_candidate stand quorum_size request_votes send
asked-Run = (
  _,
  goes_on (goes_on (goes_on begins (ticks 1 refl (omega arith)) tt) (saves 1 refl) tt)
      (sends 1 refl refl) refl,
)

answered-Run : Run answered
unfolding has_vote init tick tick_election become_candidate stand quorum_size request_votes send
    request_message take_messages step become_follower step_as step_follower handle_request_vote
    can_vote up_to_date last_index last_term leader_of
answered-Run = (
  _,
  goes_on (goes_on (goes_on asked-Run.1 (delivers ask refl (inl refl)) tt) (saves 2 refl) tt)
      (sends 2 refl refl) refl,
)

elected-Run : Run elected
unfolding has_vote init tick tick_election become_candidate stand quorum_size request_votes send
    request_message take_messages step become_follower step_as step_follower handle_request_vote
    can_vote up_to_date last_index last_term leader_of
elected-Run = (_, goes_on answered-Run.1 (delivers grant refl (inl refl)) tt)

elected_leads : (elected.nodes 1).role ≡ leader
unfolding init tick tick_election become_candidate stand quorum_size request_votes send
    request_message take_messages step become_follower step_as step_follower step_candidate
    handle_request_vote can_vote up_to_date last_index last_term leader_of count_vote record_vote
    with_vote has_vote become_leader take_office reset_peers broadcast_append_entries broadcast_to
    send_append_entries append_message entries_from term_at
elected_leads = refl

election_safety_example : ◌≡◌ {A = ℕ} 1 1
unfolding has_vote
election_safety_example =
    election_safety {c = elected} 1 1 (ReachLog-Reach elected-Run.1) refl refl elected_leads
      elected_leads refl

-- Node 1 takes a proposal and sends it to node 2 with its next heartbeat.
abbrev proposed : Cluster
proposed = moved elected 1 (propose (7 ∷ []) (elected.nodes 1)).0

abbrev sent : Cluster
sent = flushed (stored (moved proposed 1 (tick (proposed.nodes 1))) 1) 1

abbrev entry : LogEntry
entry = record { term = 1; index = 1; payload = 7 ∷ [] }

abbrev append : Message
append = record (message append_entries 1 2 1) { entries = entry ∷ [] }

abbrev replicated : Cluster
replicated = moved sent 2 (step append (sent.nodes 2))

sent-Run : Run sent
unfolding init tick tick_as tick_election tick_heartbeat become_candidate stand quorum_size
    request_votes send request_message take_messages step become_follower step_as step_follower
    step_candidate handle_request_vote can_vote up_to_date last_index last_term leader_of count_vote
    record_vote with_vote has_vote become_leader take_office reset_peers broadcast_append_entries
    broadcast_to send_append_entries append_message entries_from term_at propose propose_as
    maybe_commit commit_from count_replicas
sent-Run = (
  _,
  goes_on
      (goes_on
        (goes_on (goes_on elected-Run.1 (proposes 1 (7 ∷ []) refl) tt) (ticks 1 refl (omega arith))
          tt)
        (saves 1 refl) tt)
      (sends 1 refl refl) refl,
)

replicated-Run : Run replicated
unfolding init tick tick_as tick_election tick_heartbeat become_candidate stand quorum_size
    request_votes send request_message take_messages step become_follower step_as step_follower
    step_candidate handle_request_vote can_vote up_to_date last_index last_term leader_of count_vote
    record_vote with_vote has_vote become_leader take_office reset_peers broadcast_append_entries
    broadcast_to send_append_entries append_message entries_from term_at propose propose_as
    maybe_commit commit_from count_replicas
replicated-Run = (_, goes_on sent-Run.1 (delivers append refl (inr (inr (inl refl)))) tt)

log_matching_example : take 2 (replicated.nodes 1).log ≡ take 2 (replicated.nodes 2).log
unfolding init tick tick_as tick_election tick_heartbeat become_candidate stand quorum_size
    request_votes send request_message take_messages step become_follower step_as step_follower
    step_candidate handle_request_vote can_vote up_to_date last_index last_term leader_of count_vote
    record_vote with_vote has_vote become_leader take_office reset_peers broadcast_append_entries
    broadcast_to send_append_entries append_message entries_from term_at propose propose_as
    maybe_commit commit_from count_replicas handle_append_entries append_all append_entry
    is_consistent advance_commit
log_matching_example =
    log_matching {c = replicated} 1 2 1 replicated-Run.1 refl refl (omega arith) (omega arith) refl

terms_in_order_example :
    ((entry_at (replicated.nodes 2).log 0).term ≤ (entry_at (replicated.nodes 2).log 1).term)
    × ((entry_at (replicated.nodes 2).log 1).term ≤ (replicated.nodes 2).current_term)
unfolding init tick tick_as tick_election tick_heartbeat become_candidate stand quorum_size
    request_votes send request_message take_messages step become_follower step_as step_follower
    step_candidate handle_request_vote can_vote up_to_date last_index last_term leader_of count_vote
    record_vote with_vote has_vote become_leader take_office reset_peers broadcast_append_entries
    broadcast_to send_append_entries append_message entries_from term_at propose propose_as
    maybe_commit commit_from count_replicas handle_append_entries append_all append_entry
    is_consistent advance_commit
terms_in_order_example =
    terms_in_order {c = replicated} 2 0 1 replicated-Run.1 refl (omega arith) (omega arith)

-- Node 2 saves the entry and acknowledges it, and node 1 counts it.
abbrev ack : Message
ack = record (message append_entries_resp 2 1 1) { success = true; match_index = 1 }

abbrev acknowledged : Cluster
acknowledged = flushed (stored replicated 2) 2

abbrev counted : Cluster
counted = moved acknowledged 1 (step ack (acknowledged.nodes 1))

counted-Run : Run counted
unfolding init tick tick_as tick_election tick_heartbeat become_candidate stand request_votes send
    request_message take_messages step become_follower step_as step_follower step_candidate
    handle_request_vote can_vote up_to_date last_index last_term leader_of count_vote record_vote
    with_vote has_vote become_leader take_office reset_peers broadcast_append_entries broadcast_to
    send_append_entries append_message entries_from term_at propose propose_as maybe_commit
    commit_from count_replicas handle_append_entries append_all append_entry is_consistent
    advance_commit handle_append_entries_resp
counted-Run = (
  _,
  goes_on (goes_on (goes_on replicated-Run.1 (saves 2 refl) tt) (sends 2 refl refl) refl)
      (delivers ack refl (inl refl)) tt,
)

match_index_held_example :
    (has_vote 2 (1 ∷ 2 ∷ 3 ∷ []) ≡ true)
    × (1 < length (counted.nodes 1).log)
    × ((1 < (counted.saved 2).term)
        ⊎ ((1 ≡ (counted.saved 2).term)
            × (take 2 (counted-Run.0.disk 2) ≡ take 2 (counted.nodes 1).log)))
unfolding init tick tick_as tick_election tick_heartbeat become_candidate stand request_votes send
    request_message take_messages step become_follower step_as step_follower step_candidate
    handle_request_vote can_vote up_to_date last_index last_term leader_of count_vote record_vote
    with_vote has_vote become_leader take_office reset_peers broadcast_append_entries broadcast_to
    send_append_entries append_message entries_from term_at propose propose_as maybe_commit
    commit_from count_replicas handle_append_entries append_all append_entry is_consistent
    advance_commit handle_append_entries_resp quorum_size step_leader
match_index_held_example =
    match_index_held {c = counted} 1 2 counted-Run.1 refl refl (λ z. omega arith)
