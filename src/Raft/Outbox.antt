-- ===== src/Raft/Outbox.antt =====
-- What the messages that a node of src/raft/raft.cc queues promise: its own name as the sender,
-- and behind each granted vote a hard state that keeps it.
pub mod Moves
use mini_lsm.Prelude.{
  ℕ, ◌<◌, ◌+◌, ◌≡◌, ◌≢◌, refl, sym, ap, subst, ◌⊎◌, inl, inr, Bool, true, false, List, [], ◌∷◌,
  ◌++◌, arith, Bool-cases, All, ◌∙◌, append_assoc, append-nil, ◌&&◌, All-append, All-imp, reached,
  ltb, leb, length, u64,
}
use mini_lsm.Raft.Messages.{
  message, NodeId, Term, Message, MessageType, request_vote, request_vote_resp, append_entries,
  append_entries_resp,
}
use mini_lsm.Raft.State.{Raft, Config, quorum_size, Role, follower, candidate, leader, send}
use mini_lsm.Raft.Leader.{
  append_message, become_leader, take_office, handle_append_entries_resp, broadcast_append_entries,
}
use mini_lsm.Raft.Follower.{
  handle_request_vote, handle_append_entries, become_follower, become_candidate, stand,
  request_message, request_votes, can_vote, up_to_date,
}
use mini_lsm.Raft.Core.{
  tick, tick_as, tick_election, tick_heartbeat, step, step_as, step_follower, step_candidate,
  step_leader, record_vote, count_vote, reject_stale, leader_of, propose,
}
use mini_lsm.Raft.Frames.{to_others, broadcast_to-eq, request_votes-eq}
use mini_lsm.Raft.Ballot.{
  Ballot, take_office-ballot, ballot, All-to_others, append_response, become_leader-ballot,
  handle_append_entries-ballot, handle_append_entries_resp-ballot,
}
use mini_lsm.Raft.HardState.{
  HardState, hard, Extends, Tracks, Tracks-refl, step-Tracks, tick-Tracks, Tracks-trans,
  handle_append_entries-Tracks, handle_request_vote-Tracks, become_leader-Tracks,
  become_follower-Tracks, reject_stale-Tracks, tick_heartbeat-Tracks, become_candidate-Tracks,
}

-- A hard state that holds a vote for `c` in term `t`.
abbrev pub Pledged : HardState → Term → NodeId → Type 0
Pledged h t c = (h.term ≡ t) × (h.vote ≡ c)

-- A condition on granted votes only.
abbrev pub OnGrant : MessageType → Bool → Type 0 → Type 0
OnGrant request_vote_resp true P = P
OnGrant _ _ P = Unit

abbrev pub IsHonest : NodeId → HardState → Message → Type 0
IsHonest i h m = (m.from ≡ i) × OnGrant m.type m.vote_granted ((m.to ≢ 0) × Pledged h m.term m.to)

pub OnGrant-imp :
    (t : MessageType) (g : Bool) (P Q : Type 0) → (P → Q) → OnGrant t g P → OnGrant t g Q
OnGrant-imp request_vote_resp true P Q f h = f h
OnGrant-imp request_vote_resp false P Q f h = tt
OnGrant-imp request_vote g P Q f h = tt
OnGrant-imp append_entries g P Q f h = tt
OnGrant-imp append_entries_resp g P Q f h = tt

pub OnGrant-true : (g : Bool) (P : Type 0) → (g ≡ true → P) → OnGrant request_vote_resp g P
OnGrant-true true P f = f refl
OnGrant-true false P f = tt

-- The step from `a` to `b` only queues more messages, and those are honest.
pub record Queues (a b : Raft) : Type 0 where
  pub tracks : Tracks a b
  pub config : b.config ≡ a.config
  pub sent : List Message
  pub queued : b.out_msgs ≡ a.out_msgs ++ sent
  pub honest : All (IsHonest a.config.id (hard b)) sent

-- The step from `a` to `b` leaves the outbox and the configuration alone.
pub record Silent (a b : Raft) : Type 0 where
  pub tracks : Tracks a b
  pub config : b.config ≡ a.config
  pub outbox : b.out_msgs ≡ a.out_msgs

pub silent : {a b : Raft} → Tracks a b → b.config ≡ a.config → b.out_msgs ≡ a.out_msgs → Silent a b
silent h k e = record { tracks = h; config = k; outbox = e }

pub Queues-none : {a b : Raft} → Silent a b → Queues a b
Queues-none s = record {
  tracks = s.tracks;
  config = s.config;
  sent = [];
  queued = rw append-nil s.outbox;
  honest = tt;
}

pub Queues-after : {a b c : Raft} → Silent a b → Queues b c → Queues a c
Queues-after {c} s q = record {
  tracks = Tracks-trans s.tracks q.tracks;
  config = q.config ∙ s.config;
  sent = q.sent;
  queued = q.queued ∙ ap (λ l. l ++ q.sent) s.outbox;
  honest = subst (λ (k : Config). All (IsHonest k.id (hard c)) q.sent) s.config q.honest;
}
