-- ===== src/Raft/Writes/Office.antt =====
-- `BecomeLeader` and `BroadcastAppendEntries` of src/raft/raft.cc, as what they queue of the log.
use mini_lsm.Prelude.{
  ◌≡◌, refl, ◌∙◌, ap, inl, inr, List, [], ◌∷◌, arith, All, Bool-cases, ◌==◌, ℕ, ◌≤◌, ◌++◌, length,
}
use mini_lsm.Raft.Messages.{NodeId, LogEntry, Term}
use mini_lsm.Raft.State.{Raft, leader}
use mini_lsm.Raft.Leader.{
  append_message, become_leader, take_office, reset_peers, broadcast_append_entries,
}
use mini_lsm.Raft.Frames.{to_others, broadcast_to-eq, reset_peers-log}
use mini_lsm.Raft.Ballot.{Ballot, take_office-ballot, All-to_others}
use mini_lsm.Raft.Log.{IsLog, suc-last_index}
use mini_lsm.Raft.Writes.{
  IsSlice, InWord, Enters, Writes, Writes-steady, append_message-Slice, NextWithin,
}

reset_peers-InWord : (peers : List NodeId) (r : Raft) → InWord r → InWord (reset_peers peers r)
unfolding reset_peers
reset_peers-InWord [] r w = w
reset_peers-InWord (peer ∷ peers) r w =
    reset_peers-InWord peers _ (elim (Bool-cases (peer == r.config.id)) [
      | inl self ↦ rw self w
      | inr other ↦ rw other (λ p. elim (Bool-cases (peer == p)) [
        | inl here ↦ rw here (omega arith)
        | inr there ↦ rw there (w p)
      ])
    ])

pub take_office-InWord : (r : Raft) → InWord (take_office r)
unfolding take_office
take_office-InWord r = reset_peers-InWord r.config.peers _ (λ p. omega arith)

reset_peers-NextWithin :
    (peers : List NodeId) (r : Raft)
    → IsLog r.log
    → ((p : NodeId) → r.next_index p ≤ length r.log)
    → (p : NodeId) → (reset_peers peers r).next_index p ≤ length r.log
unfolding reset_peers
reset_peers-NextWithin [] r h w p = w p
reset_peers-NextWithin (peer ∷ peers) r h w p = elim (Bool-cases (peer == r.config.id)) [
  | inl self ↦ rw (reset_peers, self) (reset_peers-NextWithin peers r h w p)
  | inr other ↦
      rw (reset_peers, other)
        (reset_peers-NextWithin peers _ h
          (λ q. elim (Bool-cases (peer == q)) [
            | inl here ↦ rw here (omega (arith, suc-last_index r.log h))
            | inr there ↦ rw there (w q)
          ])
          p)
]

reset_peers-match_index :
    (peers : List NodeId) (r : Raft)
    → ((p : NodeId) → r.match_index p ≡ 0)
    → (p : NodeId) → (reset_peers peers r).match_index p ≡ 0
unfolding reset_peers
reset_peers-match_index [] r w p = w p
reset_peers-match_index (peer ∷ peers) r w p = elim (Bool-cases (peer == r.config.id)) [
  | inl self ↦ rw (reset_peers, self) (reset_peers-match_index peers r w p)
  | inr other ↦
      rw (reset_peers, other)
        (reset_peers-match_index peers _
          (λ q. elim (Bool-cases (peer == q)) [
            | inl here ↦ rw here refl
            | inr there ↦ rw there (w q)
          ])
          p)
]

take_office-next_index :
    (r : Raft) → IsLog r.log → (p : NodeId) → (take_office r).next_index p ≤ length r.log
unfolding take_office
take_office-next_index r h = reset_peers-NextWithin r.config.peers _ h (λ p. omega arith)

take_office-match_index : (r : Raft) (p : NodeId) → (take_office r).match_index p ≡ 0
unfolding take_office
take_office-match_index r = reset_peers-match_index r.config.peers _ (λ p. refl)

pub take_office-log : (r : Raft) → (take_office r).log ≡ r.log
unfolding take_office
take_office-log r = reset_peers-log r.config.peers _

-- A leader's messages to all the others hold parts of its log.
pub append_messages-IsSlice :
    (P : Term → List LogEntry → Type 0) (self : NodeId) (peers : List NodeId) (r : Raft)
    → r.role ≡ leader
    → IsLog r.log
    → InWord r
    → NextWithin r
    → All (IsSlice P r) (to_others (λ p. append_message p r) self peers)
append_messages-IsSlice P self peers r lead h w n = All-to_others _ _ self peers (λ p.
    let s = append_message-Slice p r h w (n lead p) in
    unfold append_message in ((lead, refl, s), tt))

-- What the broadcast of a new leader leaves as it is.
pub become_leader-eq :
    (c : Raft)
    → become_leader c ≡ record (take_office c) {
      out_msgs =
          (take_office c).out_msgs
          ++ to_others
              (λ p. append_message p (take_office c))
              (take_office c).config.id
              (take_office c).config.peers;
    }
unfolding become_leader broadcast_append_entries
become_leader-eq c = broadcast_to-eq (take_office c).config.peers (take_office c)

module _ {P : Term → List LogEntry → Type 0} {M : NodeId → ℕ → Type 0} where
  pub broadcast-Writes :
      (r : Raft)
      → r.role ≡ leader
      → IsLog r.log
      → InWord r
      → NextWithin r
      → Writes P M r (broadcast_append_entries r)
  unfolding broadcast_append_entries
  broadcast-Writes r lead h w n = rw (broadcast_to-eq r.config.peers r) (
      Writes-steady _ (refl, refl, refl) w n (λ led p. inr (lead, refl, inl refl)) refl
        (append_messages-IsSlice P r.config.id r.config.peers r lead h w n))

  -- A node that comes to have a majority in the term that it enters.
  pub become_leader-Writes :
      (a c : Raft)
      → (c.log ≡ a.log) × (c.out_msgs ≡ a.out_msgs)
      → Enters a c
      → IsLog c.log
      → Writes P M a (become_leader c)
  become_leader-Writes a c same won h =
      let o = take_office c in
      let b = take_office-ballot c in
      let lead : o.role ≡ leader = ap (λ (x : Ballot). x.role) b in
      let term : o.current_term ≡ c.current_term = ap (λ (x : Ballot). x.current_term) b in
      let log = take_office-log c in
      let next : NextWithin o = λ e p. rw log (take_office-next_index c h p) in
      rw (become_leader-eq c) (record {
        grows = ground arith;
        leads = λ e. inr (ground arith);
        stands = λ e. absurd (cc);
        log = inl (log ∙ same.0);
        in_word = take_office-InWord c;
        within = next;
        matches = λ e p. inl (take_office-match_index c p);
        sent = to_others (λ p. append_message p o) o.config.id o.config.peers;
        queued =
            ap (λ ms. ms ++ to_others (λ p. append_message p o) o.config.id o.config.peers)
              (ap (λ (x : Ballot). x.out_msgs) b ∙ same.1);
        slices =
            append_messages-IsSlice P o.config.id o.config.peers o lead (rw log h)
              (take_office-InWord c) next;
      })
