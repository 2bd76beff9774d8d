-- ===== src/Raft/Frames.antt =====
-- What the loops of src/raft/raft.cc that send a message to each peer change: the outbox alone.
use mini_lsm.Prelude.{
  ◌≡◌, ◌∙◌, ap, sym, List, [], ◌∷◌, ◌++◌, ◌==◌, if◌then◌else◌, append_assoc, append-nil, Bool-cases,
  inl, inr, refl, arith,
}
use mini_lsm.Raft.Messages.{NodeId, Message}
use mini_lsm.Raft.State.{Raft, send}
use mini_lsm.Raft.Leader.{
  append_message, send_append_entries, broadcast_to, reset_peers, take_office, become_leader,
  broadcast_append_entries,
}
use mini_lsm.Raft.Follower.{request_message, request_votes}

-- One message for each peer but the node itself, in the order of the peers.
unfoldable pub to_others : (NodeId → Message) → NodeId → List NodeId → List Message
to_others f self [] = []
to_others f self (peer ∷ peers) =
    if peer == self then to_others f self peers else f peer ∷ to_others f self peers

regroup :
    (r : Raft) (m : Message) (ms : List Message)
    → record r { out_msgs = (r.out_msgs ++ m ∷ []) ++ ms }
      ≡ record r { out_msgs = r.out_msgs ++ m ∷ ms }
regroup r m ms = ap (λ l. record r { out_msgs = l }) (append_assoc r.out_msgs (m ∷ []) ms)

pub broadcast_to-eq :
    (peers : List NodeId) (r : Raft)
    → broadcast_to peers r
      ≡ record r { out_msgs = r.out_msgs ++ to_others (λ p. append_message p r) r.config.id peers }
unfolding broadcast_to to_others send_append_entries
broadcast_to-eq [] r = ap (λ ms. record r { out_msgs = ms }) (sym (append-nil r.out_msgs))
broadcast_to-eq (peer ∷ peers) r = elim (Bool-cases (peer == r.config.id)) [
  | inl self ↦ rw self (broadcast_to-eq peers r)
  | inr other ↦
      rw other
        (broadcast_to-eq peers (send_append_entries peer r) ∙ regroup r (append_message peer r) _)
]

pub request_votes-eq :
    (peers : List NodeId) (r : Raft)
    → request_votes peers r
      ≡ record r { out_msgs = r.out_msgs ++ to_others (λ p. request_message p r) r.config.id peers }
unfolding request_votes to_others request_message send
request_votes-eq [] r = ap (λ ms. record r { out_msgs = ms }) (sym (append-nil r.out_msgs))
request_votes-eq (peer ∷ peers) r = elim (Bool-cases (peer == r.config.id)) [
  | inl self ↦ rw self (request_votes-eq peers r)
  | inr other ↦ rw other (
      request_votes-eq peers (send (request_message peer r) r)
      ∙ regroup r (request_message peer r) _)
]

pub reset_peers-log : (peers : List NodeId) (r : Raft) → (reset_peers peers r).log ≡ r.log
unfolding reset_peers
reset_peers-log [] r = refl
reset_peers-log (peer ∷ peers) r = reset_peers-log peers _ ∙ ground arith

pub become_leader-log : (r : Raft) → (become_leader r).log ≡ r.log
unfolding become_leader broadcast_append_entries take_office
become_leader-log r =
    ap (λ (x : Raft). x.log) (broadcast_to-eq (take_office r).config.peers (take_office r))
    ∙ reset_peers-log r.config.peers _
