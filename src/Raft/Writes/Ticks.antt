-- ===== src/Raft/Writes/Ticks.antt =====
-- `Tick` and `Propose` of src/raft/raft.cc, as what they do to the log and what parts of it they queue.
use mini_lsm.Prelude.{
  ℕ, ◌+◌, ◌<◌, ◌≡◌, refl, sym, inl, inr, List, [], ◌∷◌, ◌++◌, arith, Bool-cases, leb, length,
  reached, u64, append-nil, ◌≤◌, take-append_le, length-append,
}
use mini_lsm.Raft.Messages.{LogEntry, Term, NodeId}
use mini_lsm.Raft.State.{Raft, Role, follower, candidate, leader, quorum_size}
use mini_lsm.Raft.Follower.{become_candidate, stand, request_message}
use mini_lsm.Raft.Core.{tick, tick_as, tick_election, tick_heartbeat, propose}
use mini_lsm.Raft.Frames.{to_others, request_votes-eq}
use mini_lsm.Raft.Ballot.{All-to_others}
use mini_lsm.Raft.Commit.{maybe_commit-eq}
use mini_lsm.Raft.Propose.{propose-eq, propose_refused, proposal, extended}
use mini_lsm.Raft.Log.{IsLog}
use mini_lsm.Raft.Writes.{InWord, Writes, Writes-refl, Writes-timed, NextWithin, Writes-sends}
use mini_lsm.Raft.Writes.Office.{become_leader-Writes, broadcast-Writes}
use mini_lsm.Raft.Log.Merge.{Supersedes}

module _ {P : Term → List LogEntry → Type 0} {M : NodeId → ℕ → Type 0} where
  become_candidate-Writes :
      (a : Raft)
      → a.current_term + 1 < u64
      → IsLog a.log
      → InWord a
      → Writes P M a (become_candidate a)
  unfolding become_candidate
  become_candidate-Writes a lt h w =
      let c = stand a in
      let now : c.current_term ≡ a.current_term + 1 = unfold stand in omega arith in
      let same : (c.log ≡ a.log) × (c.out_msgs ≡ a.out_msgs) × (c.next_index ≡ a.next_index) =
        unfold stand in (refl, refl, refl) in
      let role : c.role ≡ candidate = unfold stand in refl in
      elim (Bool-cases (leb (quorum_size c) (length c.votes_granted))) [
        | inl won ↦
            rw won
              (become_leader-Writes a c (same.0, same.1) (inr (omega (arith, now))) (rw same.0 h))
        | inr more ↦ rw more (
            rw (request_votes-eq c.config.peers c) (record {
              grows = omega (arith, now);
              leads = λ e. absurd (cc);
              stands = λ e. inr (omega (arith, now));
              log = inl same.0;
              in_word = rw same.2 w;
              within = λ e. absurd (cc);
              matches = λ e. absurd (cc);
              sent = to_others (λ p. request_message p c) c.config.id c.config.peers;
              queued = rw same.1 refl;
              slices =
                  All-to_others _ _ c.config.id c.config.peers
                    (λ p. unfold request_message in (tt, tt));
            }))
      ]

  tick_election-Writes :
      (r : Raft)
      → r.current_term + 1 < u64
      → IsLog r.log
      → InWord r
      → NextWithin r
      → Writes P M r (tick_election r)
  unfolding tick_election
  tick_election-Writes r lt h w n =
      let ticked = record r { election_elapsed = r.election_elapsed + 1 } in
      elim (Bool-cases (reached (r.election_elapsed + 1) r.config.election_timeout)) [
        | inl due ↦ rw due (
            Writes-timed r (r.election_elapsed + 1) r.heartbeat_elapsed
              (become_candidate-Writes ticked lt h w))
        | inr wait ↦
            rw wait
              (Writes-sends [] (refl, refl, refl) (refl, refl) (sym (append-nil r.out_msgs)) tt w n)
      ]

  tick_heartbeat-Writes :
      (r : Raft)
      → r.role ≡ leader
      → IsLog r.log
      → InWord r
      → NextWithin r
      → Writes P M r (tick_heartbeat r)
  unfolding tick_heartbeat
  tick_heartbeat-Writes r lead h w n =
      let ticked = record r { heartbeat_elapsed = 0 } in
      elim (Bool-cases (reached (r.heartbeat_elapsed + 1) r.config.heartbeat_timeout)) [
        | inl due ↦
            rw due (Writes-timed r r.election_elapsed 0 (broadcast-Writes ticked lead h w n))
        | inr wait ↦
            rw wait
              (Writes-sends [] (refl, refl, refl) (refl, refl) (sym (append-nil r.out_msgs)) tt w n)
      ]

  tick_as-Writes :
      (role : Role) (r : Raft)
      → r.role ≡ role
      → r.current_term + 1 < u64
      → IsLog r.log
      → InWord r
      → NextWithin r
      → Writes P M r (tick_as role r)
  unfolding tick_as
  tick_as-Writes leader r e lt h w n = tick_heartbeat-Writes r e h w n
  tick_as-Writes follower r e lt h w n = tick_election-Writes r lt h w n
  tick_as-Writes candidate r e lt h w n = tick_election-Writes r lt h w n

  -- A tick writes nothing.
  pub tick-Writes :
      (r : Raft)
      → r.current_term + 1 < u64
      → IsLog r.log
      → InWord r
      → NextWithin r
      → Writes P M r (tick r)
  unfolding tick
  tick-Writes r = tick_as-Writes r.role r refl

-- A proposal writes its entry, at a leader alone.
abbrev pub IsProposal : List ℕ → Raft → Term → List LogEntry → Type 0
IsProposal payload r t log =
    (r.role ≡ leader) × (t ≡ r.current_term) × (log ≡ r.log ++ proposal payload r ∷ [])

extended-Supersedes : (log : List LogEntry) (e : LogEntry) → Supersedes log (log ++ e ∷ [])
extended-Supersedes log e = record {
  at = length log;
  same = sym (take-append_le log (e ∷ []) (length log) (omega arith));
  past = omega (arith, length-append log (e ∷ []));
  parts = inl refl;
}

module _ {M : NodeId → ℕ → Type 0} where
  propose_as-Writes :
      (role : Role) (payload : List ℕ) (r : Raft)
      → r.role ≡ role
      → IsLog r.log
      → InWord r
      → NextWithin r
      → Writes (IsProposal payload r) M r (propose payload r).0
  propose_as-Writes leader payload r e h w n =
      let longer : length r.log ≤ length (r.log ++ proposal payload r ∷ []) =
        omega (arith, length-append r.log (proposal payload r ∷ [])) in
      rw (propose-eq payload r e h) (
        rw (maybe_commit-eq (extended payload r)) (record {
          grows = omega arith;
          leads = λ lead. inl (e, refl, (proposal payload r ∷ [], refl));
          stands = λ stood. absurd (cc);
          log = inr ((e, refl, refl), extended-Supersedes r.log (proposal payload r));
          in_word = w;
          within = λ lead p. omega (arith, n e p, longer);
          matches = λ lead p. inr (e, refl, inl refl);
          sent = [];
          queued = sym (append-nil r.out_msgs);
          slices = tt;
        }))
  propose_as-Writes follower payload r e h w n =
      rw (propose_refused payload r (λ lead. absurd (cc))) (Writes-refl r w n)
  propose_as-Writes candidate payload r e h w n =
      rw (propose_refused payload r (λ lead. absurd (cc))) (Writes-refl r w n)

  pub propose-Writes :
      (payload : List ℕ) (r : Raft)
      → IsLog r.log
      → InWord r
      → NextWithin r
      → Writes (IsProposal payload r) M r (propose payload r).0
  propose-Writes payload r = propose_as-Writes r.role payload r refl
