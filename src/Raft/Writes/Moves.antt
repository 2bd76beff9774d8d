-- ===== src/Raft/Writes/Moves.antt =====
-- Each message that src/raft/raft.cc takes, as what it does to the log and what parts of it it queues.
use mini_lsm.Prelude.{
  ◌==◌, ℕ, ◌≤◌, ◌≡◌, refl, sym, ◌∙◌, subst, inl, inr, List, [], ◌∷◌, arith, Bool-cases, ltb, leb,
  length, append-nil, ◌&&◌, suc, ◌⊎◌, ◌≢◌, false, true, take, drop, take-append-drop,
  take-append_le, length-take, eq_of_beq, ap, ◌<◌,
}
use mini_lsm.Raft.Messages.{
  message, NodeId, Term, LogEntry, Message, MessageType, append_entries, request_vote,
  request_vote_resp, append_entries_resp,
}
use mini_lsm.Raft.State.{Raft, Role, follower, candidate, leader, quorum_size, send}
use mini_lsm.Raft.Leader.{handle_append_entries_resp}
use mini_lsm.Raft.Follower.{
  handle_request_vote, handle_append_entries, append_all, append_entry, advance_commit,
  become_follower, can_vote, up_to_date, is_consistent,
}
use mini_lsm.Raft.Core.{
  step, step_as, step_follower, step_candidate, step_leader, record_vote, count_vote, reject_stale,
  leader_of,
}
use mini_lsm.Raft.Ballot.{append_response, handle_append_entries-ballot, Ballot}
use mini_lsm.Raft.Commit.{maybe_commit-eq}
use mini_lsm.Raft.Log.{IsLog}
use mini_lsm.Raft.Log.Merge.{
  Slice, Matching, handle_append_entries-merges, IsMerge, Supersedes, match_of, match_of-lt,
}
use mini_lsm.Raft.Writes.{
  OnAppend, InWord, Writes, Writes-steady, Writes-refl, Writes-down, OnAck, OnAck-imp, IsSlice,
  NextWithin, Writes-sends,
}
use mini_lsm.Raft.Writes.Office.{become_leader-Writes}

heard-next_index : (es : List LogEntry) (r : Raft) → (append_all es r).next_index ≡ r.next_index
unfolding append_all append_entry
heard-next_index [] r = refl
heard-next_index (e ∷ es) r = heard-next_index es (append_entry e r) ∙ ground arith

handle_append_entries-next_index :
    (m : Message) (r : Raft) → (handle_append_entries m r).next_index ≡ r.next_index
unfolding handle_append_entries send advance_commit
handle_append_entries-next_index m r =
    ground
      (arith, heard-next_index m.entries (record r { leader_id = m.from; election_elapsed = 0 }))

-- What `BecomeFollower` leaves as it is.
stepped_down :
    (t : Term) (l : NodeId) (r : Raft)
    → r.current_term ≤ t
    → ((become_follower t l r).role ≡ follower)
      × ((become_follower t l r).current_term ≡ t)
      × ((become_follower t l r).log ≡ r.log)
      × ((become_follower t l r).out_msgs ≡ r.out_msgs)
      × ((become_follower t l r).next_index ≡ r.next_index)
unfolding become_follower
stepped_down t l r le = (refl, ground arith, ground arith, ground arith, ground arith)

take-below :
    (k n : ℕ) (xs ys : List LogEntry)
    → k ≤ n
    → n ≤ length xs
    → take n xs ≡ ys
    → take k xs ≡ take k ys
take-below k n xs ys le fit e =
    let front : k ≤ length (take n xs) = omega (arith, length-take n xs) in
    ap (take k) (sym (take-append-drop n xs))
    ∙ take-append_le (take n xs) (drop n xs) k front
    ∙ ap (take k) e

handle_request_vote-same :
    (m : Message) (r : Raft)
    → let b = handle_request_vote m r in
      ((b.role ≡ r.role) × (b.current_term ≡ r.current_term) × (b.log ≡ r.log))
      × ((b.next_index ≡ r.next_index) × (b.match_index ≡ r.match_index))
unfolding handle_request_vote send
handle_request_vote-same m r =
    ((ground arith, ground arith, ground arith), (ground arith, ground arith))

-- What the follower acknowledges it holds.
append_response-IsSlice :
    (P : Term → List LogEntry → Type 0) (m : Message) (r : Raft) (log : List LogEntry)
    → P (handle_append_entries m r).current_term log
    → Slice log m
    → IsLog log
    → ((is_consistent m r.log ≡ false) × ((handle_append_entries m r).log ≡ r.log))
      ⊎ ((is_consistent m r.log ≡ true) × IsMerge r.log log (handle_append_entries m r).log)
    → IsSlice P (handle_append_entries m r) (append_response m r)
unfolding append_response
append_response-IsSlice P m r log p s h (inl (no_, kept)) = rw no_ (tt, tt)
append_response-IsSlice P m r log p s h (inr (ok, (whole, result))) =
    let b = handle_append_entries m r in
    let term : b.current_term ≡ r.current_term =
      ap (λ (x : Ballot). x.current_term) (handle_append_entries-ballot m r) in
    let lt = match_of-lt m log s h in
    let size : length log ≤ length b.log =
      omega (arith, ap length whole, length-take (length log) b.log) in
    rw ok (
      tt,
      (
        sym term,
        (log, p, (lt, take-below (suc (match_of m)) (length log) b.log log lt size whole)),
      ),
    )

-- An index that is reported to a leader of the term is within its log, and is of `M`.
abbrev pub IsTold : (NodeId → ℕ → Type 0) → Message → Raft → Type 0
IsTold M m r =
    r.role ≡ leader
    → m.term ≡ r.current_term
    → (m.match_index < length r.log) × M m.from m.match_index

-- What a node may find in a message: in an AppendEntries a part of a log that satisfies `P`, and that is the
-- same as the node's own wherever the terms are; in an acknowledgement to a leader of the term an index
-- within its log.
abbrev pub Feeds : (Term → List LogEntry → Type 0) → (NodeId → ℕ → Type 0) → Message → Raft → Type 0
Feeds P M m r =
    OnAppend m.type
      ((log : List LogEntry) × P m.term log × IsLog log × Matching r.log log × Slice log m)
    × OnAck m.type m.success (IsTold M m r)

module _ {P : Term → List LogEntry → Type 0} {M : NodeId → ℕ → Type 0} (m : Message) where
  handle_request_vote-Writes :
      (r : Raft) → InWord r → NextWithin r → Writes P M r (handle_request_vote m r)
  unfolding handle_request_vote send
  handle_request_vote-Writes r =
      let same = handle_request_vote-same m r in
      Writes-sends
        (record (message request_vote_resp r.config.id m.from r.current_term) {
          vote_granted = can_vote m r && up_to_date m r;
        }
          ∷ [])
        same.0 same.1 (ground arith) ((tt, tt), tt)

  reject_stale-Writes :
      (t : MessageType) (r : Raft) → InWord r → NextWithin r → Writes P M r (reject_stale t m r)
  unfolding reject_stale send
  reject_stale-Writes request_vote r =
      Writes-sends (_ ∷ []) (refl, refl, refl) (refl, refl) refl ((tt, tt), tt)
  reject_stale-Writes append_entries r =
      Writes-sends (_ ∷ []) (refl, refl, refl) (refl, refl) refl ((tt, tt), tt)
  reject_stale-Writes _ r = Writes-refl r

  handle_append_entries_resp-Writes :
      (r : Raft)
      → r.current_term ≡ m.term
      → IsLog r.log
      → InWord r
      → NextWithin r
      → OnAck append_entries_resp m.success (IsTold M m r)
      → Writes P M r (handle_append_entries_resp m r)
  unfolding handle_append_entries_resp
  handle_append_entries_resp-Writes r now h w n told = elim (Bool-cases m.success) [
    | inl ok ↦
        let told_ok = subst (λ b. OnAck append_entries_resp b (IsTold M m r)) ok told in
        simp ok (
          rw (maybe_commit-eq _) (
            Writes-steady [] (refl, refl, refl) (λ p. ground (arith, w p))
              (λ lead p. elim (Bool-cases (m.from == p)) [
                | inl here ↦ rw here (omega (arith, (told_ok lead (sym now)).0))
                | inr there ↦ rw there (n lead p)
              ])
              (λ lead p. elim (Bool-cases (m.from == p)) [
                | inl here ↦ rw here (
                    inr (
                      lead,
                      refl,
                      inr (
                          subst (λ q. M q m.match_index) (eq_of_beq m.from p here)
                            (told_ok lead (sym now)).1),
                    ))
                | inr there ↦ rw there (inr (lead, refl, inl refl))
              ])
              (sym (append-nil r.out_msgs)) tt))
    | inr failed ↦ simp failed (
        Writes-steady [] (refl, refl, refl) (λ p. ground (arith, w p, w m.from))
          (λ lead p. ground (arith, n lead p, n lead m.from)) (λ lead p. inr (lead, refl, inl refl))
          (sym (append-nil r.out_msgs)) tt)
  ]

  handle_append_entries-Writes :
      (r : Raft)
      → r.role ≡ follower
      → r.current_term ≡ m.term
      → IsLog r.log
      → InWord r
      → (log : List LogEntry) × P m.term log × IsLog log × Matching r.log log × Slice log m
      → Writes P M r (handle_append_entries m r)
  handle_append_entries-Writes r down now h w (log, p, hl, match, s) =
      let same = handle_append_entries-ballot m r in
      let b = handle_append_entries m r in
      let term : b.current_term ≡ m.term = ap (λ (x : Ballot). x.current_term) same ∙ now in
      let role : b.role ≡ follower = ap (λ (x : Ballot). x.role) same ∙ down in
      let next = handle_append_entries-next_index m r in
      let merged = handle_append_entries-merges m r log s h hl match in
      let here = subst (λ t. P t log) (sym term) p in
      record {
        grows = ground (arith, same);
        leads = λ e. absurd (cc);
        stands = λ e. absurd (cc);
        log = elim merged [
          | inl (no_, kept) ↦ inl kept
          | inr (ok, (whole, result)) ↦ elim result [
            | inl kept ↦ inl kept
            | inr (took, over) ↦
                inr (
                  subst (P b.current_term) (sym took) here,
                  subst (Supersedes r.log) (sym took) over,
                )
          ]
        ];
        in_word = rw next w;
        within = λ e. absurd (cc);
        matches = λ e. absurd (cc);
        sent = append_response m r ∷ [];
        queued = ground (arith, same);
        slices = (append_response-IsSlice P m r log here s hl merged, tt);
      }

  step_follower-Writes :
      (t : MessageType) (r : Raft)
      → r.role ≡ follower
      → r.current_term ≡ m.term
      → IsLog r.log
      → InWord r
      → NextWithin r
      → OnAppend t
          ((log : List LogEntry) × P m.term log × IsLog log × Matching r.log log × Slice log m)
      → Writes P M r (step_follower t m r)
  unfolding step_follower
  step_follower-Writes request_vote r down now h w n feed = handle_request_vote-Writes r w n
  step_follower-Writes append_entries r down now h w n feed =
      handle_append_entries-Writes r down now h w feed
  step_follower-Writes request_vote_resp r down now h w n feed = Writes-refl r w n
  step_follower-Writes append_entries_resp r down now h w n feed = Writes-refl r w n

  count_vote-Writes :
      (r : Raft)
      → r.role ≡ candidate
      → IsLog r.log
      → InWord r
      → NextWithin r
      → Writes P M r (count_vote m r)
  unfolding count_vote record_vote
  count_vote-Writes r stands h w n =
      let counted = record_vote m.from r in
      elim (Bool-cases (leb (quorum_size counted) (length counted.votes_granted))) [
        | inl won ↦ rw won (become_leader-Writes r counted (refl, refl) (inl (stands, refl)) h)
        | inr lost ↦
            rw lost
              (Writes-sends [] (refl, refl, refl) (refl, refl) (sym (append-nil r.out_msgs)) tt w n)
      ]

  step_candidate-Writes :
      (t : MessageType) (r : Raft)
      → r.role ≡ candidate
      → r.current_term ≡ m.term
      → IsLog r.log
      → InWord r
      → NextWithin r
      → OnAppend t
          ((log : List LogEntry) × P m.term log × IsLog log × Matching r.log log × Slice log m)
      → Writes P M r (step_candidate t m r)
  unfolding step_candidate
  step_candidate-Writes request_vote r stands now h w n feed = handle_request_vote-Writes r w n
  step_candidate-Writes append_entries r stands now h w n feed =
      let down = become_follower m.term m.from r in
      let same = stepped_down m.term m.from r (omega arith) in
      Writes-down down (omega (arith, same.1), same.2, same.3) same.0
        (handle_append_entries-Writes down same.0 same.1 (rw same.2 h) (rw same.4 w)
          (rw same.2 feed))
  step_candidate-Writes request_vote_resp r stands now h w n feed =
      elim (Bool-cases m.vote_granted) [
        | inl granted ↦ simp granted (count_vote-Writes r stands h w n)
        | inr refused ↦ rw refused (Writes-refl r w n)
      ]
  step_candidate-Writes append_entries_resp r stands now h w n feed = Writes-refl r w n

  step_leader-Writes :
      (t : MessageType) (r : Raft)
      → r.current_term ≡ m.term
      → IsLog r.log
      → InWord r
      → NextWithin r
      → OnAck t m.success (IsTold M m r)
      → Writes P M r (step_leader t m r)
  unfolding step_leader
  step_leader-Writes request_vote r now h w n told = handle_request_vote-Writes r w n
  step_leader-Writes append_entries_resp r now h w n told =
      handle_append_entries_resp-Writes r now h w n told
  step_leader-Writes append_entries r now h w n told = Writes-refl r w n
  step_leader-Writes request_vote_resp r now h w n told = Writes-refl r w n

  step_as-Writes :
      (role : Role) (r : Raft)
      → r.role ≡ role
      → r.current_term ≡ m.term
      → IsLog r.log
      → InWord r
      → NextWithin r
      → Feeds P M m r
      → Writes P M r (step_as role m r)
  unfolding step_as
  step_as-Writes follower r e now h w n feed = step_follower-Writes m.type r e now h w n feed.0
  step_as-Writes candidate r e now h w n feed = step_candidate-Writes m.type r e now h w n feed.0
  step_as-Writes leader r e now h w n feed = step_leader-Writes m.type r now h w n feed.1

  -- A message writes nothing but the log that it holds a part of, and where it is in the term of the node.
  pub step-Writes :
      (r : Raft) → IsLog r.log → InWord r → NextWithin r → Feeds P M m r → Writes P M r (step m r)
  unfolding step
  step-Writes r h w n feed = elim (Bool-cases (ltb r.current_term m.term)) [
    | inl newer ↦
        let down = become_follower m.term (leader_of m.type m) r in
        let same = stepped_down m.term (leader_of m.type m) r (ground arith) in
        let not_leading : down.role ≢ leader = λ e. absurd (cc) in
        rw newer (
          Writes-down down (ground (arith, same.1), same.2, same.3) same.0
            (step_as-Writes down.role down refl same.1 (rw same.2 h) (rw same.4 w)
              (λ e. absurd (not_leading e))
              (
                rw same.2 feed.0,
                OnAck-imp m.type m.success _ _ (λ f e. absurd (not_leading e)) feed.1,
              )))
    | inr old ↦ rw old (elim (Bool-cases (ltb m.term r.current_term)) [
      | inl stale ↦ rw stale (reject_stale-Writes m.type r w n)
      | inr current ↦ rw current (step_as-Writes r.role r refl (ground arith) h w n feed)
    ])
  ]
