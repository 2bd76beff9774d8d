-- ===== src/Raft/Writes.antt =====
-- What one operation of src/raft/raft.cc does to the log of a node, to its role and term, and which parts
-- of the log it queues for others.
pub mod Office
pub mod Moves
pub mod Ticks
use mini_lsm.Prelude.{
  Bool, true, false, take, ℕ, suc, ◌+◌, ◌-◌, ◌≤◌, ◌<◌, ◌≡◌, refl, sym, ◌∙◌, ap, subst, ◌⊎◌, inl,
  inr, List, [], ◌∷◌, ◌++◌, arith, All, All-append, append-nil, length, length-drop, drop,
  drop-length, take-length, u64, sub64, zero, dec_le,
}
use mini_lsm.Raft.Messages.{
  NodeId, Term, LogEntry, Message, MessageType, append_entries, request_vote, request_vote_resp,
  append_entries_resp,
}
use mini_lsm.Raft.State.{Raft, Role, follower, candidate, leader, last_index}
use mini_lsm.Raft.Leader.{append_message, entries_from}
use mini_lsm.Raft.Log.{IsLog, suc-last_index}
use mini_lsm.Raft.Log.Merge.{Slice, Supersedes}
use mini_lsm.Raft.Propose.{entries_from-eq}

-- A condition on AppendEntries only.
abbrev pub OnAppend : MessageType → Type 0 → Type 0
OnAppend append_entries P = P
OnAppend request_vote P = Unit
OnAppend request_vote_resp P = Unit
OnAppend append_entries_resp P = Unit

pub OnAppend-imp : (t : MessageType) (P Q : Type 0) → (P → Q) → OnAppend t P → OnAppend t Q
OnAppend-imp append_entries P Q f h = f h
OnAppend-imp request_vote P Q f h = tt
OnAppend-imp request_vote_resp P Q f h = tt
OnAppend-imp append_entries_resp P Q f h = tt

-- A condition on the answers that report success.
abbrev pub OnAck : MessageType → Bool → Type 0 → Type 0
OnAck append_entries_resp true P = P
OnAck _ _ P = Unit

pub OnAck-imp : (t : MessageType) (b : Bool) (P Q : Type 0) → (P → Q) → OnAck t b P → OnAck t b Q
OnAck-imp append_entries_resp true P Q f h = f h
OnAck-imp append_entries_resp false P Q f h = tt
OnAck-imp append_entries b P Q f h = tt
OnAck-imp request_vote b P Q f h = tt
OnAck-imp request_vote_resp b P Q f h = tt

-- The log `a` holds the log `b` up to the index `n`.
abbrev pub HoldsUpTo : ℕ → List LogEntry → List LogEntry → Type 0
HoldsUpTo n a b = (n < length b) × (take (suc n) a ≡ take (suc n) b)

-- What a node sends: parts of its log as a leader, and acknowledgements of what it holds of others' logs.
abbrev pub IsSlice : (Term → List LogEntry → Type 0) → Raft → Message → Type 0
IsSlice P r m =
    OnAppend m.type ((r.role ≡ leader) × (m.term ≡ r.current_term) × Slice r.log m)
    × OnAck m.type m.success (
        (m.term ≡ r.current_term)
        × ((log : List LogEntry) × P r.current_term log × HoldsUpTo m.match_index r.log log))

-- The next indices are 64-bit numbers.
abbrev pub InWord : Raft → Type 0
InWord r = (p : NodeId) → r.next_index p < u64

-- A leader sends from no index past the end of its log.
abbrev pub NextWithin : Raft → Type 0
NextWithin r = r.role ≡ leader → (p : NodeId) → r.next_index p ≤ length r.log

-- Where a leader's match indices come from: nowhere, what it had before in this term, or `M`.
abbrev pub MatchFrom : (NodeId → ℕ → Type 0) → Raft → Raft → Type 0
MatchFrom M a b =
    b.role ≡ leader
    → (p : NodeId)
    → (b.match_index p ≡ 0)
      ⊎ ((a.role ≡ leader)
          × (a.current_term ≡ b.current_term)
          × ((b.match_index p ≡ a.match_index p) ⊎ M p (b.match_index p)))

abbrev pub Prefix : List LogEntry → List LogEntry → Type 0
Prefix a b = (rest : List LogEntry) × (b ≡ a ++ rest)

pub Prefix-refl : (a b : List LogEntry) → b ≡ a → Prefix a b
Prefix-refl a b e = ([], e ∙ sym (append-nil a))

-- The node enters the term, or campaigns in it already.
abbrev pub Enters : Raft → Raft → Type 0
Enters a b =
    ((a.role ≡ candidate) × (a.current_term ≡ b.current_term)) ⊎ (a.current_term < b.current_term)

-- The step from `a` to `b`: the log stays as it is or comes to satisfy `P`, a leader's log only grows, and
-- the AppendEntries that are queued hold parts of the log.
pub record Writes (P : Term → List LogEntry → Type 0) (M : NodeId → ℕ → Type 0) (a b : Raft)
    : Type 0 where
  pub grows : a.current_term ≤ b.current_term
  pub leads :
      b.role ≡ leader
      → ((a.role ≡ leader) × (a.current_term ≡ b.current_term) × Prefix a.log b.log) ⊎ Enters a b
  pub stands : b.role ≡ candidate → Enters a b
  pub log : (b.log ≡ a.log) ⊎ (P b.current_term b.log × Supersedes a.log b.log)
  pub in_word : InWord b
  pub within : NextWithin b
  pub matches : MatchFrom M a b
  pub sent : List Message
  pub queued : b.out_msgs ≡ a.out_msgs ++ sent
  pub slices : All (IsSlice P b) sent

-- A step that keeps the role, the term and the log.
pub Writes-steady :
    {P : Term → List LogEntry → Type 0} {M : NodeId → ℕ → Type 0} {a b : Raft} (sent : List Message)
    → (b.role ≡ a.role) × (b.current_term ≡ a.current_term) × (b.log ≡ a.log)
    → InWord b
    → NextWithin b
    → MatchFrom M a b
    → b.out_msgs ≡ a.out_msgs ++ sent
    → All (IsSlice P b) sent
    → Writes P M a b
Writes-steady {a} {b} sent same w n f q h = record {
  within = n;
  matches = f;
  grows = omega (arith, same.1);
  leads = λ e. inl (sym same.0 ∙ e, sym same.1, Prefix-refl a.log b.log same.2);
  stands = λ e. inl (sym same.0 ∙ e, sym same.1);
  log = inl same.2;
  in_word = w;
  sent = sent;
  queued = q;
  slices = h;
}

-- A step that leaves the maps of the leader too.
pub Writes-sends :
    {P : Term → List LogEntry → Type 0} {M : NodeId → ℕ → Type 0} {a b : Raft} (sent : List Message)
    → (b.role ≡ a.role) × (b.current_term ≡ a.current_term) × (b.log ≡ a.log)
    → (b.next_index ≡ a.next_index) × (b.match_index ≡ a.match_index)
    → b.out_msgs ≡ a.out_msgs ++ sent
    → All (IsSlice P b) sent
    → InWord a
    → NextWithin a
    → Writes P M a b
Writes-sends {a} {b} sent same maps q h w n =
    Writes-steady sent same (rw maps.0 w) (rw (same.0, same.2, maps.0) n)
      (λ lead p. inr (sym same.0 ∙ lead, sym same.1, inl (ap (λ (f : NodeId → ℕ). f p) maps.1))) q h

pub Writes-refl :
    {P : Term → List LogEntry → Type 0} {M : NodeId → ℕ → Type 0} (r : Raft)
    → InWord r
    → NextWithin r
    → Writes P M r r
Writes-refl r = Writes-sends [] (refl, refl, refl) (refl, refl) (sym (append-nil r.out_msgs)) tt

-- The node steps down to `c` first.
pub Writes-down :
    {P : Term → List LogEntry → Type 0} {M : NodeId → ℕ → Type 0} {a b : Raft} (c : Raft)
    → (a.current_term ≤ c.current_term) × (c.log ≡ a.log) × (c.out_msgs ≡ a.out_msgs)
    → c.role ≡ follower
    → Writes P M c b
    → Writes P M a b
Writes-down {P} {M} {a} {b} c same down w = record {
  within = w.within;
  matches = λ lead p. elim (w.matches lead p) [ inl none_ ↦ inl none_ | inr some_ ↦ absurd (cc) ];
  grows = omega (arith, same.0, w.grows);
  leads = λ e. elim (w.leads e) [
    | inl still ↦ absurd (cc)
    | inr enters ↦ elim enters [ inl again ↦ absurd (cc) | inr newer ↦ inr (inr (omega arith)) ]
  ];
  stands = λ e. elim (w.stands e) [ inl again ↦ absurd (cc) | inr newer ↦ inr (omega arith) ];
  log = elim w.log [
    | inl kept ↦ inl (kept ∙ same.1)
    | inr took ↦ inr (took.0, subst (λ l. Supersedes l b.log) same.1 took.1)
  ];
  in_word = w.in_word;
  sent = w.sent;
  queued = w.queued ∙ ap (λ ms. ms ++ w.sent) same.2;
  slices = w.slices;
}

entries_from-drop :
    (log : List LogEntry) (n : ℕ)
    → IsLog log
    → entries_from log n (suc (last_index log) - n) ≡ drop n log
unfolding entries_from
entries_from-drop log n h =
    let size : suc (last_index log) - n ≡ length log - n = ap (λ k. k - n) (suc-last_index log h) in
    ap (entries_from log n) size ∙ (elim (dec_le n (length log)) [
      | yes le ↦
          entries_from-eq log n (length log - n) (omega arith)
          ∙ take-length (length log - n) (drop n log) (omega (arith, length-drop n log))
      | no past ↦
          let none_left : length log - n ≡ 0 = omega arith in
          ap (entries_from log n) none_left ∙ sym (drop-length n log (omega arith))
    ])

-- What a leader sends to a peer is a part of its log.
pub append_message-Slice :
    (p : NodeId) (r : Raft)
    → IsLog r.log
    → InWord r
    → r.next_index p ≤ length r.log
    → Slice r.log (append_message p r)
unfolding append_message
append_message-Slice p r h w le = record {
  within = le;
  start = r.next_index p;
  entries = entries_from-drop r.log (r.next_index p) h;
  before = elim (dec_le 1 (r.next_index p)) [
    | yes some_ ↦ inr (let fits = w p in omega arith, refl)
    | no none_ ↦
        let zero_ : r.next_index p ≡ 0 = omega arith in inl (zero_, ap (λ n. sub64 n 1) zero_)
  ];
}

-- A step that runs the timers first.
pub Writes-timed :
    {P : Term → List LogEntry → Type 0} {M : NodeId → ℕ → Type 0} {b : Raft} (a : Raft)
    (election heartbeat : ℕ)
    → Writes P M (record a { election_elapsed = election; heartbeat_elapsed = heartbeat }) b
    → Writes P M a b
Writes-timed a election heartbeat w = record {
  grows = w.grows;
  leads = w.leads;
  stands = w.stands;
  log = w.log;
  in_word = w.in_word;
  within = w.within;
  matches = w.matches;
  sent = w.sent;
  queued = w.queued;
  slices = w.slices;
}
