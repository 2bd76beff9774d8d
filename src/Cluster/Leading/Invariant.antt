-- ===== src/Cluster/Leading/Invariant.antt =====
-- The invariant behind log matching, for one node of src/raft/raft.cc and for the cluster.
use mini_lsm.Prelude.{
  true, ◌<◌, ◌≡◌, ◌≢◌, refl, sym, ◌∙◌, ap, subst, ◌⊎◌, inl, inr, List, [], ◌++◌, arith, Bool-cases,
  All, All-append, All-imp, ◌==◌, ◌&&◌, beq_self, ℕ,
}
use mini_lsm.Raft.Messages.{Message, NodeId, Term, LogEntry}
use mini_lsm.Raft.State.{Raft, leader, candidate}
use mini_lsm.Raft.Writes.{
  InWord, Enters, Writes, Prefix, Prefix-refl, OnAppend-imp, NextWithin, OnAck, OnAck-imp,
}
use mini_lsm.Cluster.{Setup, IsMember, Cluster, update}
use mini_lsm.Cluster.History.{Votes, Grows}
use mini_lsm.Cluster.Leading.{Led, Leading, is_leader, note_log}
use mini_lsm.Cluster.Leading.Backed.{
  IsWon, IsWon-more, Longer, IsBacked, IsBacked-more, IsHeld, IsHeld-more, IsFrom,
}
use mini_lsm.Cluster.Leading.Acked.{
  Acks, Acks-kept, Holds, IsAcked, IsKept-more, Writes-IsKept, sent-IsAcked,
}

-- `l` ends in the term `t`, and each of its logs is that of a term that `i` has won.
pub record IsRecord (s : Setup) (votes : NodeId → Votes) (i : NodeId) (t : Term) (l : Led)
    : Type 0 where
  pub early : (u : Term) → t < u → l u ≡ []
  pub wins : (u : Term) → l u ≢ [] → IsWon s votes i u

-- Node `i` in state `r`, which has led with `l`; `led` and `votes` are what it knows of all.
pub record IsLive (s : Setup) (led : NodeId → Led) (votes : NodeId → Votes) (i : NodeId) (l : Led)
    (r : Raft) : Type 0 where
  pub log : IsBacked s led r.current_term r.log
  pub leads : r.role ≡ leader → l r.current_term ≡ r.log
  pub stands : r.role ≡ candidate → l r.current_term ≡ []
  pub past : IsRecord s votes i r.current_term l
  pub in_word : InWord r
  pub outbox : All (IsHeld s led) r.out_msgs
  pub within : NextWithin r
  pub acks : All (Acks s led r) r.out_msgs

-- The member `p` has acknowledged the index `n` in term `t`: it holds it, and what is saved of it does.
abbrev pub IsStored : Setup → Cluster → Leading → NodeId → Term → ℕ → Type 0
IsStored s c g p t n =
    IsMember s p
    × IsAcked s g.saved_led (c.saved p).term (g.disk p) t n
    × IsAcked s (update g.saved_led p (g.led p)) (c.nodes p).current_term (c.nodes p).log t n

abbrev pub IsReported : Setup → Cluster → Leading → Message → Type 0
IsReported s c g m = OnAck m.type m.success (IsStored s c g m.from m.term m.match_index)

pub record IsLed (s : Setup) (c : Cluster) (g : Leading) : Type 0 where
  pub live :
      (i : NodeId)
      → IsMember s i
      → IsLive s
          (update g.saved_led i (g.led i))
          (update c.saved_votes i (c.votes i))
          i
          (g.led i)
          (c.nodes i)
  pub saved :
      (i : NodeId) → IsMember s i → IsRecord s c.saved_votes i (c.saved i).term (g.saved_led i)
  pub disk : (i : NodeId) → IsMember s i → IsBacked s g.saved_led (c.saved i).term (g.disk i)
  pub grown : Longer g.saved_led g.led
  pub settled :
      (i : NodeId)
      → g.fresh i ≡ true
      → ((t : Term) → g.led i t ≡ g.saved_led i t) × (g.disk i ≡ (c.nodes i).log)
  pub acked : All (IsReported s c g) c.network
  pub counted :
      (i : NodeId)
      → IsMember s i
      → (c.nodes i).role ≡ leader
      → (p : NodeId)
      → ((c.nodes i).match_index p ≡ 0)
        ⊎ IsStored s c g p (c.nodes i).current_term ((c.nodes i).match_index p)
  pub network : All (IsHeld s g.saved_led) c.network

pub IsRecord-more :
    (s : Setup) (u v : NodeId → Votes) (i : NodeId) (t : Term) (l : Led)
    → IsMember s i
    → ((w : NodeId) → IsMember s w → Grows (u w) (v w))
    → IsRecord s u i t l
    → IsRecord s v i t l
IsRecord-more s u v i t l m more h = record {
  early = h.early;
  wins = λ x ne. IsWon-more s u v i x m more (h.wins x ne);
}

pub IsLive-more :
    (s : Setup) (a b : NodeId → Led) (u v : NodeId → Votes) (i : NodeId) (l : Led) (r : Raft)
    → IsMember s i
    → Longer a b
    → ((w : NodeId) → IsMember s w → Grows (u w) (v w))
    → IsLive s a u i l r
    → IsLive s b v i l r
IsLive-more s a b u v i l r m longer more h = record {
  log = IsBacked-more s a b r.current_term r.current_term r.log longer (omega arith) h.log;
  leads = h.leads;
  stands = h.stands;
  past = IsRecord-more s u v i r.current_term l m more h.past;
  in_word = h.in_word;
  outbox = IsHeld-more s a b r.out_msgs longer h.outbox;
  within = h.within;
  acks = Acks-kept s a b r r r.out_msgs (IsKept-more s a b r.current_term r.log longer) h.acks;
}

-- The view of a node grows with the others as they are saved, and with itself.
pub Longer-update :
    (a b : NodeId → Led) (i : NodeId) (l m : Led)
    → Longer a b
    → ((t : Term) → Prefix (l t) (m t))
    → Longer (update a i l) (update b i m)
Longer-update a b i l m rest own w t = elim (Bool-cases (i == w)) [
  | inl e ↦ rw e (own t)
  | inr e ↦ rw e (rest w t)
]

pub Longer-refl : (a : NodeId → Led) → Longer a a
Longer-refl a w t = Prefix-refl (a w t) (a w t) refl

pub Grows-update :
    (s : Setup) (u v : NodeId → Votes) (i : NodeId) (x y : Votes)
    → ((w : NodeId) → IsMember s w → Grows (u w) (v w))
    → Grows x y
    → (w : NodeId) → IsMember s w
    → Grows (update u i x w) (update v i y w)
Grows-update s u v i x y rest own w m t = elim (Bool-cases (i == w)) [
  | inl e ↦ rw e (own t)
  | inr e ↦ rw e (rest w m t)
]

-- What a step of a node makes of the logs that it has led with.
note_log-cases :
    (r : Raft) (l : Led) (t : Term)
    → ((r.role ≡ leader) × (r.current_term ≡ t) × (note_log r l t ≡ r.log)) ⊎ (note_log r l t ≡ l t)
note_log-cases r l t = elim (Bool-cases (is_leader r.role && r.current_term == t)) [
  | inl now ↦ inl (ground arith, ground arith, rw now refl)
  | inr other ↦ inr (rw other refl)
]

module _ (s : Setup) (led : NodeId → Led) (votes : NodeId → Votes) (i : NodeId) (l : Led)
    (a b : Raft) {P : Term → List LogEntry → Type 0} {M : NodeId → ℕ → Type 0}
    (g : IsLive s led votes i l a) (w : Writes P M a b) where
  not_yet : Enters a b → l b.current_term ≡ []
  not_yet (inl (stood, same)) = subst (λ t. l t ≡ []) same (g.stands stood)
  not_yet (inr newer) = g.past.early b.current_term newer

  pub note_log-Prefix : (t : Term) → Prefix (l t) (note_log b l t)
  note_log-Prefix t = elim (note_log-cases b l t) [
    | inr other ↦ Prefix-refl (l t) (note_log b l t) other
    | inl (lead, now, is) ↦ elim (w.leads lead) [
      | inl (led_on, same, grew) ↦
          let before : l t ≡ a.log = ap l (sym now ∙ sym same) ∙ g.leads led_on in
          (grew.0, is ∙ grew.1 ∙ ap (λ x. x ++ grew.0) (sym before))
      | inr enters ↦
          let before : l t ≡ [] = ap l (sym now) ∙ not_yet enters in
          (b.log, is ∙ ap (λ x. x ++ b.log) (sym before))
    ]
  ]

  note_log_future : (t : Term) → b.current_term < t → note_log b l t ≡ []
  note_log_future t lt = elim (note_log-cases b l t) [
    | inl (lead, now, is) ↦ absurd (omega (arith, now))
    | inr other ↦ other ∙ g.past.early t (omega (arith, w.grows))
  ]

  note_log_candidate : b.role ≡ candidate → note_log b l b.current_term ≡ []
  note_log_candidate e = elim (note_log-cases b l b.current_term) [
    | inl (lead, now, is) ↦ absurd (cc)
    | inr other ↦ other ∙ not_yet (w.stands e)
  ]

  note_log_leader : b.role ≡ leader → note_log b l b.current_term ≡ b.log
  note_log_leader e = rw (e, beq_self b.current_term) refl

  -- A step of a node keeps the invariant, where what it writes is from leaders.
  pub Writes-IsLive :
      (led2 : NodeId → Led) (votes2 : NodeId → Votes)
      → IsMember s i
      → (longer : Longer led led2) → ((w : NodeId) → IsMember s w → Grows (votes w) (votes2 w))
      → (b.role ≡ leader → IsWon s votes2 i b.current_term)
      → (P b.current_term b.log → IsBacked s led2 b.current_term b.log)
      → Holds s led P a b
      → ((log : List LogEntry) → P b.current_term log → IsFrom s led2 b.current_term log)
      → ((t : Term) → led2 i t ≡ note_log b l t)
      → IsLive s led2 votes2 i (note_log b l) b
  Writes-IsLive led2 votes2 m longer more won backed keeps from own =
      let now : IsBacked s led2 b.current_term b.log = elim w.log [
        | inl kept ↦
            subst (IsBacked s led2 b.current_term) (sym kept)
              (IsBacked-more s led led2 a.current_term b.current_term a.log longer w.grows g.log)
        | inr (wrote, over) ↦ backed wrote
      ] in
      record {
        log = now;
        leads = note_log_leader;
        stands = note_log_candidate;
        past = record {
          early = note_log_future;
          wins = λ t ne. elim (note_log-cases b l t) [
            | inl (lead, same, is) ↦ subst (IsWon s votes2 i) same (won lead)
            | inr other ↦ IsWon-more s votes votes2 i t m more (g.past.wins t (λ z. ne (other ∙ z)))
          ];
        };
        in_word = w.in_word;
        outbox = rw w.queued (
            All-append _ a.out_msgs w.sent (IsHeld-more s led led2 a.out_msgs longer g.outbox) (
              All-imp _ _ w.sent
                (λ x sl.
                  OnAppend-imp x.type _ _
                    (λ (lead, same, slice). (
                      b.log,
                      (
                        subst (λ t. IsBacked s led2 t b.log) (sym same) now,
                        subst (λ t. IsFrom s led2 t b.log) (sym same)
                            (
                              i,
                              m,
                              Prefix-refl b.log (led2 i b.current_term)
                                  (own b.current_term ∙ note_log_leader lead),
                            ),
                      ),
                      slice,
                    ))
                    sl.0)
                w.slices));
        within = w.within;
        acks = rw w.queued (
            All-append _ a.out_msgs w.sent
              (Acks-kept s led led2 a b a.out_msgs (Writes-IsKept s led led2 P M a b w longer keeps)
                g.acks)
              (All-imp _ _ w.sent
                (λ x sl.
                  OnAck-imp x.type x.success _ _
                    (λ (same, (part, wrote, holds)).
                      sent-IsAcked s led2 b.current_term x.term b.log part x.match_index same
                        (from part wrote) holds)
                    sl.1)
                w.slices));
      }
