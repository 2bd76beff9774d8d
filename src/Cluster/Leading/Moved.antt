-- ===== src/Cluster/Leading/Moved.antt =====
-- A step of one node of the cluster keeps the invariant, where what it writes is from leaders.
use mini_lsm.Prelude.{
  ℕ, ◌≡◌, refl, subst, inl, inr, Bool, List, Bool-cases, ◌==◌, if◌then◌else◌, eq_of_beq, beq_self,
  ◌⊎◌, All-imp,
}
use mini_lsm.Raft.Messages.{NodeId, LogEntry, Term}
use mini_lsm.Raft.State.{Raft, leader}
use mini_lsm.Raft.HardState.{hard, Extends}
use mini_lsm.Raft.Writes.{Writes, Prefix, OnAck-imp}
use mini_lsm.Cluster.{Setup, IsMember, Cluster, moved, update}
use mini_lsm.Cluster.History.{Votes, Grows, note, note-Grows}
use mini_lsm.Cluster.Invariant.{IsSound, IsSafe}
use mini_lsm.Cluster.Leading.{Leading, note_log, told}
use mini_lsm.Cluster.Leading.Backed.{leader-IsWon, Longer, Prefix-trans, IsBacked, IsFrom}
use mini_lsm.Cluster.Leading.Invariant.{
  IsLive, IsLed, Longer-update, Longer-refl, Grows-update, note_log-Prefix, Writes-IsLive, IsStored,
}
use mini_lsm.Cluster.Leading.Acked.{Holds, Writes-IsKept, IsAcked}

pub Grows-refl : (v : NodeId → Votes) (w : NodeId) → Grows (v w) (v w)
Grows-refl v w t ne = refl

module _ (s : Setup) (c : Cluster) (g : Leading) (h : IsLed s c g) (safe : IsSafe s c) (i : NodeId)
    (m : IsMember s i) where
  moved-IsSound :
      (r : Raft)
      → IsSafe s (moved c i r)
      → IsSound s c.saved_votes (c.saved i) (c.saved_votes i) (note (hard r) (c.votes i)) i r
  moved-IsSound r after =
      subst
        (λ (b : Bool).
          IsSound s c.saved_votes (c.saved i) (c.saved_votes i)
            (if b then note (hard r) (c.votes i) else c.votes i) i (if b then r else c.nodes i))
        (beq_self i) (after.nodes i m)

  moved_counted :
      (r : Raft) {P : Term → List LogEntry → Type 0}
      → Writes P (λ p. IsStored s c g p (c.nodes i).current_term) (c.nodes i) r
      → r.role ≡ leader
      → (p : NodeId) → (r.match_index p ≡ 0) ⊎ IsStored s c g p r.current_term (r.match_index p)
  moved_counted r w lead p = elim (w.matches lead p) [
    | inl none_ ↦ inl none_
    | inr (led_on, same, from) ↦ elim from [
      | inl kept ↦ rw kept (
          subst
            (λ t. ((c.nodes i).match_index p ≡ 0) ⊎ IsStored s c g p t ((c.nodes i).match_index p))
            same (h.counted i m led_on p))
      | inr told_ ↦ inr (subst (λ t. IsStored s c g p t (r.match_index p)) same told_)
    ]
  ]

  -- Node `i` goes on, and writes only what is from leaders.
  pub moved-IsLed :
      (r : Raft) {P : Term → List LogEntry → Type 0}
      → Extends (hard (c.nodes i)) (hard r)
      → IsSafe s (moved c i r)
      → Writes P (λ p. IsStored s c g p (c.nodes i).current_term) (c.nodes i) r
      → (P r.current_term r.log
          → Longer (update g.saved_led i (g.led i)) (update g.saved_led i (note_log r (g.led i)))
          → IsBacked s (update g.saved_led i (note_log r (g.led i))) r.current_term r.log)
      → Holds s (update g.saved_led i (g.led i)) P (c.nodes i) r
      → (Longer (update g.saved_led i (g.led i)) (update g.saved_led i (note_log r (g.led i)))
          → (log : List LogEntry) → P r.current_term log
          → IsFrom s (update g.saved_led i (note_log r (g.led i))) r.current_term log)
      → IsLed s (moved c i r) (told g i r)
  moved-IsLed r {P} ext after w backed keeps from =
      let l = g.led i in
      let v = c.votes i in
      let know = update g.saved_led i l in
      let votes = update c.saved_votes i v in
      let live = h.live i m in
      let grew = note_log-Prefix s know votes i l (c.nodes i) r live w in
      let longer : Longer know (update g.saved_led i (note_log r l)) =
        Longer-update g.saved_led g.saved_led i l (note_log r l) (Longer-refl g.saved_led) grew in
      let more = note-Grows v (hard (c.nodes i)) (hard r) (safe.nodes i m).agrees ext in
      let sound = moved-IsSound r after in
      let kept =
        Writes-IsLive s know votes i l (c.nodes i) r live w (update g.saved_led i (note_log r l))
          (update c.saved_votes i (note (hard r) v)) m longer
          (Grows-update s c.saved_votes c.saved_votes i v (note (hard r) v)
            (λ x mx. Grows-refl c.saved_votes x) more)
          (leader-IsWon s c.saved_votes _ _ _ i r sound m) (λ p. backed p longer) keeps
          (from longer) (λ t. rw (beq_self i) refl) in
      let stays : (p : NodeId) (t : Term) (n : ℕ)
          → IsStored s c g p t n
          → IsStored s (moved c i r) (told g i r) p t n =
        λ p t n (mp, kept_on, holds). (
          mp,
          kept_on,
          elim (Bool-cases (i == p)) [
            | inl e ↦ rw e (
                subst
                  (λ k.
                    IsAcked s (update g.saved_led k (g.led k)) (c.nodes k).current_term
                      (c.nodes k).log t n
                    → IsAcked s (update g.saved_led k (note_log r l)) r.current_term r.log t n)
                  (eq_of_beq i p e)
                  (Writes-IsKept s know (update g.saved_led i (note_log r l)) P
                    (λ p. IsStored s c g p (c.nodes i).current_term) (c.nodes i) r w longer keeps t
                    n)
                  holds)
            | inr e ↦ rw e holds
          ],
        ) in
      record {
        live = λ j mj. elim (Bool-cases (i == j)) [
          | inl e ↦ rw e (
              subst
                (λ k.
                  IsLive s (update g.saved_led k (note_log r l))
                    (update c.saved_votes k (note (hard r) v)) k (note_log r l) r)
                (eq_of_beq i j e) kept)
          | inr e ↦ rw e (h.live j mj)
        ];
        saved = h.saved;
        disk = h.disk;
        grown = λ j t. elim (Bool-cases (i == j)) [
          | inl e ↦ rw e (
              subst (λ k. Prefix (g.saved_led k t) (note_log r l t)) (eq_of_beq i j e)
                (Prefix-trans (g.saved_led i t) (l t) (note_log r l t) (h.grown i t) (grew t)))
          | inr e ↦ rw e (h.grown j t)
        ];
        settled = λ j. elim (Bool-cases (i == j)) [
          | inl e ↦ rw e (λ off. absurd (cc))
          | inr e ↦ rw e (h.settled j)
        ];
        acked =
            All-imp _ _ c.network
              (λ x. OnAck-imp x.type x.success _ _ (stays x.from x.term x.match_index)) h.acked;
        counted = λ j mj. elim (Bool-cases (i == j)) [
          | inl e ↦ rw e (λ lead p. elim (moved_counted r w lead p) [
            | inl none_ ↦ inl none_
            | inr some_ ↦ inr (stays p r.current_term (r.match_index p) some_)
          ])
          | inr e ↦ rw e (λ lead p. elim (h.counted j mj lead p) [
            | inl none_ ↦ inl none_
            | inr some_ ↦ inr (stays p (c.nodes j).current_term ((c.nodes j).match_index p) some_)
          ])
        ];
        network = h.network;
      }
