-- ===== src/Cluster/Leading/Agreement.antt =====
-- Logs of the cluster of src/raft/raft.cc that come from leaders are the same wherever their terms are.
use mini_lsm.Prelude.{
  arith, ◌≡◌, ◌≢◌, refl, inl, inr, subst, [], Bool-cases, ◌==◌, eq_of_beq, List, ℕ, ◌<◌, length, ap,
  ◌∙◌, ◌∷◌, take, suc, ◌⊎◌, sym,
}
use mini_lsm.Raft.Messages.{NodeId, Term, LogEntry}
use mini_lsm.Raft.State.{leader}
use mini_lsm.Raft.Log.{IsLog}
use mini_lsm.Raft.Log.Merge.{Matching}
use mini_lsm.Raft.Writes.{Prefix, Prefix-refl}
use mini_lsm.Cluster.{Setup, IsMember, Cluster, update}
use mini_lsm.Cluster.History.{Grows}
use mini_lsm.Cluster.Invariant.{IsSafe}
use mini_lsm.Cluster.Leading.{Leading}
use mini_lsm.Cluster.Leading.Backed.{
  IsWon, IsWon-more, won_once, Longer, IsBacked, IsBacked-more, IsBacked-Matching, Prefix-take,
}
use mini_lsm.Cluster.Leading.Acked.{IsAcked}
use mini_lsm.Cluster.Leading.Invariant.{IsLed}

IsLog-length : (log : List LogEntry) → IsLog log → 0 < length log
IsLog-length [] h = absurd h
IsLog-length (e ∷ es) h = omega arith

module _ (s : Setup) (c : Cluster) (g : Leading) (safe : IsSafe s c) (h : IsLed s c g) where
  known_votes :
      (i w : NodeId) → IsMember s w → Grows (update c.saved_votes i (c.votes i) w) (c.votes w)
  known_votes i w m t = elim (Bool-cases (i == w)) [
    | inl e ↦
        rw e
          (subst (λ k. c.votes i t ≢ 0 → c.votes k t ≡ c.votes i t) (eq_of_beq i w e) (λ ne. refl))
    | inr e ↦ rw e ((safe.nodes w m).grows t)
  ]

  led-IsWon : (i : NodeId) (t : Term) → IsMember s i → g.led i t ≢ [] → IsWon s c.votes i t
  led-IsWon i t m ne =
      IsWon-more s (update c.saved_votes i (c.votes i)) c.votes i t m (known_votes i)
        ((h.live i m).past.wins t ne)

  led_once :
      (i j : NodeId) (t : Term)
      → IsMember s i
      → IsMember s j
      → g.led i t ≢ []
      → g.led j t ≢ []
      → i ≡ j
  led_once i j t mi mj ni nj = won_once s c.votes i j t (led-IsWon i t mi ni) (led-IsWon j t mj nj)

  known_led : (i : NodeId) → Longer (update g.saved_led i (g.led i)) g.led
  known_led i w t = elim (Bool-cases (i == w)) [
    | inl e ↦ rw e (
        subst (λ k. Prefix (g.led i t) (g.led k t)) (eq_of_beq i w e)
          (Prefix-refl (g.led i t) (g.led i t) refl))
    | inr e ↦ rw e (h.grown w t)
  ]

  pub node-IsBacked :
      (i : NodeId) → IsMember s i → IsBacked s g.led (c.nodes i).current_term (c.nodes i).log
  node-IsBacked i m =
      IsBacked-more s (update g.saved_led i (g.led i)) g.led (c.nodes i).current_term
        (c.nodes i).current_term (c.nodes i).log (known_led i) (omega arith) (h.live i m).log

  -- The log of a node and any log that is from leaders.
  pub node-Matching :
      (i : NodeId) (t : Term) (log : List LogEntry)
      → IsMember s i
      → IsBacked s g.led t log
      → Matching (c.nodes i).log log
  node-Matching i t log m b =
      IsBacked-Matching s g.led (c.nodes i).current_term t (c.nodes i).log log led_once
        (node-IsBacked i m) b

  saved_led_some :
      (w : NodeId) (t : Term) (n : ℕ) → n < length (g.saved_led w t) → n < length (g.led w t)
  saved_led_some w t n lt = (Prefix-take n (g.saved_led w t) (g.led w t) (h.grown w t) lt).0

  leader_same :
      (i w : NodeId) (n : ℕ)
      → IsMember s i
      → IsMember s w
      → (c.nodes i).role ≡ leader
      → n < length (g.saved_led w (c.nodes i).current_term)
      → Prefix (g.saved_led w (c.nodes i).current_term) (c.nodes i).log
  leader_same i w n mi mw lead lt =
      let t = (c.nodes i).current_term in
      let log = (h.live i mi).leads lead in
      let some_ = saved_led_some w t n lt in
      let full = IsLog-length (c.nodes i).log (h.live i mi).log.shape in
      let who : w ≡ i =
        led_once w i t mw mi (λ z. omega (arith, ap length z, some_))
          (λ z. omega (arith, ap length z, ap length log, full)) in
      let front = h.grown w t in (front.0, sym log ∙ ap (λ k. g.led k t) (sym who) ∙ front.1)

  -- What was acknowledged to a leader is in its log, and it is that log that is held.
  pub leader_holds :
      (i : NodeId) (n : ℕ) (now : Term) (held : List LogEntry)
      → IsMember s i
      → (c.nodes i).role ≡ leader
      → IsAcked s g.saved_led now held (c.nodes i).current_term n
      → (n < length (c.nodes i).log)
        × (((c.nodes i).current_term < now)
            ⊎ (((c.nodes i).current_term ≡ now)
                × (take (suc n) held ≡ take (suc n) (c.nodes i).log)))
  leader_holds i n now held mi lead (w, mw, lt, holds) =
      let t = (c.nodes i).current_term in
      let found =
        Prefix-take n (g.saved_led w t) (c.nodes i).log (leader_same i w n mi mw lead lt) lt in
      (found.0, elim holds [ inl past ↦ inl past | inr (same, is) ↦ inr (same, is ∙ found.1) ])

  -- The leader of a term that is saved is the one that a node knows.
  pub view_once :
      (i w x : NodeId) (t : Term) (k n : ℕ)
      → IsMember s w
      → IsMember s x
      → k < length (g.saved_led w t)
      → n < length (update g.saved_led i (g.led i) x t)
      → w ≡ x
  view_once i w x t k n mw mx a b =
      let left = saved_led_some w t k a in
      let right =
        (Prefix-take n (update g.saved_led i (g.led i) x t) (g.led x t) (known_led i x t) b).0 in
      led_once w x t mw mx (λ z. omega (arith, ap length z, left))
        (λ z. omega (arith, ap length z, right))
