-- ===== src/Cluster/Leading/Sent.antt =====
-- What a node of the cluster sends after it was saved.
use mini_lsm.Prelude.{
  true, ◌≡◌, sym, subst, inl, inr, [], Bool-cases, All-append, ◌==◌, eq_of_beq, ℕ, ◌⊎◌, All-imp,
  ◌∷◌, false, ap, All, List,
}
use mini_lsm.Raft.Messages.{NodeId, Term, Message}
use mini_lsm.Raft.State.{Raft, leader}
use mini_lsm.Raft.HardState.{HardState}
use mini_lsm.Raft.Core.{take_messages}
use mini_lsm.Raft.Writes.{Prefix, Prefix-refl, OnAck-imp}
use mini_lsm.Cluster.{Setup, IsMember, Cluster, flushed, update}
use mini_lsm.Cluster.History.{Votes}
use mini_lsm.Cluster.Invariant.{IsSafe, Promised}
use mini_lsm.Cluster.Leading.{Led, Leading}
use mini_lsm.Cluster.Leading.Backed.{Longer, IsHeld-more}
use mini_lsm.Cluster.Leading.Invariant.{IsLive, IsLed, Longer-refl, IsStored, IsReported}
use mini_lsm.Cluster.Leading.Acked.{IsAcked, IsKept-more, Acks}

All-both-imp {κ μ ν} :
    (P : Message → Type κ) (Q : Message → Type μ) (R : Message → Type ν) (ms : List Message)
    → ((x : Message) → P x → Q x → R x)
    → All P ms
    → All Q ms
    → All R ms
All-both-imp P Q R [] f h k = tt
All-both-imp P Q R (x ∷ xs) f h k = (f x h.0 k.0, All-both-imp P Q R xs f h.1 k.1)

module _ (s : Setup) (c : Cluster) (g : Leading) (h : IsLed s c g) (safe : IsSafe s c) (i : NodeId)
    (m : IsMember s i) where
  -- What is saved of the others, and what `i` is.
  abbrev known : NodeId → Led
  known = update g.saved_led i (g.led i)

  emptied-IsLive :
      (led : NodeId → Led) (votes : NodeId → Votes) (j : NodeId) (l : Led) (r : Raft)
      → IsLive s led votes j l r
      → IsLive s led votes j l (record r { out_msgs = [] })
  emptied-IsLive led votes j l r k = record {
    log = k.log;
    leads = k.leads;
    stands = k.stands;
    past = k.past;
    in_word = k.in_word;
    outbox = tt;
    within = k.within;
    acks = tt;
  }

  -- A node that has saved what it led with knows no more than is saved.
  saved-known : ((t : Term) → g.led i t ≡ g.saved_led i t) → Longer known g.saved_led
  saved-known same w t = elim (Bool-cases (i == w)) [
    | inl e ↦ rw e (
        subst (λ k. Prefix (g.led i t) (g.saved_led k t)) (eq_of_beq i w e)
          (Prefix-refl (g.led i t) (g.saved_led i t) (sym (same t))))
    | inr e ↦ rw e (Longer-refl g.saved_led w t)
  ]

  emptied-IsStored :
      (p : NodeId) (t : Term) (n : ℕ) → IsStored s c g p t n → IsStored s (flushed c i) g p t n
  unfolding take_messages
  emptied-IsStored p t n (mp, kept_on, holds) = (
    mp,
    kept_on,
    elim (Bool-cases (i == p)) [
      | inl e ↦ rw e (
          subst
            (λ k.
              IsAcked s (update g.saved_led k (g.led k)) (c.nodes k).current_term (c.nodes k).log t
                n
              → IsAcked s (update g.saved_led k (g.led k)) (c.nodes i).current_term (c.nodes i).log
                  t n)
            (eq_of_beq i p e) (λ x. x) holds)
      | inr e ↦ rw e holds
    ],
  )

  sends_counted :
      (j : NodeId)
      → IsMember s j
      → (c.nodes j).role ≡ leader
      → (p : NodeId)
      → ((c.nodes j).match_index p ≡ 0)
        ⊎ IsStored s (flushed c i) g p (c.nodes j).current_term ((c.nodes j).match_index p)
  sends_counted j mj lead p = elim (h.counted j mj lead p) [
    | inl none_ ↦ inl none_
    | inr some_ ↦
        inr (emptied-IsStored p (c.nodes j).current_term ((c.nodes j).match_index p) some_)
  ]

  -- A node sends only what is saved.
  sent-IsStored :
      (c.nodes i).hard_state_dirty ≡ false
      → ((t : Term) → g.led i t ≡ g.saved_led i t) × (g.disk i ≡ (c.nodes i).log)
      → (p : NodeId) (t : Term) (n : ℕ) → p ≡ i
      → IsAcked s known (c.nodes i).current_term (c.nodes i).log t n
      → IsStored s c g p t n
  sent-IsStored off same p t n self h0 =
      let state : (c.nodes i).current_term ≡ (c.saved i).term =
        ap (λ (x : HardState). x.term) (sym ((safe.nodes i m).clean off).0) in
      subst (λ k. IsStored s c g k t n) (sym self)
        (
          m,
          subst (λ u. IsAcked s g.saved_led u (g.disk i) t n) state
              (subst (λ l. IsAcked s g.saved_led (c.nodes i).current_term l t n) (sym same.1)
                (IsKept-more s known g.saved_led (c.nodes i).current_term (c.nodes i).log
                  (saved-known same.0) t n h0)),
          h0,
        )

  sent_acked :
      (c.nodes i).hard_state_dirty ≡ false
      → ((t : Term) → g.led i t ≡ g.saved_led i t) × (g.disk i ≡ (c.nodes i).log)
      → All (IsReported s c g) (c.nodes i).out_msgs
  sent_acked off same =
      All-both-imp (Promised (c.votes i) i) (Acks s known (c.nodes i)) (IsReported s c g)
        (c.nodes i).out_msgs
        (λ x own.
          OnAck-imp x.type x.success _ _ (sent-IsStored off same x.from x.term x.match_index own.0))
        (safe.nodes i m).outbox (h.live i m).acks

  pub sends-IsLed :
      (c.nodes i).hard_state_dirty ≡ false → g.fresh i ≡ true → IsLed s (flushed c i) g
  unfolding take_messages
  sends-IsLed off on = record {
    live = λ j mj. elim (Bool-cases (i == j)) [
      | inl e ↦ rw e (
          subst
            (λ k.
              IsLive s (update g.saved_led k (g.led k)) (update c.saved_votes k (c.votes k)) k
                (g.led k) (record (c.nodes i) { out_msgs = [] }))
            (eq_of_beq i j e) (emptied-IsLive _ _ i (g.led i) (c.nodes i) (h.live i m)))
      | inr e ↦ rw e (h.live j mj)
    ];
    saved = h.saved;
    disk = h.disk;
    grown = h.grown;
    settled = λ j. elim (Bool-cases (i == j)) [
      | inl e ↦ rw e (
          subst
            (λ k.
              g.fresh k ≡ true
              → ((t : Term) → g.led k t ≡ g.saved_led k t) × (g.disk k ≡ (c.nodes i).log))
            (eq_of_beq i j e) (h.settled i))
      | inr e ↦ rw e (h.settled j)
    ];
    acked =
        All-append _ (c.nodes i).out_msgs c.network
          (All-imp _ _ (c.nodes i).out_msgs
            (λ x. OnAck-imp x.type x.success _ _ (emptied-IsStored x.from x.term x.match_index))
            (sent_acked off (h.settled i on)))
          (All-imp _ _ c.network
            (λ x. OnAck-imp x.type x.success _ _ (emptied-IsStored x.from x.term x.match_index))
            h.acked);
    counted = λ j mj. elim (Bool-cases (i == j)) [
      | inl e ↦ rw e (sends_counted i m)
      | inr e ↦ rw e (sends_counted j mj)
    ];
    network =
        All-append _ (c.nodes i).out_msgs c.network
          (IsHeld-more s known g.saved_led (c.nodes i).out_msgs (saved-known (h.settled i on).0)
            (h.live i m).outbox)
          h.network;
  }
