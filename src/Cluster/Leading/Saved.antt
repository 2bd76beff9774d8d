-- ===== src/Cluster/Leading/Saved.antt =====
-- The save of a node of the cluster.
use mini_lsm.Prelude.{
  arith, true, ◌≡◌, refl, sym, subst, inl, inr, Bool-cases, ◌==◌, if◌then◌else◌, eq_of_beq, ℕ, ◌⊎◌,
  All-imp,
}
use mini_lsm.Raft.Messages.{NodeId, Term}
use mini_lsm.Raft.State.{Raft, leader}
use mini_lsm.Raft.HardState.{HardState, hard}
use mini_lsm.Raft.Writes.{Prefix, Prefix-refl, OnAck-imp}
use mini_lsm.Cluster.{Setup, IsMember, Cluster, stored, clean, update}
use mini_lsm.Cluster.History.{Votes, Grows}
use mini_lsm.Cluster.Invariant.{IsSafe}
use mini_lsm.Cluster.Preserve.{saves-Grows}
use mini_lsm.Cluster.Leading.{Led, Leading}
use mini_lsm.Cluster.Leading.Backed.{IsBacked, Longer, IsBacked-more, IsHeld-more}
use mini_lsm.Cluster.Leading.Invariant.{
  IsRecord, IsRecord-more, IsLive, IsLive-more, IsLed, Longer-update, Longer-refl, Grows-update,
  IsStored,
}
use mini_lsm.Cluster.Leading.Acked.{IsAcked, IsKept-more}

module _ (s : Setup) (c : Cluster) (g : Leading) (h : IsLed s c g) (safe : IsSafe s c) (i : NodeId)
    (m : IsMember s i) where
  -- What is saved of `i` becomes what it is.
  abbrev known : NodeId → Led
  known = update g.saved_led i (g.led i)

  saves-Longer : Longer g.saved_led known
  saves-Longer w t = elim (Bool-cases (i == w)) [
    | inl e ↦
        rw e (subst (λ k. Prefix (g.saved_led k t) (g.led i t)) (eq_of_beq i w e) (h.grown i t))
    | inr e ↦ rw e (Longer-refl g.saved_led w t)
  ]

  abbrev saved_votes : NodeId → Votes
  saved_votes = update c.saved_votes i (c.votes i)

  saves-more : (w : NodeId) → IsMember s w → Grows (c.saved_votes w) (saved_votes w)
  saves-more w mw = saves-Grows s c i m safe w

  saves-IsLive :
      (j : NodeId)
      → IsMember s j
      → IsLive s
          (update known j (g.led j))
          (update saved_votes j (c.votes j))
          j
          (g.led j)
          (c.nodes j)
  saves-IsLive j mj =
      IsLive-more s (update g.saved_led j (g.led j)) (update known j (g.led j))
        (update c.saved_votes j (c.votes j)) (update saved_votes j (c.votes j)) j (g.led j)
        (c.nodes j) mj
        (Longer-update g.saved_led known j (g.led j) (g.led j) saves-Longer
          (λ t. Prefix-refl (g.led j t) (g.led j t) refl))
        (Grows-update s c.saved_votes saved_votes j (c.votes j) (c.votes j) saves-more
          (λ t ne. refl))
        (h.live j mj)

  -- The flag and the stable index are not read by the invariant.
  clean-IsLive :
      (led : NodeId → Led) (votes : NodeId → Votes) (j : NodeId) (l : Led) (r : Raft)
      → IsLive s led votes j l r
      → IsLive s led votes j l (clean r)
  clean-IsLive led votes j l r k = record {
    log = k.log;
    leads = k.leads;
    stands = k.stands;
    past = k.past;
    in_word = k.in_word;
    outbox = k.outbox;
    within = k.within;
    acks = k.acks;
  }

  saves-hard :
      (if (c.nodes i).hard_state_dirty then hard (c.nodes i) else c.saved i) ≡ hard (c.nodes i)
  saves-hard = elim (Bool-cases (c.nodes i).hard_state_dirty) [
    | inl d ↦ simp d
    | inr d ↦ simp d ((safe.nodes i m).clean d).0
  ]

  saves-IsRecord :
      IsRecord s saved_votes i
        (if (c.nodes i).hard_state_dirty then hard (c.nodes i) else c.saved i).term
        (g.led i)
  saves-IsRecord =
      subst (λ (x : HardState). IsRecord s saved_votes i x.term (g.led i)) (sym saves-hard)
        (h.live i m).past

  saves-IsBacked :
      IsBacked s known
        (if (c.nodes i).hard_state_dirty then hard (c.nodes i) else c.saved i).term
        (c.nodes i).log
  saves-IsBacked =
      subst (λ (x : HardState). IsBacked s known x.term (c.nodes i).log) (sym saves-hard)
        (h.live i m).log

  abbrev after : Leading
  after = record g {
    disk = update g.disk i (c.nodes i).log;
    saved_led = known;
    fresh = update g.fresh i true;
  }

  -- What was acknowledged is saved, at the node that saves too.
  saves-IsStored :
      (p : NodeId) (t : Term) (n : ℕ) → IsStored s c g p t n → IsStored s (stored c i) after p t n
  saves-IsStored p t n (mp, kept_on, holds) =
      let view = update g.saved_led p (g.led p) in
      let longer : Longer view (update known p (g.led p)) =
        Longer-update g.saved_led known p (g.led p) (g.led p) saves-Longer
          (λ u. Prefix-refl (g.led p u) (g.led p u) refl) in
      let a = c.nodes p in
      let grown =
        IsKept-more s view (update known p (g.led p)) a.current_term a.log longer t n holds in
      elim (Bool-cases (i == p)) [
        | inl e ↦ rw e (
          mp,
          subst
              (λ k.
                IsAcked s (update g.saved_led k (g.led k)) (c.nodes k).current_term (c.nodes k).log
                  t n
                → IsAcked s known
                    (if (c.nodes i).hard_state_dirty then hard (c.nodes i) else c.saved i).term
                    (c.nodes i).log t n)
              (eq_of_beq i p e)
              (subst
                (λ (x : HardState).
                  IsAcked s known (c.nodes i).current_term (c.nodes i).log t n
                  → IsAcked s known x.term (c.nodes i).log t n)
                (sym saves-hard) (λ x. x))
              holds,
          subst
              (λ k.
                IsAcked s (update known k (g.led k)) (c.nodes k).current_term (c.nodes k).log t n
                → IsAcked s (update known k (g.led k)) (c.nodes i).current_term (c.nodes i).log t n)
              (eq_of_beq i p e) (λ x. x) grown,
        )
        | inr e ↦ rw e (
          mp,
          IsKept-more s g.saved_led known (c.saved p).term (g.disk p) saves-Longer t n kept_on,
          grown,
        )
      ]

  saves_counted :
      (j : NodeId)
      → IsMember s j
      → (c.nodes j).role ≡ leader
      → (p : NodeId)
      → ((c.nodes j).match_index p ≡ 0)
        ⊎ IsStored s (stored c i) after p (c.nodes j).current_term ((c.nodes j).match_index p)
  saves_counted j mj lead p = elim (h.counted j mj lead p) [
    | inl none_ ↦ inl none_
    | inr some_ ↦ inr (saves-IsStored p (c.nodes j).current_term ((c.nodes j).match_index p) some_)
  ]

  pub saves-IsLed : IsLed s (stored c i) (record g {
    disk = update g.disk i (c.nodes i).log;
    saved_led = known;
    fresh = update g.fresh i true;
  })
  saves-IsLed = record {
    live = λ j mj. elim (Bool-cases (i == j)) [
      | inl e ↦ rw e (
          subst
            (λ k.
              IsLive s (update known k (g.led k)) (update saved_votes k (c.votes k)) k (g.led k)
                (clean (c.nodes i)))
            (eq_of_beq i j e) (clean-IsLive _ _ i (g.led i) (c.nodes i) (saves-IsLive i m)))
      | inr e ↦ rw e (saves-IsLive j mj)
    ];
    saved = λ j mj. elim (Bool-cases (i == j)) [
      | inl e ↦ rw e (
          subst
            (λ k.
              IsRecord s saved_votes k
                (if (c.nodes i).hard_state_dirty then hard (c.nodes i) else c.saved i).term
                (g.led i))
            (eq_of_beq i j e) saves-IsRecord)
      | inr e ↦ rw e (
          IsRecord-more s c.saved_votes saved_votes j (c.saved j).term (g.saved_led j) mj saves-more
            (h.saved j mj))
    ];
    disk = λ j mj. elim (Bool-cases (i == j)) [
      | inl e ↦ rw e saves-IsBacked
      | inr e ↦ rw e (
          IsBacked-more s g.saved_led known _ _ (g.disk j) saves-Longer (omega arith) (h.disk j mj))
    ];
    grown = λ j t. elim (Bool-cases (i == j)) [
      | inl e ↦ rw e (
          subst (λ k. Prefix (g.led i t) (g.led k t)) (eq_of_beq i j e)
            (Prefix-refl (g.led i t) (g.led i t) refl))
      | inr e ↦ rw e (h.grown j t)
    ];
    settled = λ j. elim (Bool-cases (i == j)) [
      | inl e ↦ rw e (λ on. (λ t. subst (λ k. g.led k t ≡ g.led i t) (eq_of_beq i j e) refl, refl))
      | inr e ↦ rw e (h.settled j)
    ];
    acked =
        All-imp _ _ c.network
          (λ x. OnAck-imp x.type x.success _ _ (saves-IsStored x.from x.term x.match_index))
          h.acked;
    counted = λ j mj. elim (Bool-cases (i == j)) [
      | inl e ↦ rw e (saves_counted i m)
      | inr e ↦ rw e (saves_counted j mj)
    ];
    network = IsHeld-more s g.saved_led known c.network saves-Longer h.network;
  }
