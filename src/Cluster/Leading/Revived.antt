-- ===== src/Cluster/Leading/Revived.antt =====
-- The restart of a node of the cluster from what was saved, and the state in which the cluster begins.
use mini_lsm.Prelude.{
  zero, suc, true, ◌≡◌, ◌≢◌, refl, sym, ◌∙◌, ap, subst, inl, inr, List, [], ◌∷◌, ◌++◌, arith,
  Bool-cases, ◌==◌, eq_of_beq, drop, take-append-drop, ℕ, All-imp,
}
use mini_lsm.Raft.Messages.{NodeId, LogEntry, Term}
use mini_lsm.Raft.State.{init, sentinel}
use mini_lsm.Raft.Core.{restore}
use mini_lsm.Raft.Writes.{Prefix, Prefix-refl, OnAck-imp}
use mini_lsm.Cluster.{Setup, IsMember, Cluster, restarted, revived, update, start}
use mini_lsm.Cluster.History.{Grows}
use mini_lsm.Cluster.Invariant.{IsSafe}
use mini_lsm.Cluster.Leading.{Led, Leading, no_leading}
use mini_lsm.Cluster.Leading.Backed.{Longer, IsBacked, IsSorted, IsUpTo, IsBacked-more}
use mini_lsm.Cluster.Leading.Invariant.{IsRecord-more, IsLive, IsLed, Longer-refl, IsStored}
use mini_lsm.Cluster.Leading.Acked.{IsAcked, IsKept-more}

module _ (s : Setup) (c : Cluster) (g : Leading) (h : IsLed s c g) (safe : IsSafe s c) (i : NodeId)
    (m : IsMember s i) where
  -- A node that comes back has the log of its disk.
  revived-log :
      (entries : List LogEntry)
      → entries ≡ drop 1 (g.disk i)
      → (revived s (c.saved i) entries i).log ≡ g.disk i
  unfolding restore init
  revived-log entries e =
      ap (λ es. sentinel ∷ es) e
      ∙ ap (λ front. front ++ drop 1 (g.disk i)) (sym (h.disk i m).first)
      ∙ take-append-drop 1 (g.disk i)

  own-Longer : Longer g.saved_led (update g.saved_led i (g.saved_led i))
  own-Longer w t = elim (Bool-cases (i == w)) [
    | inl e ↦ rw e (
        subst (λ k. Prefix (g.saved_led k t) (g.saved_led i t)) (eq_of_beq i w e)
          (Prefix-refl (g.saved_led i t) (g.saved_led i t) refl))
    | inr e ↦ rw e (Longer-refl g.saved_led w t)
  ]

  own-more :
      (w : NodeId)
      → IsMember s w
      → Grows (c.saved_votes w) (update c.saved_votes i (c.saved_votes i) w)
  own-more w mw t = elim (Bool-cases (i == w)) [
    | inl e ↦ rw e (
        subst (λ k. c.saved_votes k t ≢ 0 → c.saved_votes i t ≡ c.saved_votes k t) (eq_of_beq i w e)
          (λ ne. refl))
    | inr e ↦ rw e (λ ne. refl)
  ]

  revived-IsLive :
      (entries : List LogEntry)
      → entries ≡ drop 1 (g.disk i)
      → IsLive s
          (update g.saved_led i (g.saved_led i))
          (update c.saved_votes i (c.saved_votes i))
          i
          (g.saved_led i)
          (revived s (c.saved i) entries i)
  revived-IsLive entries e = record {
    log =
        unfold restore init in
        let own = update g.saved_led i (g.saved_led i) in
        subst (IsBacked s own (c.saved i).term) (sym (revived-log entries e)) (
          IsBacked-more s g.saved_led own (c.saved i).term (c.saved i).term (g.disk i) own-Longer
            (omega arith) (h.disk i m));
    leads = unfold restore init in λ x. absurd (cc);
    stands = unfold restore init in λ x. absurd (cc);
    past =
        unfold restore init in
        IsRecord-more s c.saved_votes _ i _ (g.saved_led i) m own-more (h.saved i m);
    in_word = unfold restore init in λ p. omega arith;
    outbox = unfold restore init in tt;
    within = unfold restore init in λ x. absurd (cc);
    acks = unfold restore init in tt;
  }

  abbrev after : Leading
  after = record g { led = update g.led i (g.saved_led i); fresh = update g.fresh i true }

  -- A node that comes back has what it had acknowledged, since that was saved.
  restarts-IsStored :
      (entries : List LogEntry)
      → entries ≡ drop 1 (g.disk i)
      → (p : NodeId) (t : Term) (n : ℕ) → IsStored s c g p t n
      → IsStored s (restarted s c i entries) after p t n
  restarts-IsStored entries e p t n (mp, kept_on, holds) = (
    mp,
    kept_on,
    elim (Bool-cases (i == p)) [
      | inl x ↦
          let own = update g.saved_led i (g.saved_led i) in
          rw x (
            subst
              (λ k.
                IsAcked s g.saved_led (c.saved k).term (g.disk k) t n
                → IsAcked s (update g.saved_led k (g.saved_led i))
                    (revived s (c.saved i) entries i).current_term
                    (revived s (c.saved i) entries i).log t n)
              (eq_of_beq i p x)
              (λ saved_one.
                subst (λ l. IsAcked s own (revived s (c.saved i) entries i).current_term l t n)
                  (sym (revived-log entries e))
                  (unfold restore in
                    IsKept-more s g.saved_led own (c.saved i).term (g.disk i) own-Longer t n
                      saved_one))
              kept_on)
      | inr x ↦ rw x holds
    ],
  )

  pub restarts-IsLed :
      (entries : List LogEntry)
      → entries ≡ drop 1 (g.disk i)
      → IsLed s
          (restarted s c i entries)
          (record g { led = update g.led i (g.saved_led i); fresh = update g.fresh i true })
  restarts-IsLed entries e = record {
    live = λ j mj. elim (Bool-cases (i == j)) [
      | inl x ↦ rw x (
          subst
            (λ k.
              IsLive s (update g.saved_led k (g.saved_led i))
                (update c.saved_votes k (c.saved_votes i)) k (g.saved_led i)
                (revived s (c.saved i) entries i))
            (eq_of_beq i j x) (revived-IsLive entries e))
      | inr x ↦ rw x (h.live j mj)
    ];
    saved = h.saved;
    disk = h.disk;
    grown = λ j t. elim (Bool-cases (i == j)) [
      | inl x ↦ rw x (
          subst (λ k. Prefix (g.saved_led k t) (g.saved_led i t)) (eq_of_beq i j x)
            (Prefix-refl (g.saved_led i t) (g.saved_led i t) refl))
      | inr x ↦ rw x (h.grown j t)
    ];
    settled = λ j. elim (Bool-cases (i == j)) [
      | inl x ↦ rw x (λ on. (
        λ t. subst (λ k. g.saved_led i t ≡ g.saved_led k t) (eq_of_beq i j x) refl,
        subst (λ k. g.disk k ≡ (revived s (c.saved i) entries i).log) (eq_of_beq i j x)
            (sym (revived-log entries e)),
      ))
      | inr x ↦ rw x (h.settled j)
    ];
    acked =
        All-imp _ _ c.network
          (λ x.
            OnAck-imp x.type x.success _ _
              (restarts-IsStored entries e x.from x.term x.match_index))
          h.acked;
    counted = λ j mj. elim (Bool-cases (i == j)) [
      | inl x ↦ rw x (unfold restore init in λ lead. absurd (cc))
      | inr x ↦ rw x (λ lead p. elim (h.counted j mj lead p) [
        | inl none_ ↦ inl none_
        | inr some_ ↦ inr (
            restarts-IsStored entries e p (c.nodes j).current_term ((c.nodes j).match_index p)
              some_)
      ])
    ];
    network = h.network;
  }

start-IsUpTo : IsUpTo 0 (sentinel ∷ [])
start-IsUpTo zero lt = omega arith
start-IsUpTo (suc k) lt = absurd (omega arith)

start-IsSorted : IsSorted (sentinel ∷ [])
start-IsSorted zero k le lt = omega arith
start-IsSorted (suc j) k le lt = absurd (omega arith)

start-IsBacked : (s : Setup) (led : NodeId → Led) → IsBacked s led 0 (sentinel ∷ [])
start-IsBacked s led = record {
  shape = (refl, (refl, tt));
  first = refl;
  written = λ k pos lt. absurd (omega arith);
  sorted = λ j k le lt. start-IsSorted j k le lt;
  up_to = λ k lt. start-IsUpTo k lt;
}

pub start-IsLed : (s : Setup) → IsLed s (start s) no_leading
unfolding init
start-IsLed s = record {
  live = λ i m. record {
    log = start-IsBacked s _;
    leads = λ e. absurd (cc);
    stands = λ e. absurd (cc);
    past = record { early = λ t lt. refl; wins = λ t ne. absurd (ne refl) };
    in_word = λ p. omega arith;
    outbox = tt;
    within = λ e. absurd (cc);
    acks = tt;
  };
  saved = λ i m. record { early = λ t lt. refl; wins = λ t ne. absurd (ne refl) };
  disk = λ i m. start-IsBacked s _;
  grown = λ w t. Prefix-refl [] [] refl;
  settled = λ i on. (λ t. refl, refl);
  acked = tt;
  counted = λ i m e. absurd (cc);
  network = tt;
}
