-- ===== src/Cluster/Preserve.antt =====
-- Every event of the cluster keeps the invariant.
use mini_lsm.Prelude.{
  ℕ, ◌+◌, ◌<◌, ◌≡◌, ◌≢◌, refl, sym, ◌∙◌, ap, subst, inl, inr, false, List, [], ◌∷◌, arith,
  Bool-cases, All, All-append, All-imp, ◌==◌, if◌then◌else◌, eq_of_beq, u64,
}
use mini_lsm.Raft.Messages.{NodeId, Message, LogEntry}
use mini_lsm.Raft.State.{Raft, init}
use mini_lsm.Raft.HardState.{HardState, hard, propose-ballot}
use mini_lsm.Raft.Outbox.{OnGrant-imp, Queues-none, silent}
use mini_lsm.Raft.Outbox.Moves.{step-Queues, tick-Queues}
use mini_lsm.Raft.Standing.{Standing-imp, Claims}
use mini_lsm.Raft.Standing.Steps.{step-IsStanding, tick-IsStanding}
use mini_lsm.Raft.Core.{tick, step, propose, take_committed, take_messages, restore}
use mini_lsm.Cluster.{
  Setup, IsMember, Cluster, InNetwork, moved, stored, flushed, restarted, clean, revived, Step,
  ticks, delivers, proposes, applies, saves, sends, restarts, start, Reach, here, next,
}
use mini_lsm.Cluster.History.{Votes, Agrees, Grows}
use mini_lsm.Cluster.Invariant.{Voted, IsSound, Carried, IsSafe, member-ne-zero, moved-IsSafe}

pub All-InNetwork {κ} :
    (P : Message → Type κ) (m : Message) (ms : List Message) → InNetwork m ms → All P ms → P m
All-InNetwork P m [] k h = elim k [ ]
All-InNetwork P m (x ∷ xs) (inl e) h = subst P (sym e) h.0
All-InNetwork P m (x ∷ xs) (inr k) h = All-InNetwork P m xs k h.1

module _ (s : Setup) (c : Cluster) (safe : IsSafe s c) where
  ticks-IsSafe :
      (i : NodeId)
      → IsMember s i
      → (c.nodes i).current_term + 1 < u64
      → IsSafe s (moved c i (tick (c.nodes i)))
  ticks-IsSafe i m lt =
      let g = safe.nodes i m in
      moved-IsSafe s c i _ m (tick-Queues (c.nodes i) lt)
        (tick-IsStanding (Voted c.saved_votes i) (c.nodes i) (rw g.config m) g.standing) safe

  delivers-IsSafe :
      (m : Message)
      → IsMember s m.to
      → InNetwork m c.network
      → IsSafe s (moved c m.to (step m (c.nodes m.to)))
  delivers-IsSafe m mem sent =
      let g = safe.nodes m.to mem in
      let carried = All-InNetwork (Carried s c.saved_votes) m c.network sent safe.network in
      moved-IsSafe s c m.to _ mem (step-Queues m (c.nodes m.to) (member-ne-zero s m.from carried.0))
        (step-IsStanding (Voted c.saved_votes m.to) m (c.nodes m.to)
          (rw g.config (member-ne-zero s m.to mem))
          (rw g.config (OnGrant-imp m.type m.vote_granted _ _ (λ p. (carried.0, p.1)) carried.1))
          g.standing)
        safe

  proposes-IsSafe :
      (i : NodeId) (payload : List ℕ)
      → IsMember s i
      → IsSafe s (moved c i (propose payload (c.nodes i)).0)
  proposes-IsSafe i payload m =
      let same = propose-ballot payload (c.nodes i) in
      moved-IsSafe s c i _ m
        (Queues-none (silent (ground (arith, same)) (ground (arith, same)) (ground (arith, same))))
        (subst (Claims (Voted c.saved_votes i)) (sym same) (safe.nodes i m).standing) safe

  applies-IsSafe : (i : NodeId) → IsMember s i → IsSafe s (moved c i (take_committed (c.nodes i)).0)
  unfolding take_committed
  applies-IsSafe i m =
      moved-IsSafe s c i _ m (Queues-none (silent (ground arith) refl refl))
        (safe.nodes i m).standing safe

-- More saved votes keep what a node claims.
IsSound-more :
    (s : Setup) (sv sw : NodeId → Votes) (h : HardState) (u v : Votes) (i : NodeId) (r : Raft)
    → IsMember s i
    → ((w : NodeId) → Grows (sv w) (sw w))
    → IsSound s sv h u v i r
    → IsSound s sw h u v i r
IsSound-more s sv sw h u v i r m more g = record {
  config = g.config;
  agrees = g.agrees;
  kept = g.kept;
  grows = g.grows;
  clean = g.clean;
  outbox = g.outbox;
  standing =
      Standing-imp (Voted sv i) (Voted sw i) r.config r.role r.current_term r.voted_for
        r.votes_granted (λ w e. more w r.current_term (λ z. member-ne-zero s i m (sym e ∙ z)) ∙ e)
        g.standing;
}

clean-IsSound :
    (s : Setup) (sv : NodeId → Votes) (h : HardState) (u v : Votes) (i : NodeId) (r : Raft)
    → IsSound s sv h u v i r
    → IsSound s sv (if r.hard_state_dirty then hard r else h) v v i (clean r)
clean-IsSound s sv h u v i r g =
    let now : (if r.hard_state_dirty then hard r else h) ≡ hard r =
      elim (Bool-cases r.hard_state_dirty) [ inl d ↦ simp d | inr d ↦ simp d (g.clean d).0 ] in
    record {
      config = g.config;
      agrees = g.agrees;
      kept = subst (Agrees v) (sym now) g.agrees;
      grows = λ t ne. refl;
      clean = λ e. (now, λ t. refl);
      outbox = g.outbox;
      standing = g.standing;
    }

emptied-IsSound :
    (s : Setup) (sv : NodeId → Votes) (h : HardState) (u v : Votes) (i : NodeId) (r : Raft)
    → IsSound s sv h u v i r
    → IsSound s sv h u v i (record r { out_msgs = [] })
emptied-IsSound s sv h u v i r g = record {
  config = g.config;
  agrees = g.agrees;
  kept = g.kept;
  grows = g.grows;
  clean = g.clean;
  outbox = tt;
  standing = g.standing;
}

revived-IsSound :
    (s : Setup) (sv : NodeId → Votes) (h : HardState) (u : Votes) (i : NodeId)
    (entries : List LogEntry)
    → Agrees u h
    → IsSound s sv h u u i (revived s h entries i)
unfolding restore init
revived-IsSound s sv h u i entries k = record {
  config = refl;
  agrees = k;
  kept = k;
  grows = λ t ne. refl;
  clean = λ e. (refl, λ t. refl);
  outbox = tt;
  standing = tt;
}

module _ (s : Setup) (c : Cluster) (i : NodeId) (m : IsMember s i) (safe : IsSafe s c) where
  pub saves-Grows : (w : NodeId) → Grows (c.saved_votes w) ((stored c i).saved_votes w)
  saves-Grows w t ne = elim (Bool-cases (i == w)) [
    | inl e ↦ rw e (
        subst (λ k. c.saved_votes k t ≢ 0 → c.votes i t ≡ c.saved_votes k t) (eq_of_beq i w e)
          ((safe.nodes i m).grows t) ne)
    | inr e ↦ rw e refl
  ]

  saves-IsSafe : IsSafe s (stored c i)
  saves-IsSafe = record {
    nodes = λ j mj.
        IsSound-more s c.saved_votes _ _ _ _ j _ mj saves-Grows (elim (Bool-cases (i == j)) [
          | inl e ↦ rw e (
              subst
                (λ k.
                  IsSound s c.saved_votes
                    (if (c.nodes i).hard_state_dirty then hard (c.nodes i) else c.saved i)
                    (c.votes i) (c.votes k) k (clean (c.nodes i)))
                (eq_of_beq i j e)
                (clean-IsSound s c.saved_votes _ _ _ i (c.nodes i) (safe.nodes i m)))
          | inr e ↦ rw e (safe.nodes j mj)
        ]);
    network =
        All-imp _ _ c.network
          (λ x h. (
            h.0,
            OnGrant-imp x.type x.vote_granted _ _
                (λ p. (p.0, saves-Grows x.from x.term (λ z. p.0 (sym p.1 ∙ z)) ∙ p.1)) h.1,
          ))
          safe.network;
  }

  -- What a node sends rests on its saved votes, since its flag is off.
  sent-Carried :
      (c.nodes i).hard_state_dirty ≡ false → All (Carried s c.saved_votes) (c.nodes i).out_msgs
  sent-Carried d =
      let g = safe.nodes i m in
      let same = (g.clean d).1 in
      All-imp _ _ (c.nodes i).out_msgs
        (λ x h. (
          rw h.0 m,
          OnGrant-imp x.type x.vote_granted _ _
              (λ p. (p.0, ap (λ k. c.saved_votes k x.term) h.0 ∙ same x.term ∙ p.1)) h.1,
        ))
        g.outbox

  sends-IsSafe : (c.nodes i).hard_state_dirty ≡ false → IsSafe s (flushed c i)
  unfolding take_messages
  sends-IsSafe d = record {
    nodes = λ j mj. elim (Bool-cases (i == j)) [
      | inl e ↦ rw e (
          subst
            (λ k.
              IsSound s c.saved_votes (c.saved k) (c.saved_votes k) (c.votes k) k
                (record (c.nodes i) { out_msgs = [] }))
            (eq_of_beq i j e)
            (emptied-IsSound s c.saved_votes _ _ _ i (c.nodes i) (safe.nodes i m)))
      | inr e ↦ rw e (safe.nodes j mj)
    ];
    network = All-append _ (c.nodes i).out_msgs c.network (sent-Carried d) safe.network;
  }

  restarts-IsSafe : (entries : List LogEntry) → IsSafe s (restarted s c i entries)
  unfolding restore init
  restarts-IsSafe entries = record {
    nodes = λ j mj. elim (Bool-cases (i == j)) [
      | inl e ↦ rw e (
          subst
            (λ k.
              IsSound s c.saved_votes (c.saved k) (c.saved_votes k) (c.saved_votes i) k
                (revived s (c.saved i) entries i))
            (eq_of_beq i j e)
            (revived-IsSound s c.saved_votes (c.saved i) _ i entries (safe.nodes i m).kept))
      | inr e ↦ rw e (safe.nodes j mj)
    ];
    network = safe.network;
  }

start-IsSafe : (s : Setup) → IsSafe s (start s)
unfolding init
start-IsSafe s = record {
  nodes = λ i m. record {
    config = refl;
    agrees = record { present = refl; future = λ t lt. refl };
    kept = record { present = refl; future = λ t lt. refl };
    grows = λ t ne. refl;
    clean = λ e. (refl, λ t. refl);
    outbox = tt;
    standing = tt;
  };
  network = tt;
}

pub Step-IsSafe : {s : Setup} {c d : Cluster} → Step s c d → IsSafe s c → IsSafe s d
Step-IsSafe {s} {c} (ticks i m lt) g = ticks-IsSafe s c g i m lt
Step-IsSafe {s} {c} (delivers m mem sent) g = delivers-IsSafe s c g m mem sent
Step-IsSafe {s} {c} (proposes i payload m) g = proposes-IsSafe s c g i payload m
Step-IsSafe {s} {c} (applies i m) g = applies-IsSafe s c g i m
Step-IsSafe {s} {c} (saves i m) g = saves-IsSafe s c i m g
Step-IsSafe {s} {c} (sends i m d) g = sends-IsSafe s c i m g d
Step-IsSafe {s} {c} (restarts i entries m) g = restarts-IsSafe s c i m g entries

pub Reach-IsSafe : {s : Setup} {c : Cluster} → Reach s c → IsSafe s c
Reach-IsSafe {s} here = start-IsSafe s
Reach-IsSafe (next r st) = Step-IsSafe st (Reach-IsSafe r)
