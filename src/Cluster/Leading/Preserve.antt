-- ===== src/Cluster/Leading/Preserve.antt =====
-- Every event of the cluster that keeps the contract of its storage keeps the invariant.
use mini_lsm.Prelude.{
  arith, ◌++◌, ◌∷◌, ℕ, ◌+◌, ◌<◌, ◌≡◌, refl, sym, ◌∙◌, ap, subst, inl, inr, List, [], Bool-cases,
  ◌==◌, eq_of_beq, beq_self, u64, suc, ◌≤◌, length, take, length-take, take-append_le, true,
  All-imp,
}
use mini_lsm.Raft.Messages.{NodeId, Message, LogEntry, Term}
use mini_lsm.Raft.State.{Raft, leader}
use mini_lsm.Raft.HardState.{
  hard, Extends, Extends-refl, propose-ballot, step-Tracks, step-term_le, tick-Tracks,
}
use mini_lsm.Raft.Ballot.{Ballot}
use mini_lsm.Raft.Core.{tick, step, propose, take_committed}
use mini_lsm.Raft.Propose.{proposal, propose_taken}
use mini_lsm.Raft.Writes.{OnAppend-imp, Prefix, OnAck-imp, Prefix-refl}
use mini_lsm.Raft.Writes.Moves.{Feeds, step-Writes}
use mini_lsm.Raft.Writes.Ticks.{tick-Writes, propose-Writes, IsProposal}
use mini_lsm.Cluster.{
  Setup, IsMember, Cluster, InNetwork, moved, clean, update, Step, ticks, delivers, proposes,
  applies, saves, sends, restarts,
}
use mini_lsm.Cluster.History.{note, note-Grows}
use mini_lsm.Cluster.Invariant.{IsSafe}
use mini_lsm.Cluster.Preserve.{All-InNetwork, Step-IsSafe, Reach-IsSafe}
use mini_lsm.Cluster.Leading.{
  Led, Leading, note_log, told, follow, Keeps, ReachLog, begins, goes_on, ReachLog-Reach,
}
use mini_lsm.Cluster.Leading.Backed.{
  Longer, Prefix-trans, IsBacked, IsBacked-more, IsBacked-append, IsHeld, IsFrom, IsFrom-more,
  Prefix-take,
}
use mini_lsm.Cluster.Leading.Invariant.{
  IsLive, IsLive-more, IsLed, Longer-refl, Grows-update, IsStored, IsReported,
}
use mini_lsm.Cluster.Leading.Acked.{Holds, superseded, IsAcked}
use mini_lsm.Cluster.Leading.Saved.{saves-IsLed}
use mini_lsm.Cluster.Leading.Sent.{sends-IsLed}
use mini_lsm.Cluster.Leading.Revived.{start-IsLed, restarts-IsLed}
use mini_lsm.Cluster.Leading.Agreement.{node-Matching, leader_holds, view_once}
use mini_lsm.Cluster.Leading.Moved.{Grows-refl, moved-IsLed}

module _ (s : Setup) (c : Cluster) (g : Leading) (h : IsLed s c g) (safe : IsSafe s c) where
  ticks-IsLed :
      (i : NodeId) (m : IsMember s i)
      → (c.nodes i).current_term + 1 < u64
      → IsSafe s (moved c i (tick (c.nodes i)))
      → IsLed s (moved c i (tick (c.nodes i))) (told g i (tick (c.nodes i)))
  ticks-IsLed i m lt after =
      let live = h.live i m in
      moved-IsLed s c g h safe i m (tick (c.nodes i)) {P = λ t log. ⊥}
        (tick-Tracks (c.nodes i) lt).extends after
        (tick-Writes (c.nodes i) lt live.log.shape live.in_word live.within) (λ p longer. absurd p)
        (λ p. absurd p) (λ longer log p. absurd p)

  -- A part of what a leader of the term of the message had saved.
  abbrev IsSent : Message → Term → List LogEntry → Type 0
  IsSent m t log =
      (t ≡ m.term) × IsBacked s g.saved_led m.term log × IsFrom s g.saved_led m.term log

  -- What arrives agrees with the log of the node wherever the terms do, and what is acknowledged is there.
  delivered-Feeds :
      (m : Message)
      → IsMember s m.to
      → InNetwork m c.network
      → Feeds (IsSent m) (λ p. IsStored s c g p (c.nodes m.to).current_term) m (c.nodes m.to)
  delivered-Feeds m mem sent = (
    OnAppend-imp m.type _ _
        (λ (log, b, slice). (
          log,
          (refl, b.0, b.1),
          b.0.shape,
          node-Matching s c g safe h m.to m.term log mem
              (IsBacked-more s g.saved_led g.led m.term m.term log h.grown (omega arith) b.0),
          slice,
        ))
        (All-InNetwork (IsHeld s g.saved_led) m c.network sent h.network),
    OnAck-imp m.type m.success _ _
        (λ (known, acked, live) lead now. (
          (leader_holds s c g safe h m.to m.match_index (c.saved m.from).term (g.disk m.from) mem
              lead
              (subst
                (λ t. IsAcked s g.saved_led (c.saved m.from).term (g.disk m.from) t m.match_index)
                now acked)).0,
          subst (λ t. IsStored s c g m.from t m.match_index) now (known, acked, live),
        ))
        (All-InNetwork (IsReported s c g) m c.network sent h.acked),
  )

  -- What is saved of all the members is in the view of each.
  saved-Longer :
      (i : NodeId) (l : Led)
      → Longer (update g.saved_led i (g.led i)) (update g.saved_led i l)
      → Longer g.saved_led (update g.saved_led i l)
  saved-Longer i l longer w t =
      Prefix-trans (g.saved_led w t) (update g.saved_led i (g.led i) w t)
        (update g.saved_led i l w t)
        (elim (Bool-cases (i == w)) [
          | inl e ↦
              rw e
                (subst (λ k. Prefix (g.saved_led k t) (g.led i t)) (eq_of_beq i w e) (h.grown i t))
          | inr e ↦ rw e (Longer-refl g.saved_led w t)
        ])
        (longer w t)

  delivered-Holds :
      (m : Message) (r : Raft)
      → Holds s (update g.saved_led m.to (g.led m.to)) (IsSent m) (c.nodes m.to) r
  delivered-Holds m r (now, b, (w, mw, front)) over x n mx lt holds =
      let know = update g.saved_led m.to (g.led m.to) in
      let t = r.current_term in
      let whole : Prefix r.log (g.saved_led w t) =
        subst (λ u. Prefix r.log (g.saved_led w u)) (sym now) front in
      let past = Prefix-take over.at r.log (g.saved_led w t) whole over.past in
      let who = view_once s c g safe h m.to w x t over.at n mw mx past.0 lt in
      let saved_in = saved-Longer m.to (g.led m.to) (Longer-refl know) in
      superseded n (c.nodes m.to).log r.log (know x t) over
        (subst (λ k. Prefix r.log (know k t)) who
          (Prefix-trans r.log (g.saved_led w t) (know w t) whole (saved_in w t)))
        lt holds

  delivers-IsLed :
      (m : Message) (mem : IsMember s m.to)
      → InNetwork m c.network
      → IsSafe s (moved c m.to (step m (c.nodes m.to)))
      → IsLed s (moved c m.to (step m (c.nodes m.to))) (told g m.to (step m (c.nodes m.to)))
  delivers-IsLed m mem sent after =
      let live = h.live m.to mem in
      let r = step m (c.nodes m.to) in
      let led = update g.saved_led m.to (note_log r (g.led m.to)) in
      moved-IsLed s c g h safe m.to mem r {P = IsSent m} (step-Tracks m (c.nodes m.to)).extends
        after
        (step-Writes m (c.nodes m.to) live.log.shape live.in_word live.within
          (delivered-Feeds m mem sent))
        (λ p longer.
          IsBacked-more s g.saved_led led m.term r.current_term r.log
            (saved-Longer m.to (note_log r (g.led m.to)) longer) (step-term_le m (c.nodes m.to))
            p.1)
        (delivered-Holds m r)
        (λ longer log p.
          subst (λ t. IsFrom s led t log) (sym p.0)
            (IsFrom-more s g.saved_led led m.term log
              (saved-Longer m.to (note_log r (g.led m.to)) longer) p.2))

  -- The proposal of a leader is in the log that it leads with.
  proposal-IsBacked :
      (i : NodeId) (payload : List ℕ)
      → IsMember s i
      → let r = (propose payload (c.nodes i)).0 in
        let led = update g.saved_led i (note_log r (g.led i)) in
        IsProposal payload (c.nodes i) r.current_term r.log
        → Longer (update g.saved_led i (g.led i)) led
        → IsBacked s led r.current_term r.log
  proposal-IsBacked i payload m (lead, now, is) longer =
      let a = c.nodes i in
      let r = (propose payload a).0 in
      let led = update g.saved_led i (note_log r (g.led i)) in
      let same = propose-ballot payload a in
      let role : r.role ≡ leader = ap (λ (b : Ballot). b.role) same ∙ lead in
      let term : r.current_term ≡ a.current_term = ap (λ (b : Ballot). b.current_term) same in
      let noted : led i a.current_term ≡ r.log =
        rw (beq_self i, role, term, beq_self a.current_term) refl in
      subst (IsBacked s led r.current_term) (sym is) (
        subst (λ t. IsBacked s led t (a.log ++ proposal payload a ∷ [])) (sym term)
          (IsBacked-append s led i a.log (proposal payload a) m
            (IsBacked-more s (update g.saved_led i (g.led i)) led a.current_term a.current_term
              a.log longer (omega arith) (h.live i m).log)
            refl (noted ∙ is)))

  proposal-IsFrom :
      (i : NodeId) (payload : List ℕ) (log : List LogEntry)
      → IsMember s i
      → let r = (propose payload (c.nodes i)).0 in
        IsProposal payload (c.nodes i) r.current_term log
        → IsFrom s (update g.saved_led i (note_log r (g.led i))) r.current_term log
  proposal-IsFrom i payload log m (lead, now, is) =
      let a = c.nodes i in
      let r = (propose payload a).0 in
      let led = update g.saved_led i (note_log r (g.led i)) in
      let same = propose-ballot payload a in
      let role : r.role ≡ leader = ap (λ (b : Ballot). b.role) same ∙ lead in
      let noted : led i r.current_term ≡ r.log =
        rw (beq_self i, role, beq_self r.current_term) refl in
      let whole = (propose_taken payload a lead (h.live i m).log.shape).1 in
      (i, m, Prefix-refl log (led i r.current_term) (noted ∙ whole ∙ sym is))

  IsProposal-Holds :
      (i : NodeId) (payload : List ℕ)
      → Holds s
          (update g.saved_led i (g.led i))
          (IsProposal payload (c.nodes i))
          (c.nodes i)
          (propose payload (c.nodes i)).0
  IsProposal-Holds i payload (lead, now, is) over x n mx lt holds =
      let a = c.nodes i in
      let l = update g.saved_led i (g.led i) x (propose payload a).0.current_term in
      let reach : suc n ≤ length a.log =
        omega (arith, ap length holds, length-take (suc n) a.log, length-take (suc n) l) in
      ap (take (suc n)) is ∙ take-append_le a.log (proposal payload a ∷ []) (suc n) reach ∙ holds

  proposes-IsLed :
      (i : NodeId) (payload : List ℕ) (m : IsMember s i)
      → IsSafe s (moved c i (propose payload (c.nodes i)).0)
      → IsLed s
          (moved c i (propose payload (c.nodes i)).0)
          (told g i (propose payload (c.nodes i)).0)
  proposes-IsLed i payload m after =
      let live = h.live i m in
      let a = c.nodes i in
      moved-IsLed s c g h safe i m (propose payload a).0
        (subst
          (λ (b : Ballot). Extends (hard a) (record { term = b.current_term; vote = b.voted_for }))
          (sym (propose-ballot payload a)) (Extends-refl (hard a)))
        after (propose-Writes payload a live.log.shape live.in_word live.within)
        (proposal-IsBacked i payload m) (IsProposal-Holds i payload)
        (λ longer log. proposal-IsFrom i payload log m)

  -- Applying what is committed leaves the log and the office alone.
  applies-IsLed : (i : NodeId) → IsMember s i → IsLed s (moved c i (take_committed (c.nodes i)).0) g
  unfolding take_committed
  applies-IsLed i m =
      let a = c.nodes i in
      let noted = note (hard a) (c.votes i) in
      let more =
        note-Grows (c.votes i) (hard a) (hard a) (safe.nodes i m).agrees (Extends-refl (hard a)) in
      let know = update g.saved_led i (g.led i) in
      let live =
        IsLive-more s know know (update c.saved_votes i (c.votes i)) (update c.saved_votes i noted)
          i (g.led i) a m (Longer-refl know)
          (Grows-update s c.saved_votes c.saved_votes i (c.votes i) noted
            (λ x mx. Grows-refl c.saved_votes x) more)
          (h.live i m) in
      let applied = record a { last_applied = a.commit_index } in
      let same : IsLive s know (update c.saved_votes i noted) i (g.led i) applied = record {
        log = live.log;
        leads = live.leads;
        stands = live.stands;
        past = live.past;
        in_word = live.in_word;
        outbox = live.outbox;
        within = live.within;
        acks = live.acks;
      } in
      let stays : (p : NodeId) (t : Term) (n : ℕ)
          → IsStored s c g p t n
          → IsStored s (moved c i applied) g p t n =
        λ p t n (mp, kept_on, holds). (
          mp,
          kept_on,
          elim (Bool-cases (i == p)) [
            | inl e ↦ rw e (
                subst
                  (λ k.
                    IsAcked s (update g.saved_led k (g.led k)) (c.nodes k).current_term
                      (c.nodes k).log t n
                    → IsAcked s (update g.saved_led k (g.led k)) a.current_term a.log t n)
                  (eq_of_beq i p e) (λ x. x) holds)
            | inr e ↦ rw e holds
          ],
        ) in
      record {
        live = λ j mj. elim (Bool-cases (i == j)) [
          | inl e ↦ rw e (
              subst
                (λ k.
                  IsLive s (update g.saved_led k (g.led k)) (update c.saved_votes k noted) k
                    (g.led k) applied)
                (eq_of_beq i j e) same)
          | inr e ↦ rw e (h.live j mj)
        ];
        saved = h.saved;
        disk = h.disk;
        grown = h.grown;
        settled = λ j. elim (Bool-cases (i == j)) [
          | inl e ↦ rw e (
              subst
                (λ k.
                  g.fresh k ≡ true
                  → ((t : Term) → g.led k t ≡ g.saved_led k t) × (g.disk k ≡ a.log))
                (eq_of_beq i j e) (h.settled i))
          | inr e ↦ rw e (h.settled j)
        ];
        acked =
            All-imp _ _ c.network
              (λ x. OnAck-imp x.type x.success _ _ (stays x.from x.term x.match_index)) h.acked;
        counted = λ j mj. elim (Bool-cases (i == j)) [
          | inl e ↦ rw e (λ lead p. elim (h.counted i m lead p) [
            | inl none_ ↦ inl none_
            | inr some_ ↦ inr (stays p a.current_term (a.match_index p) some_)
          ])
          | inr e ↦ rw e (λ lead p. elim (h.counted j mj lead p) [
            | inl none_ ↦ inl none_
            | inr some_ ↦ inr (stays p (c.nodes j).current_term ((c.nodes j).match_index p) some_)
          ])
        ];
        network = h.network;
      }

Step-IsLed :
    {s : Setup} {c d : Cluster} (g : Leading) (st : Step s c d)
    → Keeps st g
    → IsLed s c g
    → IsSafe s c
    → IsSafe s d
    → IsLed s d (follow st g)
Step-IsLed {s} {c} g (ticks i m lt) k h safe after = ticks-IsLed s c g h safe i m lt after
Step-IsLed {s} {c} g (delivers m mem sent) k h safe after =
    delivers-IsLed s c g h safe m mem sent after
Step-IsLed {s} {c} g (proposes i payload m) k h safe after =
    proposes-IsLed s c g h safe i payload m after
Step-IsLed {s} {c} g (applies i m) k h safe after = applies-IsLed s c g h safe i m
Step-IsLed {s} {c} g (saves i m) k h safe after = saves-IsLed s c g h safe i m
Step-IsLed {s} {c} g (sends i m clean) k h safe after = sends-IsLed s c g h safe i m clean k
Step-IsLed {s} {c} g (restarts i entries m) k h safe after =
    restarts-IsLed s c g h safe i m entries k

pub ReachLog-IsLed : {s : Setup} {c : Cluster} {g : Leading} → ReachLog s c g → IsLed s c g
ReachLog-IsLed {s} begins = start-IsLed s
ReachLog-IsLed (goes_on {g} r st k) =
    let safe = Reach-IsSafe (ReachLog-Reach r) in
    Step-IsLed g st k (ReachLog-IsLed r) safe (Step-IsSafe st safe)
