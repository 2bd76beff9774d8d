-- ===== src/Cluster/Leading/Backed.antt =====
-- Logs of src/raft/raft.cc whose entries all come from leaders, and the votes behind those leaders.
use mini_lsm.Prelude.{
  ◌⊎◌, ℕ, suc, ◌+◌, ◌*◌, ◌/◌, ◌≤◌, ◌<◌, ◌≡◌, ◌≢◌, sym, ◌∙◌, ap, subst, inl, inr, true, List, [],
  ◌∷◌, ◌++◌, arith, All, All-imp, Bool-cases, ◌==◌, zero, beq_of_eq, dec_le, length-take,
  get_or-append_left, get_or-append_length, append_assoc, take-append_le, eq_of_beq, length, take,
  length-append,
}
use mini_lsm.Raft.Messages.{NodeId, Term, LogEntry, Message}
use mini_lsm.Raft.State.{Raft, Config, entry_at, sentinel, leader}
use mini_lsm.Raft.Log.{IsLog}
use mini_lsm.Raft.Log.Merge.{Matching, Slice}
use mini_lsm.Raft.Writes.{OnAppend, OnAppend-imp, Prefix}
use mini_lsm.Raft.Propose.{IsLog-append}
use mini_lsm.Raft.Core.{has_vote}
use mini_lsm.Raft.Standing.{Unique, Standing}
use mini_lsm.Raft.HardState.{HardState}
use mini_lsm.Cluster.{Setup, IsMember, update}
use mini_lsm.Cluster.History.{Votes, Grows}
use mini_lsm.Cluster.Invariant.{IsSound, Voted, member-ne-zero}
use mini_lsm.Cluster.Quorum.{Within, quorums_meet, All-at}
use mini_lsm.Cluster.Leading.{Led}

-- A majority of the members have voted for `i` in term `t`.
pub record IsWon (s : Setup) (votes : NodeId → Votes) (i : NodeId) (t : Term) : Type 0 where
  pub voters : List NodeId
  pub unique : Unique voters
  pub within : Within s.peers voters
  pub majority : length s.peers < 2 * length voters
  pub cast : All (λ v. votes v t ≡ i) voters

All-both :
    (s : Setup) (u v : NodeId → Votes) (i : NodeId) (t : Term)
    → IsMember s i
    → ((w : NodeId) → IsMember s w → Grows (u w) (v w))
    → (ws : List NodeId) → Within s.peers ws
    → All (λ w. u w t ≡ i) ws
    → All (λ w. v w t ≡ i) ws
All-both s u v i t m more [] h k = tt
All-both s u v i t m more (w ∷ ws) h k = (
  more w h.0 t (λ z. member-ne-zero s i m (sym k.0 ∙ z)) ∙ k.0,
  All-both s u v i t m more ws h.1 k.1,
)

pub IsWon-more :
    (s : Setup) (u v : NodeId → Votes) (i : NodeId) (t : Term)
    → IsMember s i
    → ((w : NodeId) → IsMember s w → Grows (u w) (v w))
    → IsWon s u i t
    → IsWon s v i t
IsWon-more s u v i t m more h = record {
  voters = h.voters;
  unique = h.unique;
  within = h.within;
  majority = h.majority;
  cast = All-both s u v i t m more h.voters h.within h.cast;
}

-- Two nodes that have won the same term are one.
pub won_once :
    (s : Setup) (votes : NodeId → Votes) (i j : NodeId) (t : Term)
    → IsWon s votes i t
    → IsWon s votes j t
    → i ≡ j
won_once s votes i j t a b =
    let shared =
      quorums_meet s.peers a.voters b.voters a.unique b.unique a.within b.within
        (omega (arith, a.majority, b.majority)) in
    sym (All-at (λ v. votes v t ≡ i) shared.0 a.voters shared.1 a.cast)
    ∙ All-at (λ v. votes v t ≡ j) shared.0 b.voters shared.2 b.cast

module _ (s : Setup) (sv : NodeId → Votes) (h : HardState) (u v : Votes) (i : NodeId) (r : Raft)
    (g : IsSound s sv h u v i r) where
  own_vote :
      r.voted_for ≡ r.config.id
      → (w : NodeId) → w ≡ r.config.id
      → update sv i v w r.current_term ≡ i
  own_vote self w own =
      let name : r.config.id ≡ i = ap (λ (k : Config). k.id) g.config in
      let at : w ≡ i = own ∙ name in rw (beq_of_eq i w (sym at)) (g.agrees.present ∙ self ∙ name)

  -- A leader has won its term.
  pub leader-IsWon : IsMember s i → r.role ≡ leader → IsWon s (update sv i v) i r.current_term
  leader-IsWon m e =
      let claim =
        subst (λ x. Standing (Voted sv i) r.config x r.current_term r.voted_for r.votes_granted) e
          g.standing in
      let q : length s.peers / 2 + 1 ≤ length r.votes_granted =
        subst (λ (x : Config). length x.peers / 2 + 1 ≤ length r.votes_granted) g.config claim.2 in
      record {
        voters = r.votes_granted;
        unique = claim.1.1;
        within =
            All-imp _ _ r.votes_granted
              (λ w p. subst (λ (x : Config). has_vote w x.peers ≡ true) g.config p.0) claim.1.0;
        majority = omega (arith, q);
        cast =
            All-imp _ _ r.votes_granted
              (λ w p. elim p.1 [
                | inl own ↦ own_vote claim.0 w own
                | inr voted ↦ elim (Bool-cases (i == w)) [
                  | inl self ↦
                      own_vote claim.0 w
                        (sym (eq_of_beq i w self) ∙ ap (λ (k : Config). k.id) (sym g.config))
                  | inr other ↦ rw other voted
                ]
              ])
              claim.1.0;
      }

-- The logs that the nodes have led with only grow.
abbrev pub Longer : (NodeId → Led) → (NodeId → Led) → Type 0
Longer a b = (w : NodeId) (t : Term) → Prefix (a w t) (b w t)

pub Prefix-trans : (a b c : List LogEntry) → Prefix a b → Prefix b c → Prefix a c
Prefix-trans a b c (x, p) (y, q) = (x ++ y, q ∙ ap (λ l. l ++ y) p ∙ append_assoc a x y)

pub Prefix-take :
    (k : ℕ) (a b : List LogEntry)
    → Prefix a b
    → k < length a
    → (k < length b) × (take (suc k) a ≡ take (suc k) b)
Prefix-take k a b (rest, e) lt = (
  omega (arith, ap length e, length-append a rest),
  sym (ap (take (suc k)) e ∙ take-append_le a rest (suc k) (omega arith)),
)

-- Each entry above the sentinel is one that a member led with in the term of the entry, all before it the same.
abbrev pub IsFromLeaders : Setup → (NodeId → Led) → List LogEntry → Type 0
IsFromLeaders s led log =
    (k : ℕ)
    → 0 < k
    → k < length log
    → (w : NodeId) × IsMember s w
      × (k < length (led w (entry_at log k).term))
      × (take (suc k) log ≡ take (suc k) (led w (entry_at log k).term))

-- No entry is of a later term than `t`.
abbrev pub IsUpTo : Term → List LogEntry → Type 0
IsUpTo t log = (k : ℕ) → k < length log → (entry_at log k).term ≤ t

abbrev pub IsSorted : List LogEntry → Type 0
IsSorted log = (j k : ℕ) → j ≤ k → k < length log → (entry_at log j).term ≤ (entry_at log k).term

-- A log of a node that is in term `t`.
pub record IsBacked (s : Setup) (led : NodeId → Led) (t : Term) (log : List LogEntry) : Type 0 where
  pub shape : IsLog log
  pub first : take 1 log ≡ sentinel ∷ []
  pub written : IsFromLeaders s led log
  pub sorted : IsSorted log
  pub up_to : IsUpTo t log

pub IsBacked-more :
    (s : Setup) (a b : NodeId → Led) (t u : Term) (log : List LogEntry)
    → Longer a b
    → t ≤ u
    → IsBacked s a t log
    → IsBacked s b u log
IsBacked-more s a b t u log more le h = record {
  sorted = h.sorted;
  up_to = λ k lt. omega (arith, h.up_to k lt);
  shape = h.shape;
  first = h.first;
  written = λ k pos lt.
      let found = h.written k pos lt in
      let now = (entry_at log k).term in
      let grown = Prefix-take k (a found.0 now) (b found.0 now) (more found.0 now) found.2 in
      (found.0, found.1, grown.0, found.3 ∙ grown.1);
}

-- An entry of the log or the one behind it.
entry_at-append :
    (log : List LogEntry) (e : LogEntry) (k : ℕ)
    → k < length (log ++ e ∷ [])
    → ((k < length log) × (entry_at (log ++ e ∷ []) k ≡ entry_at log k))
      ⊎ ((k ≡ length log) × (entry_at (log ++ e ∷ []) k ≡ e))
entry_at-append log e k lt = elim (dec_le (suc k) (length log)) [
  | yes old ↦ inl (old, get_or-append_left log (e ∷ []) k sentinel old)
  | no new ↦
      let last : k ≡ length log = omega (arith, length-append log (e ∷ [])) in
      inr (last, get_or-append_length log (e ∷ []) k sentinel last)
]

IsUpTo-append :
    (log : List LogEntry) (e : LogEntry) → IsUpTo e.term log → IsUpTo e.term (log ++ e ∷ [])
IsUpTo-append log e h k lt = elim (entry_at-append log e k lt) [
  | inl (old, same) ↦ rw same (h k old)
  | inr (last, same) ↦ rw same (omega arith)
]

IsSorted-append :
    (log : List LogEntry) (e : LogEntry)
    → IsSorted log
    → IsUpTo e.term log
    → IsSorted (log ++ e ∷ [])
IsSorted-append log e h up j k le lt = elim (entry_at-append log e k lt) [
  | inl (old, same) ↦
      rw (same, get_or-append_left log (e ∷ []) j sentinel (omega arith)) (h j k le old)
  | inr (last, same) ↦ rw same (IsUpTo-append log e up j (omega arith))
]

-- A leader's next entry.
pub IsBacked-append :
    (s : Setup) (led : NodeId → Led) (i : NodeId) (log : List LogEntry) (e : LogEntry)
    → IsMember s i
    → IsBacked s led e.term log
    → e.index ≡ length log
    → led i e.term ≡ log ++ e ∷ []
    → IsBacked s led e.term (log ++ e ∷ [])
IsBacked-append s led i log e m h at now =
    let some_ : 1 ≤ length log = omega (arith, ap length h.first, length-take 1 log) in
    record {
      shape = IsLog-append log e h.shape at;
      first = take-append_le log (e ∷ []) 1 some_ ∙ h.first;
      sorted = λ j k le lt. IsSorted-append log e h.sorted h.up_to j k le lt;
      up_to = IsUpTo-append log e h.up_to;
      written = λ k pos lt. elim (entry_at-append log e k lt) [
        | inl (old, same) ↦
            let found = h.written k pos old in
            rw same (found.0, found.1, found.2, take-append_le log (e ∷ []) (suc k) old ∙ found.3)
        | inr (last, same) ↦ rw same (i, m, rw now lt, ap (take (suc k)) (sym now))
      ];
    }

-- Two logs that are from leaders are the same wherever their terms are, if no term has two leaders.
pub IsBacked-Matching :
    (s : Setup) (led : NodeId → Led) (t u : Term) (a b : List LogEntry)
    → ((i j : NodeId) (t : Term)
        → IsMember s i
        → IsMember s j
        → led i t ≢ []
        → led j t ≢ []
        → i ≡ j)
    → IsBacked s led t a
    → IsBacked s led u b
    → Matching a b
IsBacked-Matching s led t u a b one ha hb zero la lb same = ha.first ∙ sym hb.first
IsBacked-Matching s led t u a b one ha hb (suc n) la lb same =
    let x = ha.written (suc n) (omega arith) la in
    let y = hb.written (suc n) (omega arith) lb in
    let now = (entry_at a (suc n)).term in
    let y_led : suc n < length (led y.0 now) =
      subst (λ u. suc n < length (led y.0 u)) (sym same) y.2 in
    let who : x.0 ≡ y.0 =
      one x.0 y.0 now x.1 y.1 (λ z. omega (arith, ap length z, x.2))
        (λ z. omega (arith, ap length z, y_led)) in
    x.3
    ∙ ap (λ w. take (suc (suc n)) (led w now)) who
    ∙ ap (λ u. take (suc (suc n)) (led y.0 u)) same
    ∙ sym y.3

-- A log that a leader of term `t` had.
abbrev pub IsFrom : Setup → (NodeId → Led) → Term → List LogEntry → Type 0
IsFrom s led t log = (w : NodeId) × IsMember s w × Prefix log (led w t)

pub IsFrom-more :
    (s : Setup) (a b : NodeId → Led) (t : Term) (log : List LogEntry)
    → Longer a b
    → IsFrom s a t log
    → IsFrom s b t log
IsFrom-more s a b t log more (w, m, front) =
    (w, m, Prefix-trans log (a w t) (b w t) front (more w t))

-- An AppendEntries holds a part of a log that is from leaders, the last of them of its term.
abbrev pub IsHeld : Setup → (NodeId → Led) → Message → Type 0
IsHeld s led m =
    OnAppend m.type
      ((log : List LogEntry) × (IsBacked s led m.term log × IsFrom s led m.term log) × Slice log m)

pub IsHeld-more :
    (s : Setup) (a b : NodeId → Led) (ms : List Message)
    → Longer a b
    → All (IsHeld s a) ms
    → All (IsHeld s b) ms
IsHeld-more s a b ms more = All-imp _ _ ms λ m. OnAppend-imp m.type _ _ (λ h. (
  h.0,
  (
    IsBacked-more s a b m.term m.term h.0 more (omega arith) h.1.0,
    IsFrom-more s a b m.term h.0 more h.1.1,
  ),
  h.2,
))
