-- ===== src/Cluster/Leading/Acked.antt =====
-- What a node of src/raft/raft.cc has acknowledged to the leader of a term, and that it goes on to hold it
-- while it is in that term.
use mini_lsm.Prelude.{
  ℕ, suc, ◌≤◌, ◌<◌, ◌≡◌, refl, sym, ◌∙◌, ap, subst, ◌⊎◌, inl, inr, List, arith, length, take,
  dec_le, length-take, get_or-take, All, All-imp,
}
use mini_lsm.Raft.Messages.{NodeId, Term, LogEntry, Message}
use mini_lsm.Raft.State.{Raft, entry_at, sentinel}
use mini_lsm.Raft.Log.Merge.{Supersedes}
use mini_lsm.Raft.Writes.{Prefix, OnAck, OnAck-imp, Writes, HoldsUpTo}
use mini_lsm.Cluster.{Setup, IsMember}
use mini_lsm.Cluster.Leading.{Led}
use mini_lsm.Cluster.Leading.Backed.{Longer, Prefix-take, IsFrom}

-- A node in term `now` with the log `log` has acknowledged the index `n` in term `t`: the leader of that
-- term has so many entries, and the node holds them or is in a later term.
abbrev pub IsAcked : Setup → (NodeId → Led) → Term → List LogEntry → Term → ℕ → Type 0
IsAcked s led now log t n =
    (w : NodeId) × IsMember s w
    × (n < length (led w t))
    × ((t < now) ⊎ ((t ≡ now) × (take (suc n) log ≡ take (suc n) (led w t))))

-- All that one node has acknowledged another one has, too.
abbrev pub IsKept :
    Setup → (NodeId → Led) → Term → List LogEntry → (NodeId → Led) → Term → List LogEntry → Type 0
IsKept s led now log led2 after log2 =
    (t : Term) (n : ℕ) → IsAcked s led now log t n → IsAcked s led2 after log2 t n

pub IsKept-more :
    (s : Setup) (a b : NodeId → Led) (now : Term) (log : List LogEntry)
    → Longer a b
    → IsKept s a now log b now log
IsKept-more s a b now log more t n (w, m, lt, h) =
    let grown = Prefix-take n (a w t) (b w t) (more w t) lt in
    (
      w,
      m,
      grown.0,
      elim h [ inl past ↦ inl past | inr (same, holds) ↦ inr (same, holds ∙ grown.1) ],
    )

take-entry_at :
    (n q : ℕ) (a b : List LogEntry)
    → q ≤ n
    → take (suc n) a ≡ take (suc n) b
    → entry_at a q ≡ entry_at b q
take-entry_at n q a b le e =
    sym (get_or-take (suc n) a q sentinel (omega arith))
    ∙ ap (λ l. entry_at l q) e
    ∙ get_or-take (suc n) b q sentinel (omega arith)

-- A part of the leader's log that supersedes the log of a node goes past all that the node has of it.
pub superseded :
    (n : ℕ) (a b l : List LogEntry)
    → Supersedes a b
    → Prefix b l
    → n < length l
    → take (suc n) a ≡ take (suc n) l
    → take (suc n) b ≡ take (suc n) l
superseded n a b l over front lt e =
    let reach : n < length a =
      omega (arith, ap length e, length-take (suc n) a, length-take (suc n) l) in
    let past = over.past in
    let longer : n < length b = elim over.parts [
      | inl end ↦ omega (arith, end)
      | inr (within, differs) ↦ elim (dec_le over.at n) [
        | no after ↦ omega (arith, past)
        | yes before ↦ absurd (
            differs (
              ap (λ (x : LogEntry). x.term)
                (take-entry_at n over.at a l before e
                  ∙ sym (
                      take-entry_at over.at over.at b l (omega arith)
                        (Prefix-take over.at b l front past).1))))
      ]
    ] in
    (Prefix-take n b l front longer).1

-- The acknowledgements in an outbox.
abbrev pub Acks : Setup → (NodeId → Led) → Raft → Message → Type 0
Acks s led r m = OnAck m.type m.success (IsAcked s led r.current_term r.log m.term m.match_index)

-- What a step writes over a log in the same term holds all that the log held of a leader's.
abbrev pub Holds : Setup → (NodeId → Led) → (Term → List LogEntry → Type 0) → Raft → Raft → Type 0
Holds s led P a b =
    P b.current_term b.log
    → Supersedes a.log b.log
    → (x : NodeId) (n : ℕ) → IsMember s x
    → n < length (led x b.current_term)
    → take (suc n) a.log ≡ take (suc n) (led x b.current_term)
    → take (suc n) b.log ≡ take (suc n) (led x b.current_term)

module _ (s : Setup) (led led2 : NodeId → Led) (P : Term → List LogEntry → Type 0)
    (M : NodeId → ℕ → Type 0) (a b : Raft) (w : Writes P M a b) (longer : Longer led led2) where
  pub Writes-IsKept :
      Holds s led P a b → IsKept s led a.current_term a.log led2 b.current_term b.log
  Writes-IsKept keeps t n (x, m, lt, h) =
      let grown = Prefix-take n (led x t) (led2 x t) (longer x t) lt in
      let on = w.grows in
      (
        x,
        m,
        grown.0,
        elim h [
          | inl past ↦ inl (omega (arith, past))
          | inr (same, holds) ↦ elim (dec_le b.current_term t) [
            | no later ↦ inl (omega arith)
            | yes still ↦
                let now : t ≡ b.current_term = omega (arith, same) in
                inr (
                  now,
                  elim w.log [
                    | inl kept ↦ ap (take (suc n)) kept ∙ holds ∙ grown.1
                    | inr (wrote, over) ↦
                        ap (take (suc n)) refl
                        ∙ subst
                            (λ u.
                              n < length (led x u)
                              → take (suc n) a.log ≡ take (suc n) (led x u)
                              → take (suc n) b.log ≡ take (suc n) (led x u))
                            (sym now) (keeps wrote over x n m) lt holds
                        ∙ grown.1
                  ],
                )
          ]
        ],
      )

-- An acknowledgement of something that a leader of the term had.
pub sent-IsAcked :
    (s : Setup) (led : NodeId → Led) (t u : Term) (log part : List LogEntry) (n : ℕ)
    → u ≡ t
    → IsFrom s led t part
    → HoldsUpTo n log part
    → IsAcked s led t log u n
sent-IsAcked s led t u log part n e (w, m, front) (lt, holds) =
    subst (λ x. IsAcked s led t log x n) (sym e)
      (let grown = Prefix-take n part (led w t) front lt in
        (w, m, grown.0, inr (refl, holds ∙ grown.1)))

pub Acks-kept :
    (s : Setup) (led led2 : NodeId → Led) (a b : Raft) (ms : List Message)
    → IsKept s led a.current_term a.log led2 b.current_term b.log
    → All (Acks s led a) ms
    → All (Acks s led2 b) ms
Acks-kept s led led2 a b ms kept =
    All-imp _ _ ms λ m. OnAck-imp m.type m.success _ _ (kept m.term m.match_index)
