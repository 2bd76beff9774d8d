-- ===== src/Cluster/History.antt =====
-- The history of a node's votes: what the hard state and the flag of src/raft/raft.cc say of it.
use mini_lsm.Prelude.{
  ◌<◌, ◌≡◌, ◌≢◌, refl, ◌∙◌, sym, ap, inl, inr, arith, Bool-cases, eq_of_beq, subst, ◌==◌,
  if◌then◌else◌,
}
use mini_lsm.Raft.Messages.{NodeId, Term}
use mini_lsm.Raft.HardState.{HardState, Extends}

-- Whom a node has voted for, by term; 0 is nobody.
abbrev pub Votes : Type 0
Votes = Term → NodeId

-- The vote of the term in which a node is, written into its history.
abbrev pub note : HardState → Votes → Votes
note h v t = if h.term == t then h.vote else v t

-- The history ends in the vote of the hard state.
pub record Agrees (v : Votes) (h : HardState) : Type 0 where
  pub present : v h.term ≡ h.vote
  pub future : (t : Term) → h.term < t → v t ≡ 0

-- No vote is taken back.
abbrev pub Grows : Votes → Votes → Type 0
Grows v w = (t : Term) → v t ≢ 0 → w t ≡ v t

pub Grows-trans : (u v w : Votes) → Grows u v → Grows v w → Grows u w
Grows-trans u v w h k t ne = k t (rw (h t ne) ne) ∙ h t ne

pub note-Agrees : (v : Votes) (a b : HardState) → Agrees v a → Extends a b → Agrees (note b v) b
note-Agrees v a b g e = record {
  present = ground arith;
  future = λ t lt. ground (arith, g.future t);
}

pub note-Grows : (v : Votes) (a b : HardState) → Agrees v a → Extends a b → Grows v (note b v)
note-Grows v a b g (inl later) t ne = elim (Bool-cases (b.term == t)) [
  | inl now ↦ absurd (ne (g.future t (subst (λ x. a.term < x) (eq_of_beq b.term t now) later)))
  | inr other ↦ rw other refl
]
note-Grows v a b g (inr (same, kept)) t ne = elim (Bool-cases (b.term == t)) [
  | inl now ↦
      let past : v t ≡ a.vote = ap v (sym (eq_of_beq b.term t now) ∙ sym same) ∙ g.present in
      rw now (ground (arith, past, kept))
  | inr other ↦ rw other refl
]

pub note_same : (v : Votes) (h : HardState) → Agrees v h → (t : Term) → note h v t ≡ v t
note_same v h g t = elim (Bool-cases (h.term == t)) [
  | inl now ↦ rw now (sym g.present ∙ ap v (eq_of_beq h.term t now))
  | inr other ↦ rw other refl
]
