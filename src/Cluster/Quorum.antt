-- ===== src/Cluster/Quorum.antt =====
-- Two majorities of the peers have a member in common.
use mini_lsm.Prelude.{
  suc, ◌+◌, ◌≤◌, ◌<◌, ◌≡◌, refl, ◌⊎◌, inl, inr, true, false, List, [], ◌∷◌, ◌++◌, arith, Bool-cases,
  All, All-append, length-append, subst, ◌==◌, if◌then◌else◌, length, eq_of_beq,
}
use mini_lsm.Raft.Messages.{NodeId}
use mini_lsm.Raft.Core.{has_vote}
use mini_lsm.Raft.Standing.{Unique, has_vote-append}

abbrev pub Within : List NodeId → List NodeId → Type 0
Within ps vs = All (λ v. has_vote v ps ≡ true) vs

-- The list without the first `v`.
without : NodeId → List NodeId → List NodeId
without v [] = []
without v (p ∷ ps) = if p == v then ps else p ∷ without v ps

length-without :
    (v : NodeId) (ps : List NodeId) → has_vote v ps ≡ true → length ps ≡ suc (length (without v ps))
unfolding has_vote without
length-without v [] h = absurd (cc)
length-without v (p ∷ ps) h = elim (Bool-cases (p == v)) [
  | inl e ↦ rw e refl
  | inr e ↦ rw e (omega (arith, length-without v ps (ground arith)))
]

has_vote-without :
    (v w : NodeId) (ps : List NodeId)
    → (v == w) ≡ false
    → has_vote w ps ≡ true
    → has_vote w (without v ps) ≡ true
unfolding has_vote without
has_vote-without v w [] ne h = h
has_vote-without v w (p ∷ ps) ne h = ground (arith, has_vote-without v w ps ne)

Within-without :
    (v : NodeId) (ps vs : List NodeId)
    → has_vote v vs ≡ false
    → Within ps vs
    → Within (without v ps) vs
unfolding has_vote
Within-without v ps [] h w = tt
Within-without v ps (x ∷ xs) h w =
    (has_vote-without v x ps (ground arith) w.0, Within-without v ps xs (ground arith) w.1)

-- Distinct peers are no more than the peers.
Unique-length-le : (ps vs : List NodeId) → Unique vs → Within ps vs → length vs ≤ length ps
Unique-length-le ps [] u w = omega arith
Unique-length-le ps (v ∷ vs) u w = omega (
  arith,
  length-without v ps w.0,
  Unique-length-le (without v ps) vs u.1 (Within-without v ps vs u.0 w.1),
)

abbrev pub Common : List NodeId → List NodeId → Type 0
Common xs ys = (v : NodeId) × (has_vote v xs ≡ true) × (has_vote v ys ≡ true)

Common-cases : (xs ys : List NodeId) → Common xs ys ⊎ All (λ x. has_vote x ys ≡ false) xs
unfolding has_vote
Common-cases [] ys = inr tt
Common-cases (x ∷ xs) ys = elim (Bool-cases (has_vote x ys)) [
  | inl both ↦ inl (x, ground arith, both)
  | inr apart ↦ elim (Common-cases xs ys) [
    | inl c ↦ inl (c.0, ground arith, c.2)
    | inr rest ↦ inr (apart, rest)
  ]
]

Unique-append :
    (xs ys : List NodeId)
    → Unique xs
    → Unique ys
    → All (λ x. has_vote x ys ≡ false) xs
    → Unique (xs ++ ys)
Unique-append [] ys u w d = w
Unique-append (x ∷ xs) ys u w d =
    (ground (arith, has_vote-append x xs ys), Unique-append xs ys u.1 w d.1)

-- Distinct peers on two lists, more together than there are peers: one of them is on both.
pub quorums_meet :
    (ps xs ys : List NodeId)
    → Unique xs
    → Unique ys
    → Within ps xs
    → Within ps ys
    → length ps < length xs + length ys
    → Common xs ys
quorums_meet ps xs ys ux uy wx wy h = elim (Common-cases xs ys) [
  | inl c ↦ c
  | inr apart ↦ absurd (
      omega (
        arith,
        length-append xs ys,
        Unique-length-le ps (xs ++ ys) (Unique-append xs ys ux uy apart) (All-append _ xs ys wx wy),
      ))
]

pub All-at {κ} :
    (P : NodeId → Type κ) (v : NodeId) (xs : List NodeId) → has_vote v xs ≡ true → All P xs → P v
unfolding has_vote
All-at P v [] e h = absurd (cc)
All-at P v (x ∷ xs) e h = elim (Bool-cases (x == v)) [
  | inl same ↦ subst P (eq_of_beq x v same) h.0
  | inr other ↦ All-at P v xs (ground arith) h.1
]
