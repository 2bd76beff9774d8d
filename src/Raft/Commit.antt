-- ===== src/Raft/Commit.antt =====
-- The leader's commit rule of src/raft/raft.cc: `MaybeCommit`, and what `Propose`,
-- `TakeCommitted` and AppendEntries make of the log.
use mini_lsm.Prelude.{
  ℕ, zero, suc, ◌+◌, ◌/◌, ◌≤◌, ◌<◌, ◌≡◌, refl, subst, ◌⊎◌, inl, inr, not, ◌&&◌, List, [], ◌∷◌,
  arith, Bool-cases, length, leb, ◌==◌, if◌then◌else◌, eq_of_beq, ne_of_beq, dec_le,
}
use mini_lsm.Raft.Messages.{NodeId}
use mini_lsm.Raft.State.{Raft, last_index, term_at, quorum_size}
use mini_lsm.Raft.Leader.{count_replicas, commit_from, maybe_commit}

-- The other peers that are known to hold index `n`.
unfoldable pub backers : Raft → ℕ → List NodeId → List NodeId
backers r n [] = []
backers r n (p ∷ ps) =
    let rest = backers r n ps in
    if not (p == r.config.id) && leb n (r.match_index p) then p ∷ rest else rest

-- The count is the node itself and its backers.
pub count_replicas-eq :
    (r : Raft) (n : ℕ) (ps : List NodeId) (k : ℕ)
    → count_replicas r n ps k ≡ k + length (backers r n ps)
unfolding count_replicas backers
count_replicas-eq r n [] k = omega arith
count_replicas-eq r n (p ∷ ps) k = elim (Bool-cases (p == r.config.id)) [
  | inl self ↦ rw self (count_replicas-eq r n ps k)
  | inr other ↦ rw other (elim (Bool-cases (leb n (r.match_index p))) [
    | inl holds ↦ rw holds (omega (arith, count_replicas-eq r n ps (k + 1)))
    | inr lacks ↦ rw lacks (count_replicas-eq r n ps k)
  ])
]

-- An entry of the leader's term that a majority of the cluster holds (section 5.4.2 of the paper).
abbrev pub Committable : Raft → ℕ → Type 0
Committable r n =
    (term_at r.log n ≡ r.current_term)
    × (length r.config.peers / 2 + 1 ≤ 1 + length (backers r n r.config.peers))

-- `k` is the new commit index if the leader looks at the indices up to `n`.
pub record IsCommit (r : Raft) (n k : ℕ) : Type 0 where
  pub grows : r.commit_index ≤ k
  pub held : (k ≡ r.commit_index) ⊎ ((k ≤ n) × Committable r k)
  pub highest : (j : ℕ) → k < j → j ≤ n → ¬ Committable r j

IsCommit-suc :
    (r : Raft) (n k : ℕ) → ¬ Committable r (suc n) → IsCommit r n k → IsCommit r (suc n) k
IsCommit-suc r n k lacks c = record {
  grows = c.grows;
  held = elim c.held [ inl e ↦ inl e | inr (le, fit) ↦ inr (omega arith, fit) ];
  highest = λ j lt le fit. elim (dec_le j n) [
    | yes low ↦ c.highest j lt low fit
    | no high ↦ let e : j ≡ suc n = omega arith in lacks (subst (Committable r) e fit)
  ];
}

commit_from-IsCommit : (n : ℕ) (r : Raft) → IsCommit r n (commit_from n r).commit_index
unfolding commit_from quorum_size
commit_from-IsCommit zero r = record {
  grows = omega arith;
  held = inl refl;
  highest = λ j lt le c. omega arith;
}
commit_from-IsCommit (suc n) r = elim (Bool-cases (leb (suc n) r.commit_index)) [
  | inl done ↦
      rw done (record { grows = omega arith; held = inl refl; highest = λ j lt le c. ground arith })
  | inr below ↦ rw below (elim (Bool-cases (term_at r.log (suc n) == r.current_term)) [
    | inr old ↦ rw old (
        IsCommit-suc r n _ (λ c. ne_of_beq (term_at r.log (suc n)) r.current_term old c.0)
          (commit_from-IsCommit n r))
    | inl now ↦
        rw now
          (elim (Bool-cases (leb (quorum_size r) (count_replicas r (suc n) r.config.peers 1))) [
            | inl enough ↦ rw enough (record {
              grows = ground arith;
              held = inr (
                omega arith,
                (
                  eq_of_beq (term_at r.log (suc n)) r.current_term now,
                  ground (arith, count_replicas-eq r (suc n) r.config.peers 1),
                ),
              );
              highest = λ j lt le c. omega arith;
            })
            | inr few ↦ rw few (
                IsCommit-suc r n _
                  (λ c. ground (arith, c.1, count_replicas-eq r (suc n) r.config.peers 1))
                  (commit_from-IsCommit n r))
          ])
  ])
]

-- `MaybeCommit` moves to the highest committable index above the old one, and stays if there is none.
pub maybe_commit-IsCommit : (r : Raft) → IsCommit r (last_index r.log) (maybe_commit r).commit_index
unfolding maybe_commit
maybe_commit-IsCommit r = commit_from-IsCommit (last_index r.log) r

-- `MaybeCommit` changes the commit index alone.
pub commit_from-eq :
    (n : ℕ) (r : Raft)
    → commit_from n r ≡ record r { commit_index = (commit_from n r).commit_index }
unfolding commit_from
commit_from-eq zero r = refl
commit_from-eq (suc n) r = elim (Bool-cases (leb (suc n) r.commit_index)) [
  | inl le ↦ rw le refl
  | inr gt ↦ elim (Bool-cases (not (term_at r.log (suc n) == r.current_term))) [
    | inl old ↦ rw (gt, old) (commit_from-eq n r)
    | inr now ↦
        elim (Bool-cases (leb (quorum_size r) (count_replicas r (suc n) r.config.peers 1))) [
          | inl most ↦ rw (gt, now, most) refl
          | inr few ↦ rw (gt, now, few) (commit_from-eq n r)
        ]
  ]
]

pub maybe_commit-eq :
    (r : Raft) → maybe_commit r ≡ record r { commit_index = (maybe_commit r).commit_index }
unfolding maybe_commit
maybe_commit-eq r = commit_from-eq (last_index r.log) r
