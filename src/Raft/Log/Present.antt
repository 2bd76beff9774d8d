-- ===== src/Raft/Log/Present.antt =====
-- What the loop over the entries of `HandleAppendEntries` (src/raft/raft.cc) leaves alone: entries that are
-- there already, and the committed part of the log.
use mini_lsm.Prelude.{
  ℕ, suc, ◌+◌, ◌≤◌, ◌<◌, ◌≡◌, refl, sym, ◌∙◌, ap, subst, inr, List, [], ◌∷◌, arith, length, All,
  All-imp, dec_le,
}
use mini_lsm.Raft.Messages.{LogEntry}
use mini_lsm.Raft.State.{Raft, entry_at}
use mini_lsm.Raft.Follower.{append_entry, append_all}
use mini_lsm.Raft.Log.{Indexed, IsLog, Agree, suc-last_index, term_at-entry_at}
use mini_lsm.Raft.Log.Append.{append_entry-HasTaken, HasMerged}

-- Every entry of the batch is in the log, by position and term.
abbrev pub Present : List LogEntry → List LogEntry → Type 0
Present log es = All (λ e. (e.index < length log) × ((entry_at log e.index).term ≡ e.term)) es

append_entry-Present :
    (e : LogEntry) (r : Raft)
    → IsLog r.log
    → e.index < length r.log
    → (entry_at r.log e.index).term ≡ e.term
    → append_entry e r ≡ r
unfolding append_entry
append_entry-Present e r h lt same =
    ground (arith, suc-last_index r.log h, term_at-entry_at r.log e.index h lt)

-- What is there already is left alone.
pub append_all-Present :
    (es : List LogEntry) (r : Raft) → IsLog r.log → Present r.log es → append_all es r ≡ r
unfolding append_all
append_all-Present [] r h p = refl
append_all-Present (e ∷ es) r h p =
    let same = append_entry-Present e r h p.0.0 p.0.1 in
    ap (append_all es) same ∙ append_all-Present es r h p.1

HasMerged-tail :
    (n : ℕ) (e : LogEntry) (es a b : List LogEntry)
    → HasMerged n (e ∷ es) a b
    → HasMerged (suc n) es b b
HasMerged-tail n e es a b m = record {
  shape = m.shape;
  reach = omega (arith, m.reach);
  below = λ i lt. refl;
  holds = λ k lt.
      let ek : suc n + k ≡ n + suc k = omega arith in
      ap (λ i. (entry_at b i).term) ek ∙ m.holds (suc k) (omega arith);
  whole = λ k lt.
      let ek : suc n + k ≡ n + suc k = omega arith in
      inr (
        (omega (arith, m.reach), refl),
        ap (λ i. (entry_at b i).term) ek ∙ m.holds (suc k) (omega arith),
      );
}

pub HasMerged-Present :
    (n : ℕ) (es a b : List LogEntry) → Indexed n es → HasMerged n es a b → Present b es
HasMerged-Present n [] a b ix m = tt
HasMerged-Present n (e ∷ es) a b ix m =
    let e0 : e.index ≡ n + 0 = omega (arith, ix.0) in
    (
      (omega (arith, m.reach, ix.0), ap (λ i. (entry_at b i).term) e0 ∙ m.holds 0 (omega arith)),
      HasMerged-Present (suc n) es b b ix.1 (HasMerged-tail n e es a b m),
    )

-- No entry of the batch contradicts the log up to `c`.
abbrev pub NoConflict : ℕ → List LogEntry → List LogEntry → Type 0
NoConflict c log es = All (λ e. e.index ≤ c → (entry_at log e.index).term ≡ e.term) es

append_entry_committed :
    (c n : ℕ) (e : LogEntry) (r : Raft)
    → IsLog r.log
    → 0 < n
    → n ≤ length r.log
    → e.index ≡ n
    → c < length r.log
    → (e.index ≤ c → (entry_at r.log e.index).term ≡ e.term)
    → (c < length (append_entry e r).log) × Agree (suc c) r.log (append_entry e r).log
append_entry_committed c n e r h pos le same held fits = elim (dec_le n c) [
  | yes low ↦
      let kept = append_entry-Present e r h (omega arith) (fits (omega arith)) in
      subst (λ (x : Raft). (c < length x.log) × Agree (suc c) r.log x.log) (sym kept)
        (held, λ i lt. refl)
  | no high ↦
      let one = append_entry-HasTaken n e r h pos le same in
      (omega (arith, one.reach), λ i lt. one.below i (omega arith))
]

-- Entries that do not contradict what is committed leave it in the log as it is.
pub append_all_committed :
    (c n : ℕ) (es : List LogEntry) (r : Raft)
    → IsLog r.log
    → 0 < n
    → n ≤ length r.log
    → Indexed n es
    → c < length r.log
    → NoConflict c r.log es
    → (c < length (append_all es r).log) × Agree (suc c) r.log (append_all es r).log
unfolding append_all
append_all_committed c n [] r h pos le ix held fits = (held, λ i lt. refl)
append_all_committed c n (e ∷ es) r h pos le ix held fits =
    let one = append_entry-HasTaken n e r h pos le ix.0 in
    let step = append_entry_committed c n e r h pos le ix.0 held fits.0 in
    let rest =
      append_all_committed c (suc n) es (append_entry e r) one.shape (omega arith) one.reach ix.1
        step.0
        (All-imp _ _ es
          (λ x k low. ap (λ (y : LogEntry). y.term) (step.1 x.index (omega arith)) ∙ k low)
          fits.1) in
    (rest.0, λ i lt. rest.1 i lt ∙ step.1 i lt)
