-- ===== src/Raft/Log.antt =====
-- The shape of the log of src/raft/raft.cc: the entry at position i has index i, and position 0
-- holds the sentinel of term 0. One round of the loop of `HandleAppendEntries` keeps it.
pub mod Append
pub mod Present
pub mod Merge
use mini_lsm.Prelude.{
  ℕ, zero, suc, ◌+◌, ◌≤◌, ◌<◌, ◌≡◌, refl, sym, ◌∙◌, ap, ◌⊎◌, inl, inr, true, false, List, [], ◌∷◌,
  ◌++◌, arith, Bool-cases, leb, ltb, ◌==◌, if◌then◌else◌, length, take, get_or, length-append,
  length-take, min, get_or-append_left, get_or-append_length, get_or-take, subst, take-length,
  eq_of_beq, ne_of_beq, ◌≢◌,
}
use mini_lsm.Raft.Messages.{LogEntry, Term}
use mini_lsm.Raft.State.{Raft, last_index, entry_at, term_at, sentinel}
use mini_lsm.Raft.Follower.{append_entry}

-- Consecutive indices from `k` on.
abbrev pub Indexed : ℕ → List LogEntry → Type 0
Indexed k [] = Unit
Indexed k (e ∷ es) = (e.index ≡ k) × Indexed (suc k) es

abbrev pub IsLog : List LogEntry → Type 0
IsLog [] = ⊥
IsLog (e ∷ es) = (e.term ≡ 0) × Indexed 0 (e ∷ es)

-- The entries below `n` are the same.
abbrev pub Agree : ℕ → List LogEntry → List LogEntry → Type 0
Agree n a b = (i : ℕ) → i < n → entry_at b i ≡ entry_at a i

pub suc-last_index : (log : List LogEntry) → IsLog log → suc (last_index log) ≡ length log
unfolding last_index
suc-last_index [] h = absurd h
suc-last_index (e ∷ es) h = refl

pub term_at-entry_at :
    (log : List LogEntry) (i : ℕ)
    → IsLog log
    → i < length log
    → term_at log i ≡ (entry_at log i).term
unfolding term_at
term_at-entry_at log i h lt = ground (arith, suc-last_index log h)

pub Indexed-append :
    (k : ℕ) (xs ys : List LogEntry)
    → Indexed k xs
    → Indexed (k + length xs) ys
    → Indexed k (xs ++ ys)
Indexed-append k [] ys hx hy = let e : k + 0 ≡ k = omega arith in subst (λ n. Indexed n ys) e hy
Indexed-append k (x ∷ xs) ys hx hy =
    let e : k + suc (length xs) ≡ suc k + length xs = omega arith in
    (hx.0, Indexed-append (suc k) xs ys hx.1 (subst (λ n. Indexed n ys) e hy))

pub Indexed-take : (k n : ℕ) (xs : List LogEntry) → Indexed k xs → Indexed k (take n xs)
Indexed-take k zero xs h = tt
Indexed-take k (suc n) [] h = tt
Indexed-take k (suc n) (x ∷ xs) h = (h.0, Indexed-take (suc k) n xs h.1)

pub entry_at-index :
    (k i : ℕ) (xs : List LogEntry) → Indexed k xs → i < length xs → (entry_at xs i).index ≡ k + i
entry_at-index k i [] h lt = absurd (omega arith)
entry_at-index k zero (x ∷ xs) h lt = h.0 ∙ omega arith
entry_at-index k (suc i) (x ∷ xs) h lt = omega (arith, entry_at-index (suc k) i xs h.1)

-- An entry put at position `n` of a log that reaches so far.
pub cut-IsLog :
    (n : ℕ) (log : List LogEntry) (e : LogEntry)
    → IsLog log
    → 0 < n
    → n ≤ length log
    → e.index ≡ n
    → IsLog (take n log ++ e ∷ [])
cut-IsLog zero log e h pos le same = absurd (omega arith)
cut-IsLog (suc n) [] e h pos le same = absurd h
cut-IsLog (suc n) (x ∷ xs) e h pos le same = (
  h.0,
  Indexed-append 0 (take (suc n) (x ∷ xs)) (e ∷ []) (Indexed-take 0 (suc n) (x ∷ xs) h.1)
      (omega (arith, length-take n xs, same), tt),
)

-- What one round of the loop does, where the entry comes next or overlaps.
pub append_entry-cases :
    (e : LogEntry) (r : Raft)
    → IsLog r.log
    → e.index ≤ length r.log
    → ((append_entry e r ≡ r) × (e.index < length r.log) × ((entry_at r.log e.index).term ≡ e.term))
      ⊎ (((append_entry e r).log ≡ take e.index r.log ++ e ∷ [])
          × ((e.index ≡ length r.log)
              ⊎ ((e.index < length r.log) × ((entry_at r.log e.index).term ≢ e.term))))
unfolding append_entry
append_entry-cases e r h le = elim (Bool-cases (leb e.index (last_index r.log))) [
  | inl old ↦
      let in_range : e.index < length r.log = ground (arith, suc-last_index r.log h) in
      elim (Bool-cases (term_at r.log e.index == e.term)) [
        | inl same ↦ inl (
          simp (old, same),
          in_range,
          sym (term_at-entry_at r.log e.index h in_range)
              ∙ eq_of_beq (term_at r.log e.index) e.term same,
        )
        | inr differs ↦ inr (
          simp (old, differs),
          inr (
            in_range,
            λ z.
                ne_of_beq (term_at r.log e.index) e.term differs
                  (term_at-entry_at r.log e.index h in_range ∙ z),
          ),
        )
      ]
  | inr new ↦
      let full : length r.log ≤ e.index = ground (arith, suc-last_index r.log h) in
      inr
        (simp new (ap (λ l. l ++ e ∷ []) (sym (take-length e.index r.log full))), inl (omega arith))
]

pub take_snoc :
    (n : ℕ) (xs : List LogEntry) → n < length xs → take n xs ++ entry_at xs n ∷ [] ≡ take (suc n) xs
take_snoc n [] h = absurd (omega arith)
take_snoc zero (x ∷ xs) h = refl
take_snoc (suc n) (x ∷ xs) h = ap (λ ys. x ∷ ys) (take_snoc n xs (omega arith))
