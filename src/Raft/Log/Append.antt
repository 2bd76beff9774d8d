-- ===== src/Raft/Log/Append.antt =====
-- The loop over the entries of `HandleAppendEntries` (src/raft/raft.cc): the log comes to hold what
-- the leader sent, and below it nothing changes.
use mini_lsm.Prelude.{
  ℕ, zero, suc, ◌+◌, ◌≤◌, ◌<◌, ◌≡◌, refl, sym, ◌∙◌, ap, subst, ◌⊎◌, inl, inr, List, [], ◌∷◌, ◌++◌,
  arith, length, take, length-append, length-take, get_or-append_left, get_or-append_length,
  get_or-take,
}
use mini_lsm.Raft.Messages.{LogEntry}
use mini_lsm.Raft.State.{Raft, entry_at, sentinel}
use mini_lsm.Raft.Follower.{append_entry, append_all}
use mini_lsm.Raft.Log.{Indexed, IsLog, Agree, cut-IsLog, append_entry-cases}

-- The entry of `b` at `i` is that of `a`, and there was one.
abbrev pub IsKept : ℕ → List LogEntry → List LogEntry → Type 0
IsKept i a b = (i < length a) × (entry_at b i ≡ entry_at a i)

-- At `i` the log `b` holds the entry `e` whole, or still that of the log `a`, of the same term.
abbrev pub IsTaken : ℕ → LogEntry → List LogEntry → List LogEntry → Type 0
IsTaken i e a b = (entry_at b i ≡ e) ⊎ (IsKept i a b × ((entry_at a i).term ≡ e.term))

-- The log `b` has taken the entry `e` at position `n`, below it is the log `a`, and above it nothing
-- is new.
pub record HasTaken (n : ℕ) (e : LogEntry) (a b : List LogEntry) : Type 0 where
  pub shape : IsLog b
  pub reach : n < length b
  pub below : Agree n a b
  pub holds : (entry_at b n).term ≡ e.term
  pub whole : IsTaken n e a b
  pub above : (i : ℕ) → n < i → i < length b → IsKept i a b

cut-HasTaken :
    (n : ℕ) (e : LogEntry) (a : List LogEntry)
    → IsLog a
    → 0 < n
    → n ≤ length a
    → e.index ≡ n
    → HasTaken n e a (take n a ++ e ∷ [])
cut-HasTaken n e a h pos le same =
    let size : length (take n a) ≡ n = omega (arith, length-take n a) in
    let there = get_or-append_length (take n a) (e ∷ []) n sentinel (sym size) in
    record {
      shape = cut-IsLog n a e h pos le same;
      reach = omega (arith, length-append (take n a) (e ∷ []));
      below = λ i lt.
          get_or-append_left (take n a) (e ∷ []) i sentinel (omega arith)
          ∙ get_or-take n a i sentinel lt;
      holds = ap (λ (x : LogEntry). x.term) there;
      whole = inl there;
      above = λ i lt within. absurd (omega (arith, length-append (take n a) (e ∷ [])));
    }

pub append_entry-HasTaken :
    (n : ℕ) (e : LogEntry) (r : Raft)
    → IsLog r.log
    → 0 < n
    → n ≤ length r.log
    → e.index ≡ n
    → HasTaken n e r.log (append_entry e r).log
append_entry-HasTaken n e r h pos le same =
    elim (append_entry-cases e r h (subst (λ k. k ≤ length r.log) (sym same) le)) [
      | inl (kept, in_range, agrees) ↦
          subst (λ (x : Raft). HasTaken n e r.log x.log) (sym kept)
            (record {
              shape = h;
              reach = omega arith;
              below = λ i lt. refl;
              holds = ap (λ i. (entry_at r.log i).term) (sym same) ∙ agrees;
              whole =
                  inr ((omega arith, refl), ap (λ i. (entry_at r.log i).term) (sym same) ∙ agrees);
              above = λ i lt within. (within, refl);
            })
      | inr (cut, parts) ↦
          subst (λ b. HasTaken n e r.log b) (sym cut)
            (subst (λ k. HasTaken n e r.log (take k r.log ++ e ∷ [])) (sym same)
              (cut-HasTaken n e r.log h pos le same))
    ]

-- The log `b` holds the batch `es` from position `n` on, each entry whole unless `a` had one of its
-- term there, and below it is the log `a`.
pub record HasMerged (n : ℕ) (es : List LogEntry) (a b : List LogEntry) : Type 0 where
  pub shape : IsLog b
  pub reach : n + length es ≤ length b
  pub below : Agree n a b
  pub holds : (k : ℕ) → k < length es → (entry_at b (n + k)).term ≡ (entry_at es k).term
  pub whole : (k : ℕ) → k < length es → IsTaken (n + k) (entry_at es k) a b

-- What an entry was taken as is so after later entries, which leave its position alone.
IsTaken-below :
    (n : ℕ) (e : LogEntry) (a b c : List LogEntry)
    → entry_at c n ≡ entry_at b n
    → IsTaken n e a b
    → IsTaken n e a c
IsTaken-below n e a b c same (inl there) = inl (same ∙ there)
IsTaken-below n e a b c same (inr ((within, kept), agrees)) = inr ((within, same ∙ kept), agrees)

-- An entry that was kept behind an entry that was taken is one of the log before both.
IsTaken-above :
    (n i : ℕ) (e f : LogEntry) (a b c : List LogEntry)
    → HasTaken n e a b
    → n < i
    → IsTaken i f b c
    → IsTaken i f a c
IsTaken-above n i e f a b c one lt (inl there) = inl there
IsTaken-above n i e f a b c one lt (inr ((within, kept), agrees)) =
    let old = one.above i lt within in
    inr ((old.0, kept ∙ old.1), ap (λ (x : LogEntry). x.term) (sym old.1) ∙ agrees)

add_zero : (n : ℕ) → n ≡ n + 0
add_zero n = omega arith

add_suc : (n k : ℕ) → suc n + k ≡ n + suc k
add_suc n k = omega arith

pub append_all-HasMerged :
    (n : ℕ) (es : List LogEntry) (r : Raft)
    → IsLog r.log
    → 0 < n
    → n ≤ length r.log
    → Indexed n es
    → HasMerged n es r.log (append_all es r).log
unfolding append_all
append_all-HasMerged n [] r h pos le ix = record {
  shape = h;
  reach = omega arith;
  below = λ i lt. refl;
  holds = λ k lt. absurd (omega arith);
  whole = λ k lt. absurd (omega arith);
}
append_all-HasMerged n (e ∷ es) r h pos le ix =
    let one = append_entry-HasTaken n e r h pos le ix.0 in
    let rest =
      append_all-HasMerged (suc n) es (append_entry e r) one.shape (omega arith) one.reach ix.1 in
    record {
      shape = rest.shape;
      reach = omega (arith, rest.reach);
      below = λ i lt. rest.below i (omega arith) ∙ one.below i lt;
      holds = holds_at one rest;
      whole = whole_at one rest;
    }
  where
    holds_at :
        HasTaken n e r.log (append_entry e r).log
        → HasMerged (suc n) es (append_entry e r).log (append_all es (append_entry e r)).log
        → (k : ℕ) → k < length (e ∷ es)
        → (entry_at (append_all es (append_entry e r)).log (n + k)).term
          ≡ (entry_at (e ∷ es) k).term
    holds_at one rest zero lt =
        let e0 : n + 0 ≡ n = omega arith in
        ap (λ i. (entry_at (append_all es (append_entry e r)).log i).term) e0
        ∙ ap (λ (x : LogEntry). x.term) (rest.below n (omega arith))
        ∙ one.holds
    holds_at one rest (suc k) lt =
        let ek : n + suc k ≡ suc n + k = omega arith in
        ap (λ i. (entry_at (append_all es (append_entry e r)).log i).term) ek
        ∙ rest.holds k (omega arith)

    whole_at :
        HasTaken n e r.log (append_entry e r).log
        → HasMerged (suc n) es (append_entry e r).log (append_all es (append_entry e r)).log
        → (k : ℕ) → k < length (e ∷ es)
        → IsTaken (n + k) (entry_at (e ∷ es) k) r.log (append_all es (append_entry e r)).log
    whole_at one rest zero lt =
        subst (λ i. IsTaken i e r.log (append_all es (append_entry e r)).log) (add_zero n)
          (IsTaken-below n e _ _ _ (rest.below n (omega arith)) one.whole)
    whole_at one rest (suc k) lt =
        subst (λ i. IsTaken i (entry_at es k) r.log (append_all es (append_entry e r)).log)
          (add_suc n k)
          (IsTaken-above n (suc n + k) _ _ _ _ _ one (omega arith) (rest.whole k (omega arith)))
