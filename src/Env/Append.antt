-- ===== src/Env/Append.antt =====
-- `Append` of src/env_posix.cc: the loop over partial and interrupted writes.
use mini_lsm.Prelude.{
  ℕ, zero, suc, ◌+◌, ◌<◌, ◌≡◌, refl, sym, ap, ◌∙◌, inl, inr, true, List, [], ◌++◌, append_assoc,
  append-nil, Option, none, some, arith, Bool-cases, eq_of_beq, ltb, ◌==◌, length, length-drop,
  take, drop, take-append-drop, take-append-take-drop, take-length,
}
use mini_lsm.Status.{Status, is_ok}
use mini_lsm.Env.Calls.{Outcome, done, failed, Calls, Contents, Promises}
use mini_lsm.Env.Posix.{PosixFile, posix_error, append}

module _ {K : Type 0} (sys : Calls K) (c : Contents K) (p : Promises sys c) where
  -- The call returned; a front of the data is in the file, and all of it where it returned success.
  pub record Appended (file : PosixFile) (src : List ℕ) (k : K) (s : Status) (k' : K) : Type 0 where
    pub part : (m : ℕ) × (c.contents file.fd k' ≡ c.contents file.fd k ++ take m src)
    pub whole : is_ok s ≡ true → c.contents file.fd k' ≡ c.contents file.fd k ++ src

  abbrev pub ReturnsAppended : PosixFile → List ℕ → K → Option (Status × K) → Type 0
  ReturnsAppended file src k none = ⊥
  ReturnsAppended file src k (some (s, k')) = Appended file src k s k'

  -- The part that was written, and then the rest.
  ReturnsAppended-more :
      (file : PosixFile) (src : List ℕ) (n : ℕ) (k k1 : K) (o : Option (Status × K))
      → c.contents file.fd k1 ≡ c.contents file.fd k ++ take n src
      → ReturnsAppended file (drop n src) k1 o
      → ReturnsAppended file src k o
  ReturnsAppended-more file src n k k1 none e r = r
  ReturnsAppended-more file src n k k1 (some (s, k')) e r =
      let before = c.contents file.fd k in
      let join : (l : List ℕ) → c.contents file.fd k1 ++ l ≡ before ++ (take n src ++ l) =
        λ l. ap (λ (x : List ℕ). x ++ l) e ∙ append_assoc before (take n src) l in
      record {
        part = (
          n + r.part.0,
          r.part.1
              ∙ join (take r.part.0 (drop n src))
              ∙ ap (λ (l : List ℕ). before ++ l) (take-append-take-drop n r.part.0 src),
        );
        whole = λ fine.
            r.whole fine
            ∙ join (drop n src)
            ∙ ap (λ (l : List ℕ). before ++ l) (take-append-drop n src);
      }

  -- A round of the loop with something to write.
  append-round :
      (fuel : ℕ) (file : PosixFile) (src : List ℕ) (k : K) (r : Outcome ℕ)
      → (sys.write file.fd src k).0 ≡ r
      → ltb 0 (length src) ≡ true
      → length src + p.signals k < suc fuel
      → ((rest : List ℕ) (k1 : K)
          → length rest + p.signals k1 < fuel
          → ReturnsAppended file rest k1 (append sys fuel file rest k1))
      → ReturnsAppended file src k (append sys (suc fuel) file src k)
  unfolding append posix_error
  append-round fuel file src k (done n) e more lt ih =
      let w = p.write_done file.fd src k n e in
      let k1 = (sys.write file.fd src k).1 in
      let less : length (drop n src) + p.signals k1 < fuel =
        ground (arith, length-drop n src, w.0.progress, w.0.some_part, w.1) in
      rw (more, e) (ReturnsAppended-more file src n k k1 _ w.0.wrote (ih (drop n src) k1 less))
  append-round fuel file src k (failed errno) e more lt ih =
      let w = p.write_failed file.fd src k errno e in
      let k1 = (sys.write file.fd src k).1 in
      elim (Bool-cases (errno == sys.eintr)) [
        | inl again ↦
            let sooner = w.1 (eq_of_beq errno sys.eintr again) in
            rw (more, e, again)
              (ReturnsAppended-more file src 0 k k1 _ (w.0 ∙ sym (append-nil _))
                (ih src k1 (omega arith)))
        | inr stop ↦
            rw (more, e, stop)
              (record { part = (0, w.0 ∙ sym (append-nil _)); whole = λ fine. absurd (cc) })
      ]

  -- `Append` returns: fuel for each byte and each interruption is enough. A front of the data is then in
  -- the file, and all of it where success was returned, if the calls keep their promises.
  pub append-ReturnsAppended :
      (fuel : ℕ) (file : PosixFile) (src : List ℕ) (k : K)
      → length src + p.signals k < fuel
      → ReturnsAppended file src k (append sys fuel file src k)
  unfolding append
  append-ReturnsAppended zero file src k lt = absurd (omega arith)
  append-ReturnsAppended (suc fuel) file src k lt = elim (Bool-cases (ltb 0 (length src))) [
    | inr empty ↦
        let none_left : src ≡ [] = sym (take-length 0 src (ground arith)) in
        rw empty (record {
          part = (0, sym (append-nil _));
          whole = λ fine.
              sym (append-nil _) ∙ ap (λ (l : List ℕ). c.contents file.fd k ++ l) (sym none_left);
        })
    | inl more ↦
        append-round fuel file src k _ refl more lt
          (λ rest k1 l. append-ReturnsAppended fuel file rest k1 l)
  ]
