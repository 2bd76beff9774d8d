-- ===== src/Env/Read.antt =====
-- `Read` of src/env_posix.cc: the loop over partial and interrupted reads.
use mini_lsm.Prelude.{
  ℕ, zero, suc, ◌+◌, ◌-◌, ◌≤◌, ◌<◌, ◌≡◌, refl, sym, ap, ◌∙◌, inl, inr, true, List, [], ◌++◌, Option,
  none, some, arith, Bool-cases, eq_of_beq, ne_of_beq, ltb, ◌==◌, length, length-append,
  length-drop, take, drop, drop-drop, take-append-take-drop, take-length, drop-length,
}
use mini_lsm.Status.{Status, is_ok}
use mini_lsm.Env.Calls.{Outcome, done, failed, Calls, Contents, Promises, Took}
use mini_lsm.Env.Posix.{PosixFile, posix_error, read_loop, read}

module _ {K : Type 0} (sys : Calls K) (c : Contents K) (p : Promises sys c) where
  -- `scratch` is the front of what was left, and `k` is behind it.
  record Fetched (left scratch : List ℕ) (n : ℕ) (now : List ℕ) : Type 0 where
    fits : length scratch ≤ n
    front : scratch ≡ take (length scratch) left
    behind : now ≡ drop (length scratch) left

  -- The call returned, and where it returned success it took `n` bytes, or all there were.
  abbrev pub ReturnsRead : PosixFile → ℕ → List ℕ → Option (Status × List ℕ × K) → Type 0
  ReturnsRead file n left none = ⊥
  ReturnsRead file n left (some (s, bytes, k')) =
      is_ok s ≡ true → (bytes ≡ take n left) × (c.left file.fd k' ≡ drop n left)

  fetch :
      (left scratch bytes : List ℕ) (n : ℕ) (now then_ : List ℕ)
      → Fetched left scratch n now
      → Took (n - length scratch) bytes now then_
      → Fetched left (scratch ++ bytes) n then_
  fetch left scratch bytes n now then_ f t =
      let size = length-append scratch bytes in
      record {
        fits = omega (arith, size, f.fits, t.some_part);
        front =
            ap (λ (l : List ℕ). scratch ++ l) (t.front ∙ ap (take (length bytes)) f.behind)
            ∙ ap (λ (l : List ℕ). l ++ take (length bytes) (drop (length scratch) left)) f.front
            ∙ take-append-take-drop (length scratch) (length bytes) left
            ∙ ap (λ m. take m left) (sym size);
        behind =
            t.behind
            ∙ ap (drop (length bytes)) f.behind
            ∙ drop-drop (length scratch) (length bytes) left
            ∙ ap (λ m. drop m left) (sym size);
      }

  -- A scratch that is full, or that holds all that was left.
  Fetched-full :
      (left scratch : List ℕ) (n : ℕ) (now : List ℕ)
      → Fetched left scratch n now
      → n ≤ length scratch
      → (scratch ≡ take n left) × (now ≡ drop n left)
  Fetched-full left scratch n now f h =
      let e : length scratch ≡ n = omega (arith, f.fits) in
      (f.front ∙ ap (λ m. take m left) e, f.behind ∙ ap (λ m. drop m left) e)

  Fetched-end :
      (left scratch : List ℕ) (n : ℕ) (now then_ : List ℕ)
      → Fetched left scratch n now
      → now ≡ []
      → then_ ≡ []
      → (scratch ≡ take n left) × (then_ ≡ drop n left)
  Fetched-end left scratch n now then_ f over empty =
      let size : length left ≤ length scratch =
        omega (arith, length-drop (length scratch) left, ap length (sym f.behind ∙ over)) in
      (
        f.front
            ∙ take-length (length scratch) left size
            ∙ sym (take-length n left (omega (arith, size, f.fits))),
        empty ∙ sym (drop-length n left (omega (arith, size, f.fits))),
      )

  read_round :
      (fuel : ℕ) (file : PosixFile) (n : ℕ) (left scratch : List ℕ) (k : K) (r : Outcome (List ℕ))
      → (sys.read file.fd (n - length scratch) k).0 ≡ r
      → ltb (length scratch) n ≡ true
      → (n - length scratch) + p.signals k < suc fuel
      → Fetched left scratch n (c.left file.fd k)
      → ((more : List ℕ) (k1 : K)
          → (n - length more) + p.signals k1 < fuel
          → Fetched left more n (c.left file.fd k1)
          → ReturnsRead file n left (read_loop sys fuel file n more k1))
      → ReturnsRead file n left (read_loop sys (suc fuel) file n scratch k)
  unfolding read_loop posix_error
  read_round fuel file n left scratch k (done bytes) e room lt f ih =
      let t = p.read_done file.fd (n - length scratch) k bytes e in
      let k1 = (sys.read file.fd (n - length scratch) k).1 in
      elim (Bool-cases (length bytes == 0)) [
        | inl nothing ↦
            let zero_ = eq_of_beq (length bytes) 0 nothing in
            let over = t.0.only_end (ground arith) zero_ in
            let after : c.left file.fd k1 ≡ [] =
              t.0.behind
              ∙ ap (drop (length bytes)) over
              ∙ drop-length (length bytes) [] (omega arith) in
            rw (room, e, nothing)
              (λ fine.
                Fetched-end left scratch n (c.left file.fd k) (c.left file.fd k1) f over after)
        | inr some_ ↦
            let pos = ne_of_beq (length bytes) 0 some_ in
            let less : (n - length (scratch ++ bytes)) + p.signals k1 < fuel =
              ground (arith, length-append scratch bytes, t.1, pos) in
            rw (room, e, some_)
              (ih (scratch ++ bytes) k1 less
                (fetch left scratch bytes n (c.left file.fd k) (c.left file.fd k1) f t.0))
      ]
  read_round fuel file n left scratch k (failed errno) e room lt f ih =
      let t = p.read_failed file.fd (n - length scratch) k errno e in
      let k1 = (sys.read file.fd (n - length scratch) k).1 in
      elim (Bool-cases (errno == sys.eintr)) [
        | inl again ↦
            let sooner = t.1 (eq_of_beq errno sys.eintr again) in
            rw (room, e, again)
              (ih scratch k1 (omega arith)
                (record { fits = f.fits; front = f.front; behind = t.0 ∙ f.behind }))
        | inr stop ↦ rw (room, e, stop) (λ fine. absurd (cc))
      ]

  read_loop-ReturnsRead :
      (fuel : ℕ) (file : PosixFile) (n : ℕ) (left scratch : List ℕ) (k : K)
      → (n - length scratch) + p.signals k < fuel
      → Fetched left scratch n (c.left file.fd k)
      → ReturnsRead file n left (read_loop sys fuel file n scratch k)
  unfolding read_loop
  read_loop-ReturnsRead zero file n left scratch k lt f = absurd (omega arith)
  read_loop-ReturnsRead (suc fuel) file n left scratch k lt f =
      elim (Bool-cases (ltb (length scratch) n)) [
        | inr full ↦
            rw full (λ fine. Fetched-full left scratch n (c.left file.fd k) f (ground arith))
        | inl room ↦
            read_round fuel file n left scratch k _ refl room lt f
              (λ more k1 l f1. read_loop-ReturnsRead fuel file n left more k1 l f1)
      ]

  -- `Read` returns: fuel for each byte and each interruption is enough. Where it returns success it has
  -- read the bytes asked for, or all that were left, and the file stands behind them, if the calls keep
  -- their promises.
  pub read-ReturnsRead :
      (fuel : ℕ) (file : PosixFile) (n : ℕ) (k : K)
      → n + p.signals k < fuel
      → ReturnsRead file n (c.left file.fd k) (read sys fuel file n k)
  unfolding read
  read-ReturnsRead fuel file n k lt =
      read_loop-ReturnsRead fuel file n (c.left file.fd k) [] k (omega arith)
        (record { fits = omega arith; front = refl; behind = refl })
