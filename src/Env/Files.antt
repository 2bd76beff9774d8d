-- ===== src/Env/Files.antt =====
-- The functions of src/env_posix.cc that open files are those of include/mlsm/env.h, so that the stores may
-- be opened on them.
use mini_lsm.Prelude.{
  ℕ, zero, suc, ◌+◌, ◌-◌, ◌≡◌, refl, inl, inr, true, false, Bool-cases, List, [], Option, none,
  some, arith, length, ltb, ◌==◌,
}
use mini_lsm.Status.{Status, is_ok}
use mini_lsm.Wal.File.{IsReliable}
use mini_lsm.Env.Calls.{
  Outcome, done, failed, create_write_append, read_only, Calls, Contents, Promises, Paths,
}
use mini_lsm.Env.Interface.{Environment}
use mini_lsm.Env.Posix.{
  PosixFile, posix_error, opened, new_appendable_file, new_sequential_file, file_exists,
  get_file_size, make_dir, read_loop, read,
}
use mini_lsm.Env.Read.{ReturnsRead, read-ReturnsRead}
use mini_lsm.Env.Implements.{read_of, posix_read, posix_writable_file, posix_sequential_file}

module _ {K : Type 0} (sys : Calls K) where
  -- A file that was opened, with the kernel that it is used on.
  abbrev pub on_kernel : Status × Option PosixFile × K → Status × Option (PosixFile × K) × K
  on_kernel (s, none, k) = (s, none, k)
  on_kernel (s, some file, k) = (s, some (file, k), k)

  unfoldable pub posix_appendable : List ℕ → K → Status × Option (PosixFile × K) × K
  posix_appendable path k = on_kernel (new_appendable_file sys path k)

  unfoldable pub posix_sequential : List ℕ → K → Status × Option (PosixFile × K) × K
  posix_sequential path k = on_kernel (new_sequential_file sys path k)

  module _ (c : Contents K) (p : Promises sys c) (q : Paths sys c) where
    pub made : (dir path : List ℕ) (k : K) → q.disk path (make_dir sys dir k).1 ≡ q.disk path k
    unfolding make_dir
    made dir path k = q.mkdir_disk dir path k

    pub asked :
        (other path : List ℕ) (k : K) → q.disk path (file_exists sys other k).1 ≡ q.disk path k
    unfolding file_exists
    asked other path k = q.access_disk other path k

    pub sized_as :
        (path : List ℕ) (k : K) (r : Outcome ℕ)
        → (sys.stat path k).0 ≡ r
        → (q.disk path (get_file_size sys path k).2 ≡ q.disk path k)
          × (is_ok (get_file_size sys path k).0 ≡ true
              → (get_file_size sys path k).1 ≡ length (q.disk path k))
    unfolding get_file_size posix_error
    sized_as path k (done size) e =
        rw (get_file_size, e) (q.stat_disk path path k, λ fine. q.stat_done path k size e)
    sized_as path k (failed errno) e =
        rw (get_file_size, e) (q.stat_disk path path k, λ fine. absurd (cc))

    pub appendable_as :
        (path : List ℕ) (k : K) (r : Outcome ℕ)
        → (sys.open_file path create_write_append k).0 ≡ r
        → is_ok (posix_appendable path k).0 ≡ true
        → (f : PosixFile × K) × ((posix_appendable path k).1 ≡ some f)
          × (c.contents f.0.fd f.1 ≡ q.disk path k)
    unfolding posix_appendable new_appendable_file opened posix_error
    appendable_as path k (done fd) e fine =
        rw (posix_appendable, new_appendable_file, opened, e)
          (
            (record { path = path; fd = some fd }, (sys.open_file path create_write_append k).1),
            refl,
            q.append_done path k fd e,
          )
    appendable_as path k (failed errno) e fine =
        let no : is_ok (posix_appendable path k).0 ≡ false =
          rw (posix_appendable, new_appendable_file, opened, e) refl in
        absurd (ground (arith, no, fine))

    pub sequential_as :
        (path : List ℕ) (k : K) (r : Outcome ℕ)
        → (sys.open_file path read_only k).0 ≡ r
        → (q.disk path (posix_sequential path k).2 ≡ q.disk path k)
          × (is_ok (posix_sequential path k).0 ≡ true
              → (f : PosixFile × K) × ((posix_sequential path k).1 ≡ some f)
                × (c.left f.0.fd f.1 ≡ q.disk path k))
    unfolding posix_sequential new_sequential_file opened posix_error
    sequential_as path k (done fd) e =
        rw (posix_sequential, new_sequential_file, opened, e)
          (
            q.read_disk path path k,
            λ fine. (
              (record { path = path; fd = some fd }, (sys.open_file path read_only k).1),
              refl,
              q.opened_done path k fd e,
            ),
          )
    sequential_as path k (failed errno) e =
        rw (posix_sequential, new_sequential_file, opened, e)
          (q.read_disk path path k, λ fine. absurd (cc))

    -- The environment that `Env::Default` returns.
    abbrev pub posix_environment :
        Environment K (posix_writable_file sys c p) (posix_sequential_file sys c p)
    posix_environment = record {
      make_dir = make_dir sys;
      file_exists = file_exists sys;
      get_file_size = get_file_size sys;
      new_appendable_file = posix_appendable;
      new_sequential_file = posix_sequential;
      disk = q.disk;
      made = made;
      asked = asked;
      sized = λ path k. sized_as path k _ refl;
      appendable = λ path k. appendable_as path k _ refl;
      sequential = λ path k. sequential_as path k _ refl;
    }

  -- Where it returned, it returned success.
  Succeeds : Option (Status × List ℕ × K) → Type 0
  Succeeds none = Unit
  Succeeds (some (s, bytes, k)) = is_ok s ≡ true

  module _
      (steady : (fd : Option ℕ) (n : ℕ) (k : K) (e : ℕ)
        → (sys.read fd n k).0 ≡ failed e
        → e ≡ sys.eintr) where
    read_round-Succeeds :
        (fuel : ℕ) (file : PosixFile) (n : ℕ) (scratch : List ℕ) (k : K) (r : Outcome (List ℕ))
        → (sys.read file.fd (n - length scratch) k).0 ≡ r
        → ltb (length scratch) n ≡ true
        → ((more : List ℕ) (k1 : K) → Succeeds (read_loop sys fuel file n more k1))
        → Succeeds (read_loop sys (suc fuel) file n scratch k)
    unfolding read_loop Succeeds
    read_round-Succeeds fuel file n scratch k (done bytes) e room ih =
        elim (Bool-cases (length bytes == 0)) [
          | inl nothing ↦ rw (room, e, nothing) refl
          | inr some_ ↦ rw (room, e, some_) (ih _ _)
        ]
    read_round-Succeeds fuel file n scratch k (failed errno) e room ih =
        let again : (errno == sys.eintr) ≡ true = ground (arith, steady file.fd _ k errno e) in
        rw (room, e, again) (ih _ _)

    read_loop-Succeeds :
        (fuel : ℕ) (file : PosixFile) (n : ℕ) (scratch : List ℕ) (k : K)
        → Succeeds (read_loop sys fuel file n scratch k)
    unfolding read_loop Succeeds
    read_loop-Succeeds zero file n scratch k = tt
    read_loop-Succeeds (suc fuel) file n scratch k = elim (Bool-cases (ltb (length scratch) n)) [
      | inr full ↦ rw full refl
      | inl room ↦
          read_round-Succeeds fuel file n scratch k _ refl room
            (λ more k1. read_loop-Succeeds fuel file n more k1)
    ]

    read_of-is_ok :
        (c : Contents K) (p : Promises sys c) (f : PosixFile × K) (n : ℕ) (left : List ℕ)
        (o : Option (Status × List ℕ × K))
        → Succeeds o
        → ReturnsRead sys c p f.0 n left o
        → is_ok (read_of sys c p f o).0 ≡ true
    unfolding Succeeds
    read_of-is_ok c p f n left none fine r = absurd r
    read_of-is_ok c p f n left (some (s, bytes, k)) fine r = fine

    -- `Read` returns success, with fuel for each byte and each interruption, if no call of `read` fails but by
    -- an interruption and the calls keep their promises.
    pub posix-IsReliable :
        (c : Contents K) (p : Promises sys c) → IsReliable (posix_sequential_file sys c p)
    unfolding posix_read read
    posix-IsReliable c p n f =
        read_of-is_ok c p f n (c.left f.0.fd f.1) _
          (read_loop-Succeeds (suc (n + p.signals f.1)) f.0 n [] f.1)
          (read-ReturnsRead sys c p (suc (n + p.signals f.1)) f.0 n f.1 (omega arith))
