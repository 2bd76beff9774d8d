-- ===== src/Env/Kernel.antt =====
-- A small kernel for tests of the files of src/env_posix.cc: each call moves two bytes at most, and the first
-- ones are interrupted. It has one file, which is there where it is not empty.
use mini_lsm.Prelude.{
  ℕ, zero, suc, ◌≤◌, ◌<◌, ◌≡◌, refl, sym, ap, ◌∙◌, List, [], ◌∷◌, ◌++◌, Option, none, some, false,
  arith, min, length, length-take, take, drop,
}
use mini_lsm.Env.Calls.{
  Outcome, done, failed, Descriptor, Flags, create_truncate_write, create_write_append, read_only,
  Calls, Contents, Promises, Paths, Wrote, Took,
}
use mini_lsm.Env.Interface.{Environment, IsTold}
use mini_lsm.Wal.File.{WritableFile, SequentialFile}
use mini_lsm.Env.Files.{posix_environment}
use mini_lsm.Env.Posix.{PosixFile, file_exists}
use mini_lsm.Env.Implements.{OnKernel, posix_writable_file, posix_sequential_file}

pub record Kernel : Type 0 where
  pub signals : ℕ
  pub written : List ℕ
  pub unread : List ℕ

abbrev pub kernel : ℕ → List ℕ → List ℕ → Kernel
kernel s w u = record { signals = s; written = w; unread = u }

abbrev pub small_write : Descriptor → List ℕ → Kernel → Outcome ℕ × Kernel
small_write fd bytes k = elim k.signals [
  | zero ↦ (
    done (min 2 (length bytes)),
    record k { written = k.written ++ take (min 2 (length bytes)) bytes },
  )
  | suc n ↦ (failed 4, record k { signals = n })
]

abbrev pub small_read : Descriptor → ℕ → Kernel → Outcome (List ℕ) × Kernel
small_read fd n k = elim k.signals [
  | zero ↦ (done (take (min 2 n) k.unread), record k { unread = drop (min 2 n) k.unread })
  | suc m ↦ (failed 4, record k { signals = m })
]

abbrev pub small_open : Flags → Kernel → Outcome ℕ × Kernel
small_open create_truncate_write k = (done 3, record k { written = [] })
small_open create_write_append k = (done 3, k)
small_open read_only k = (done 3, record k { unread = k.written })

abbrev pub small_access : List ℕ → Option ℕ
small_access [] = some 2
small_access (x ∷ xs) = none

abbrev pub small_calls : Calls Kernel
small_calls = record {
  write = small_write;
  read = small_read;
  fsync = λ fd k. (none, k);
  close = λ fd k. (some 5, k);
  lseek = λ fd n k. (done n, k);
  open_file = λ path flags k. small_open flags k;
  access = λ path k. (small_access k.written, k);
  stat = λ path k. (done (length k.written), k);
  mkdir = λ path k. (some 17, k);
  strerror = λ e. [];
  eintr = 4;
  eexist = 17;
}

abbrev pub small_contents : Contents Kernel
small_contents = record { contents = λ fd k. k.written; left = λ fd k. k.unread }

abbrev count : Outcome ℕ → ℕ
count (done n) = n
count (failed e) = e

abbrev bytes_of : Outcome (List ℕ) → List ℕ
bytes_of (done bytes) = bytes
bytes_of (failed e) = []

take-length-take : (n : ℕ) (xs : List ℕ) → take n xs ≡ take (length (take n xs)) xs
take-length-take zero xs = refl
take-length-take (suc n) [] = refl
take-length-take (suc n) (x ∷ xs) = ap (λ (l : List ℕ). x ∷ l) (take-length-take n xs)

drop-length-take : (n : ℕ) (xs : List ℕ) → drop n xs ≡ drop (length (take n xs)) xs
drop-length-take zero xs = refl
drop-length-take (suc n) [] = refl
drop-length-take (suc n) (x ∷ xs) = drop-length-take n xs

nil_of_length : (xs : List ℕ) → length xs ≡ 0 → xs ≡ []
nil_of_length [] h = refl
nil_of_length (x ∷ xs) h = absurd (omega arith)

pub small_write_done :
    (fd : Descriptor) (bytes : List ℕ) (s : ℕ) (w u : List ℕ) (n : ℕ)
    → (small_write fd bytes (kernel s w u)).0 ≡ done n
    → Wrote w bytes (small_write fd bytes (kernel s w u)).1.written n
      × ((small_write fd bytes (kernel s w u)).1.signals ≤ s)
small_write_done fd bytes zero w u n h =
    let e : min 2 (length bytes) ≡ n = ap count h in
    (
      record {
        some_part = omega arith;
        progress = λ p. omega arith;
        wrote = ap (λ m. w ++ take m bytes) e;
      },
      omega arith,
    )
small_write_done fd bytes (suc s) w u n h = absurd (cc)

pub small_write_failed :
    (fd : Descriptor) (bytes : List ℕ) (s : ℕ) (w u : List ℕ) (e : ℕ)
    → (small_write fd bytes (kernel s w u)).0 ≡ failed e
    → ((small_write fd bytes (kernel s w u)).1.written ≡ w)
      × (e ≡ 4 → (small_write fd bytes (kernel s w u)).1.signals < s)
small_write_failed fd bytes zero w u e h = absurd (cc)
small_write_failed fd bytes (suc s) w u e h = (refl, λ x. omega arith)

pub small_read_done :
    (fd : Descriptor) (n : ℕ) (s : ℕ) (w u : List ℕ) (bytes : List ℕ)
    → (small_read fd n (kernel s w u)).0 ≡ done bytes
    → Took n bytes u (small_read fd n (kernel s w u)).1.unread
      × ((small_read fd n (kernel s w u)).1.signals ≤ s)
small_read_done fd n zero w u bytes h =
    let e : take (min 2 n) u ≡ bytes = ap bytes_of h in
    let size = length-take (min 2 n) u in
    let same = ap length e in
    (
      record {
        some_part = omega (arith, size, same);
        front = sym e ∙ take-length-take (min 2 n) u ∙ ap (λ m. take m u) same;
        behind = drop-length-take (min 2 n) u ∙ ap (λ m. drop m u) same;
        only_end = λ p z. nil_of_length u (omega (arith, size, same));
      },
      omega arith,
    )
small_read_done fd n (suc s) w u bytes h = absurd (cc)

pub small_read_failed :
    (fd : Descriptor) (n : ℕ) (s : ℕ) (w u : List ℕ) (e : ℕ)
    → (small_read fd n (kernel s w u)).0 ≡ failed e
    → ((small_read fd n (kernel s w u)).1.unread ≡ u)
      × (e ≡ 4 → (small_read fd n (kernel s w u)).1.signals < s)
small_read_failed fd n zero w u e h = absurd (cc)
small_read_failed fd n (suc s) w u e h = (refl, λ x. omega arith)

abbrev pub small_promises : Promises small_calls small_contents
small_promises = record {
  signals = λ k. k.signals;
  write_done = λ fd bytes k n h. small_write_done fd bytes k.signals k.written k.unread n h;
  write_failed = λ fd bytes k e h. small_write_failed fd bytes k.signals k.written k.unread e h;
  read_done = λ fd n k bytes h. small_read_done fd n k.signals k.written k.unread bytes h;
  read_failed = λ fd n k e h. small_read_failed fd n k.signals k.written k.unread e h;
  fsync_contents = λ fd k. refl;
}

pub small_stat :
    (size : ℕ) (k : Kernel) → done (length k.written) ≡ done size → size ≡ length k.written
small_stat size k h = sym (ap count h)

abbrev pub small_paths : Paths small_calls small_contents
small_paths = record {
  disk = λ path k. k.written;
  mkdir_disk = λ dir path k. refl;
  access_disk = λ other path k. refl;
  stat_disk = λ other path k. refl;
  stat_done = λ path k size h. small_stat size k h;
  append_done = λ path k fd h. refl;
  read_disk = λ other path k. refl;
  opened_done = λ path k fd h. refl;
}

abbrev pub small_writable : WritableFile (OnKernel small_calls small_contents small_promises)
small_writable = posix_writable_file small_calls small_contents small_promises

abbrev pub small_sequential : SequentialFile (OnKernel small_calls small_contents small_promises)
small_sequential = posix_sequential_file small_calls small_contents small_promises

abbrev pub small_environment : Environment Kernel small_writable small_sequential
small_environment = posix_environment small_calls small_contents small_promises small_paths

-- Of the small kernel a read fails by an interruption alone.
pub small_steady :
    (fd : Descriptor) (n : ℕ) (k : Kernel) (e : ℕ)
    → (small_calls.read fd n k).0 ≡ failed e
    → e ≡ small_calls.eintr
small_steady fd n k e h = steady_at k.signals k.written k.unread h
  where
    steady_at : (s : ℕ) (w u : List ℕ) → (small_read fd n (kernel s w u)).0 ≡ failed e → e ≡ 4
    steady_at zero w u h = absurd (cc)
    steady_at (suc s) w u h = sym (ap errno_of h)
      where
        errno_of : Outcome (List ℕ) → ℕ
        errno_of (done bytes) = 0
        errno_of (failed errno) = errno

-- And its file is there unless it is empty.
pub small-IsTold : (path : List ℕ) → IsTold small_environment path
unfolding file_exists
small-IsTold path k h = told_at k.written h
  where
    told_at : (w : List ℕ) → (file_exists small_calls path (kernel 0 w [])).0 ≡ false → w ≡ []
    told_at [] h = refl
    told_at (x ∷ xs) h = absurd (cc)

abbrev pub log_file : PosixFile
log_file = record { path = []; fd = some 3 }
