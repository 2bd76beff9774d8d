-- ===== src/Env/Calls.antt =====
-- The system calls of POSIX that src/env_posix.cc makes, with what their manual promises.
use mini_lsm.Prelude.{ℕ, ◌≤◌, ◌<◌, ◌≡◌, List, [], ◌++◌, Option, some, take, drop, length}

-- What a call returns: a result that is not negative, or -1 with `errno`.
pub data Outcome (A : Type 0) : Type 0 where
  done : A → Outcome A
  failed : ℕ → Outcome A

-- A descriptor, or `none` for -1.
abbrev pub Descriptor : Type 0
Descriptor = Option ℕ

pub data Flags : Type 0 where
  create_truncate_write create_write_append read_only : Flags

-- The calls over a state `K` of the kernel; one that returns 0 or -1 gives `none` or the `errno`; and
-- the two codes of `errno` that the source names.
pub record Calls (K : Type 0) : Type 0 where
  pub write : Descriptor → List ℕ → K → Outcome ℕ × K
  pub read : Descriptor → ℕ → K → Outcome (List ℕ) × K
  pub fsync : Descriptor → K → Option ℕ × K
  pub close : Descriptor → K → Option ℕ × K
  pub lseek : Descriptor → ℕ → K → Outcome ℕ × K
  pub open_file : List ℕ → Flags → K → Outcome ℕ × K
  pub access : List ℕ → K → Option ℕ × K
  pub stat : List ℕ → K → Outcome ℕ × K
  pub mkdir : List ℕ → K → Option ℕ × K
  pub strerror : ℕ → List ℕ
  pub eintr : ℕ
  pub eexist : ℕ

-- What was written to the file of a descriptor, and what there is left to read of it. A descriptor that
-- is written to stands at the end of its file, as one opened to append does.
pub record Contents (K : Type 0) : Type 0 where
  pub contents : Descriptor → K → List ℕ
  pub left : Descriptor → K → List ℕ

-- What a write that returned did: it wrote a part, of at least one byte where there are any.
pub record Wrote (before bytes after : List ℕ) (n : ℕ) : Type 0 where
  pub some_part : n ≤ length bytes
  pub progress : 0 < length bytes → 0 < n
  pub wrote : after ≡ before ++ take n bytes

-- What a read that returned did: it took a part of what was left, and no byte only at the end of the
-- file.
pub record Took (n : ℕ) (bytes before after : List ℕ) : Type 0 where
  pub some_part : length bytes ≤ n
  pub front : bytes ≡ take (length bytes) before
  pub behind : after ≡ drop (length bytes) before
  pub only_end : 0 < n → length bytes ≡ 0 → before ≡ []

-- The promises. `signals` bounds the interruptions that are still to come: each of them uses one up.
pub record Promises {K : Type 0} (sys : Calls K) (c : Contents K) : Type 0 where
  pub signals : K → ℕ
  pub write_done :
      (fd : Descriptor) (bytes : List ℕ) (k : K) (n : ℕ)
      → (sys.write fd bytes k).0 ≡ done n
      → Wrote (c.contents fd k) bytes (c.contents fd (sys.write fd bytes k).1) n
        × (signals (sys.write fd bytes k).1 ≤ signals k)
  pub write_failed :
      (fd : Descriptor) (bytes : List ℕ) (k : K) (e : ℕ)
      → (sys.write fd bytes k).0 ≡ failed e
      → (c.contents fd (sys.write fd bytes k).1 ≡ c.contents fd k)
        × (e ≡ sys.eintr → signals (sys.write fd bytes k).1 < signals k)
  pub read_done :
      (fd : Descriptor) (n : ℕ) (k : K) (bytes : List ℕ)
      → (sys.read fd n k).0 ≡ done bytes
      → Took n bytes (c.left fd k) (c.left fd (sys.read fd n k).1)
        × (signals (sys.read fd n k).1 ≤ signals k)
  pub read_failed :
      (fd : Descriptor) (n : ℕ) (k : K) (e : ℕ)
      → (sys.read fd n k).0 ≡ failed e
      → (c.left fd (sys.read fd n k).1 ≡ c.left fd k)
        × (e ≡ sys.eintr → signals (sys.read fd n k).1 < signals k)
  pub fsync_contents :
      (fd : Descriptor) (k : K) → c.contents fd (sys.fsync fd k).1 ≡ c.contents fd k

-- The promises on paths. `disk` is what the file of a path holds, nothing where there is none. To ask and
-- to make a directory changes no file; a descriptor that was opened to append or to read shows what the
-- path holds, and to open for reading changes no file.
pub record Paths {K : Type 0} (sys : Calls K) (c : Contents K) : Type 0 where
  pub disk : List ℕ → K → List ℕ
  pub mkdir_disk : (dir path : List ℕ) (k : K) → disk path (sys.mkdir dir k).1 ≡ disk path k
  pub access_disk : (other path : List ℕ) (k : K) → disk path (sys.access other k).1 ≡ disk path k
  pub stat_disk : (other path : List ℕ) (k : K) → disk path (sys.stat other k).1 ≡ disk path k
  pub stat_done :
      (path : List ℕ) (k : K) (size : ℕ)
      → (sys.stat path k).0 ≡ done size
      → size ≡ length (disk path k)
  pub append_done :
      (path : List ℕ) (k : K) (fd : ℕ)
      → (sys.open_file path create_write_append k).0 ≡ done fd
      → c.contents (some fd) (sys.open_file path create_write_append k).1 ≡ disk path k
  pub read_disk :
      (other path : List ℕ) (k : K) → disk path (sys.open_file other read_only k).1 ≡ disk path k
  pub opened_done :
      (path : List ℕ) (k : K) (fd : ℕ)
      → (sys.open_file path read_only k).0 ≡ done fd
      → c.left (some fd) (sys.open_file path read_only k).1 ≡ disk path k
