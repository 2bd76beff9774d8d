-- ===== src/Env/Posix.antt =====
-- src/env_posix.cc: `PosixWritableFile`, `PosixSequentialFile` and the functions that open files.
use mini_lsm.Prelude.{
  ℕ, zero, suc, ◌-◌, Bool, true, false, List, [], ◌++◌, Option, none, some, ltb, ◌==◌,
  if◌then◌else◌, length, drop,
}
use mini_lsm.Status.{Status, success, io_failed, codes}
use mini_lsm.Env.Calls.{
  done, failed, Descriptor, Flags, create_truncate_write, create_write_append, read_only, Calls,
}

-- The two classes have the same fields.
pub record PosixFile : Type 0 where
  pub path : List ℕ
  pub fd : Descriptor

module _ {K : Type 0} (sys : Calls K) where
  -- `errno` is the argument.
  unfoldable pub posix_error : List ℕ → ℕ → Status
  posix_error context errno = io_failed (context ++ codes ": " ++ sys.strerror errno)

  -- `Append`; `none` where the fuel does not suffice.
  unfoldable pub append : ℕ → PosixFile → List ℕ → K → Option (Status × K)
  append zero file src k = none
  append (suc fuel) file src k =
      if ltb 0 (length src)
      then (let (r, k') = sys.write file.fd src k in
          elim r [
            | done written ↦ append fuel file (drop written src) k'
            | failed errno ↦
                (let again = append fuel file src k' in
                  if errno == sys.eintr
                  then again
                  else some (posix_error (codes "write " ++ file.path) errno, k'))
          ])
      else some (success, k)

  unfoldable pub flush : PosixFile → K → Status × K
  flush file k = (success, k)

  -- What is returned for a call that returned 0 or failed.
  unfoldable pub zero_or_error : List ℕ → Option ℕ → Status
  zero_or_error context none = success
  zero_or_error context (some errno) = posix_error context errno

  unfoldable pub sync : PosixFile → K → Status × K
  sync file k =
      let (r, k') = sys.fsync file.fd k in (zero_or_error (codes "fsync " ++ file.path) r, k')

  -- `Close`: the descriptor is given up before the call, also where the call fails.
  unfoldable pub close : PosixFile → K → Status × PosixFile × K
  close file k = elim file.fd [
    | none ↦ (success, file, k)
    | some fd ↦
        let (r, k') = sys.close (some fd) k in
        (zero_or_error (codes "close " ++ file.path) r, record file { fd = none }, k')
  ]

  -- The loop of `Read` with what was read so far; `none` where the fuel does not suffice.
  unfoldable pub read_loop : ℕ → PosixFile → ℕ → List ℕ → K → Option (Status × List ℕ × K)
  read_loop zero file n scratch k = none
  read_loop (suc fuel) file n scratch k =
      if ltb (length scratch) n
      then (let (r, k') = sys.read file.fd (n - length scratch) k in
          elim r [
            | done bytes ↦
                (let more = read_loop fuel file n (scratch ++ bytes) k' in
                  if length bytes == 0 then some (success, scratch, k') else more)
            | failed errno ↦
                (let again = read_loop fuel file n scratch k' in
                  if errno == sys.eintr
                  then again
                  else some (posix_error (codes "read " ++ file.path) errno, [], k'))
          ])
      else some (success, scratch, k)

  unfoldable pub read : ℕ → PosixFile → ℕ → K → Option (Status × List ℕ × K)
  read fuel file n k = read_loop fuel file n [] k

  unfoldable pub skip : PosixFile → ℕ → K → Status × K
  skip file n k =
      let (r, k') = sys.lseek file.fd n k in
      elim r [
        | done offset ↦ (success, k')
        | failed errno ↦ (posix_error (codes "lseek " ++ file.path) errno, k')
      ]

  -- The three functions that open a file differ in the flags alone.
  unfoldable pub opened : Flags → List ℕ → K → Status × Option PosixFile × K
  opened flags path k =
      let (r, k') = sys.open_file path flags k in
      elim r [
        | done fd ↦ (success, some (record { path = path; fd = some fd }), k')
        | failed errno ↦ (posix_error (codes "open " ++ path) errno, none, k')
      ]

  unfoldable pub new_writable_file : List ℕ → K → Status × Option PosixFile × K
  new_writable_file path k = opened create_truncate_write path k

  unfoldable pub new_appendable_file : List ℕ → K → Status × Option PosixFile × K
  new_appendable_file path k = opened create_write_append path k

  unfoldable pub new_sequential_file : List ℕ → K → Status × Option PosixFile × K
  new_sequential_file path k = opened read_only path k

  unfoldable pub file_exists : List ℕ → K → Bool × K
  file_exists path k =
      let (r, k') = sys.access path k in (elim r [ none ↦ true | some errno ↦ false ], k')

  -- The result of `stat` is the size.
  unfoldable pub get_file_size : List ℕ → K → Status × ℕ × K
  get_file_size path k =
      let (r, k') = sys.stat path k in
      elim r [
        | done size ↦ (success, size, k')
        | failed errno ↦ (posix_error (codes "stat " ++ path) errno, 0, k')
      ]

  unfoldable pub make_dir : List ℕ → K → Status × K
  make_dir path k =
      let (r, k') = sys.mkdir path k in
      let s : Status = elim r [
        | none ↦ success
        | some errno ↦
            if errno == sys.eexist then success else posix_error (codes "mkdir " ++ path) errno
      ] in
      (s, k')
