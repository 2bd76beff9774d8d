-- ===== src/Env/Implements.antt =====
-- The files of src/env_posix.cc keep what include/mlsm/writable_file.h and sequential_file.h say, so that
-- the log may be on them.
use mini_lsm.Prelude.{
  ℕ, suc, ◌+◌, ◌≡◌, refl, true, List, [], ◌++◌, Option, none, some, arith, length, take, drop,
}
use mini_lsm.Status.{Status, success, is_ok, io_failed}
use mini_lsm.Wal.File.{WritableFile, SequentialFile}
use mini_lsm.Env.Calls.{Calls, Contents, Promises}
use mini_lsm.Env.Posix.{PosixFile, append, flush, sync, close, read}
use mini_lsm.Env.Append.{ReturnsAppended, append-ReturnsAppended}
use mini_lsm.Env.Read.{ReturnsRead, read-ReturnsRead}

module _ {K : Type 0} (sys : Calls K) (c : Contents K) (p : Promises sys c) where
  -- A file with the kernel that it is used on.
  abbrev pub OnKernel : Type 0
  OnKernel = PosixFile × K

  -- The value of an `Append` or `Read` that returns, as both do.
  abbrev pub appended_of : OnKernel → Option (Status × K) → Status × OnKernel
  appended_of (file, k) none = (io_failed [], (file, k))
  appended_of (file, k) (some (s, k')) = (s, (file, k'))

  abbrev pub read_of : OnKernel → Option (Status × List ℕ × K) → Status × List ℕ × OnKernel
  read_of (file, k) none = (io_failed [], [], (file, k))
  read_of (file, k) (some (s, bytes, k')) = (s, bytes, (file, k'))

  appended_of-whole :
      (f : OnKernel) (src : List ℕ) (o : Option (Status × K))
      → ReturnsAppended sys c p f.0 src f.1 o
      → is_ok (appended_of f o).0 ≡ true
      → c.contents (appended_of f o).1.0.fd (appended_of f o).1.1 ≡ c.contents f.0.fd f.1 ++ src
  appended_of-whole (file, k) src none r h = absurd r
  appended_of-whole (file, k) src (some (s, k')) r h = r.whole h

  read_of-taken :
      (f : OnKernel) (n : ℕ) (o : Option (Status × List ℕ × K))
      → ReturnsRead sys c p f.0 n (c.left f.0.fd f.1) o
      → is_ok (read_of f o).0 ≡ true
      → ((read_of f o).1 ≡ take n (c.left f.0.fd f.1))
        × (c.left (read_of f o).2.0.fd (read_of f o).2.1 ≡ drop n (c.left f.0.fd f.1))
  read_of-taken (file, k) n none r h = absurd r
  read_of-taken (file, k) n (some (s, bytes, k')) r h = r h

  unfoldable pub posix_append : List ℕ → OnKernel → Status × OnKernel
  posix_append src f = appended_of f (append sys (suc (length src + p.signals f.1)) f.0 src f.1)

  unfoldable pub posix_read : ℕ → OnKernel → Status × List ℕ × OnKernel
  posix_read n f = read_of f (read sys (suc (n + p.signals f.1)) f.0 n f.1)

  pub posix_appended :
      (src : List ℕ) (f : OnKernel)
      → is_ok (posix_append src f).0 ≡ true
      → c.contents (posix_append src f).1.0.fd (posix_append src f).1.1
        ≡ c.contents f.0.fd f.1 ++ src
  unfolding posix_append
  posix_appended src f h =
      appended_of-whole f src _
        (append-ReturnsAppended sys c p (suc (length src + p.signals f.1)) f.0 src f.1
          (omega arith))
        h

  pub posix_taken :
      (n : ℕ) (f : OnKernel)
      → is_ok (posix_read n f).0 ≡ true
      → ((posix_read n f).1 ≡ take n (c.left f.0.fd f.1))
        × (c.left (posix_read n f).2.0.fd (posix_read n f).2.1 ≡ drop n (c.left f.0.fd f.1))
  unfolding posix_read
  posix_taken n f h =
      read_of-taken f n _
        (read-ReturnsRead sys c p (suc (n + p.signals f.1)) f.0 n f.1 (omega arith)) h

  unfoldable pub posix_flush : OnKernel → Status × OnKernel
  posix_flush f = let (s, k) = flush sys f.0 f.1 in (s, (f.0, k))

  unfoldable pub posix_sync : OnKernel → Status × OnKernel
  posix_sync f = let (s, k) = sync sys f.0 f.1 in (s, (f.0, k))

  pub posix_flushed :
      (f : OnKernel) → c.contents (posix_flush f).1.0.fd (posix_flush f).1.1 ≡ c.contents f.0.fd f.1
  unfolding posix_flush flush
  posix_flushed f = refl

  pub posix_synced :
      (f : OnKernel) → c.contents (posix_sync f).1.0.fd (posix_sync f).1.1 ≡ c.contents f.0.fd f.1
  unfolding posix_sync sync
  posix_synced f = p.fsync_contents f.0.fd f.1

  -- `PosixWritableFile` is a `WritableFile`.
  abbrev pub posix_writable_file : WritableFile OnKernel
  posix_writable_file = record {
    append = posix_append;
    flush = posix_flush;
    sync = posix_sync;
    contents = λ f. c.contents f.0.fd f.1;
    appended = posix_appended;
    flushed = posix_flushed;
    synced = posix_synced;
  }

  -- `PosixSequentialFile` is a `SequentialFile`.
  abbrev pub posix_sequential_file : SequentialFile OnKernel
  posix_sequential_file = record {
    read = posix_read;
    left = λ f. c.left f.0.fd f.1;
    taken = posix_taken;
  }

module _ {K : Type 0} (sys : Calls K) where
  close_closed : (file : PosixFile) (k : K) → file.fd ≡ none → close sys file k ≡ (success, file, k)
  unfolding close
  close_closed file k e = simp (e, close)

  close-fd : (file : PosixFile) (k : K) → (close sys file k).1.fd ≡ none
  unfolding close
  close-fd file k = go file.fd refl
    where
      go : (fd : Option ℕ) → file.fd ≡ fd → (close sys file k).1.fd ≡ none
      go none e = simp (e, close)
      go (some fd) e = simp (e, close)

  -- `Close` gives the descriptor up, whatever the call returns, and a second `Close` makes no call and
  -- returns success.
  pub close_again :
      (file : PosixFile) (k : K)
      → ((close sys file k).1.fd ≡ none)
        × (close sys (close sys file k).1 (close sys file k).2
            ≡ (success, (close sys file k).1, (close sys file k).2))
  close_again file k = (close-fd file k, close_closed _ _ (close-fd file k))
