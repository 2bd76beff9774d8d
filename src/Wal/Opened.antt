-- ===== src/Wal/Opened.antt =====
-- What a log of src/db.cc or src/raft/storage.cc is opened to: what the records make that a writer left.
use mini_lsm.Prelude.{
  ℕ, ◌≡◌, refl, sym, ap, ◌∙◌, inl, inr, true, Bool-cases, Option, none, some, List, [],
  if◌then◌else◌, length,
}
use mini_lsm.Status.{success, is_ok}
use mini_lsm.Wal.File.{WritableFile, SequentialFile, IsReliable}
use mini_lsm.Wal.Writer.{Writer}
use mini_lsm.Wal.Log.{HoldsLog, resume-HoldsLog, read_records-log_bytes, log_bytes-nil}
use mini_lsm.Env.Interface.{Environment, IsTold}
use mini_lsm.Wal.Open.{
  Result, replayed, replay_opened, replay_log, writer_of, resume_log, recover_with, recover,
}

module _ {K F R A : Type 0} {out : WritableFile F} {in_ : SequentialFile R}
    (env : Environment K out in_) (build : List (List ℕ) → A) where
  -- What the records make, and a writer on the log that holds them.
  pub record IsRecovered (bs : List (List ℕ)) (a : A) (w : Writer F) : Type 0 where
    pub built : a ≡ build bs
    pub log : HoldsLog out bs w

  -- The call returned, and where it returned success there are such.
  abbrev pub Opens : List (List ℕ) → Result env build (Option (A × Writer F)) → Type 0
  Opens bs none = ⊥
  Opens bs (some (s, store, k)) =
      is_ok s ≡ true → (a : A) × (w : Writer F) × (store ≡ some (a, w)) × IsRecovered bs a w

  module _ (bs : List (List ℕ)) (w : Writer F) (path : List ℕ) (h : HoldsLog out bs w)
      (told : IsTold env path) where
    -- The path holds what the writer left.
    abbrev IsLeft : K → Type 0
    IsLeft k = env.disk path k ≡ out.contents w.dest

    resumed-Opens :
        (size : ℕ) (k : K)
        → IsLeft k
        → size ≡ length (env.disk path k)
        → Opens bs (
            let (s, file, k3) = env.new_appendable_file path k in
            if is_ok s then writer_of env build (build bs) size file k3 else some (s, none, k3))
    unfolding writer_of
    resumed-Opens size k left e = elim (Bool-cases (is_ok (env.new_appendable_file path k).0)) [
      | inr bad ↦ rw bad (λ fine. absurd (cc))
      | inl ok ↦
          let a = env.appendable path k ok in
          let same : size ≡ length (out.contents a.0) = e ∙ ap length (sym a.2) in
          rw (ok, a.1, same)
            (λ fine. (
              _,
              _,
              refl,
              record { built = refl; log = resume-HoldsLog out bs w a.0 h (a.2 ∙ left) },
            ))
    ]

    resume_log-Opens : (k : K) → IsLeft k → Opens bs (resume_log env build path (build bs) k)
    unfolding resume_log
    resume_log-Opens k left = elim (Bool-cases (env.file_exists path k).0) [
      | inr missing ↦
          let here = env.asked path path k ∙ left in
          let none_there = ap length (env.asked path path k ∙ told k missing) in
          rw missing (resumed-Opens 0 (env.file_exists path k).1 here (sym none_there))
      | inl there ↦
          let k1 = (env.file_exists path k).1 in
          let k2 = (env.get_file_size path k1).2 in
          let sized = env.sized path k1 in
          elim (Bool-cases (is_ok (env.get_file_size path k1).0)) [
            | inr bad ↦ rw (there, bad) (λ fine. absurd (cc))
            | inl ok ↦
                rw (there, ok)
                  (resumed-Opens (env.get_file_size path k1).1 k2
                    (sized.0 ∙ env.asked path path k ∙ left) (sized.1 ok ∙ ap length (sym sized.0)))
          ]
    ]

    -- The table was rebuilt, and the path holds what it held.
    Replays : Result env build A → Type 0
    Replays none = ⊥
    Replays (some (s, table, k)) = (is_ok s ≡ true → table ≡ build bs) × IsLeft k

    recover_with-Opens :
        (o : Result env build A) → Replays o → Opens bs (recover_with env build path o)
    unfolding recover_with Replays
    recover_with-Opens none r = absurd r
    recover_with-Opens (some (s, table, k)) r = elim (Bool-cases (is_ok s)) [
      | inr bad ↦ rw bad (λ fine. absurd (cc))
      | inl ok ↦ rw (ok, r.0 ok) (resume_log-Opens k r.1)
    ]

    replay_log-Replays : (k : K) → IsReliable in_ → IsLeft k → Replays (replay_log env build path k)
    unfolding replay_log replay_opened replayed Replays
    replay_log-Replays k reliable left =
        let q = env.sequential path k in
        elim (Bool-cases (is_ok (env.new_sequential_file path k).0)) [
          | inr bad ↦ rw bad (λ fine. absurd (cc), q.0 ∙ left)
          | inl ok ↦
              let a = q.1 ok in
              let all =
                read_records-log_bytes in_ bs a.0 (some []) reliable (a.2 ∙ left ∙ h.bytes) in
              rw (ok, a.1, all.result) (λ fine. refl, q.0 ∙ left)
        ]

    pub recover-Opens : (k : K) → IsReliable in_ → IsLeft k → Opens bs (recover env build path k)
    unfolding recover Replays
    recover-Opens k reliable left = elim (Bool-cases (env.file_exists path k).0) [
      | inl there ↦ rw there (
          recover_with-Opens _
            (replay_log-Replays (env.file_exists path k).1 reliable (env.asked path path k ∙ left)))
      | inr missing ↦
          let nothing = log_bytes-nil bs (sym h.bytes ∙ sym left ∙ told k missing) in
          rw missing (
            recover_with-Opens (some (success, build [], (env.file_exists path k).1))
              (λ fine. ap build (sym nothing), env.asked path path k ∙ left))
    ]
