-- ===== src/Replicated/Tests.antt =====
-- A single node of src/raft/replicated_db.cc on a log that takes every record.
use mini_lsm.Prelude.{
  ℕ, ◌≡◌, refl, true, false, List, [], ◌∷◌, ◌++◌, ◌<◌, ◌^◌, some, arith, length, pos,
}
use mini_lsm.Status.{success, is_ok}
use mini_lsm.Wal.{RecordLog}
use mini_lsm.Raft.State.{Raft, leader, follower, sentinel, clear, last_index}
use mini_lsm.Db.Table.{Operation, put, empty}
use mini_lsm.Coding.{encode_fixed32}
use mini_lsm.Storage.Replay.{replay_file}
use mini_lsm.Storage.Recovery.{FitsRaft, Covers}
use mini_lsm.Storage.Restart.{save_succeeds}
use mini_lsm.Replicated.Command.{encode_command}
use mini_lsm.Replicated.Store.{
  ReplicatedDb, apply_entries, save_and_apply, submit, submit_as, command_bytes, get_applied,
  apply_committed, elect,
}
use mini_lsm.Replicated.Applied.{IsApplied, table_at, apply_committed-IsApplied, submit_failed}
use mini_lsm.Replicated.Alone.{IsAlone}
use mini_lsm.Replicated.Durable.{IsDone, submit-IsDone}
use mini_lsm.Replicated.Elect.{restored, IsElected, elect-IsElected}

abbrev open_log : RecordLog (List (List ℕ)) (λ w. Unit)
open_log = record {
  add_record = λ b w. (success, w ++ b ∷ []);
  sync = λ w. (success, w);
  records = λ w. w;
  added = λ b w sound h. (refl, tt);
  synced = λ w sound. (refl, tt);
}

abbrev single : Raft
single = record {
  config = record { id = 1; peers = 1 ∷ []; election_timeout = pos 1; heartbeat_timeout = pos 1 };
  role = leader;
  current_term = 1;
  voted_for = 1;
  log = sentinel ∷ [];
  commit_index = 0;
  last_applied = 0;
  stable_index = 0;
  leader_id = 1;
  election_elapsed = 0;
  heartbeat_elapsed = 0;
  votes_granted = 1 ∷ [];
  next_index = clear;
  match_index = clear;
  hard_state_dirty = true;
  out_msgs = [];
}

abbrev new_db : ReplicatedDb (List (List ℕ))
new_db = record {
  raft = single;
  storage = record { writer = []; persisted_index = 0 };
  table = empty;
  applied_index = 0;
}

new_db-IsApplied : IsApplied new_db
unfolding apply_entries
new_db-IsApplied = record {
  within = omega arith;
  held = omega arith;
  size = omega arith;
  shown = refl;
}

new_db-IsAlone : IsAlone new_db
unfolding last_index
new_db-IsAlone = record {
  leads = refl;
  shape = (refl, (refl, tt));
  one = refl;
  committed = refl;
  level = refl;
  applied = new_db-IsApplied;
}

apply_committed-IsApplied_example :
    IsApplied (apply_committed new_db) × ((apply_committed new_db).table ≡ table_at single 0)
apply_committed-IsApplied_example = apply_committed-IsApplied new_db new_db-IsApplied

single-FitsRaft : FitsRaft single
single-FitsRaft = record {
  shape = (refl, (refl, tt));
  term = omega arith;
  vote = omega arith;
  size = omega arith;
  each = tt;
}

new_db-Covers : Covers open_log new_db.storage new_db.raft
unfolding replay_file last_index
new_db-Covers = record {
  behind = omega arith;
  within = omega arith;
  count = refl;
  indexed = tt;
  same = refl;
  clean = λ e. absurd (cc);
}

abbrev greet : Operation
greet = put (1 ∷ []) (10 ∷ [])

greet_small : length (command_bytes greet) < 2 ^ 32
unfolding command_bytes encode_command encode_fixed32
greet_small = omega arith

greet_saved : is_ok (submit open_log greet new_db).0 ≡ true
unfolding submit submit_as save_and_apply
greet_saved = rw (save_succeeds open_log new_db.storage _ (λ b w. refl) (λ w. refl)) refl

submit-IsDone_example : IsDone open_log greet new_db (submit open_log greet new_db).1
submit-IsDone_example =
    submit-IsDone open_log greet new_db new_db-IsAlone single-FitsRaft tt new_db-Covers
      (omega arith, omega arith) greet_small (omega arith) greet_saved

-- A node that does not lead.
abbrev idle_db : ReplicatedDb (List (List ℕ))
idle_db = record new_db { raft = record single { role = follower } }

greet_refused : is_ok (submit open_log greet idle_db).0 ≡ false
unfolding submit submit_as
greet_refused = refl

submit_failed_example :
    get_applied (1 ∷ []) (submit open_log greet idle_db).1 ≡ get_applied (1 ∷ []) idle_db
submit_failed_example = submit_failed open_log greet idle_db greet_refused (1 ∷ [])

elect-IsElected_example :
    (out : Raft) × (elect 2 (restored 7 3 0 []) ≡ some out) × IsElected 7 (restored 7 3 0 []) out
elect-IsElected_example = elect-IsElected 7 3 0 []
