-- ===== src/Lib.antt =====
-- mini-lsm: a key-value store on a write-ahead log, and a Raft core whose state is kept in such a log.
--
-- The parts, and how they meet:
-- - A client calls `Put`, `Delete` and `Get` of src/db.cc. A write is encoded as one record, added to
--   the log, synced and then applied to a table in memory; opening a store replays the log.
-- - A Raft node (src/raft/raft.cc) does no I/O: `Step`, `Tick` and `Propose` change its state and its
--   outbox. `RaftStorage::Save` (src/raft/storage.cc) writes the hard state and the new entries to a
--   log before the caller takes the messages out, and `ReplayFile` and `Restore` bring them back.
-- - Both logs go through `log::Writer` and `log::Reader` (src/wal_writer.cc, src/wal_reader.cc), whose
--   fields are coded by include/mlsm/coding.h and guarded by the checksums of src/crc32c.cc.
--
-- Which module models what. A method of a class is a function from the state to the new state, under
-- the method's name in small letters, with the fields of the class as a record:
-- - Coding: include/mlsm/coding.h. Crc32c: include/mlsm/crc32c.h, src/crc32c.cc. Status:
--   include/mlsm/status.h. Bytes are numbers below 256 and texts are lists of bytes.
-- - Wal: what the two clients use of the log writer and reader, as the record `RecordLog` of
--   operations and laws. In a sound state an add that returns success puts its record last among those
--   that a reader returns; nothing is said of one that fails. Sound is, in Wal.Implements, a file of
--   whole records to its end, with no torn one, and the writer behind them. The program also opens a file
--   with a torn end, which is not sound: what the two clients promise of a write is promised of a sound
--   file, as a hypothesis of its own, `IsSound`, and Open of a file that a writer left sound keeps it so.
-- - Wal.File: include/mlsm/writable_file.h and sequential_file.h, as records of operations and laws.
--   Wal.Writer: src/wal_writer.cc. Wal.Reader: src/wal_reader.cc. The other modules below Wal hold the
--   theorems: Aligned (the writer's offset), Physical and View (one physical record and the place of
--   the reader), Frame (the format, and that the writer writes it), RoundTrip, Records and Log (a log is
--   read back), Torn (a log cut off), Total (the loops end), and Implements (writer and reader together
--   are a `RecordLog`). Wal.Open and Opened: the steps in which `DB::Open` and `RaftStorage::Open` open
--   their logs, and what they find. What was appended counts as in the file; that a machine may lose
--   what was not synced is outside of it.
-- - Env.Calls: the system calls of POSIX as a record of operations, and their promises. Env.Posix:
--   src/env_posix.cc. Env.Append, Env.Read, Env.Implements: its files are those of Wal.File. Env.Files: its
--   functions that open files are those of Env.Interface, if the kernel keeps its promises on paths.
-- - Replicated.Command, Replicated.Store: src/raft/replicated_db.cc, `Put` and `Delete` as `submit`,
--   `Get` as `get_applied`, `Sync` as `save_and_apply`, and `Open` behind `RaftStorage::Open`;
--   Replicated.Applied, Alone, Durable and Elect hold the theorems.
-- - Env.Interface: the functions of include/mlsm/env.h that open files, as a record with laws. That
--   `FileExists` says no only where there is nothing is none of them, since `access` may fail for other
--   reasons: it is a hypothesis of what `Open` finds.
-- - Db.Record, Db.Table, Db.Store, Db.Open: src/db.cc. `EncodeRecord` and `DecodeRecord`; the table as a
--   function from keys, with `Apply` and the loop of `ReplayWal`; `Put`, `Delete`, `Get` and `Write`;
--   `Open`, with what it finds in Db.Recovered. Lengths of keys and values that do not fit 32 bits are cut
--   by the code and by the model, and the theorems are about those that fit.
-- - Raft.Messages, Raft.State: include/mlsm/raft/messages.h and raft.h. Raft.Leader, Raft.Follower,
--   Raft.Core: src/raft/raft.cc, the side that sends entries, the side that takes them and votes, and
--   the entry points. The other modules below Raft hold the theorems: Frames and Ballot (what an
--   operation leaves alone), HardState, Outbox, Standing (votes and office), Log, Replication, Commit,
--   Propose, Writes.
-- - Cluster: the nodes of a cluster and the network as a step relation. A step is a tick, a delivery
--   of any message that was ever sent, a proposal, a save of the hard state, a send after a save, or a
--   restart from the saved hard state. So messages may be lost, repeated and reordered.
-- - Cluster.Leading: beside a cluster, the logs that each node has led with, by term, and the log on its
--   disk, as history that the steps leave. Its contract `Keeps` is that of
--   include/mlsm/raft/storage.h: a node is saved between its last step and a send, and it comes back with
--   the log that was saved. Below it: Backed (logs whose entries all come from leaders), Acked (what
--   a node has acknowledged it holds), Invariant, Moved, Saved, Sent, Revived and Preserve (each event
--   keeps it), Agreement. Raft.Writes and Raft.Log.Merge say what one
--   operation of a node does to its log.
-- - Storage.Codec, Storage.Replay, Storage.Save, Storage.Open: src/raft/storage.cc. The records and the
--   `Decoder`, the loop of `ReplayFile`, `Save`, and `Open`; Storage.Recovery, Durable and Restart hold
--   the theorems, and the restart of a node as `ReplicatedDB::Open` of src/raft/replicated_db.cc does it.
--
-- Numbers and loops. Unsigned arithmetic that may wrap is written with its modulus (`add64`, `% u32`).
-- Loops are recursion on the list or the count that they run over. The loop of `Save` over the entries
-- runs on fuel, the length of the log, which is enough since each round moves one index up: the
-- theorem about `Save` covers the loop to its end. The loop of `AddRecord` runs on fuel, the length of
-- the record and two more rounds, and gives `none` where that does not suffice: a theorem shows that it
-- never does. Only the first fragment may be empty, in a block that has room for its header alone.
-- The loops of the reader run on fuel, one more than the bytes that are left, since a physical record
-- takes a header at least; `ReadPhysicalRecord` needs two rounds. The loops of `Append` and `Read` of a
-- POSIX file run on fuel for each byte and each interruption by a signal, of which there are finitely
-- many. The loop of `ReplicatedDB::Open` that ticks a single node needs two rounds.
--
-- Not modelled: the destructors, include/mlsm/slice.h, for which a list of bytes stands, and the
-- benchmark. Memory, pointers and concurrent calls are outside the model; the program has one thread
-- per object.
mod Prelude
pub mod Coding
pub mod Crc32c
pub mod Db
pub mod Raft
pub mod Cluster
pub mod Status
pub mod Storage
pub mod Wal
pub mod Env
pub mod Replicated
