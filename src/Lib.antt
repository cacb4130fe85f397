-- ===== src/Lib.antt =====
-- The verification library of QDB, a durable message queue in one file, as a model of the C code in
-- src/ and include/qdb.h, with theorems about it.
--
-- The program. A database is a file: a header of 4096 bytes, and behind it a log of records. A call
-- of qdb_push, qdb_pop, qdb_ack, qdb_nack or qdb_process_expired_leases appends a record, writes the
-- header's new end of the log, and then changes the queues in memory. qdb_open_err checks the log and
-- replays its records to have the queues in memory again; qdb_compact writes the live messages to a
-- staging file that takes the database's place.
--
-- The files.
--   Base             shared: tests, lists over native numbers, the outcome of a C function, which is a
--                    value, a code or a crash, with the state as it is left
--   Word, Crc        qdb__get_u32le and its kin of src/qdb_internal.h; src/qdb_crc32.c
--   Format           the constants of src/qdb_internal.h and include/qdb.h
--   Platform         the functions of src/qdb_platform.c and the allocator, as a parameter: a record of
--                    operations over a state of the system, and what their comments promise of them;
--                    Posix is the functions themselves, over the system calls
--   State            src/qdb_state.h and src/qdb_state.c: messages, queues, leases in hash tables
--   Db               struct qdb, and the states on which the functions work
--   Io               src/qdb_io.c: header_encode, qdb__append_record, qdb__scan_record and the others
--   Replay           src/qdb_replay.c: a handler for each type of record, and qdb__replay_log
--   Api              the public functions of src/qdb.c: Push, Pop, Settle (ack, nack, expiry), Stats,
--                    Wal and Check (replay_wal, validate_log), Open (open and close), Compact; Durable
--                    is on what the file holds
--   History          the records that the calls append, the step in memory that each stands for, and
--                    handles whose log and state in memory agree: the calls (Pushing, Popping,
--                    Settling) against the replay (Recovery, Loop, Reopen), and the data
--                    that a pop returns (Stored, Delivery, Progress). A handle is
--                    in service where Recorded holds of it
--   Tests            the theorems at concrete inputs, and tests
-- A definition has the name of its C function without the prefix qdb_ or qdb__; a part of a function
-- that is a definition of its own says so in its comment.
--
-- Numbers are natural numbers, with the wrap-around of each width written out. A table is a function
-- from the bucket's number to its chain. A pointer to an entry is the key by which it was found; a
-- write through it changes the first entry of that key in its bucket. The file that a descriptor
-- stands for, reads and writes are the platform's, so every operation can fail at every call of it.
--
-- Fuel. The loops over a log (replay_loop, validate_loop, wal_loop) have a unit of fuel for each byte,
-- and a record has ten bytes at least; crc_chunks has a unit for each byte of the payload. Without fuel
-- a loop crashes. compact_chain has one unit more than there are messages, which is enough for a chain
-- without a cycle. The loops of pread and pwrite have a unit for each byte and for each interruption
-- that is to come, and one for the last test.
--
-- Not modelled: the Windows branch of src/qdb_platform.c, the release of memory (qdb_msg_free,
-- qdb__state_free), qdb_errmsg, the iterators of src/qdb_state.c, which the library does not call, and
-- the clients: tools/qdbtool.c, python/, fuzz/, benchmarks/, examples/, tests/. A handle that is NULL
-- is none of the model's handles. The out parameter of qdb_pop and qdb_pop_any is the value that they
-- return, so that the test for a null one has no counterpart; the int that counts in
-- qdb_process_expired_leases is a natural number. qdb_compact is that of the POSIX build.
pub mod Base
pub mod Word
pub mod Crc
pub mod Platform
pub mod Format
pub mod State
pub mod Db
pub mod Io
pub mod Replay
pub mod Api
pub mod History
pub mod Tests
