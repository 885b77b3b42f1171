-- ===== src/Lib.antt =====
-- Coucal, a hashtable in C with cuckoo hashing, a stash for collisions and a pool for its keys.
--
-- Parts, and the files that model them (paths from the root of the repository):
-- - State: the types of coucal.h and `struct_coucal` of coucal.c. A non-NULL key is a `Name`: the
--   constant `the_empty_string`, an offset into the pool, or memory outside, told by what it holds.
--   `World` is the record of what the library did outside: the values and keys handed to the free
--   handlers, last first, and the number of memory blocks asked for. `Allocator` tells which
--   requests succeed, whether `realloc` moves a block, and what new memory holds.
-- - Run: `coucal_assert`. Every failed assertion ends in `abort()`, whatever handlers are set, so a
--   run that may fail one gives `ok` or `abort`.
-- - Hash, Hash/Murmur: `coucal_hash_data` in the default build, and murmurhash3.h;
--   Hash/Distinct is about its end. Hash/Fnv and Hash/Md5: the builds with FNV-1 and with MD5, whose
--   digest is a parameter, being of OpenSSL or of the embedding program. Hash/Wide: the builds with
--   hash keys of 64 bits.
-- - Pool: `coucal_compact_pool`, `coucal_realloc_pool`, `coucal_dup_name_internal`,
--   `coucal_free_key_internal`, on a buffer of bytes.
-- - Keys: `coucal_calc_hashes`, `coucal_equals`, `coucal_matches_`, `coucal_dup_name`,
--   `coucal_free_key`. Handlers of the caller are functions on what keys hold. Keys/Laws has what
--   the table relies on: `equals` is an equivalence, `hash` respects it, `dup` gives an equal key.
-- - Table: positions and `coucal_fetch_value_hashes`. Table/Add: `coucal_add_item_`,
--   `coucal_drain_stash`. Table/Grow: the growth at the end of `coucal_write_value`. Table/Write:
--   `coucal_write_value_`, `coucal_write_value`. Table/Remove: `coucal_remove_`, `coucal_remove`.
-- - Api: creation, the typed reads and writes, counters and settings of coucal.h.
-- - Enum: `coucal_enum_new`, `coucal_enum_next`. Delete: `coucal_delete`.
-- - Report: whom `coucal_assert_failed` and `coucal_log` tell, and `coucal_set_global_assert_handler`.
--   Report/Levels: the levels of the log, and the calls that a build drops. Report/Dump: the summary
--   `coucal_log_stats` and the dump of a full stash, by the arguments of their formats;
--   Report/Counting is about its lines.
-- - Sample: `main` of sample.c. The strings of its arguments are a function from addresses.
-- - Fuzz: the differential harness fuzz/coucal_fuzz.c, which compares a table with a flat array.
--   `snprintf` and `sscanf` of a key are parameters. Fuzz/Driver: the driver that replays files, by what
--   the file system gives for them.
--
-- The proofs about the table are in layers. Table/Entries weighs the live items of an array by any
-- function, so that "the same entries" is "the same weights". Table/Layout says where items may stand.
-- Table/Placing, Stashing, Draining, Relocating, Merging and Growing are about the moves of items.
-- Table/View is the abstract table, a partial map from keys to values; Table/Valid the invariant: the
-- layout, the count, hashes that belong to their keys, and no key twice. Table/Invisible says what
-- readers see of the moves. Table/Finding and Reading are about searches; Exchanging, Replacing,
-- Adding, Writing and Writing/Storing about writes; Wiping and Removing about removals. Enum/Steps and
-- Enum/Complete are about enumerations; Enum/Walking, Ahead and Deleting, with Table/Thinning, about
-- deletions while one is under way; Enum/Entries about an enumeration and the view, Enum/Draining
-- about a loop that deletes every item. Delete/Weights, Wiping and Released are about destruction,
-- with the sums over slots of Table/Spans. Api/Creation, Settings, Reads and Counts are about the
-- public operations. Tests runs small tables; Tests/Instances, Pooling, Walks, Fuzzing and Clients
-- apply the theorems to them.
--
-- The proofs about the pool: Pool/Text is about C strings in a block of bytes, Pool/Regions has the
-- invariant of the pool, by the weights of the entries: each byte below the size is of one key at most.
-- Table/Rekeying is about tables whose keys moved in the pool and read as before, Pool/Stable about
-- changes of the block that spare the keys. Pool/Relocating and Compacting are about the compaction,
-- Extending and Capacity about the growth, Appending and Duplicating about a new key, Releasing about
-- the release of one. Table/Pooling has the operations of the table in the default mode: Moving and
-- Tables are shared, Preparing and Writing are about writes, Detaching and Removing about removals;
-- Api/Pooling about new tables and counters. Fuzz/Agreeing, Stepping, Running,
-- Filling, Checking and Ending are about the harness, Fuzz/Filling about rounds that may find the
-- table full, and Fuzz/Driver about the replay of files. Session has the calls of a client of coucal.h, as a list,
-- and the same calls on a partial map: Session/Performing is about one call, Room about the room that
-- the calls need, Replaying about the whole list, Filling about a list of calls that may find the table
-- full, Opening about a table that the client makes itself. Sample/Storing, Listing and Printing are about
-- sample.c, whose writes are such a session. Api/Starting has the tables of `coucal_new(0)`. Refusal is
-- about memory that is refused: Refusal/Pool, Table and Client compare each operation with the run that
-- gets all of it.
--
-- Words: `size_t` and the values have 64 bits, hash keys 32; wrap-around is written with `%`.
-- Bounds and fuel: every loop is structural recursion on its number of rounds, but for five. The loop
-- of `coucal_get_pow2` has fuel 30, more than the 29 rounds from 4 to 33, where it ends. The loop that
-- doubles the capacity of the pool has fuel 65: past 64 rounds the capacity is 0 for good, and the
-- code does not end; the model ends in `abort` there. The loop that feeds MD5 has as much fuel as there
-- are bytes, and the enumerations of the harness and of sample.c a round for each slot and one more.
--
-- Not modelled: the texts of logs and where they are written, the traces and debug lines of the
-- operations and the warning about a stash that is full too early, which only print; a table with
-- hash keys of 64 bits; the addresses of memory blocks and their release; tests.c, a client that
-- prints.
--
-- The theorems about writes and removals come for both modes: for keys that handlers of the caller
-- duplicate and release, in Table/Writing and Table/Removing, and for keys in the pool, in Table/Pooling;
-- Table/Modes and Api/Modes have both as one, for the clients.
-- A stash that is full is an assertion of the code, so that an addition has a free slot as a hypothesis.
-- Session/Filling and Fuzz/Filling have none, and say what holds up to the call that finds no room;
-- Session/Room shows that sixteen entries always have it.
pub mod Base
pub mod Run
pub mod Refusal
pub mod Sample
pub mod Session
pub mod State
pub mod Fuzz
pub mod Report
pub mod Hash
pub mod Pool
pub mod Keys
pub mod Table
pub mod Api
pub mod Enum
pub mod Delete
mod Tests
