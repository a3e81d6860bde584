-- ===== src/Lib.antt =====
-- Path ORAM: a store of blocks whose accesses hide which block is meant.
--
-- The program. `ORAM` (path-oram/src/oram.cpp) keeps blocks in a binary tree of buckets. A position
-- map gives each block a leaf, and the block is in the stash or in a bucket on the path to that
-- leaf. An access remaps the block, reads the path of its old leaf into the stash, updates or
-- answers the block, and evicts the stash along the same path. Buckets pass through a cache that is
-- written back at the end of a request. The storage (path-oram/src/storage-adapter.cpp) encodes,
-- encrypts and batches buckets over an implementation of raw cells.
--
-- The files.
--   Prelude and its children: tests, lists, members, exceptions, association lists, words. An
--     exception is a value of `Outcome`; there is a constructor for each message that is thrown.
--   Definitions: the types of path-oram/include/definitions.h.
--   Utility: Random and Cipher have `getRandomBlock`, `getRandomULong`, `getRandomUInt` and
--     `encrypt` of path-oram/src/utility.cpp, Keys its key files and hashes, Text `fromText` and
--     `toText`, Shuffle the shuffle of `getAll` and `load`, Files what a file or a buffer holds as
--     bytes. The generator is a stream of words, AES a record of functions with `IsAes` for what
--     the code relies on, and the digest a function; all are arguments.
--   Tree: `bucketForLevelLeaf`, `canInclude`, `leavesForLocation`; Tree/Path has their theory.
--   PositionMap: `InMemoryPositionMapAdapter`, with its files in PositionMap/Files.
--   Stash: `InMemoryStashAdapter`, with its files in Stash/Files.
--   Storage: Config has the fields and checks of `AbsStorageAdapter`, Padding the zeroes behind a
--     short payload, Codec the bytes of a bucket, Seal the encryption around them, Raw the
--     interface of `getInternal` and `setInternal` with their overloads for many locations, Adapter
--     `get`, `set` and `fillWithZeroes` with their batches, InMemory `InMemoryStorageAdapter`,
--     FileSystem `FileSystemStorageAdapter`, Redis and Aerospike `RedisStorageAdapter` and
--     `AerospikeStorageAdapter` over clients that are arguments. Observers has `getAndRecord` and
--     `setAndRecord` with what they report; Adapter makes the calls without reports.
--   Oram: Store is the interface of a storage, and Storage/Adapter/Correct fills it. State has the
--     fields of `ORAM`, Construction its constructor, Cache `getCache`, `setCache` and `syncCache`,
--     Eviction `writePath`, Access `readPath`, `access`, `get`, `put` and `multiple`, Loading
--     `load`. Invariant states what holds between requests, against a function from IDs to
--     payloads; Access/Run and Access/Multiple compare requests with those to a plain map, and
--     Access/Pattern tells which locations an access touches; Access/Moving tells which blocks
--     `writePath` moves. Stack puts the parts together, in memory or, in Stack/Files, over a file.
--     Nested is `ORAMPositionMapAdapter`.
--   Tests: concrete inputs.
--
-- Choices. The bytes of a file are those that its stream reads back; other adapters see them once
-- it is closed. Hash tables are association lists with an entry for each key, and their order of
-- iteration is the order of the list. Each use of the random generator draws from a stream of its
-- own. A `number` is a natural number; where the code wraps around, the model writes `% 2 ^ 64`.
-- Shifts of the `int` 1 are defined for heights up to 31, which is a hypothesis. `toDelete` of
-- `writePath` holds `int`s, so the position map has at most 2 ^ 31 cells in the theorems about
-- accesses. Loops are recursions on lists or on the number of rounds that are left; the loops over
-- batches get as many rounds as there are locations, which is enough since a batch takes at least
-- one.
--
-- The loop of `load` that fills the last bucket has a round more than a bucket has blocks, and ends
-- before. The locations of `load` come from arithmetic on `long double`s, which is an argument; it
-- has to give rising locations in the tree, as the exact quotient does. `1 << height` of `load` is
-- an `int`, whose sign is extended at height 31; its theorem is about heights up to 30. What an
-- uninitialised buffer holds is an argument. Undefined behaviour, such as a key file with a key
-- that is too long, is out of the hypotheses of the theorems.
--
-- Not modelled: the times that observers are told; `getRandomDouble`, which is floating point; the
-- constructor of `ORAM` with default parts; destructors, but for the one that closes a file, and
-- memory management; streams that fail after they were opened.
pub mod Prelude
pub mod Definitions
pub mod Utility
pub mod Tree
pub mod PositionMap
pub mod Stash
pub mod Storage
pub mod Oram
pub mod Tests
