-- ===== src/State.antt =====
-- The data types of coucal.h and the structure `struct_coucal` of coucal.c.
use coucal.Base.{ℕ, Bool, Option, none, List}

-- `coucal_hashkeys`: a pair of 32-bit hashes.
pub record Hashkeys : Type 0 where
  pub hash1 : ℕ
  pub hash2 : ℕ

-- A non-NULL `coucal_key`. Memory of the caller, or of a `dup` handler, is told by what it holds
-- (for a string its bytes, with no terminating NUL); memory of the pool by the offset.
pub data Name : Type 0 where
  the_empty_string : Name
  pooled : ℕ → Name
  outside : List ℕ → Name

-- `coucal_item`. The value is the 64-bit word of the union `coucal_value`.
pub record Item : Type 0 where
  pub name : Option Name
  pub value : ℕ
  pub hashes : Hashkeys

-- The zeroed hashes and the zeroed item of `memset` and `calloc`.
abbrev pub null_hashes : Hashkeys
null_hashes = record { hash1 = 0; hash2 = 0 }

abbrev pub null_item : Item
null_item = record { name = none; value = 0; hashes = null_hashes }

pub record Stash : Type 0 where
  pub items : List Item
  pub size : ℕ
  pub extent : ℕ

pub record Pool : Type 0 where
  pub buffer : Option (List ℕ)
  pub size : ℕ
  pub capacity : ℕ
  pub used : ℕ

pub record Stats : Type 0 where
  pub max_stash_size : ℕ
  pub write_count : ℕ
  pub add_count : ℕ
  pub cuckoo_moved : ℕ
  pub stash_added : ℕ
  pub rehash_count : ℕ
  pub pool_compact_count : ℕ
  pub pool_realloc_count : ℕ

-- `custom.value.free`: `coucal_default_free_handler`, or a handler of the caller.
pub data ValueFree : Type 0 where
  default_free : ValueFree
  user_free : ℕ → ValueFree

-- `custom.key`: handlers read keys and return them, so they are functions on what a key holds. The
-- opaque argument is part of the function. `free` is told by the caller's number for it.
pub record KeyHandlers : Type 0 where
  pub dup : Option (List ℕ → List ℕ)
  pub free : Option ℕ
  pub hash : Option (List ℕ → Hashkeys)
  pub equals : Option (List ℕ → List ℕ → Bool)

-- `custom.error` and `custom.print`: handlers that log, by the caller's numbers for them, and the
-- name of the table in the logs.
pub record ErrorHandlers : Type 0 where
  pub log : Option ℕ
  pub fatal : Option ℕ
  pub name : Option Name

pub record PrintHandlers : Type 0 where
  pub key : Option ℕ
  pub value : Option ℕ

pub record Custom : Type 0 where
  pub value_free : Option ValueFree
  pub key : KeyHandlers
  pub error : ErrorHandlers
  pub print : PrintHandlers

-- What the library did to the world outside: the handler calls, last first, and the number of
-- memory blocks asked for.
pub record World : Type 0 where
  pub freed_values : List ℕ
  pub freed_keys : List (List ℕ)
  pub allocations : ℕ

-- `struct_coucal`, with the world beside it.
pub record Coucal : Type 0 where
  pub items : List Item
  pub lg_size : ℕ
  pub used : ℕ
  pub stash : Stash
  pub pool : Pool
  pub stats : Stats
  pub custom : Custom
  pub world : World

-- `STASH_SIZE`, `MIN_LG_SIZE`, `MIN_POOL_CAPACITY`, `COUCAL_HASH_SIZE`.
abbrev pub stash_size : ℕ
stash_size = 16

abbrev pub min_lg_size : ℕ
min_lg_size = 4

abbrev pub min_pool_capacity : ℕ
min_pool_capacity = 256

abbrev pub coucal_hash_size : ℕ
coucal_hash_size = 32

-- `malloc`, `calloc` and `realloc`, by the number of the request: whether one for so many bytes
-- succeeds, whether a `realloc` moves its block, and the byte that new memory holds at an index.
pub record Allocator : Type 0 where
  pub succeeds : ℕ → ℕ → Bool
  pub moves : ℕ → Bool
  pub garbage : ℕ → ℕ → ℕ
