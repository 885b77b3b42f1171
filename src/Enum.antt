-- ===== src/Enum.antt =====
-- `coucal_enum_new` and `coucal_enum_next` of coucal.c: the walk over the table, then over the stash.
pub mod Steps
pub mod Complete
pub mod Entries
pub mod Ahead
pub mod Walking
pub mod Deleting
pub mod Draining
use coucal.Base.{ℕ, zero, suc, ◌+◌, ◌-◌, Bool, Option, none, some, ltb, if◌then◌else◌}
use coucal.Base.Words.{pow2}
use coucal.State.{Item, Coucal}
use coucal.Table.{get_item, get_stash, is_empty_item, is_free}

-- `struct_coucal_enum`
pub record Enum : Type 0 where
  pub table : Coucal
  pub index : ℕ

abbrev pub enum_new : Coucal → Enum
enum_new c = record { table = c; index = 0 }

-- `for (; index < end && free(index); index++);`, with `end - index` rounds.
unfoldable pub skip : (ℕ → Bool) → ℕ → ℕ → ℕ
skip free zero index = index
skip free (suc n) index = let rest = skip free n (index + 1) in if free index then rest else index

-- The second half of `coucal_enum_next`, from an index past the table: the stash.
unfoldable pub take_stash : Coucal → ℕ → Option Item × Enum
take_stash c i =
    let hash_size = pow2 c.lg_size in
    if ltb i (hash_size + c.stash.extent)
    then (some (get_stash c (i - hash_size)), record { table = c; index = i + 1 })
    else (none, record { table = c; index = i })

abbrev pub is_hole : Coucal → ℕ → Bool
is_hole c k = is_empty_item (get_stash c (k - pow2 c.lg_size))

unfoldable pub next_in_stash : Coucal → ℕ → Option Item × Enum
next_in_stash c index =
    take_stash c (skip (is_hole c) (pow2 c.lg_size + c.stash.extent - index) index)

unfoldable pub take_table : Coucal → ℕ → Option Item × Enum
take_table c i =
    if ltb i (pow2 c.lg_size)
    then (some (get_item c i), record { table = c; index = i + 1 })
    else next_in_stash c i

-- `coucal_enum_next`: the next item, if there is one, and the enumeration moved on.
unfoldable pub enum_next : Enum → Option Item × Enum
enum_next e = let c = e.table in take_table c (skip (is_free c) (pow2 c.lg_size - e.index) e.index)
