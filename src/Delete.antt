-- ===== src/Delete.antt =====
-- `coucal_delete` of coucal.c.
pub mod Weights
pub mod Wiping
pub mod Released
use coucal.Base.{ℕ, zero, suc, ◌+◌, Bool, not, if◌then◌else◌, is_none}
use coucal.Base.Words.{pow2}
use coucal.Run.{Run, ok, ◌>>=◌}
use coucal.State.{World, Coucal, Allocator}
use coucal.Table.Remove.{del_name}
use coucal.Table.Write.{del_value}
use coucal.Table.{Slot, in_table, in_stash, item_at, is_empty_item}

-- One round of the loops: the value, and the name if it was not allocated in the pool.
unfoldable pub wipe : Allocator → Bool → Coucal → Slot → Run Coucal
wipe alloc free_names c at =
    let c' = del_value c at in
    if is_empty_item (item_at c at)
    then ok c
    else if free_names
    then del_name alloc c' at
    else ok c'

-- `n` rounds from `i` on, over the slots of the table or of the stash.
unfoldable pub wipe_from : Allocator → Bool → (ℕ → Slot) → ℕ → ℕ → Coucal → Run Coucal
wipe_from alloc free_names slot zero i c = ok c
wipe_from alloc free_names slot (suc n) i c =
    wipe alloc free_names c (slot i) >>= wipe_from alloc free_names slot n (i + 1)

-- `coucal_delete`: what is left is the world outside. The caller's pointer is NULL afterwards.
unfoldable pub delete : Allocator → Coucal → Run World
delete alloc c = do
  let free_names = not (is_none c.custom.key.free)
  c1 ← wipe_from alloc free_names in_table (pow2 c.lg_size) 0 c
  c2 ← wipe_from alloc free_names in_stash c1.stash.extent 0 c1
  ok c2.world
