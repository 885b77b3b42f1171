-- ===== src/Table/Remove.antt =====
-- `coucal_del_name`, `coucal_del_item`, `coucal_remove_` and `coucal_remove`.
use coucal.Base.{Bool, true, false, not, Option, none, some, ◌==◌, if◌then◌else◌}
use coucal.Base.Words.{dec_size}
use coucal.Keys.{calc_hashes, matches, free_key}
use coucal.Run.{Run, ok, ◌>>=◌, ◌>>◌, assert}
use coucal.State.{Name, null_hashes, Hashkeys, Coucal, Allocator}
use coucal.Table.{hash_to_pos, get_item, Slot, in_table, in_stash, item_at, write_at, search_stash}
use coucal.Table.Add.{trim_stash}
use coucal.Table.Write.{del_value}

abbrev pub release_name : Allocator → Coucal → Option Name → Run Coucal
release_name alloc c none = ok c
release_name alloc c (some name) = free_key alloc c name

-- `coucal_del_name`: the item is detached before its key is released, since a release may compact
-- the pool.
unfoldable pub del_name : Allocator → Coucal → Slot → Run Coucal
del_name alloc c at =
    let item = item_at c at in
    release_name alloc (write_at c at (record item { name = none; hashes = null_hashes })) item.name

unfoldable pub del_item : Allocator → Coucal → Slot → Run Coucal
del_item alloc c at = del_name alloc (del_value c at) at

-- The end of a removal from the stash: a hole is left, and the extent falls past holes at its end.
unfoldable pub leave_hole : Coucal → Coucal
unfolding trim_stash
leave_hole c = trim_stash (record c { stash = record (c.stash) { size = dec_size c.stash.size } })

unfoldable pub remove_entry : Allocator → Coucal → Name → Hashkeys → Run (Coucal × Bool)
remove_entry alloc c name hashes =
    let pos1 = hash_to_pos c hashes.hash1 in
    let pos2 = hash_to_pos c hashes.hash2 in
    if matches c (get_item c pos1) name hashes
    then (del_item alloc c (in_table pos1) >>= λ c'. ok (c', true))
    else if matches c (get_item c pos2) name hashes
    then (del_item alloc c (in_table pos2) >>= λ c'. ok (c', true))
    else elim (search_stash c name hashes) [
      | some i ↦ del_item alloc c (in_stash i) >>= λ c'. ok (leave_hole c', true)
      | none ↦ ok (c, false)
    ]

unfoldable pub remove : Allocator → Coucal → Name → Run (Coucal × Bool)
remove alloc c name = remove_entry alloc c name (calc_hashes c name) >>= λ r. elim r.1 [
  | false ↦ ok r
  | true ↦ assert (not (r.0.used == 0)) >> ok (record (r.0) { used = dec_size r.0.used }, true)
]
