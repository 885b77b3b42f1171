-- ===== src/Table/Write.antt =====
-- `coucal_write_value_` and `coucal_write_value`.
use coucal.Base.{Option, ℕ, Bool, true, false, none, some, ◌∷◌, ◌==◌, if◌then◌else◌}
use coucal.Base.Words.{inc_size}
use coucal.Keys.{calc_hashes, matches, dup_name}
use coucal.Run.{Run, ok, ◌>>=◌}
use coucal.State.{ValueFree, World, Name, Hashkeys, Coucal, Allocator}
use coucal.Table.{hash_to_pos, get_item, Slot, in_table, in_stash, item_at, write_at, search_stash}
use coucal.Table.Add.{add_item, drain_stash}
use coucal.Table.Grow.{grow_if_full}

-- The call `custom.value.free(arg, value)`, for a value whose pointer is not NULL and a handler that
-- is set.
unfoldable pub free_value : Option ValueFree → ℕ → World → World
free_value handler value world =
    let freed = record world { freed_values = value ∷ world.freed_values } in
    if value == 0 then world else elim handler [ none ↦ world | some _ ↦ freed ]

-- `coucal_del_value_(&item->value)`: the value is NULL afterwards.
unfoldable pub del_value : Coucal → Slot → Coucal
del_value c at =
    let item = item_at c at in
    let freed = record c { world = free_value c.custom.value_free item.value c.world } in
    write_at freed at (record item { value = 0 })

-- `coucal_del_value(...); ....value = value; return 0;`
unfoldable pub replace_value : Coucal → Slot → ℕ → Coucal
replace_value c at value =
    let c' = del_value c at in write_at c' at (record (item_at c' at) { value = value })

abbrev pub count_write : Coucal → Coucal
count_write c = record c { stats = record (c.stats) { write_count = inc_size c.stats.write_count } }

abbrev pub count_add : Coucal → Coucal
count_add c = record c { stats = record (c.stats) { add_count = inc_size c.stats.add_count } }

-- "the write turned out to be an add: reshuffling is allowed from here on"
unfoldable pub drain_if_used : Coucal → Coucal
drain_if_used c = if c.stash.size == 0 then c else drain_stash c

unfoldable pub write_new : Allocator → Coucal → Name → ℕ → Hashkeys → Run (Coucal × Bool)
write_new alloc c name value hashes = do
  (c'', stored) ← dup_name alloc (drain_if_used (count_add c)) name
  add_item c'' (record { name = some stored; value = value; hashes = hashes })

-- The branches of `coucal_write_value_`; false is 0, an existing entry was replaced.
unfoldable pub store : Allocator → Coucal → Name → ℕ → Hashkeys → Run (Coucal × Bool)
store alloc c name value hashes =
    let pos1 = hash_to_pos c hashes.hash1 in
    let pos2 = hash_to_pos c hashes.hash2 in
    if matches c (get_item c pos1) name hashes
    then ok (replace_value c (in_table pos1) value, false)
    else if matches c (get_item c pos2) name hashes
    then ok (replace_value c (in_table pos2) value, false)
    else elim (search_stash c name hashes) [
      | some i ↦ ok (replace_value c (in_stash i) value, false)
      | none ↦ write_new alloc c name value hashes
    ]

-- `coucal_write_value_`
unfoldable pub write_entry : Allocator → Coucal → Name → ℕ → Run (Coucal × Bool)
write_entry alloc c name value = store alloc (count_write c) name value (calc_hashes c name)

unfoldable pub write_value : Allocator → Coucal → Name → ℕ → Run (Coucal × Bool)
write_value alloc c name value = write_entry alloc c name value >>= λ r. elim r.1 [
  | false ↦ ok r
  | true ↦ grow_if_full alloc (record (r.0) { used = inc_size r.0.used }) >>= λ c'. ok (c', true)
]
