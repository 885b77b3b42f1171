-- ===== src/Table/Grow.antt =====
-- The growth of the table at the end of `coucal_write_value`: doubling, relocation of the lower
-- half, and the merge of the stash.
use coucal.Base.{
  ℕ, zero, suc, ◌+◌, ◌-◌, ◌*◌, ◌/◌, Bool, true, false, ◌&&◌, ◌||◌, not, List, [], ◌∷◌, ◌++◌, take,
  replicate, ltb, leb, ◌==◌, if◌then◌else◌,
}
use coucal.Base.Words.{size_mod, inc_size, pow2}
use coucal.Pool.{request}
use coucal.Run.{Run, ok, abort, ◌>>=◌, ◌>>◌, assert}
use coucal.State.{Item, null_item, Stash, Coucal, Allocator, stash_size, coucal_hash_size}
use coucal.Table.{hash_to_pos_at, hash_to_pos, get_item, set_item, is_empty_item, is_free}
use coucal.Table.Add.{add_item}

-- `sizeof(coucal_item)` on a machine of 64 bits: a pointer, a word and two hashes of 32 bits.
abbrev pub sizeof_item : ℕ
sizeof_item = 24

unfoldable pub is_acceptable_pow2 : ℕ → Bool
is_acceptable_pow2 lg_size = leb lg_size coucal_hash_size && ltb lg_size 64

-- "no more the expected position"
unfoldable pub relocate_to : Coucal → ℕ → ℕ → ℕ → Run Coucal
relocate_to c prev_size i pos =
    let moved = ok (set_item (set_item c pos (get_item c i)) i null_item) in
    if pos == i then ok c else assert (leb prev_size pos) >> moved

-- One round of the loop over the lower half.
unfoldable pub relocate_one : ℕ → ℕ → Coucal → ℕ → Run Coucal
unfolding hash_to_pos hash_to_pos_at relocate_to
relocate_one prev_power prev_size c i =
    let hashes = (get_item c i).hashes in
    if is_free c i
    then ok c
    else if hash_to_pos_at prev_power hashes.hash1 == i
    then relocate_to c prev_size i (hash_to_pos c hashes.hash1)
    else if hash_to_pos_at prev_power hashes.hash2 == i
    then relocate_to c prev_size i (hash_to_pos c hashes.hash2)
    else abort

-- `n` rounds from `i` on.
unfoldable pub relocate_from : ℕ → ℕ → ℕ → ℕ → Coucal → Run Coucal
unfolding relocate_one
relocate_from prev_power prev_size zero i c = ok c
relocate_from prev_power prev_size (suc n) i c =
    relocate_one prev_power prev_size c i >>= relocate_from prev_power prev_size n (i + 1)

-- `realloc` of the items, and the upper half cleared.
unfoldable pub double_items : Allocator → Coucal → Run Coucal
unfolding is_acceptable_pow2 request
double_items alloc c = do
  let prev_size = pow2 (c.lg_size - 1) * 2
  let size_overflow = ltb ((size_mod - 1) / (2 * sizeof_item)) prev_size
  let c1 : Coucal = record c {
    lg_size = inc_size c.lg_size;
    stats = record (c.stats) { rehash_count = inc_size c.stats.rehash_count };
  }
  assert (is_acceptable_pow2 c1.lg_size)
  assert (not size_overflow)
  c2 ← request alloc c1 (prev_size * sizeof_item * 2)
  ok (record c2 { items = c2.items ++ replicate prev_size null_item })

-- "insert all items", from the copy of the stash.
unfoldable pub reinsert : List Item → Coucal → Run Coucal
unfolding add_item
reinsert [] c = ok c
reinsert (item ∷ items) c = elim (is_empty_item item) [
  | true ↦ reinsert items c
  | false ↦ add_item c item >>= λ r. assert r.1 >> reinsert items r.0
]

-- "attempt to merge the stash if present"
unfoldable pub merge_stash : Coucal → Run Coucal
unfolding reinsert
merge_stash c =
    let empty : Stash = record { items = replicate stash_size null_item; size = 0; extent = 0 } in
    let merged = do
      c' ← reinsert (take c.stash.extent c.stash.items) (record c { stash = empty })
      assert (leb c'.stash.size c.stash.size)
      ok c'
    in if c.stash.size == 0 then ok c else merged

unfoldable pub grow : Allocator → Coucal → Run Coucal
grow alloc c = do
  let prev_size = pow2 (c.lg_size - 1) * 2
  c1 ← double_items alloc c
  c2 ← relocate_from c.lg_size prev_size prev_size 0 c1
  merge_stash c2

-- "table is more than half-full, or stash is more than half-full"
unfoldable pub grow_if_full : Allocator → Coucal → Run Coucal
grow_if_full alloc c =
    let half_size = pow2 (c.lg_size - 1) in
    if leb half_size c.used || leb (stash_size / 2) c.stash.size then grow alloc c else ok c
