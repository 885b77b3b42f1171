-- ===== src/Pool.antt =====
-- The string pool of coucal.c: keys that the library duplicates itself.
pub mod Text
pub mod Regions
pub mod Relocating
pub mod Stable
pub mod Compacting
pub mod Capacity
pub mod Extending
pub mod Appending
pub mod Duplicating
pub mod Releasing
use coucal.Base.{
  ℕ, zero, suc, ◌+◌, ◌-◌, ◌*◌, ◌/◌, ◌%◌, Bool, true, false, ◌&&◌, ◌||◌, not, Option, none, some,
  List, [], ◌∷◌, ◌++◌, length, set, drop, take, ltb, leb, ◌==◌, if◌then◌else◌, is_none,
}
use coucal.Base.Words.{size_mod, inc_size, add_size, sub_size}
use coucal.Run.{Run, ok, abort, ◌>>=◌, ◌>>◌, assert}
use coucal.State.{
  Name, the_empty_string, pooled, outside, Item, Pool, Coucal, Allocator, min_pool_capacity,
}

-- A C string: the bytes before the first NUL.
unfoldable pub cstr : List ℕ → List ℕ
cstr [] = []
cstr (b ∷ bs) = if b == 0 then [] else b ∷ cstr bs

abbrev pub bytes_of : Option (List ℕ) → List ℕ
bytes_of none = []
bytes_of (some bytes) = bytes

-- What a key holds, for a pool with the given buffer.
unfoldable pub text : Option (List ℕ) → Name → List ℕ
unfolding cstr
text buffer the_empty_string = []
text buffer (pooled offset) = cstr (drop offset (bytes_of buffer))
text buffer (outside bytes) = bytes

-- `memcpy` into a block
unfoldable pub write_bytes : List ℕ → ℕ → List ℕ → List ℕ
write_bytes block pos [] = block
write_bytes block pos (b ∷ bs) = write_bytes (set block pos b) (pos + 1) bs

-- New memory: `n` bytes from index `i` on, of the given request.
unfoldable pub fresh_bytes : Allocator → ℕ → ℕ → ℕ → List ℕ
fresh_bytes alloc request i zero = []
fresh_bytes alloc request i (suc n) = alloc.garbage request i ∷ fresh_bytes alloc request (i + 1) n

abbrev pub set_pool : Coucal → Pool → Coucal
set_pool c p = record c { pool = p }

-- A request for memory is counted; the code goes on only if it succeeds.
unfoldable pub request : Allocator → Coucal → ℕ → Run Coucal
request alloc c bytes =
    let n = c.world.allocations in
    do
      assert (alloc.succeeds n bytes)
      ok (record c { world = record (c.world) { allocations = n + 1 } })

-- RELOCATE_STRING, the copy: each byte is written behind an assertion that it fits. Gives the block
-- and the offset behind the string.
unfoldable pub copy_string : ℕ → List ℕ → ℕ → List ℕ → Run (List ℕ × ℕ)
copy_string capacity block pos [] = ok (block, pos)
copy_string capacity block pos (b ∷ bs) =
    let rest = copy_string capacity (set block pos b) (pos + 1) bs in
    if ltb pos capacity then rest else abort

-- RELOCATE_STRING of one item, from the pool `old` to the block that is filled up to `pos`.
unfoldable pub relocate_name :
    Option (List ℕ) → ℕ → Option Name → List ℕ → ℕ → Run (Option Name × List ℕ × ℕ)
unfolding text copy_string
relocate_name old capacity none block pos = ok (none, block, pos)
relocate_name old capacity (some the_empty_string) block pos =
    ok (some the_empty_string, block, pos)
relocate_name old capacity (some name) block pos = do
  (block', pos') ← copy_string capacity block pos (text old name ++ 0 ∷ [])
  assert (leb pos' capacity)
  ok (some (pooled pos), block', pos')

-- The loop over the first `n` items of an array.
unfoldable pub relocate_names :
    Option (List ℕ) → ℕ → ℕ → List Item → List ℕ → ℕ → Run (List Item × List ℕ × ℕ)
unfolding relocate_name
relocate_names old capacity zero items block pos = ok (items, block, pos)
relocate_names old capacity (suc n) [] block pos = ok ([], block, pos)
relocate_names old capacity (suc n) (item ∷ items) block pos = do
  (name, block', pos') ← relocate_name old capacity item.name block pos
  (items', block'', pos'') ← relocate_names old capacity n items block' pos'
  ok (record item { name = name } ∷ items', block'', pos'')

-- RECOMPUTE_STRING: a pooled key keeps its offset; the code checks it.
unfoldable pub recompute_string : ℕ → Option Name → Bool
recompute_string capacity none = true
recompute_string capacity (some the_empty_string) = true
recompute_string capacity (some (pooled offset)) = ltb offset capacity
recompute_string capacity (some (outside _)) = false

unfoldable pub recompute_strings : ℕ → ℕ → List Item → Bool
unfolding recompute_string
recompute_strings capacity zero items = true
recompute_strings capacity (suc n) [] = true
recompute_strings capacity (suc n) (item ∷ items) =
    recompute_string capacity item.name && recompute_strings capacity n items

module _ (alloc : Allocator) where
  unfoldable pub compact_pool : Coucal → ℕ → Run Coucal
  unfolding request fresh_bytes relocate_names
  compact_pool c capacity = do
    assert (is_none c.custom.key.dup)
    let old = c.pool.buffer
    let counted : Coucal = record c {
      stats = record (c.stats) { pool_compact_count = inc_size c.stats.pool_compact_count };
    }
    c' ← request alloc counted capacity
    let block = fresh_bytes alloc c.world.allocations 0 capacity
    (items, block', pos') ← relocate_names old capacity (length c'.items) c'.items block 0
    (stashed, block'', pos'') ←
        relocate_names old capacity c'.stash.extent c'.stash.items block' pos'
    ok (record c' {
      items = items;
      stash = record (c'.stash) { items = stashed };
      pool = record { buffer = some block''; size = pos''; capacity = capacity; used = pos'' };
    })

  -- `realloc` keeps the bytes that both blocks have.
  unfoldable pub resize_block : ℕ → Option (List ℕ) → ℕ → List ℕ
  unfolding fresh_bytes
  resize_block n old capacity =
      let kept = take capacity (bytes_of old) in
      kept ++ fresh_bytes alloc n (length kept) (capacity - length kept)

  -- The rest of `coucal_realloc_pool`, where it does not compact instead.
  unfoldable pub extend_pool : Coucal → ℕ → Run Coucal
  unfolding request resize_block recompute_strings
  extend_pool c capacity = do
    let counted : Coucal = record c {
      stats = record (c.stats) { pool_realloc_count = inc_size c.stats.pool_realloc_count };
    }
    c' ← request alloc counted capacity
    let n = c.world.allocations
    assert (
        not (alloc.moves n || is_none c.pool.buffer)
        || (recompute_strings capacity (length c'.items) c'.items
            && recompute_strings capacity c'.stash.extent c'.stash.items))
    ok (
        set_pool c' (record (c'.pool) {
          buffer = some (resize_block n c.pool.buffer capacity);
          capacity = capacity;
        }))

  unfoldable pub realloc_pool : Coucal → ℕ → Run Coucal
  unfolding compact_pool extend_pool
  realloc_pool c capacity = do
    assert (is_none c.custom.key.dup)
    if ltb c.pool.used ((c.pool.size * 3) % size_mod / 4)
        then compact_pool c capacity
        else extend_pool c capacity

  -- `for (capacity = MIN_POOL_CAPACITY; capacity < need; capacity <<= 1)`. Past 64 rounds the
  -- capacity is 0 for good, and the loop of the code does not end.
  unfoldable pub grow_capacity : ℕ → ℕ → ℕ → Run ℕ
  grow_capacity zero capacity need = abort
  grow_capacity (suc fuel) capacity need =
      let rest = grow_capacity fuel ((capacity * 2) % size_mod) need in
      if ltb capacity need then rest else ok capacity

  abbrev pub is_pooled : Coucal → Name → Bool
  is_pooled c (pooled offset) = not (is_none c.pool.buffer) && ltb offset c.pool.capacity
  is_pooled c _ = false

  -- The growth of the pool for `len` bytes more. Gives the bytes of the key as they are read after
  -- it: from the staged copy, or through the pointer.
  unfoldable pub make_room : Coucal → Name → ℕ → Run (Coucal × List ℕ)
  unfolding grow_capacity realloc_pool request text
  make_room c name len = do
    let staging = is_pooled c name
    let staged = text c.pool.buffer name
    c' ← if staging then request alloc c len else ok c
    let need = add_size c.pool.size len
    capacity ← grow_capacity 65 min_pool_capacity need
    assert (ltb c.pool.size capacity)
    c'' ← realloc_pool c' capacity
    ok (c'', if staging then staged else text c''.pool.buffer name)

  -- The copy at the end of the pool.
  unfoldable pub append_string : Coucal → List ℕ → ℕ → Run (Coucal × Name)
  unfolding write_bytes
  append_string c bytes len = do
    assert (leb (add_size len c.pool.size) c.pool.capacity)
    let p = c.pool
    ok (
      set_pool c (record p {
        buffer = some (write_bytes (bytes_of p.buffer) p.size (bytes ++ 0 ∷ []));
        size = add_size p.size len;
        used = add_size p.used len;
      }),
      pooled p.size,
    )

  unfoldable pub copy_name : Coucal → Name → List ℕ → ℕ → Run (Coucal × Name)
  unfolding make_room append_string
  copy_name c name bytes len = do
    assert (leb c.pool.size c.pool.capacity)
    (c', bytes') ←
        if ltb (sub_size c.pool.capacity c.pool.size) len
        then make_room c name len
        else ok (c, bytes)
    append_string c' bytes' len

  unfoldable pub dup_name_internal : Coucal → Name → Run (Coucal × Name)
  unfolding text copy_name
  dup_name_internal c name =
      let bytes = text c.pool.buffer name in
      let len = inc_size (length bytes) in
      if len == 1 then ok (c, the_empty_string) else copy_name c name bytes len

  -- `*name = '\0'`. Memory outside the pool is not part of the model.
  unfoldable pub invalidate : Pool → Name → Pool
  invalidate p (pooled offset) = record p { buffer = some (set (bytes_of p.buffer) offset 0) }
  invalidate p _ = p

  -- "compact the pool is too many holes"
  unfoldable pub compact_if_sparse : Coucal → Run Coucal
  unfolding compact_pool
  compact_if_sparse c =
      let p = c.pool in
      let capacity = if ltb p.used (p.capacity / 4) then p.capacity / 2 else p.capacity in
      let compacted = assert (ltb p.used capacity) >> compact_pool c capacity in
      if not (p.used == 0) && ltb p.used (p.size / 2) then compacted else ok c

  unfoldable pub free_string : Coucal → Name → ℕ → Run Coucal
  unfolding invalidate compact_if_sparse
  free_string c name len = do
    assert (not (len == 1))
    let p = record (c.pool) { used = sub_size c.pool.used len }
    compact_if_sparse (set_pool c (invalidate p name))

  unfoldable pub free_key_internal : Coucal → Name → Run Coucal
  unfolding text free_string
  free_key_internal c the_empty_string = ok c
  free_key_internal c name = free_string c name (inc_size (length (text c.pool.buffer name)))
