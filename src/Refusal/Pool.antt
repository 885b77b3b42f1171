-- ===== src/Refusal/Pool.antt =====
-- The operations of the pool, where memory is refused.
use coucal.Base.{
  ℕ, zero, suc, ◌+◌, ◌*◌, ◌%◌, ◌≡◌, refl, ap, subst, Bool, true, false, Option, some, inl, inr, ◌-◌,
  ◌/◌, ◌&&◌, ◌||◌, ◌++◌, take, List, ◌∷◌, is_none, ltb, if◌then◌else◌, length, not, ◌==◌,
}
use coucal.Base.Words.{size_mod, inc_size, add_size, sub_size}
use coucal.Pool.{
  fresh_bytes, request, compact_pool, resize_block, extend_pool, realloc_pool, grow_capacity,
  make_room, append_string, copy_name, dup_name_internal, set_pool, is_pooled, bytes_of, invalidate,
  compact_if_sparse, free_string, free_key_internal, text, relocate_names, recompute_strings,
}
use coucal.Refusal.{granting, Falls, bind-Falls, same-Falls}
use coucal.Run.{Run, ok, ◌>>=◌, ◌>>◌, assert}
use coucal.State.{
  min_pool_capacity, Name, Pool, the_empty_string, pooled, outside, Coucal, Allocator,
}

module _ (alloc : Allocator) where
  pub request-Falls :
      (c : Coucal) (bytes : ℕ)
      → Falls alloc (request alloc c bytes) (request (granting alloc) c bytes)
  unfolding request
  request-Falls c bytes = go (alloc.succeeds c.world.allocations bytes) refl
    where
      go :
          (b : Bool)
          → alloc.succeeds c.world.allocations bytes ≡ b
          → Falls alloc
              (assert b
                >> ok (record c {
                  world = record (c.world) { allocations = c.world.allocations + 1 };
                }))
              (request (granting alloc) c bytes)
      go true e = inr refl
      go false e = inl (record { nth = c.world.allocations; bytes = bytes; refuses = e }, refl)

  fresh_bytes-granting :
      (n i : ℕ) (k : ℕ) → fresh_bytes alloc k i n ≡ fresh_bytes (granting alloc) k i n
  unfolding fresh_bytes
  fresh_bytes-granting zero i k = refl
  fresh_bytes-granting (suc n) i k =
      ap (λ r. alloc.garbage k i ∷ r) (fresh_bytes-granting n (i + 1) k)

  -- The compaction, from the new block on.
  abbrev moved_names : Coucal → Option (List ℕ) → ℕ → List ℕ → Run Coucal
  moved_names c old capacity block = do
    (items, block', pos') ← relocate_names old capacity (length c.items) c.items block 0
    (stashed, block'', pos'') ← relocate_names old capacity c.stash.extent c.stash.items block' pos'
    ok (record c {
      items = items;
      stash = record (c.stash) { items = stashed };
      pool = record { buffer = some block''; size = pos''; capacity = capacity; used = pos'' };
    })

  compact_pool-Falls :
      (c : Coucal) (capacity : ℕ)
      → Falls alloc (compact_pool alloc c capacity) (compact_pool (granting alloc) c capacity)
  unfolding compact_pool
  compact_pool-Falls c capacity =
      bind-Falls _ _ _
        (λ _.
          request (granting alloc)
            (record c {
              stats = record (c.stats) { pool_compact_count = inc_size c.stats.pool_compact_count };
            })
            capacity
          >>= λ c'.
              moved_names c' c.pool.buffer capacity
                (fresh_bytes (granting alloc) c.world.allocations 0 capacity))
        (same-Falls _)
        λ _. bind-Falls _ _ _ _ (request-Falls _ capacity) λ c'. inr (
          ap (moved_names c' c.pool.buffer capacity)
            (fresh_bytes-granting capacity 0 c.world.allocations))

  resize_block-granting :
      (k : ℕ) (old : Option (List ℕ)) (capacity : ℕ)
      → resize_block alloc k old capacity ≡ resize_block (granting alloc) k old capacity
  unfolding resize_block
  resize_block-granting k old capacity =
      let kept = take capacity (bytes_of old) in
      ap (λ r. kept ++ r) (fresh_bytes-granting (capacity - length kept) (length kept) k)

  abbrev extended : Coucal → ℕ → List ℕ → Run Coucal
  extended c capacity block =
      ok (record c { pool = record (c.pool) { buffer = some block; capacity = capacity } })

  extend_pool-Falls :
      (c : Coucal) (capacity : ℕ)
      → Falls alloc (extend_pool alloc c capacity) (extend_pool (granting alloc) c capacity)
  unfolding extend_pool
  extend_pool-Falls c capacity =
      let n = c.world.allocations in
      bind-Falls _ _ _
        (λ c'.
          assert (
            not (alloc.moves n || is_none c.pool.buffer)
            || (recompute_strings capacity (length c'.items) c'.items
                && recompute_strings capacity c'.stash.extent c'.stash.items))
          >> extended c' capacity (resize_block (granting alloc) n c.pool.buffer capacity))
        (request-Falls _ capacity)
        λ c'.
          bind-Falls _ _ _ _ (same-Falls _)
            λ _. inr (ap (extended c' capacity) (resize_block-granting n c.pool.buffer capacity))

  realloc_pool-Falls :
      (c : Coucal) (capacity : ℕ)
      → Falls alloc (realloc_pool alloc c capacity) (realloc_pool (granting alloc) c capacity)
  unfolding realloc_pool
  realloc_pool-Falls c capacity =
      bind-Falls _ _ _ _ (same-Falls _) λ _. go (ltb c.pool.used ((c.pool.size * 3) % size_mod / 4))
    where
      go :
          (b : Bool)
          → Falls alloc
              (if b then compact_pool alloc c capacity else extend_pool alloc c capacity)
              (if b
                then compact_pool (granting alloc) c capacity
                else extend_pool (granting alloc) c capacity)
      go true = compact_pool-Falls c capacity
      go false = extend_pool-Falls c capacity

  grow_capacity-granting :
      (fuel capacity need : ℕ)
      → grow_capacity alloc fuel capacity need ≡ grow_capacity (granting alloc) fuel capacity need
  unfolding grow_capacity
  grow_capacity-granting zero capacity need = refl
  grow_capacity-granting (suc fuel) capacity need =
      ap (λ rest. if ltb capacity need then rest else ok capacity)
        (grow_capacity-granting fuel ((capacity * 2) % size_mod) need)

  staged_room :
      (staging : Bool) (c : Coucal) (len : ℕ)
      → Falls alloc
          (if staging then request alloc c len else ok c)
          (if staging then request (granting alloc) c len else ok c)
  staged_room true c len = request-Falls c len
  staged_room false c len = same-Falls (ok c)

  make_room-Falls :
      (c : Coucal) (name : Name) (len : ℕ)
      → Falls alloc (make_room alloc c name len) (make_room (granting alloc) c name len)
  unfolding make_room
  make_room-Falls c name len = bind-Falls _ _ _ _ (staged_room (is_pooled alloc c name) c len) λ c'.
      bind-Falls _ _ _ _
        (inr (grow_capacity-granting 65 min_pool_capacity (add_size c.pool.size len)))
        λ capacity.
          bind-Falls _ _ _ _ (same-Falls _)
            λ _. bind-Falls _ _ _ _ (realloc_pool-Falls c' capacity) λ c''. same-Falls _

  copy_name-Falls :
      (c : Coucal) (name : Name) (bytes : List ℕ) (len : ℕ)
      → Falls alloc (copy_name alloc c name bytes len) (copy_name (granting alloc) c name bytes len)
  unfolding copy_name append_string
  copy_name-Falls c name bytes len = bind-Falls _ _ _ _ (same-Falls _) λ _.
      bind-Falls _ _ _ _ (go (ltb (sub_size c.pool.capacity c.pool.size) len)) λ r. same-Falls _
    where
      go :
          (b : Bool)
          → Falls alloc
              (if b then make_room alloc c name len else ok (c, bytes))
              (if b then make_room (granting alloc) c name len else ok (c, bytes))
      go true = make_room-Falls c name len
      go false = same-Falls _

  pub dup_name_internal-Falls :
      (c : Coucal) (name : Name)
      → Falls alloc (dup_name_internal alloc c name) (dup_name_internal (granting alloc) c name)
  unfolding dup_name_internal
  dup_name_internal-Falls c name =
      let bytes = text c.pool.buffer name in
      go (inc_size (length bytes) == 1) bytes (inc_size (length bytes))
    where
      go :
          (b : Bool) (bytes : List ℕ) (len : ℕ)
          → Falls alloc
              (if b then ok (c, the_empty_string) else copy_name alloc c name bytes len)
              (if b then ok (c, the_empty_string) else copy_name (granting alloc) c name bytes len)
      go true bytes len = same-Falls _
      go false bytes len = copy_name-Falls c name bytes len

  compact_if_sparse-Falls :
      (c : Coucal) → Falls alloc (compact_if_sparse alloc c) (compact_if_sparse (granting alloc) c)
  unfolding compact_if_sparse
  compact_if_sparse-Falls c =
      let p = c.pool in
      let capacity = if ltb p.used (p.capacity / 4) then p.capacity / 2 else p.capacity in
      go (not (p.used == 0) && ltb p.used (p.size / 2)) capacity
    where
      go :
          (b : Bool) (capacity : ℕ)
          → Falls alloc
              (if b
                then (assert (ltb c.pool.used capacity) >> compact_pool alloc c capacity)
                else ok c)
              (if b
                then (assert (ltb c.pool.used capacity) >> compact_pool (granting alloc) c capacity)
                else ok c)
      go true capacity = bind-Falls _ _ _ _ (same-Falls _) λ _. compact_pool-Falls c capacity
      go false capacity = same-Falls _

  invalidate-granting :
      (p : Pool) (name : Name) → invalidate alloc p name ≡ invalidate (granting alloc) p name
  unfolding invalidate
  invalidate-granting p the_empty_string = refl
  invalidate-granting p (pooled offset) = refl
  invalidate-granting p (outside t) = refl

  free_string-Falls :
      (c : Coucal) (name : Name) (len : ℕ)
      → Falls alloc (free_string alloc c name len) (free_string (granting alloc) c name len)
  unfolding free_string
  free_string-Falls c name len =
      let p : Pool = record (c.pool) { used = sub_size c.pool.used len } in
      bind-Falls (assert (not (len == 1))) _ _
        (λ _. compact_if_sparse (granting alloc) (set_pool c (invalidate (granting alloc) p name)))
        (same-Falls _)
        λ _.
          subst
            (λ q.
              Falls alloc (compact_if_sparse alloc (set_pool c (invalidate alloc p name)))
                (compact_if_sparse (granting alloc) (set_pool c q)))
            (invalidate-granting p name)
            (compact_if_sparse-Falls (set_pool c (invalidate alloc p name)))

  pub free_key_internal-Falls :
      (c : Coucal) (name : Name)
      → Falls alloc (free_key_internal alloc c name) (free_key_internal (granting alloc) c name)
  unfolding free_key_internal
  free_key_internal-Falls c the_empty_string = same-Falls _
  free_key_internal-Falls c (pooled offset) = free_string-Falls c (pooled offset) _
  free_key_internal-Falls c (outside t) = free_string-Falls c (outside t) _
