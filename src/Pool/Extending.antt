-- ===== src/Pool/Extending.antt =====
-- `coucal_realloc_pool`.
use coucal.Base.{
  ℕ, zero, suc, ◌+◌, ◌-◌, ◌*◌, ◌^◌, ◌%◌, ◌/◌, ◌≤◌, ◌<◌, ◌≡◌, refl, ap, ◌∙◌, inl, inr, ltb, ◌&&◌,
  true, false, is_none, Bool-cases, List, [], ◌∷◌, ◌++◌, length, length-append, take, get_or,
  Option, none, some, arith,
}
use coucal.Base.Words.{inc_size, size_mod}
use coucal.Pool.Compacting.{compact_pool-Compacted, StashClear, length-fresh_bytes}
use coucal.Pool.Regions.{Block, by_name, cover, bad, Pooled, used-le-size}
use coucal.Pool.Stable.{
  Spares, Sees, cover-Sees, region-Sees, bad-Sees, stable-SameItems, stable-weight,
}
use coucal.Pool.{
  compact_pool, fresh_bytes, request, resize_block, recompute_string, recompute_strings,
  extend_pool, realloc_pool, bytes_of,
}
use coucal.Run.{ok, Returns}
use coucal.State.{Name, the_empty_string, pooled, outside, Item, Coucal, Allocator}
use coucal.Table.Entries.{mass, total, one_if}
use coucal.Table.Layout.{weight}
use coucal.Table.Rekeying.{Rekeyed}

-- What a growth of the pool to a capacity of `n` bytes promises.
pub record Roomy (c : Coucal) (n : ℕ) (c' : Coucal) : Type 0 where
  pub rekeyed : Rekeyed c c'
  pub pooled : Pooled c' none
  pub capacity : c'.pool.capacity ≡ n
  pub size : c'.pool.size ≤ c.pool.size

get_or-take_append :
    (m : ℕ) (xs ys : List ℕ) (p : ℕ)
    → p < m
    → p < length xs
    → get_or (take m xs ++ ys) p 0 ≡ get_or xs p 0
get_or-take_append zero xs ys p h k = absurd (omega arith)
get_or-take_append (suc m) [] ys p h k = absurd (omega arith)
get_or-take_append (suc m) (x ∷ xs) ys zero h k = refl
get_or-take_append (suc m) (x ∷ xs) ys (suc p) h k =
    get_or-take_append m xs ys p (omega arith) (omega arith)

length-take : (m : ℕ) (xs : List ℕ) → length (take m xs) ≤ m
length-take zero xs = omega arith
length-take (suc m) [] = omega arith
length-take (suc m) (x ∷ xs) = omega (arith, length-take m xs)

length-resize_block :
    (alloc : Allocator) (n : ℕ) (old : Block) (capacity : ℕ)
    → length (resize_block alloc n old capacity) ≡ capacity
unfolding resize_block
length-resize_block alloc n old capacity =
    let kept = take capacity (bytes_of old) in
    omega (
      arith,
      length-append kept (fresh_bytes alloc n (length kept) (capacity - length kept)),
      length-fresh_bytes alloc n (length kept) (capacity - length kept),
      length-take capacity (bytes_of old),
    )

get_or-resize_block :
    (alloc : Allocator) (n : ℕ) (old : Block) (capacity p : ℕ)
    → p < capacity
    → p < length (bytes_of old)
    → get_or (resize_block alloc n old capacity) p 0 ≡ get_or (bytes_of old) p 0
unfolding resize_block
get_or-resize_block alloc n old capacity p h k = get_or-take_append capacity (bytes_of old) _ p h k

-- Below the size of the pool every key passes the check of RECOMPUTE_STRING.
recompute_string-true :
    (b : Block) (capacity size : ℕ) (item : Item)
    → size ≤ capacity
    → mass (by_name (bad b)) item ≡ 0
    → ((p : ℕ) → mass (by_name (cover b p)) item ≤ one_if (ltb p size))
    → (name : Option Name) → item.name ≡ name
    → recompute_string capacity name ≡ true
unfolding recompute_string
recompute_string-true b capacity size item h good apart none e = refl
recompute_string-true b capacity size item h good apart (some the_empty_string) e = refl
recompute_string-true b capacity size item h good apart (some (outside t)) e =
    absurd (omega (arith, good, ap (λ o. mass (by_name (bad b)) (record item { name = o })) e))
recompute_string-true b capacity size item h good apart (some (pooled o)) e =
    ground (arith, apart o, ap (λ n. mass (by_name (cover b o)) (record item { name = n })) e)

recompute_strings-true :
    (b : Block) (capacity size n : ℕ) (items : List Item)
    → size ≤ capacity
    → total (by_name (bad b)) items ≡ 0
    → ((p : ℕ) → total (by_name (cover b p)) items ≤ one_if (ltb p size))
    → recompute_strings capacity n items ≡ true
unfolding recompute_strings total
recompute_strings-true b capacity size zero items h good apart = refl
recompute_strings-true b capacity size (suc n) [] h good apart = refl
recompute_strings-true b capacity size (suc n) (item ∷ items) h good apart =
    rw
      (recompute_string-true b capacity size item h (omega (arith, good))
        (λ p. omega (arith, apart p)) item.name refl)
      (recompute_strings-true b capacity size n items h (omega (arith, good))
        (λ p. omega (arith, apart p)))

module _ (alloc : Allocator) (c : Coucal) (capacity : ℕ) (k : Pooled c none)
    (fits : c.pool.size ≤ capacity) (bound : capacity ≤ 2 ^ 63) where
  abbrev extended : Coucal
  extended = record c {
    pool = record (c.pool) {
      buffer = some (resize_block alloc c.world.allocations c.pool.buffer capacity);
      capacity = capacity;
    };
    stats = record (c.stats) { pool_realloc_count = inc_size c.stats.pool_realloc_count };
    world = record (c.world) { allocations = c.world.allocations + 1 };
  }

  abbrev new : Block
  new = some (resize_block alloc c.world.allocations c.pool.buffer capacity)

  below :
      (p : ℕ) → p < c.pool.size → get_or (bytes_of new) p 0 ≡ get_or (bytes_of c.pool.buffer) p 0
  below p h =
      get_or-resize_block alloc c.world.allocations c.pool.buffer capacity p (omega arith)
        (omega (arith, k.block, k.size_fits))

  Spares-table : Spares c.pool.buffer new c.items
  Spares-table p h = below p (ground (arith, k.apart p))

  Spares-stash : Spares c.pool.buffer new c.stash.items
  Spares-stash p h = below p (ground (arith, k.apart p))

  same_weight :
      (g g' : Name → ℕ) → Sees c.pool.buffer new g g' → weight (by_name g') c ≡ weight (by_name g) c
  same_weight g g' s = stable-weight c c.pool.buffer new g g' Spares-table Spares-stash s

  extended-Pooled : Pooled extended none
  extended-Pooled = record {
    no_dup = k.no_dup;
    no_free = k.no_free;
    block = length-resize_block alloc c.world.allocations c.pool.buffer capacity;
    size_fits = fits;
    bound = bound;
    good = omega (arith, k.good, same_weight _ _ (bad-Sees c.pool.buffer new));
    apart = λ p. omega (arith, k.apart p, same_weight _ _ (cover-Sees c.pool.buffer new p));
    counted = omega (arith, k.counted, same_weight _ _ (region-Sees c.pool.buffer new));
  }

  extended-Rekeyed : Rekeyed c extended
  extended-Rekeyed = record {
    table = stable-SameItems c.pool.buffer new c.items Spares-table;
    stash = stable-SameItems c.pool.buffer new c.stash.items Spares-stash;
    stash_size = refl;
    stash_extent = refl;
    lg_size = refl;
    used = refl;
    custom = refl;
    freed_values = refl;
    freed_keys = refl;
  }

  checked :
      recompute_strings capacity (length c.items) c.items
        && recompute_strings capacity c.stash.extent c.stash.items
      ≡ true
  checked = rw (
    recompute_strings-true c.pool.buffer capacity c.pool.size (length c.items) c.items fits
        (omega (arith, k.good)) (λ p. omega (arith, k.apart p)),
    recompute_strings-true c.pool.buffer capacity c.pool.size c.stash.extent c.stash.items fits
        (omega (arith, k.good)) (λ p. omega (arith, k.apart p)),
  )

  extend_pool-run :
      alloc.succeeds c.world.allocations capacity ≡ true
      → extend_pool alloc c capacity ≡ ok extended
  unfolding extend_pool request
  extend_pool-run given = rw (given, checked) (ground arith)

realloc_pool-sparse :
    (alloc : Allocator) (c : Coucal) (capacity : ℕ)
    → c.custom.key.dup ≡ none
    → ltb c.pool.used ((c.pool.size * 3) % size_mod / 4) ≡ true
    → realloc_pool alloc c capacity ≡ compact_pool alloc c capacity
unfolding realloc_pool
realloc_pool-sparse alloc c capacity e sparse =
    let no_dup : is_none c.custom.key.dup ≡ true = ap is_none e in rw (no_dup, sparse)

realloc_pool-dense :
    (alloc : Allocator) (c : Coucal) (capacity : ℕ)
    → c.custom.key.dup ≡ none
    → ltb c.pool.used ((c.pool.size * 3) % size_mod / 4) ≡ false
    → realloc_pool alloc c capacity ≡ extend_pool alloc c capacity
unfolding realloc_pool
realloc_pool-dense alloc c capacity e dense =
    let no_dup : is_none c.custom.key.dup ≡ true = ap is_none e in rw (no_dup, dense)

-- In a pool in order, if the stash holds nothing from its extent on, `coucal_realloc_pool` to a capacity
-- of at most 2^63 that holds the size of the pool fails no assertion if its memory is granted, whether it
-- compacts the pool or extends it: every key reads what it read before, and the pool is in order, with
-- that capacity and a size that has not grown.
pub realloc_pool-Roomy :
    (alloc : Allocator) (c : Coucal) (capacity : ℕ)
    → Pooled c none
    → StashClear c
    → c.pool.size ≤ capacity
    → capacity ≤ 2 ^ 63
    → alloc.succeeds c.world.allocations capacity ≡ true
    → Returns (realloc_pool alloc c capacity) (Roomy c capacity)
realloc_pool-Roomy alloc c capacity k clear fits bound given =
    let used = used-le-size c none k in
    elim (Bool-cases (ltb c.pool.used ((c.pool.size * 3) % size_mod / 4))) [
      | inl sparse ↦
          let (c', run, m) =
            compact_pool-Compacted alloc c capacity k clear (omega arith) bound given in
          (
            c',
            realloc_pool-sparse alloc c capacity k.no_dup sparse ∙ run,
            record {
              rekeyed = m.rekeyed;
              pooled = m.pooled;
              capacity = m.capacity;
              size = omega (arith, m.size);
            },
          )
      | inr dense ↦ (
        extended alloc c capacity k fits bound,
        realloc_pool-dense alloc c capacity k.no_dup dense
            ∙ extend_pool-run alloc c capacity k fits bound given,
        record {
          rekeyed = extended-Rekeyed alloc c capacity k fits bound;
          pooled = extended-Pooled alloc c capacity k fits bound;
          capacity = refl;
          size = omega arith;
        },
      )
    ]
