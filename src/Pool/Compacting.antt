-- ===== src/Pool/Compacting.antt =====
-- `coucal_compact_pool`.
use coucal.Base.{
  is_none, ℕ, zero, suc, ◌+◌, ◌^◌, ◌≤◌, ◌≡◌, refl, ap, ◌∙◌, true, List, length, get_or-beyond, none,
  some, arith,
}
use coucal.Base.Words.{inc_size}
use coucal.Pool.Regions.{Block, by_name, cover, region, bad, Pooled}
use coucal.Pool.Relocating.{Relocated, relocate_names-Relocated}
use coucal.Pool.Stable.{Spares, cover-Sees, region-Sees, bad-Sees, stable-SameItems, stable-total}
use coucal.Pool.{fresh_bytes, request, relocate_names, compact_pool}
use coucal.Run.{ok, ◌>>=◌, Returns}
use coucal.State.{Item, null_item, Coucal, Allocator}
use coucal.Table.Entries.{total}
use coucal.Table.Rekeying.{SameItems, Rekeyed}
use coucal.Table.{get_stash}

pub SameItems-trans :
    {a b c : Block} {xs ys zs : List Item}
    → SameItems a b xs ys
    → SameItems b c ys zs
    → SameItems a c xs zs
SameItems-trans s t = record {
  width = t.width ∙ s.width;
  slots = λ i. record {
    reads = (t.slots i).reads ∙ (s.slots i).reads;
    value = (t.slots i).value ∙ (s.slots i).value;
    hashes = (t.slots i).hashes ∙ (s.slots i).hashes;
  };
}

pub length-fresh_bytes :
    (alloc : Allocator) (n i len : ℕ) → length (fresh_bytes alloc n i len) ≡ len
unfolding fresh_bytes
length-fresh_bytes alloc n i zero = refl
length-fresh_bytes alloc n i (suc len) = ap suc (length-fresh_bytes alloc n (i + 1) len)

-- The stash holds nothing from its extent on.
abbrev pub StashClear : Coucal → Type 0
StashClear c = (i : ℕ) → c.stash.extent ≤ i → (get_stash c i).name ≡ none

-- What a compaction promises.
pub record Compacted (c : Coucal) (n : ℕ) (c' : Coucal) : Type 0 where
  pub rekeyed : Rekeyed c c'
  pub pooled : Pooled c' none
  pub capacity : c'.pool.capacity ≡ n
  pub size : c'.pool.size ≡ c.pool.used
  pub used : c'.pool.used ≡ c.pool.used

-- The state at the end, from the results of the two loops.
abbrev compacted : Coucal → ℕ → List Item × List ℕ × ℕ → List Item × List ℕ × ℕ → Coucal
compacted c capacity r r' = record c {
  items = r.0;
  stash = record (c.stash) { items = r'.0 };
  pool = record { buffer = some r'.1; size = r'.2; capacity = capacity; used = r'.2 };
  stats = record (c.stats) { pool_compact_count = inc_size c.stats.pool_compact_count };
  world = record (c.world) { allocations = c.world.allocations + 1 };
}

compact_pool-run :
    (alloc : Allocator) (c : Coucal) (capacity : ℕ) (r r' : List Item × List ℕ × ℕ)
    → c.custom.key.dup ≡ none
    → alloc.succeeds c.world.allocations capacity ≡ true
    → relocate_names c.pool.buffer capacity
        (length c.items)
        c.items
        (fresh_bytes alloc c.world.allocations 0 capacity)
        0
      ≡ ok r
    → relocate_names c.pool.buffer capacity c.stash.extent c.stash.items r.1 r.2 ≡ ok r'
    → compact_pool alloc c capacity ≡ ok (compacted c capacity r r')
unfolding compact_pool request
compact_pool-run alloc c capacity r r' e given run run' =
    let no_dup : is_none c.custom.key.dup ≡ true = ap is_none e in
    rw (no_dup, given, run, ◌>>=◌, run')

module _ (c : Coucal) (k : Pooled c none) where
  abbrev old : Block
  old = c.pool.buffer

  good_table : total (by_name (bad old)) c.items ≡ 0
  good_table = omega (arith, k.good)

  good_stash : total (by_name (bad old)) c.stash.items ≡ 0
  good_stash = omega (arith, k.good)

  all_regions :
      total (by_name (region old)) c.items + total (by_name (region old)) c.stash.items
      ≡ c.pool.used
  all_regions = omega (arith, k.counted)

  module _ (block : List ℕ) (r r' : List Item × List ℕ × ℕ) (k1 : Relocated old c.items block 0 r)
      (k2 : Relocated old c.stash.items r.1 r.2 r') where
    -- The second loop spares what the first one copied.
    spares : Spares (some r.1) (some r'.1) r.0
    spares p h = k2.kept p (ground (arith, h, k1.apart p))

    ends : r'.2 ≡ c.pool.used
    ends = omega (arith, k1.end, k2.end, all_regions)

    later-Pooled :
        (capacity : ℕ)
        → length block ≡ capacity
        → c.pool.used ≤ capacity
        → capacity ≤ 2 ^ 63
        → Pooled (compacted c capacity r r') none
    later-Pooled capacity w fits bound = record {
      no_dup = k.no_dup;
      no_free = k.no_free;
      block = k2.width ∙ k1.width ∙ w;
      size_fits = omega (arith, ends);
      bound = bound;
      good = omega (
        arith,
        k2.good,
        k1.good,
        stable-total _ _ r.0 (bad (some r.1)) (bad (some r'.1)) spares (bad-Sees _ _),
      );
      apart = λ p. ground (
        arith,
        k1.apart p,
        k2.apart p,
        stable-total _ _ r.0 (cover (some r.1) p) (cover (some r'.1) p) spares (cover-Sees _ _ p),
        k1.end,
        k2.end,
      );
      counted = omega (
        arith,
        ends,
        all_regions,
        k1.counted,
        k2.counted,
        stable-total _ _ r.0 (region (some r.1)) (region (some r'.1)) spares (region-Sees _ _),
      );
    }

    later-table : SameItems old (some r'.1) c.items r.0
    later-table = SameItems-trans k1.same (stable-SameItems (some r.1) (some r'.1) r.0 spares)

-- In a pool in order, if the stash holds nothing from its extent on, a compaction to a capacity of at
-- most 2^63 that holds the bytes in use fails no assertion if its memory is granted: every key reads what it read before, the pool is in order, and no byte below the
-- new size is unused.
pub compact_pool-Compacted :
    (alloc : Allocator) (c : Coucal) (capacity : ℕ)
    → Pooled c none
    → StashClear c
    → c.pool.used ≤ capacity
    → capacity ≤ 2 ^ 63
    → alloc.succeeds c.world.allocations capacity ≡ true
    → Returns (compact_pool alloc c capacity) (Compacted c capacity)
compact_pool-Compacted alloc c capacity k clear fits bound given =
    let block = fresh_bytes alloc c.world.allocations 0 capacity in
    let width : length block ≡ capacity = length-fresh_bytes alloc c.world.allocations 0 capacity in
    let (r, run, k1) =
      relocate_names-Relocated c.pool.buffer capacity (length c.items) c.items block 0 width
        (good_table c k) (λ i h. ap (λ x. x.name) (get_or-beyond c.items i null_item h))
        (omega (arith, all_regions c k)) in
    let (r', run', k2) =
      relocate_names-Relocated c.pool.buffer capacity c.stash.extent c.stash.items r.1 r.2
        (k1.width ∙ width) (good_stash c k) clear (omega (arith, all_regions c k, k1.end)) in
    (
      compacted c capacity r r',
      compact_pool-run alloc c capacity r r' k.no_dup given run run',
      record {
        rekeyed = record {
          table = later-table c k block r r' k1 k2;
          stash = k2.same;
          stash_size = refl;
          stash_extent = refl;
          lg_size = refl;
          used = refl;
          custom = refl;
          freed_values = refl;
          freed_keys = refl;
        };
        pooled = later-Pooled c k block r r' k1 k2 capacity width fits bound;
        capacity = refl;
        size = ends c k block r r' k1 k2;
        used = ends c k block r r' k1 k2;
      },
    )
