-- ===== src/Pool/Releasing.antt =====
-- `coucal_free_key_internal`.
use coucal.Base.{
  ◌⊎◌, ℕ, ◌+◌, ◌-◌, ◌/◌, ◌≤◌, ◌<◌, ◌≡◌, refl, ap, ◌∙◌, inl, inr, ltb, lt→ltb, ◌==◌, ==_iff, ◌&&◌,
  true, false, not, length, length-set, get_or, get_or-set, set, none, some, if◌then◌else◌, arith,
  Bool-cases,
}
use coucal.Base.Words.{sub_size, inc_size}
use coucal.Pool.Appending.{Rekeyed-refl, Rekeyed-trans, add_size-small}
use coucal.Pool.Compacting.{StashClear, compact_pool-Compacted}
use coucal.Pool.Duplicating.{Generous, sub_size-small}
use coucal.Pool.Regions.{Block, by_name, cover, region, bad, Pooled, used-le-size, text-fits}
use coucal.Pool.Stable.{
  Spares, Sees, cover-Sees, region-Sees, bad-Sees, stable-SameItems, stable-weight,
}
use coucal.Pool.{text, bytes_of, invalidate, compact_if_sparse, free_string, free_key_internal}
use coucal.Run.{Returns}
use coucal.State.{Name, the_empty_string, pooled, outside, Item, Coucal, Allocator}
use coucal.Table.Entries.{mass}
use coucal.Table.Layout.{weight}
use coucal.Table.Rekeying.{Rekeyed}

-- What the release of a key that is not in the table any more promises.
pub record Released (c c' : Coucal) : Type 0 where
  pub rekeyed : Rekeyed c c'
  pub pooled : Pooled c' none
  pub smaller : c'.pool.size ≤ c.pool.size

-- No byte is in use, or at least half of the size is, rounded down.
abbrev pub Dense : Coucal → Type 0
Dense c = (c.pool.used ≡ 0) ⊎ (c.pool.size / 2 ≤ c.pool.used)

-- "compact the pool is too many holes"
compact_if_sparse-Released :
    (alloc : Allocator) (c : Coucal)
    → Pooled c none
    → StashClear c
    → Generous alloc
    → Returns (compact_if_sparse alloc c) λ c'. Released c c' × Dense c'
unfolding compact_if_sparse
compact_if_sparse-Released alloc c k clear generous =
    let p = c.pool in
    let capacity = if ltb p.used (p.capacity / 4) then p.capacity / 2 else p.capacity in
    elim (Bool-cases (not (p.used == 0) && ltb p.used (p.size / 2))) [
      | inl sparse ↦
          let (fits, half) = room p.used p.size p.capacity k.size_fits sparse in
          let (c', run, m) =
            compact_pool-Compacted alloc c capacity k clear (omega arith) (omega (arith, k.bound))
              (generous _ _) in
          (
            c',
            rw (sparse, lt→ltb p.used capacity fits) run,
            (
              record {
                rekeyed = m.rekeyed;
                pooled = m.pooled;
                smaller = omega (arith, m.size, used-le-size c none k);
              },
              inr (omega (arith, m.size, m.used)),
            ),
          )
      | inr dense ↦ (
        c,
        rw dense,
        (
          record { rekeyed = Rekeyed-refl c; pooled = k; smaller = omega arith },
          stays p.used p.size dense,
        ),
      )
    ]
  where
    room :
        (used size capacity : ℕ)
        → size ≤ capacity
        → not (used == 0) && ltb used (size / 2) ≡ true
        → (used < (if ltb used (capacity / 4) then capacity / 2 else capacity))
          × ((if ltb used (capacity / 4) then capacity / 2 else capacity) ≤ capacity)
    room used size capacity h sparse = (ground arith, ground arith)

    stays :
        (used size : ℕ)
        → not (used == 0) && ltb used (size / 2) ≡ false
        → (used ≡ 0) ⊎ (size / 2 ≤ used)
    stays used size e = elim (Bool-cases (used == 0)) [
      | inl z ↦ inl ((==_iff used 0).0 z)
      | inr z ↦ inr (ground arith)
    ]

-- The key of the detached item, in the pool.
module _ (c : Coucal) (item : Item) (o : ℕ) (k : Pooled c (some item))
    (named : item.name ≡ some (pooled o)) where
  abbrev old : Block
  old = c.pool.buffer

  abbrev new : Block
  new = some (set (bytes_of old) o 0)

  abbrev len : ℕ
  len = length (text old (pooled o)) + 1

  abbrev invalidated : Coucal
  invalidated = record c { pool = record (c.pool) { buffer = new; used = c.pool.used - len } }

  own : (g : Name → ℕ) → mass (by_name g) item ≡ g (pooled o)
  own g = rw named

  full : 0 < length (text old (pooled o))
  full = ground (arith, k.good, own (bad old))

  counted_in : len ≤ c.pool.used
  counted_in = omega (arith, k.counted, own (region old))

  -- The first byte of the key is no other key's.
  first_byte : weight (by_name (cover old o)) c ≡ 0
  first_byte = ground (arith, k.apart o, own (cover old o))

  spared : (p : ℕ) → (o == p) ≡ false → get_or (bytes_of new) p 0 ≡ get_or (bytes_of old) p 0
  spared p e =
      get_or-set (bytes_of old) o p 0 0 (omega (arith, text-fits old o full, full))
      ∙ ap (λ t. if t then 0 else get_or (bytes_of old) p 0) e

  other_byte : (p : ℕ) → 0 < weight (by_name (cover old p)) c → (o == p) ≡ false
  other_byte p h = elim (Bool-cases (o == p)) [
    | inl e ↦
        let same : o ≡ p = (==_iff o p).0 e in
        absurd (omega (arith, first_byte, ap (λ q. weight (by_name (cover old q)) c) same))
    | inr e ↦ e
  ]

  Spares-table : Spares old new c.items
  Spares-table p h = spared p (other_byte p (omega arith))

  Spares-stash : Spares old new c.stash.items
  Spares-stash p h = spared p (other_byte p (omega arith))

  same_weight : (g g' : Name → ℕ) → Sees old new g g' → weight (by_name g') c ≡ weight (by_name g) c
  same_weight g g' s = stable-weight c old new g g' Spares-table Spares-stash s

  invalidated-Pooled : Pooled invalidated none
  invalidated-Pooled = record {
    no_dup = k.no_dup;
    no_free = k.no_free;
    block = length-set (bytes_of old) o 0 ∙ k.block;
    size_fits = k.size_fits;
    bound = k.bound;
    good = omega (arith, k.good, same_weight _ _ (bad-Sees old new));
    apart = λ p. omega (arith, k.apart p, same_weight _ _ (cover-Sees old new p));
    counted = omega (arith, k.counted, own (region old), same_weight _ _ (region-Sees old new));
  }

  invalidated-Rekeyed : Rekeyed c invalidated
  invalidated-Rekeyed = record {
    table = stable-SameItems old new c.items Spares-table;
    stash = stable-SameItems old new c.stash.items Spares-stash;
    stash_size = refl;
    stash_extent = refl;
    lg_size = refl;
    used = refl;
    custom = refl;
    freed_values = refl;
    freed_keys = refl;
  }

free_string-run :
    (alloc : Allocator) (c : Coucal) (o len used : ℕ)
    → (len == 1) ≡ false
    → sub_size c.pool.used len ≡ used
    → free_string alloc c (pooled o) len
      ≡ compact_if_sparse alloc (record c {
        pool = record (c.pool) { buffer = some (set (bytes_of c.pool.buffer) o 0); used = used };
      })
unfolding free_string invalidate
free_string-run alloc c o len used e1 e2 = rw (e1, e2)

free_pooled :
    (alloc : Allocator) (c : Coucal) (item : Item) (o : ℕ)
    → Pooled c (some item)
    → StashClear c
    → Generous alloc
    → item.name ≡ some (pooled o)
    → Returns (free_key_internal alloc c (pooled o)) λ c'. Released c c' × Dense c'
unfolding free_key_internal
free_pooled alloc c item o k clear generous named =
    let t = text c.pool.buffer (pooled o) in
    let some_bytes = full c item o k named in
    let short = text-fits c.pool.buffer o some_bytes in
    let size : inc_size (length t) ≡ length t + 1 =
      add_size-small (length t) 1 (omega (arith, k.block, k.bound)) in
    let c1 = invalidated c item o k named in
    let (c', run, (r, dense)) =
      compact_if_sparse-Released alloc c1 (invalidated-Pooled c item o k named) clear generous in
    let less : sub_size c.pool.used (length t + 1) ≡ c.pool.used - (length t + 1) =
      sub_size-small c.pool.used (length t + 1) (counted_in c item o k named)
        (omega (arith, used-le-size c (some item) k, k.size_fits, k.bound)) in
    (
      c',
      rw size (free_string-run alloc c o (length t + 1) _ (ground arith) less ∙ run),
      (
        record {
          rekeyed = Rekeyed-trans (invalidated-Rekeyed c item o k named) r.rekeyed;
          pooled = r.pooled;
          smaller = r.smaller;
        },
        dense,
      ),
    )

free_empty :
    (c : Coucal) (item : Item)
    → Pooled c (some item)
    → item.name ≡ some the_empty_string
    → Pooled c none
free_empty c item k named = record {
  no_dup = k.no_dup;
  no_free = k.no_free;
  block = k.block;
  size_fits = k.size_fits;
  bound = k.bound;
  good = omega (arith, k.good);
  apart = λ p. omega (arith, k.apart p);
  counted = k.counted ∙ rw named refl;
}

-- For the key of an item that was taken from the table, in a pool in order, if the stash holds nothing
-- from its extent on and every request for memory is granted, `coucal_free_key_internal` fails no
-- assertion, whether it compacts the pool or not: the table reads as before, the pool is in order without the key, and it has not grown.
pub free_key_internal-Released :
    (alloc : Allocator) (c : Coucal) (item : Item) (stored : Name)
    → Pooled c (some item)
    → StashClear c
    → Generous alloc
    → item.name ≡ some stored
    → Returns (free_key_internal alloc c stored) (Released c)
unfolding free_key_internal
free_key_internal-Released alloc c item the_empty_string k clear generous named = (
  c,
  refl,
  record { rekeyed = Rekeyed-refl c; pooled = free_empty c item k named; smaller = omega arith },
)
free_key_internal-Released alloc c item (outside bytes) k clear generous named =
    absurd (omega (arith, k.good, outside_bad item named))
  where
    outside_bad :
        (item : Item)
        → item.name ≡ some (outside bytes)
        → mass (by_name (bad c.pool.buffer)) item ≡ 1
    outside_bad item named = rw named
free_key_internal-Released alloc c item (pooled o) k clear generous named =
    let (c', run, (r, dense)) = free_pooled alloc c item o k clear generous named in (c', run, r)

-- For a key in the pool of an item that was taken from the table, in a pool in order, if the stash
-- holds nothing from its extent on and every request for memory is granted, `coucal_free_key_internal`
-- fails no assertion and leaves a pool that is not mostly holes: no byte of it is in use, or at
-- least half of its size is, rounded down.
pub free_key_internal-Dense :
    (alloc : Allocator) (c : Coucal) (item : Item) (o : ℕ)
    → Pooled c (some item)
    → StashClear c
    → Generous alloc
    → item.name ≡ some (pooled o)
    → Returns (free_key_internal alloc c (pooled o)) Dense
free_key_internal-Dense alloc c item o k clear generous named =
    let (c', run, (r, dense)) = free_pooled alloc c item o k clear generous named in
    (c', run, dense)
