-- ===== src/Delete/Released.antt =====
-- What `coucal_delete` hands to the free handlers.
use coucal.Base.{
  ℕ, ◌+◌, ◌-◌, ◌<◌, ◌≡◌, refl, ap, not, Option, List, length, get_or, get_or-set_other, is_none,
  arith,
}
use coucal.Base.Words.{pow2}
use coucal.Delete.{wipe_from, delete}
use coucal.Run.{◌>>=◌, Returns}
use coucal.State.{Item, null_item, Pool, Stash, Coucal, Allocator}
use coucal.Table.Layout.{Layout, weight}
use coucal.Table.Spans.{span, span-append, span-total, span-free}
use coucal.Table.{in_table, in_stash, item_at, write_at}
use coucal.Delete.Weights.{tally, released_weight, released_key}
use coucal.Delete.Wiping.{Wiped, wipe_from-Wiped}

table-later :
    (c : Coucal) (i j : ℕ) (item : Item)
    → i < j
    → item_at (write_at c (in_table i) item) (in_table j) ≡ item_at c (in_table j)
table-later c i j item h = get_or-set_other c.items i j item null_item h

stash-later :
    (c : Coucal) (i j : ℕ) (item : Item)
    → i < j
    → item_at (write_at c (in_stash i) item) (in_stash j) ≡ item_at c (in_stash j)
stash-later c i j item h = get_or-set_other c.stash.items i j item null_item h

wipe_table :
    (alloc : Allocator) (c : Coucal) (free : Option ℕ)
    → c.custom.key.free ≡ free
    → Returns (wipe_from alloc (not (is_none free)) in_table (pow2 c.lg_size) 0 c) (
        Wiped in_table
          (λ c. c.stash)
          table-later
          (λ c i item. refl)
          (λ c w. refl)
          c
          0
          (pow2 c.lg_size))
wipe_table alloc c free e =
    wipe_from-Wiped in_table (λ c. c.stash) table-later (λ c i item. refl) (λ c w. refl) alloc
      (pow2 c.lg_size) 0 c free e

wipe_stash :
    (alloc : Allocator) (c : Coucal) (free : Option ℕ)
    → c.custom.key.free ≡ free
    → Returns (wipe_from alloc (not (is_none free)) in_stash c.stash.extent 0 c) (
        Wiped in_stash
          (λ c. c.items)
          stash-later
          (λ c i item. refl)
          (λ c w. refl)
          c
          0
          c.stash.extent)
wipe_stash alloc c free e =
    wipe_from-Wiped in_stash (λ c. c.items) stash-later (λ c i item. refl) (λ c w. refl) alloc
      c.stash.extent 0 c free e

-- Slots of the table, and of the stash up to its extent, weigh what the entries do.
slots-weight :
    (c : Coucal) (f : Item → ℕ)
    → Layout c
    → span (λ k. item_at c (in_table k)) f (pow2 c.lg_size) 0
        + span (λ k. item_at c (in_stash k)) f c.stash.extent 0
      ≡ weight f c
slots-weight c f l =
    let rest = length c.stash.items - c.stash.extent in
    let whole : c.stash.extent + rest ≡ length c.stash.items =
      omega (arith, l.stash_extent, l.stash_width) in
    let stashed = λ (k : ℕ). item_at c (in_stash k) in
    omega (
      arith,
      span-total (λ k. item_at c (in_table k)) f c.items 0
          (λ k h. ap (λ i. item_at c (in_table i)) (start k)),
      ap (λ n. span (λ k. item_at c (in_table k)) f n 0) l.width,
      span-append stashed f c.stash.extent rest 0,
      ap (λ n. span stashed f n 0) whole,
      span-total stashed f c.stash.items 0 (λ k h. ap stashed (start k)),
      span-free stashed f rest (0 + c.stash.extent) (λ k h. l.stash_clear k (omega arith)),
    )
  where
    start : (n : ℕ) → 0 + n ≡ n
    start n = omega arith

-- On a table that keeps the layout, `coucal_delete` fails no assertion. If there is a free handler of
-- values, it hands it each value of an entry that is not NULL just once, and no other value: every
-- weight of the values handed over grows by that of the entries. If there is a free handler of keys,
-- it hands it the key of each entry just once, by what the key holds, and otherwise none.
pub delete-released :
    (alloc : Allocator) (c : Coucal)
    → Layout c
    → Returns (delete alloc c) λ w.
      ((g : ℕ → ℕ)
        → tally g w.freed_values
          ≡ tally g c.world.freed_values + weight (released_weight c.custom.value_free g) c)
      × ((g : List ℕ → ℕ)
          → tally g w.freed_keys
            ≡ tally g c.world.freed_keys
              + weight (released_key c.custom.key.free c.pool.buffer g) c)
unfolding delete
delete-released alloc c l =
    let (c1, run1, w1) = wipe_table alloc c c.custom.key.free refl in
    let (c2, run2, w2) = wipe_stash alloc c1 c.custom.key.free (ap (λ u. u.key.free) w1.custom) in
    let same : (f : Item → ℕ)
        → span (λ k. item_at c1 (in_stash k)) f c1.stash.extent 0
          ≡ span (λ k. item_at c (in_stash k)) f c.stash.extent 0 =
      λ f. ap (λ (s : Stash). span (λ k. get_or s.items k null_item) f s.extent 0) w1.kept in
    (
      c2.world,
      rw (run1, ◌>>=◌, run2),
      (
        λ g. omega (
          arith,
          w1.values g,
          w2.values g,
          ap
              (λ u.
                span (λ k. item_at c1 (in_stash k)) (released_weight u.value_free g) c1.stash.extent
                  0)
              w1.custom,
          same (released_weight c.custom.value_free g),
          slots-weight c (released_weight c.custom.value_free g) l,
        ),
        λ g. omega (
          arith,
          w1.keys g,
          w2.keys g,
          ap
              (λ u.
                span (λ k. item_at c1 (in_stash k)) (released_key u.key.free c1.pool.buffer g)
                  c1.stash.extent 0)
              w1.custom,
          ap
              (λ (p : Pool).
                span (λ k. item_at c1 (in_stash k)) (released_key c.custom.key.free p.buffer g)
                  c1.stash.extent 0)
              w1.pool,
          same (released_key c.custom.key.free c.pool.buffer g),
          slots-weight c (released_key c.custom.key.free c.pool.buffer g) l,
        ),
      ),
    )
