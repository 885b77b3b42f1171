-- ===== src/Table/Pooling/Detaching.antt =====
-- An item that is taken from its slot before its key goes back to the pool.
use coucal.Base.{ℕ, ◌+◌, ◌≡◌, ◌≢◌, refl, ap, none, get_or-set, arith}
use coucal.Base.Words.{dec_size}
use coucal.Pool.Compacting.{StashClear}
use coucal.State.{Item, null_item, Coucal}
use coucal.Table.Draining.{Shuffled, Shuffled-refl, trim_stash-Shuffled}
use coucal.Table.Entries.{mass}
use coucal.Table.Finding.{Inside, inside_table, inside_stash}
use coucal.Table.Layout.{Layout, weight}
use coucal.Table.Rekeying.{Rekeyed}
use coucal.Table.Remove.{leave_hole}
use coucal.Table.Thinning.{Thins, freed-Thins, Thins-trans, wiped-Thins}
use coucal.Table.Replacing.{freed-Inside, freed, freed-Layout}
use coucal.Table.Slots.{write_at-weight}
use coucal.Table.Wiping.{wiped, one_less, relayout, wiped_table-Layout, wiped_stash-Layout}
use coucal.Table.{Slot, in_table, in_stash, item_at, get_stash, get_item}

-- The slot is wiped and the value is handed over; the key is not released yet.
abbrev pub detached : Coucal → Slot → Coucal
detached c at = wiped (freed c (item_at c at).value) at

-- What a removal from the stash does to the number of stashed items, and to the extent.
abbrev pub counted_down : Slot → Coucal → Coucal
counted_down (in_table pos) c = c
counted_down (in_stash i) c = one_less c

abbrev pub settled : Slot → Coucal → Coucal
settled (in_table pos) c = c
settled (in_stash i) c = leave_hole c

-- `used--`
abbrev pub lowered : Coucal → Coucal
lowered c = record c { used = dec_size c.used }

pub detached-Layout :
    (c : Coucal) (at : Slot)
    → Layout c
    → Inside c at
    → (item_at c at).name ≢ none
    → Layout (lowered (counted_down at (detached c at)))
detached-Layout c (in_table pos) l (inside_table _ h) lv =
    let c' = freed c (get_item c pos).value in
    relayout (wiped c' (in_table pos)) _ _ (wiped_table-Layout c' pos (freed-Layout c _ l) h)
detached-Layout c (in_stash i) l (inside_stash _ h) lv =
    let c' = freed c (get_stash c i).value in
    relayout (one_less (wiped c' (in_stash i))) _ _
      (wiped_stash-Layout c' i (freed-Layout c _ l) h lv)

pub detached-StashClear :
    (c : Coucal) (at : Slot) → Layout c → Inside c at → StashClear (detached c at)
detached-StashClear c (in_table pos) l (inside_table _ h) = l.stash_clear
detached-StashClear c (in_stash i) l (inside_stash _ h) = λ j k. ground (
  arith,
  get_or-set c.stash.items i j null_item null_item (omega (arith, l.stash_extent, l.stash_width)),
  l.stash_clear j,
)

pub counted_down-weight :
    (at : Slot) (c : Coucal) (f : Item → ℕ) → weight f (counted_down at c) ≡ weight f c
counted_down-weight (in_table pos) c f = refl
counted_down-weight (in_stash i) c f = refl

pub lowered-Rekeyed :
    (at : Slot) (c c' : Coucal)
    → Rekeyed c c'
    → Rekeyed (lowered (counted_down at c)) (lowered (counted_down at c'))
lowered-Rekeyed at c c' r = go at
  where
    go : (at : Slot) → Rekeyed (lowered (counted_down at c)) (lowered (counted_down at c'))
    go (in_table pos) = record {
      table = r.table;
      stash = r.stash;
      stash_size = r.stash_size;
      stash_extent = r.stash_extent;
      lg_size = r.lg_size;
      used = ap dec_size r.used;
      custom = r.custom;
      freed_values = r.freed_values;
      freed_keys = r.freed_keys;
    }
    go (in_stash i) = record {
      table = r.table;
      stash = r.stash;
      stash_size = ap dec_size r.stash_size;
      stash_extent = r.stash_extent;
      lg_size = r.lg_size;
      used = ap dec_size r.used;
      custom = r.custom;
      freed_values = r.freed_values;
      freed_keys = r.freed_keys;
    }

pub settled-Shuffled :
    (at : Slot) (c : Coucal)
    → Layout (lowered (counted_down at c))
    → Shuffled (lowered (counted_down at c)) (lowered (settled at c))
unfolding leave_hole
settled-Shuffled (in_table pos) c l = Shuffled-refl (lowered c) l
settled-Shuffled (in_stash i) c l = trim_stash-Shuffled (lowered (one_less c)) l

-- What else the detachment leaves alone.
pub detached-rest :
    (c : Coucal) (at : Slot)
    → let d = counted_down at (detached c at) in
      (d.custom ≡ c.custom)
      × (d.pool ≡ c.pool)
      × (d.used ≡ c.used)
      × (d.world ≡ (freed c (item_at c at).value).world)
detached-rest c (in_table pos) = (refl, refl, refl, refl)
detached-rest c (in_stash i) = (refl, refl, refl, refl)

pub detached-weight :
    (c : Coucal) (at : Slot) (f : Item → ℕ)
    → Layout c
    → Inside c at
    → weight f (detached c at) + mass f (item_at c at) ≡ weight f c
detached-weight c (in_table pos) f l inside =
    omega (arith, write_at-weight c (in_table pos) null_item f l inside)
detached-weight c (in_stash i) f l inside =
    omega (arith, write_at-weight c (in_stash i) null_item f l inside)

-- The end of the removal leaves the sizes as they are, the stash aside.
pub settled-rest :
    (at : Slot) (c : Coucal)
    → let d = settled at c in
      (d.custom ≡ c.custom) × (d.pool ≡ c.pool) × (d.used ≡ c.used) × (d.world ≡ c.world)
unfolding leave_hole
settled-rest at c = go at
  where
    go :
        (at : Slot)
        → let d = settled at c in
          (d.custom ≡ c.custom) × (d.pool ≡ c.pool) × (d.used ≡ c.used) × (d.world ≡ c.world)
    go (in_table pos) = (refl, refl, refl, refl)
    go (in_stash i) = (refl, refl, refl, refl)

-- No entry moves.
pub detached-Thins : (c : Coucal) (at : Slot) → Layout c → Inside c at → Thins c (detached c at)
detached-Thins c at l inside =
    let c' = freed c (item_at c at).value in
    Thins-trans (freed-Thins c (item_at c at).value)
      (wiped-Thins c' at (freed-Layout c _ l) (freed-Inside c _ at inside))

pub settled-Thins : (at : Slot) (c : Coucal) → Thins c (lowered (settled at c))
unfolding leave_hole
settled-Thins at c = go at
  where
    go : (at : Slot) → Thins c (lowered (settled at c))
    go (in_table pos) = record {
      lg_size = refl;
      table = λ k i. omega arith;
      stash = λ k i. omega arith;
    }
    go (in_stash j) = record {
      lg_size = refl;
      table = λ k i. omega arith;
      stash = λ k i. omega arith;
    }
