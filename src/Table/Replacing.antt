-- ===== src/Table/Replacing.antt =====
-- The branches of `coucal_write_value_` that find the key, and the write of `coucal_inc_`.
use coucal.Base.{ℕ, ◌≡◌, refl, ap, subst, ◌∙◌, some, arith}
use coucal.Keys.{key_text}
use coucal.State.{Item, Name, Coucal}
use coucal.Table.Entries.{mass}
use coucal.Table.Exchanging.{Exchanged}
use coucal.Table.Finding.{Inside, inside_table, inside_stash, Found}
use coucal.Table.Layout.{Layout}
use coucal.Table.Reading.{mass-le-weight}
use coucal.Table.Slots.{write_at-weight, item_at-write_at, write_at-write_at, write_value-Layout}
use coucal.Table.Valid.{Valid, misfiled}
use coucal.Table.Write.{free_value, del_value, replace_value}
use coucal.Table.{Slot, in_table, in_stash, item_at, write_at}

-- The table after the call of the free handler.
abbrev pub freed : Coucal → ℕ → Coucal
freed c value = record c { world = free_value c.custom.value_free value c.world }

abbrev pub with_value : Item → ℕ → Item
with_value item value = record item { value = value }

pub freed-Layout : (c : Coucal) (value : ℕ) → Layout c → Layout (freed c value)
freed-Layout c value l = record {
  lg_low = l.lg_low;
  lg_high = l.lg_high;
  width = l.width;
  home = l.home;
  stash_width = l.stash_width;
  stash_extent = l.stash_extent;
  stash_live = l.stash_live;
  stash_clear = l.stash_clear;
}

pub freed-Inside : (c : Coucal) (value : ℕ) (at : Slot) → Inside c at → Inside (freed c value) at
freed-Inside c value (in_table pos) (inside_table _ h) = inside_table pos h
freed-Inside c value (in_stash i) (inside_stash _ h) = inside_stash i h

pub item_at-freed : (c : Coucal) (value : ℕ) (at : Slot) → item_at (freed c value) at ≡ item_at c at
item_at-freed c value (in_table pos) = refl
item_at-freed c value (in_stash i) = refl

-- The value is written twice, first NULL and then the new one; only the second write remains.
pub replace_value-write_at :
    (c : Coucal) (at : Slot) (value : ℕ)
    → Layout c
    → Inside c at
    → replace_value c at value
      ≡ write_at (freed c (item_at c at).value) at (with_value (item_at c at) value)
unfolding replace_value del_value
replace_value-write_at c at value l inside =
    let old = (item_at c at).value in
    let zeroed = with_value (item_at c at) 0 in
    ap (λ item. write_at (write_at (freed c old) at zeroed) at (with_value item value))
      (item_at-write_at (freed c old) at zeroed (freed-Layout c old l)
        (freed-Inside c old at inside))
    ∙ write_at-write_at (freed c old) at zeroed (with_value zeroed value)

pub write_at-rest :
    (c : Coucal) (at : Slot) (item : Item)
    → let c' = write_at c at item in
      (c'.custom ≡ c.custom)
      × (c'.pool ≡ c.pool)
      × (c'.used ≡ c.used)
      × (c'.world ≡ c.world)
      × (c'.lg_size ≡ c.lg_size)
      × (c'.stash.size ≡ c.stash.size)
write_at-rest c (in_table pos) item = (refl, refl, refl, refl, refl, refl)
write_at-rest c (in_stash i) item = (refl, refl, refl, refl, refl, refl)

-- The replacement as an exchange, and what else it changes.
pub replace_value-Exchanged :
    (c : Coucal) (name : Name) (at : Slot) (value : ℕ)
    → Valid c
    → Found c name at
    → Exchanged c
        (key_text c name)
        (some (item_at c at))
        (some (with_value (item_at c at) value))
        (replace_value c at value)
      × ((replace_value c at value).world
          ≡ free_value c.custom.value_free (item_at c at).value c.world)
      × ((replace_value c at value).used ≡ c.used)
replace_value-Exchanged c name at value v found =
    let item = item_at c at in
    let c' = freed c item.value in
    let l = freed-Layout c item.value v.layout in
    let inside = freed-Inside c item.value at found.inside in
    let same_item = item_at-freed c item.value at in
    let (custom, pool, used, world, _, _) = write_at-rest c' at (with_value item value) in
    let layout : Layout (write_at c' at (with_value item value)) =
      subst (λ i. Layout (write_at c' at (with_value i value))) same_item
        (write_value-Layout c' at value l inside) in
    rw (replace_value-write_at c at value v.layout found.inside) (
      record {
        layout = layout;
        custom = custom;
        pool = pool;
        used = ground (arith, used);
        balance = λ f. omega (
          arith,
          write_at-weight c' at (with_value item value) f l inside,
          ap (mass f) same_item,
        );
        inside = λ f. mass-le-weight f c at;
        old_of = found.entry;
        new_of = found.entry;
        filed = omega (arith, mass-le-weight (misfiled c) c at, v.hashed);
        absent = λ e. cc;
      },
      world,
      used,
    )

-- A value that is written without the old one being released, as `coucal_inc_` does.
pub write_at-Exchanged :
    (c : Coucal) (name : Name) (at : Slot) (value : ℕ)
    → Valid c
    → Found c name at
    → Exchanged c
        (key_text c name)
        (some (item_at c at))
        (some (with_value (item_at c at) value))
        (write_at c at (with_value (item_at c at) value))
write_at-Exchanged c name at value v found =
    let item = with_value (item_at c at) value in
    let (custom, pool, used, world, _, _) = write_at-rest c at item in
    record {
      layout = write_value-Layout c at value v.layout found.inside;
      custom = custom;
      pool = pool;
      used = ground (arith, used);
      balance = λ f. omega (arith, write_at-weight c at item f v.layout found.inside);
      inside = λ f. mass-le-weight f c at;
      old_of = found.entry;
      new_of = found.entry;
      filed = omega (arith, mass-le-weight (misfiled c) c at, v.hashed);
      absent = λ e. cc;
    }
