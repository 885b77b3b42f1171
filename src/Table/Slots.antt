-- ===== src/Table/Slots.antt =====
-- Writes to one slot of the table or of the stash.
use coucal.Base.{
  ℕ, ◌+◌, ◌≡◌, ap, ◌∙◌, get_or, get_or-set, get_or-set_self, set-set, length-set, arith,
}
use coucal.State.{Item, null_item, Coucal}
use coucal.Table.Entries.{mass, total-set}
use coucal.Table.Finding.{Inside, inside_table, inside_stash}
use coucal.Table.Layout.{Layout, weight, set_item-home}
use coucal.Table.{Slot, in_table, in_stash, item_at, write_at, get_item}

-- A write exchanges one entry for another.
pub write_at-weight :
    (c : Coucal) (at : Slot) (item : Item) (f : Item → ℕ)
    → Layout c
    → Inside c at
    → weight f (write_at c at item) + mass f (item_at c at) ≡ weight f c + mass f item
write_at-weight c (in_table pos) item f l (inside_table _ h) =
    omega (arith, total-set f c.items pos item h)
write_at-weight c (in_stash i) item f l (inside_stash _ h) =
    omega (arith, total-set f c.stash.items i item (omega (arith, l.stash_extent, l.stash_width)))

pub item_at-write_at :
    (c : Coucal) (at : Slot) (item : Item)
    → Layout c
    → Inside c at
    → item_at (write_at c at item) at ≡ item
item_at-write_at c (in_table pos) item l (inside_table _ h) =
    get_or-set_self c.items pos item null_item h
item_at-write_at c (in_stash i) item l (inside_stash _ h) =
    get_or-set_self c.stash.items i item null_item (omega (arith, l.stash_extent, l.stash_width))

pub write_at-write_at :
    (c : Coucal) (at : Slot) (a b : Item) → write_at (write_at c at a) at b ≡ write_at c at b
write_at-write_at c (in_table pos) a b =
    ap (λ xs. record c { items = xs }) (set-set c.items pos a b)
write_at-write_at c (in_stash i) a b =
    ap (λ xs. record c { stash = record (c.stash) { items = xs } }) (set-set c.stash.items i a b)

-- A write that keeps name and hashes keeps the layout.
pub write_value-Layout :
    (c : Coucal) (at : Slot) (value : ℕ)
    → Layout c
    → Inside c at
    → Layout (write_at c at (record (item_at c at) { value = value }))
write_value-Layout c (in_table pos) value l (inside_table _ h) = record {
  lg_low = l.lg_low;
  lg_high = l.lg_high;
  width = length-set c.items pos _ ∙ l.width;
  home = set_item-home c pos (record (get_item c pos) { value = value }) l.home h (l.home pos);
  stash_width = l.stash_width;
  stash_extent = l.stash_extent;
  stash_live = l.stash_live;
  stash_clear = l.stash_clear;
}
write_value-Layout c (in_stash i) value l (inside_stash _ h) = record {
  lg_low = l.lg_low;
  lg_high = l.lg_high;
  width = l.width;
  home = l.home;
  stash_width = length-set c.stash.items i _ ∙ l.stash_width;
  stash_extent = l.stash_extent;
  stash_live = omega (
    arith,
    l.stash_live,
    total-set (λ _. 1) c.stash.items i (record (get_or c.stash.items i null_item) { value = value })
        (omega (arith, l.stash_extent, l.stash_width)),
  );
  stash_clear = λ j k. ground (
    arith,
    get_or-set c.stash.items i j (record (get_or c.stash.items i null_item) { value = value })
        null_item (omega (arith, l.stash_extent, l.stash_width)),
    l.stash_clear j,
  );
}
