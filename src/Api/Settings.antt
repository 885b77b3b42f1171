-- ===== src/Api/Settings.antt =====
-- The setters: key handlers on an empty table, and the free handler of values.

use coucal.Base.{ℕ, ◌≡◌, ap, ◌∙◌, Option, none, List, arith}
use coucal.State.{Item, ValueFree, KeyHandlers, Coucal}
use coucal.Table.Entries.{total_of_no_live, one_if, first-eq-none, value_of}
use coucal.Table.Layout.{Layout, weight}
use coucal.Table.Reading.{weight-entries}
use coucal.Table.Valid.{Valid, entry_of, misfiled}
use coucal.Table.View.{view, entries}

abbrev pub with_handlers : Coucal → KeyHandlers → Coucal
with_handlers c h = record c { custom = record (c.custom) { key = h } }

empty-weight : (c : Coucal) (f : Item → ℕ) → Valid c → c.used ≡ 0 → weight f c ≡ 0
empty-weight c f v e = omega (
  arith,
  v.counted,
  total_of_no_live f c.items (omega (arith, v.counted)),
  total_of_no_live f c.stash.items (omega (arith, v.counted)),
)

with_handlers-Layout : (c : Coucal) (h : KeyHandlers) → Layout c → Layout (with_handlers c h)
with_handlers-Layout c h l = record {
  lg_low = l.lg_low;
  lg_high = l.lg_high;
  width = l.width;
  home = l.home;
  stash_width = l.stash_width;
  stash_extent = l.stash_extent;
  stash_live = l.stash_live;
  stash_clear = l.stash_clear;
}

pub with_handlers-Valid :
    (c : Coucal) (h : KeyHandlers) → Valid c → c.used ≡ 0 → Valid (with_handlers c h)
with_handlers-Valid c h v e = record {
  layout = with_handlers-Layout c h v.layout;
  counted = v.counted;
  hashed = empty-weight c (misfiled (with_handlers c h)) v e;
  once =
      λ k. omega (arith, empty-weight c (λ item. one_if (entry_of (with_handlers c h) k item)) v e);
}

-- Whatever the handlers, a table with no item reads nothing.
pub with_handlers-view :
    (c : Coucal) (h : KeyHandlers) (k : List ℕ)
    → Valid c
    → c.used ≡ 0
    → view (with_handlers c h) k ≡ none
unfolding view
with_handlers-view c h k v e =
    let c' = with_handlers c h in
    let f = λ (item : Item). one_if (entry_of c' k item) in
    ap value_of
      (first-eq-none (entry_of c' k) (entries c') (weight-entries f c' ∙ empty-weight c f v e))

abbrev pub with_free : Coucal → Option ValueFree → Coucal
with_free c h = record c { custom = record (c.custom) { value_free = h } }

with_free-Layout : (c : Coucal) (h : Option ValueFree) → Layout c → Layout (with_free c h)
with_free-Layout c h l = record {
  lg_low = l.lg_low;
  lg_high = l.lg_high;
  width = l.width;
  home = l.home;
  stash_width = l.stash_width;
  stash_extent = l.stash_extent;
  stash_live = l.stash_live;
  stash_clear = l.stash_clear;
}

-- The free handler of values has no part in the invariant.
pub with_free-Valid : (c : Coucal) (h : Option ValueFree) → Valid c → Valid (with_free c h)
with_free-Valid c h v = record {
  layout = with_free-Layout c h v.layout;
  counted = v.counted;
  hashed = v.hashed;
  once = v.once;
}
