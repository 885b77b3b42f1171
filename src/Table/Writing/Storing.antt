-- ===== src/Table/Writing/Storing.antt =====
-- What a write promises, and the two ways to keep it: an entry that is there, and one that is not.
use coucal.Base.{
  ℕ, suc, length, ◌≤◌, ◌+◌, ◌<◌, ◌≡◌, ap, ◌∙◌, Bool, true, false, Option, none, some, List, ◌∷◌,
  ◌==◌, if◌then◌else◌, is_none, arith,
}
use coucal.Base.Words.{inc_size}
use coucal.Keys.Laws.{KeyLaws}
use coucal.Keys.{key_text, equal_texts}
use coucal.State.{Item, Name, Pool, ValueFree, World, Coucal, Allocator, stash_size}
use coucal.Table.Adding.{NewEntry}
use coucal.Table.Entries.{mass, one_if, live-le-length}
use coucal.Table.Exchanging.{Exchanged, Exchanged-Valid, Exchanged-view}
use coucal.Table.Finding.{Found}
use coucal.Table.Growing.{Kept, doubled_bytes}
use coucal.Table.Layout.{Layout, weight}
use coucal.Table.Position.{pow2-le}
use coucal.Table.Reading.{Found-value}
use coucal.Table.Replacing.{with_value, replace_value-Exchanged}
use coucal.Table.Thinning.{Thins, replace_value-Thins}
use coucal.Table.Valid.{Valid, misfiled, entry_of}
use coucal.Table.View.{view, IsOf}
use coucal.Table.Write.{free_value, replace_value}
use coucal.Table.{Slot, item_at}

-- What the addition of an entry may need: a free slot in the stash, and a table of twice the size
-- that is acceptable and that the allocator grants.
pub record CanAdd (alloc : Allocator) (c : Coucal) : Type 0 where
  pub room : c.stash.size < stash_size
  pub small : c.lg_size < 32
  pub memory : alloc.succeeds c.world.allocations (doubled_bytes c) ≡ true

-- The values handed to the free handler when `old` leaves the table.
abbrev pub released : Option ValueFree → Option ℕ → List ℕ → List ℕ
released handler none values = values
released none (some old) values = values
released (some _) (some old) values = if old == 0 then values else old ∷ values

-- What `coucal_write_value` promises.
pub record Wrote (c : Coucal) (name : Name) (value : ℕ) (r : Coucal × Bool) : Type 0 where
  pub valid : Valid r.0
  pub custom : r.0.custom ≡ c.custom
  pub reads :
      (k : List ℕ)
      → view r.0 k ≡ (if equal_texts c.custom.key k (key_text c name) then some value else view c k)
  pub added : r.1 ≡ is_none (view c (key_text c name))
  pub nitems : r.0.used ≡ (if is_none (view c (key_text c name)) then c.used + 1 else c.used)
  pub freed_values :
      r.0.world.freed_values
      ≡ released c.custom.value_free (view c (key_text c name)) c.world.freed_values
  pub freed_keys : r.0.world.freed_keys ≡ c.world.freed_keys
  pub thins : r.1 ≡ false → Thins c r.0
  pub taller : r.0.lg_size ≤ suc c.lg_size
  pub grows : r.0.pool.size ≤ c.pool.size + (length (key_text c name) + 1)

pub true_ne_false : true ≡ false → ⊥
true_ne_false e = cc

pub free_value-released :
    (h : Option ValueFree) (old : ℕ) (w : World)
    → ((free_value h old w).freed_values ≡ released h (some old) w.freed_values)
      × ((free_value h old w).freed_keys ≡ w.freed_keys)
unfolding free_value
free_value-released none old w = ground arith
free_value-released (some _) old w = ground arith

-- A key that is there: the value is replaced.
pub replaced-Wrote :
    (c : Coucal) (name : Name) (at : Slot) (value : ℕ)
    → KeyLaws c.custom.key
    → Valid c
    → Found c name at
    → Wrote c name value (replace_value c at value, false)
replaced-Wrote c name at value laws v found =
    let (x, world, used) = replace_value-Exchanged c name at value v found in
    let k = key_text c name in
    let item = item_at c at in
    let c' = replace_value c at value in
    let there = Found-value c name v at found in
    let old = some item in
    let new = some (with_value item value) in
    let (values, keys) = free_value-released c.custom.value_free item.value c.world in
    record {
      valid = Exchanged-Valid c k old new c' laws v x;
      custom = x.custom;
      reads = Exchanged-view c k old new c' laws v x;
      added = rw there;
      nitems = rw there used;
      freed_values = rw there (ap (λ w. w.freed_values) world ∙ values);
      freed_keys = ap (λ w. w.freed_keys) world ∙ keys;
      thins = λ _. replace_value-Thins c at value v.layout found.inside;
      taller = omega (arith, (replace_value-Thins c at value v.layout found.inside).lg_size);
      grows = omega (arith, ap (λ (p : Pool). p.size) x.pool);
    }

abbrev pub counted_up : Coucal → Coucal
counted_up c = record c { used = inc_size c.used }

pub counted_up-Layout : (c : Coucal) → Layout c → Layout (counted_up c)
counted_up-Layout c l = record {
  lg_low = l.lg_low;
  lg_high = l.lg_high;
  width = l.width;
  home = l.home;
  stash_width = l.stash_width;
  stash_extent = l.stash_extent;
  stash_live = l.stash_live;
  stash_clear = l.stash_clear;
}

-- `used++` does not wrap.
pub used-lt : (c : Coucal) → Valid c → inc_size c.used ≡ c.used + 1
used-lt c v = omega (
  arith,
  v.counted,
  live-le-length c.items,
  live-le-length c.stash.items,
  v.layout.width,
  v.layout.stash_width,
  pow2-le c.lg_size v.layout.lg_high,
)

-- A key that is not there: the entry is added, and the table may grow.
pub inserted-Exchanged :
    (c : Coucal) (k : List ℕ) (item : Item)
    → Valid c
    → IsOf c.custom.key c.pool.buffer k (some item)
    → mass (misfiled c) item ≡ 0
    → weight (λ item. one_if (entry_of c k item)) c ≡ 0
    → (r : Coucal × Bool) (c' : Coucal) → NewEntry c item r
    → Kept (counted_up r.0) c'
    → Exchanged c k none (some item) c'
inserted-Exchanged c k item v of_k filed none_there r c' a kept = record {
  layout = kept.layout;
  custom = kept.custom ∙ a.rest.custom;
  pool = kept.pool ∙ a.rest.pool;
  used = omega (arith, kept.used, ap inc_size a.rest.used, used-lt c v, one_entry);
  balance = λ f. omega (arith, kept.balance f, a.balance f);
  inside = λ f. omega arith;
  old_of = tt;
  new_of = of_k;
  filed = filed;
  absent = λ _. none_there;
}
  where
    one_entry : mass (λ _. 1) item ≡ 1
    one_entry = ground (arith, of_k)
