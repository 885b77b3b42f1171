-- ===== src/Api/Counts.antt =====
-- `coucal_inc_`, on which `coucal_inc` and `coucal_dec` stand.
use coucal.Api.Reads.{found_or}
use coucal.Api.{inc_value, write}
use coucal.Base.{
  ℕ, suc, length, ◌≤◌, ◌<◌, ◌%◌, ◌+◌, ◌≡◌, refl, ap, ◌∙◌, inl, inr, Bool, true, none, some, List,
  if◌then◌else◌, is_none, arith,
}
use coucal.Base.Words.{size_mod, add_size}
use coucal.Keys.Laws.{KeyLaws}
use coucal.Keys.{key_text, equal_texts}
use coucal.Run.{◌>>=◌, Returns}
use coucal.State.{Name, Pool, Coucal, Allocator}
use coucal.Table.Exchanging.{Exchanged-Valid, Exchanged-view}
use coucal.Table.Finding.{Found}
use coucal.Table.Reading.{Found-value, fetch_value-cases}
use coucal.Table.Replacing.{with_value, write_at-rest, write_at-Exchanged}
use coucal.Table.Valid.{Valid}
use coucal.Table.View.{view}
use coucal.Table.Writing.{Wrote, CanAdd, write_value-Wrote, released}
use coucal.Table.{Slot, item_at, write_at}

-- What `coucal_inc_` promises. A missing key counts from 0.
pub record Counted (c : Coucal) (name : Name) (amount : ℕ) (r : Coucal × ℕ) : Type 0 where
  pub valid : Valid r.0
  pub custom : r.0.custom ≡ c.custom
  pub sum : r.1 ≡ (found_or (view c (key_text c name)) 0 + amount) % size_mod
  pub reads :
      (k : List ℕ)
      → view r.0 k ≡ (if equal_texts c.custom.key k (key_text c name) then some r.1 else view c k)
  pub freed_values : r.0.world.freed_values ≡ c.world.freed_values
  pub freed_keys : r.0.world.freed_keys ≡ c.world.freed_keys
  pub nitems : r.0.used ≡ (if is_none (view c (key_text c name)) then c.used + 1 else c.used)
  pub taller : r.0.lg_size ≤ suc c.lg_size
  pub grows : r.0.pool.size ≤ c.pool.size + (length (key_text c name) + 1)

pub present-Counted :
    (c : Coucal) (name : Name) (amount : ℕ) (at : Slot)
    → KeyLaws c.custom.key
    → Valid c
    → Found c name at
    → let value = add_size (item_at c at).value amount in
      Counted c name amount (write_at c at (with_value (item_at c at) value), value)
present-Counted c name amount at laws v found =
    let value = add_size (item_at c at).value amount in
    let k = key_text c name in
    let old = some (item_at c at) in
    let new = some (with_value (item_at c at) value) in
    let c' = write_at c at (with_value (item_at c at) value) in
    let x = write_at-Exchanged c name at value v found in
    let (_, pool, used, world, lg_size, _) = write_at-rest c at (with_value (item_at c at) value) in
    record {
      valid = Exchanged-Valid c k old new c' laws v x;
      custom = x.custom;
      sum = rw (Found-value c name v at found) refl;
      reads = Exchanged-view c k old new c' laws v x;
      freed_values = ap (λ w. w.freed_values) world;
      freed_keys = ap (λ w. w.freed_keys) world;
      nitems = rw (Found-value c name v at found) used;
      taller = omega (arith, lg_size);
      grows = omega (arith, ap (λ (p : Pool). p.size) pool);
    }

pub absent-Counted :
    (c : Coucal) (name : Name) (amount : ℕ) (r : Coucal × Bool)
    → amount < size_mod
    → view c (key_text c name) ≡ none
    → Wrote c name amount r
    → Counted c name amount (r.0, amount)
absent-Counted c name amount r small there w = record {
  valid = w.valid;
  custom = w.custom;
  sum = rw there (omega arith);
  reads = w.reads;
  freed_values =
      w.freed_values ∙ ap (λ o. released c.custom.value_free o c.world.freed_values) there;
  freed_keys = w.freed_keys;
  nitems = w.nitems;
  taller = w.taller;
  grows = w.grows;
}

-- On a valid table whose handlers duplicate keys and keep the laws of keys, `coucal_inc_` with a
-- 64-bit amount fails no assertion. It leaves a valid table, gives the sum of the old value of the
-- key, or of 0, and the amount, by the arithmetic of 64-bit words, stores it under the key, and
-- changes what no other key reads; a key that was missing counts one item more, and nothing is
-- released. A key that is missing needs a free slot in
-- the stash, a table below the greatest size, and the memory of a table of twice the size.
pub inc_value-Counted :
    (alloc : Allocator) (c : Coucal) (name : Name) (amount : ℕ) (dup : List ℕ → List ℕ)
    → KeyLaws c.custom.key
    → Valid c
    → c.custom.key.dup ≡ some dup
    → amount < size_mod
    → (view c (key_text c name) ≡ none → CanAdd alloc c)
    → Returns (inc_value alloc c name amount) (Counted c name amount)
unfolding inc_value write
inc_value-Counted alloc c name amount dup laws v handler small can =
    elim (fetch_value-cases c name v laws) [
      | inl (at, e, found) ↦ (_, rw (inc_value, e), present-Counted c name amount at laws v found)
      | inr (e, there) ↦
          let (r, run, w) = write_value-Wrote alloc c name amount dup laws v handler can in
          let new : r.1 ≡ true = w.added ∙ ap is_none there in
          (
            (r.0, amount),
            rw (inc_value, e, write, run, ◌>>=◌, new),
            absent-Counted c name amount r small there w,
          )
    ]
