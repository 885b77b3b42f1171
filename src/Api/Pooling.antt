-- ===== src/Api/Pooling.antt =====
-- The public operations in the default mode, with keys in the string pool: `coucal_new` and
-- `coucal_inc_`.
use coucal.Api.Counts.{Counted, present-Counted, absent-Counted}
use coucal.Api.Creation.{new_table-Valid, new_table-weight}
use coucal.Api.Settings.{with_free, with_handlers, with_handlers-Valid, with_free-Valid}
use coucal.Api.{inc_value, write, new_table}
use coucal.Base.{ℕ, ◌<◌, ◌≤◌, ◌≡◌, refl, ap, ◌∙◌, inl, inr, true, Option, none, is_none, arith}
use coucal.Base.Words.{size_mod}
use coucal.Keys.Laws.{KeyLaws}
use coucal.Keys.{key_text}
use coucal.Pool.Duplicating.{Generous}
use coucal.Pool.Regions.{by_name, cover, region, bad, Pooled}
use coucal.Run.{◌>>=◌, Returns}
use coucal.State.{Name, ValueFree, KeyHandlers, World, Coucal, Allocator}
use coucal.Table.Finding.{Found}
use coucal.Table.Pooling.Moving.{moved-Pooled}
use coucal.Table.Pooling.Tables.{PooledTable}
use coucal.Table.Pooling.Writing.{CanAppend, write_value-Stored}
use coucal.Table.Reading.{fetch_value-cases}
use coucal.Table.Replacing.{with_value, write_at-Exchanged}
use coucal.Table.View.{view}
use coucal.Table.{Slot, item_at, write_at}

-- The handlers of the default mode: the library owns the keys.
pub record Owning (h : KeyHandlers) : Type 0 where
  pub no_dup : h.dup ≡ none
  pub no_free : h.free ≡ none

-- A new table, with its handlers set.
abbrev pub set_up : World → ℕ → KeyHandlers → Option ValueFree → Coucal
set_up w lg h free = with_free (with_handlers (new_table w lg) h) free

-- A new table of an acceptable size is valid and has its keys in a pool in order, with any handlers set
-- that leave the keys to the library, and any free handler of values.
pub set_up-PooledTable :
    (w : World) (lg : ℕ) (h : KeyHandlers) (free : Option ValueFree)
    → 4 ≤ lg
    → lg ≤ 32
    → Owning h
    → PooledTable (set_up w lg h free)
set_up-PooledTable w lg h free low high own = record {
  valid =
      with_free-Valid _ free
        (with_handlers-Valid (new_table w lg) h (new_table-Valid w lg low high) refl);
  pool = record {
    no_dup = own.no_dup;
    no_free = own.no_free;
    block = refl;
    size_fits = omega arith;
    bound = omega arith;
    good = omega (arith, new_table-weight w lg (by_name (bad none)));
    apart = λ p. omega (arith, new_table-weight w lg (by_name (cover none p)));
    counted = omega (arith, new_table-weight w lg (by_name (region none)));
  };
}

-- What `coucal_inc_` promises in pool mode.
pub record Tallied (c : Coucal) (name : Name) (amount : ℕ) (r : Coucal × ℕ) : Type 0 where
  pub counted : Counted c name amount r
  pub table : PooledTable r.0

present-Pooled :
    (c : Coucal) (name : Name) (at : Slot) (value : ℕ)
    → PooledTable c
    → Found c name at
    → Pooled (write_at c at (with_value (item_at c at) value)) none
present-Pooled c name at value t found =
    let x = write_at-Exchanged c name at value t.valid found in
    moved-Pooled c _ none none x.pool x.custom (λ g. omega (arith, x.balance (by_name g))) t.pool

-- On a valid table with its keys in a pool in order, and handlers that keep the laws of keys, if every
-- request for memory is granted, `coucal_inc_` with a 64-bit amount fails no assertion. It leaves a
-- valid table with its pool in order, gives the sum of the old value of the key, or of 0, and the
-- amount, by the arithmetic of 64-bit words, stores it under the key, and changes what no other key
-- reads; a key that was missing counts one item more. A key that is missing has no NUL byte, and needs a free slot in the stash, a table below the
-- greatest size, and a pool that stays within 2^63 bytes with it.
pub inc_value-Tallied :
    (alloc : Allocator) (c : Coucal) (name : Name) (amount : ℕ)
    → KeyLaws c.custom.key
    → PooledTable c
    → Generous alloc
    → amount < size_mod
    → (view c (key_text c name) ≡ none → CanAppend c (key_text c name))
    → Returns (inc_value alloc c name amount) (Tallied c name amount)
unfolding inc_value write
inc_value-Tallied alloc c name amount laws t generous small can =
    elim (fetch_value-cases c name t.valid laws) [
      | inl (at, e, found) ↦
          let d = present-Counted c name amount at laws t.valid found in
          (
            _,
            rw (inc_value, e),
            record {
              counted = d;
              table = record { valid = d.valid; pool = present-Pooled c name at _ t found };
            },
          )
      | inr (e, there) ↦
          let (r, run, s) = write_value-Stored alloc c name amount laws t generous can in
          let new : r.1 ≡ true = s.wrote.added ∙ ap is_none there in
          (
            (r.0, amount),
            rw (inc_value, e, write, run, ◌>>=◌, new),
            record {
              counted = absent-Counted c name amount r small there s.wrote;
              table = s.table;
            },
          )
    ]
