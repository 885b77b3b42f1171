-- ===== src/Table/Pooling/Removing.antt =====
-- `coucal_remove`, for keys that the library holds in its string pool.
use coucal.Base.{
  ℕ, ◌+◌, ◌≤◌, ◌<◌, ◌≡◌, ◌≢◌, refl, ap, ◌∙◌, Bool, true, false, not, none, some, List, ◌==◌,
  if◌then◌else◌, is_none, arith,
}
use coucal.Keys.Laws.{KeyLaws}
use coucal.Keys.{key_text, equal_texts, free_key}
use coucal.Pool.Duplicating.{Generous}
use coucal.Pool.Regions.{by_name, Pooled}
use coucal.Pool.Releasing.{Released, free_key_internal-Released}
use coucal.Pool.{free_key_internal}
use coucal.Run.{◌>>=◌, Returns}
use coucal.State.{null_item, Name, Pool, World, Coucal, Allocator}
use coucal.Table.Draining.{Shuffled}
use coucal.Table.Exchanging.{Exchanged, Exchanged-Valid, Exchanged-view}
use coucal.Table.Finding.{Found, Search, at_first, at_second, stashed, absent, search_lem}
use coucal.Table.Invisible.{same-Valid, same-view}
use coucal.Table.Pooling.Moving.{moved-Pooled}
use coucal.Table.Pooling.Tables.{PooledTable}
use coucal.Table.Reading.{Found-value, absent_value, mass-le-weight}
use coucal.Table.Rekeying.{Rekeyed, Rekeyed-Valid, Rekeyed-view}
use coucal.Table.Remove.{del_item, remove_entry, remove, release_name}
use coucal.Table.Thinning.{Thins, Thins-refl, Thins-trans, Rekeyed-Thins}
use coucal.Table.Replacing.{freed, write_at-rest}
use coucal.Table.Valid.{Valid}
use coucal.Table.View.{view}
use coucal.Table.Wiping.{del_item-release_name}
use coucal.Table.Removing.{absent-Removed, Found-named, finish_remove}
use coucal.Table.Writing.{released, used-lt, free_value-released}
use coucal.Table.{Slot, item_at}
use coucal.Table.Pooling.Detaching.{
  detached-Thins, settled-Thins, detached, counted_down, settled, lowered, detached-Layout,
  detached-StashClear, counted_down-weight, lowered-Rekeyed, settled-Shuffled, detached-rest,
  detached-weight, settled-rest,
}

-- What `coucal_remove` promises in pool mode.
pub record Dropped (c : Coucal) (name : Name) (r : Coucal × Bool) : Type 0 where
  pub table : PooledTable r.0
  pub custom : r.0.custom ≡ c.custom
  pub reads :
      (k : List ℕ)
      → view r.0 k ≡ (if equal_texts c.custom.key k (key_text c name) then none else view c k)
  pub removed : r.1 ≡ not (is_none (view c (key_text c name)))
  pub nitems : (if is_none (view c (key_text c name)) then r.0.used else r.0.used + 1) ≡ c.used
  pub freed_values :
      r.0.world.freed_values
      ≡ released c.custom.value_free (view c (key_text c name)) c.world.freed_values
  pub freed_keys : r.0.world.freed_keys ≡ c.world.freed_keys
  pub smaller : r.0.pool.size ≤ c.pool.size
  pub thins : Thins c r.0

module _ (c : Coucal) (name : Name) (at : Slot) (laws : KeyLaws c.custom.key) (t : PooledTable c)
    (found : Found c name at) (live : (item_at c at).name ≢ none) where
  abbrev gone : Coucal
  gone = lowered (counted_down at (detached c at))

  used-pos : 0 < c.used
  used-pos = ground (arith, t.valid.counted, mass-le-weight (λ _. 1) c at)

  gone-Exchanged : Exchanged c (key_text c name) (some (item_at c at)) none gone
  gone-Exchanged =
      let (custom, pool, used, world) = detached-rest c at in
      record {
        layout = detached-Layout c at t.valid.layout found.inside live;
        custom = custom;
        pool = pool;
        used = ground (arith, used, used-pos, used-lt c t.valid);
        balance = λ f. omega (
          arith,
          counted_down-weight at (detached c at) f,
          detached-weight c at f t.valid.layout found.inside,
        );
        inside = λ f. mass-le-weight f c at;
        old_of = found.entry;
        new_of = tt;
        filed = refl;
        absent = λ e. cc;
      }

  -- The pool with the key of the detached item still in it.
  detached-Pooled : Pooled (detached c at) (some (item_at c at))
  detached-Pooled =
      let (custom, pool, _, _, _, _) = write_at-rest (freed c (item_at c at).value) at null_item in
      moved-Pooled c (detached c at) none (some (item_at c at)) pool custom
        (λ g. omega (arith, detached-weight c at (by_name g) t.valid.layout found.inside)) t.pool

  -- The key is released, and the removal ends.
  module _ (c3 : Coucal) (r : Released (detached c at) c3) where
    abbrev done : Coucal
    done = lowered (settled at c3)

    gone-Valid : Valid gone
    gone-Valid =
        Exchanged-Valid c (key_text c name) (some (item_at c at)) none gone laws t.valid
          gone-Exchanged

    moved : Rekeyed gone (lowered (counted_down at c3))
    moved = lowered-Rekeyed at (detached c at) c3 r.rekeyed

    moved-Valid : Valid (lowered (counted_down at c3))
    moved-Valid = Rekeyed-Valid gone (lowered (counted_down at c3)) moved gone-Valid

    ends : Shuffled (lowered (counted_down at c3)) done
    ends = settled-Shuffled at c3 moved-Valid.layout

    done-Pooled : Pooled done none
    done-Pooled =
        let (custom, pool, _, _) = settled-rest at c3 in
        moved-Pooled c3 done none none pool custom
          (λ g. omega (arith, ends.balance (by_name g), counted_down-weight at c3 (by_name g)))
          r.pooled

    done-Dropped : Dropped c name (done, true)
    done-Dropped =
        let there = Found-value c name t.valid at found in
        let mid = lowered (counted_down at c3) in
        let rest = ends.rest in
        let (values, keys) = free_value-released c.custom.value_free (item_at c at).value c.world in
        let (_, _, _, world) = detached-rest c at in
        record {
          table = record {
            valid =
                same-Valid mid done moved-Valid ends.layout rest.used rest.pool rest.custom
                  ends.balance;
            pool = done-Pooled;
          };
          custom = rest.custom ∙ moved.custom ∙ gone-Exchanged.custom;
          reads = λ k.
              same-view mid done moved-Valid ends.layout rest.used rest.pool rest.custom
                ends.balance k
              ∙ Rekeyed-view gone mid moved gone-Valid k
              ∙ Exchanged-view c (key_text c name) (some (item_at c at)) none gone laws t.valid
                  gone-Exchanged k;
          removed = rw there;
          nitems = rw there (ground (arith, rest.used, moved.used, gone-Exchanged.used));
          freed_values = rw there (
              ap (λ (w : World). w.freed_values) rest.world
              ∙ moved.freed_values
              ∙ ap (λ (w : World). w.freed_values) world
              ∙ values);
          freed_keys =
              ap (λ (w : World). w.freed_keys) rest.world
              ∙ moved.freed_keys
              ∙ ap (λ (w : World). w.freed_keys) world
              ∙ keys;
          thins =
              Thins-trans (detached-Thins c at t.valid.layout found.inside)
                (Thins-trans (Rekeyed-Thins (detached c at) c3 r.rekeyed) (settled-Thins at c3));
          smaller = omega (
            arith,
            ap (λ (p : Pool). p.size) (settled-rest at c3).1,
            r.smaller,
            ap (λ (p : Pool). p.size) (write_at-rest (freed c (item_at c at).value) at null_item).1,
          );
        }

-- A key that is not there: nothing changes.
absent-Dropped :
    (c : Coucal) (name : Name)
    → KeyLaws c.custom.key
    → PooledTable c
    → view c (key_text c name) ≡ none
    → Dropped c name (c, false)
absent-Dropped c name laws t there =
    let a = absent-Removed c name laws t.valid there in
    record {
      table = t;
      custom = refl;
      reads = a.reads;
      removed = a.removed;
      nitems = a.nitems;
      freed_values = a.freed_values;
      freed_keys = refl;
      smaller = omega arith;
      thins = Thins-refl c;
    }

release_name-internal :
    (alloc : Allocator) (c : Coucal) (stored : Name)
    → c.custom.key.free ≡ none
    → release_name alloc c (some stored) ≡ free_key_internal alloc c stored
unfolding free_key
release_name-internal alloc c stored no_free = rw no_free

-- The deletion of a found item.
del_item-Released :
    (alloc : Allocator) (c : Coucal) (name : Name) (at : Slot) (stored : Name)
    → KeyLaws c.custom.key
    → PooledTable c
    → Generous alloc
    → Found c name at
    → (item_at c at).name ≡ some stored
    → Returns (del_item alloc c at) (Released (detached c at))
del_item-Released alloc c name at stored laws t generous found named =
    let k = detached-Pooled c name at laws t found (λ e. cc) in
    let (c3, run, r) =
      free_key_internal-Released alloc (detached c at) (item_at c at) stored k
        (detached-StashClear c at t.valid.layout found.inside) generous named in
    (
      c3,
      del_item-release_name alloc c at stored t.valid.layout found.inside named
          ∙ release_name-internal alloc (detached c at) stored k.no_free
          ∙ run,
      r,
    )

-- The end of `coucal_remove`, with the result of `coucal_remove_`.
finish_remove-Dropped :
    (c : Coucal) (name : Name) (at : Slot) (stored : Name) (c3 : Coucal)
    → KeyLaws c.custom.key
    → PooledTable c
    → Found c name at
    → (item_at c at).name ≡ some stored
    → Released (detached c at) c3
    → Returns (finish_remove (settled at c3, true)) (Dropped c name)
finish_remove-Dropped c name at stored c3 laws t found named r =
    let live : (item_at c at).name ≢ none = λ e. cc in
    let there : ((settled at c3).used == 0) ≡ false = ground (
      arith,
      used-pos c name at laws t found live,
      (settled-rest at c3).2,
      r.rekeyed.used,
      (write_at-rest (freed c (item_at c at).value) at null_item).2,
    ) in
    (_, rw there, done-Dropped c name at laws t found live c3 r)

-- On a valid table with its keys in a pool in order, and handlers that keep the laws of keys, if every
-- request for memory is granted, `coucal_remove` fails no assertion, whether or not the release of the
-- key compacts the pool. It leaves a valid table with its pool in order in which the key reads nothing
-- and every other key what it read before, tells by its result whether there was an entry, and counts
-- one item less just then. The old value, if it is not NULL, goes to the free handler of values, no key
-- goes to a handler, the pool is not larger than it was, and no entry moves to another slot.
pub remove-Dropped :
    (alloc : Allocator) (c : Coucal) (name : Name)
    → KeyLaws c.custom.key
    → PooledTable c
    → Generous alloc
    → Returns (remove alloc c name) (Dropped c name)
unfolding remove remove_entry
remove-Dropped alloc c name laws t generous = go (search_lem c name laws t.valid)
  where
    go : Search c name → Returns (remove alloc c name) (Dropped c name)
    go (at_first e1 here) =
        let (stored, named) = Found-named c name _ here in
        let (c3, run, r) = del_item-Released alloc c name _ stored laws t generous here named in
        rw (e1, run, ◌>>=◌) (finish_remove-Dropped c name _ stored c3 laws t here named r)
    go (at_second e1 e2 here) =
        let (stored, named) = Found-named c name _ here in
        let (c3, run, r) = del_item-Released alloc c name _ stored laws t generous here named in
        rw (e1, e2, run, ◌>>=◌) (finish_remove-Dropped c name _ stored c3 laws t here named r)
    go (stashed e1 e2 i e3 here) =
        let (stored, named) = Found-named c name _ here in
        let (c3, run, r) = del_item-Released alloc c name _ stored laws t generous here named in
        rw (e1, e2, e3, run, ◌>>=◌) (finish_remove-Dropped c name _ stored c3 laws t here named r)
    go (absent e1 e2 e3 none_there) = (
      (c, false),
      rw (e1, e2, e3),
      absent-Dropped c name laws t (absent_value c name t.valid none_there),
    )
