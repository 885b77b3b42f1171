-- ===== src/Table/Writing.antt =====
-- `coucal_write_value`, for keys that the caller's handlers duplicate and release.
pub mod Storing
use coucal.Base.{
  ℕ, ◌≤◌, ◌+◌, ◌<◌, ◌≡◌, ap, ◌∙◌, Bool, true, false, none, some, List, ◌∷◌, ◌==◌, if◌then◌else◌,
  arith,
}
use coucal.Base.Words.{inc_size}
use coucal.Keys.Laws.{KeyLaws}
use coucal.Keys.{key_text, calc_hashes, equal_texts}
use coucal.Pool.{text}
use coucal.Run.{Run, ok, ◌>>=◌, Returns}
use coucal.State.{Item, Name, Pool, Stats, Coucal, Allocator}
use coucal.Table.Adding.{restat-Valid, new_item, NewEntry, write_new-NewEntry}
use coucal.Table.Entries.{mass, one_if}
use coucal.Table.Exchanging.{Exchanged, Exchanged-Valid, Exchanged-view}
use coucal.Table.Finding.{Search, at_first, at_second, stashed, absent, search_lem}
use coucal.Table.Grow.{grow_if_full}
use coucal.Table.Growing.{Kept, grow_if_full-Kept}
use coucal.Table.Layout.{weight}
use coucal.Table.Reading.{absent_value}
use coucal.Table.Thinning.{restat-Thins}
use coucal.Table.Valid.{Valid, misfiled, entry_of}
use coucal.Table.View.{view}
use coucal.Table.Write.{count_write, replace_value, store, write_entry, write_value}
pub use coucal.Table.Writing.Storing.{
  CanAdd, released, Wrote, true_ne_false, free_value-released, replaced-Wrote, counted_up,
  counted_up-Layout, used-lt, inserted-Exchanged,
}

module _ (c : Coucal) (name : Name) (value : ℕ) (dup : List ℕ → List ℕ)
    (laws : KeyLaws c.custom.key) (v : Valid c) (handler : c.custom.key.dup ≡ some dup)
    (none_there : weight (λ item. one_if (entry_of c (key_text c name) item)) c ≡ 0) where
  abbrev item : Item
  item = new_item c name value dup

  same_key : equal_texts c.custom.key (dup (key_text c name)) (key_text c name) ≡ true
  same_key = laws.dup-equal dup (key_text c name) handler

  item-filed : mass (misfiled c) item ≡ 0
  unfolding calc_hashes text
  item-filed = ground (arith, laws.hash-equal (dup (key_text c name)) (key_text c name) same_key)

  added-Exchanged :
      (r : Coucal × Bool) (c' : Coucal)
      → NewEntry c item r
      → Kept (counted_up r.0) c'
      → Exchanged c (key_text c name) none (some item) c'
  unfolding text
  added-Exchanged r c' a kept =
      inserted-Exchanged c (key_text c name) item v same_key item-filed none_there r c' a kept

  added-Wrote :
      (r : Coucal × Bool) (c' : Coucal)
      → NewEntry c item r
      → Kept (counted_up r.0) c'
      → Wrote c name value (c', true)
  added-Wrote r c' a kept =
      let x = added-Exchanged r c' a kept in
      let there = absent_value c name v none_there in
      record {
        valid = Exchanged-Valid c (key_text c name) none (some item) c' laws v x;
        custom = x.custom;
        reads = Exchanged-view c (key_text c name) none (some item) c' laws v x;
        added = rw there;
        nitems = rw there (omega (arith, x.used));
        freed_values = rw there (kept.freed_values ∙ ap (λ w. w.freed_values) a.rest.world);
        freed_keys = kept.freed_keys ∙ ap (λ w. w.freed_keys) a.rest.world;
        thins = λ e. absurd (true_ne_false e);
        taller = omega (arith, kept.taller, a.rest.lg_size);
        grows = omega (arith, ap (λ (p : Pool). p.size) x.pool);
      }

-- The end of `coucal_write_value`, with the result of `coucal_write_value_`.
abbrev pub finish_write : Allocator → Coucal × Bool → Run (Coucal × Bool)
finish_write alloc r = elim r.1 [
  | false ↦ ok r
  | true ↦ grow_if_full alloc (record (r.0) { used = inc_size r.0.used }) >>= λ c'. ok (c', true)
]

store-Wrote :
    (alloc : Allocator) (c : Coucal) (name : Name) (value : ℕ) (dup : List ℕ → List ℕ)
    → KeyLaws c.custom.key
    → Valid c
    → c.custom.key.dup ≡ some dup
    → (view c (key_text c name) ≡ none → CanAdd alloc c)
    → Returns
        (store alloc c name value (calc_hashes c name) >>= finish_write alloc)
        (Wrote c name value)
unfolding store
store-Wrote alloc c name value dup laws v handler can = go (search_lem c name laws v)
  where
    go :
        Search c name
        → Returns
            (store alloc c name value (calc_hashes c name) >>= finish_write alloc)
            (Wrote c name value)
    go (at_first e1 here) =
        ((replace_value c _ value, false), rw e1, replaced-Wrote c name _ value laws v here)
    go (at_second e1 e2 here) =
        ((replace_value c _ value, false), rw (e1, e2), replaced-Wrote c name _ value laws v here)
    go (stashed e1 e2 i e3 here) = (
      (replace_value c _ value, false),
      rw (e1, e2, e3),
      replaced-Wrote c name _ value laws v here,
    )
    go (absent e1 e2 e3 none_there) =
        let able = can (absent_value c name v none_there) in
        let (r, run, a) = write_new-NewEntry alloc c name value dup v.layout handler able.room in
        let (c', run', kept) =
          grow_if_full-Kept alloc (counted_up r.0) (counted_up-Layout r.0 a.layout)
            (omega (arith, able.small, a.rest.lg_size))
            (rw (a.rest.world, a.rest.lg_size) able.memory) in
        (
          (c', true),
          rw (e1, e2, e3, run, ◌>>=◌, finish_write, a.done, run'),
          added-Wrote c name value dup laws v handler none_there r c' a kept,
        )

-- Statistics are no part of what a write promises.
pub restat-Wrote :
    (c : Coucal) (s : Stats) (name : Name) (value : ℕ) (r : Coucal × Bool)
    → Wrote (record c { stats = s }) name value r
    → Wrote c name value r
unfolding view
restat-Wrote c s name value r w = record {
  valid = w.valid;
  custom = w.custom;
  reads = w.reads;
  added = w.added;
  nitems = w.nitems;
  freed_values = w.freed_values;
  freed_keys = w.freed_keys;
  thins = λ e. restat-Thins c s r.0 (w.thins e);
  taller = w.taller;
  grows = w.grows;
}

-- On a valid table whose handlers duplicate keys and keep the laws of keys, `coucal_write_value` fails
-- no assertion. It leaves a valid table in which the key reads the new value and every other key
-- what it read before, tells by its result whether the key was missing, counts one item more just
-- then, hands the old value (if there is one, and it is not NULL) to the free handler of values, and
-- releases no key; a replacement moves no entry, and the pool grows by no more than the key and its NUL.
-- A key that is missing needs a free slot in the stash, a table below the greatest
-- size, and the memory of a table of twice the size.
pub write_value-Wrote :
    (alloc : Allocator) (c : Coucal) (name : Name) (value : ℕ) (dup : List ℕ → List ℕ)
    → KeyLaws c.custom.key
    → Valid c
    → c.custom.key.dup ≡ some dup
    → (view c (key_text c name) ≡ none → CanAdd alloc c)
    → Returns (write_value alloc c name value) (Wrote c name value)
unfolding write_value write_entry calc_hashes view
write_value-Wrote alloc c name value dup laws v handler can =
    let c0 = count_write c in
    let able : view c0 (key_text c0 name) ≡ none → CanAdd alloc c0 =
      λ e. let a = can e in record { room = a.room; small = a.small; memory = a.memory } in
    let (r, run, w) = store-Wrote alloc c0 name value dup laws (restat-Valid c _ v) handler able in
    (r, run, restat-Wrote c _ name value r w)
