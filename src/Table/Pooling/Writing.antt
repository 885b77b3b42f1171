-- ===== src/Table/Pooling/Writing.antt =====
-- `coucal_write_value`, for keys that the library duplicates to its string pool.
use coucal.Base.{
  ℕ, ◌+◌, ◌^◌, ◌≤◌, ◌<◌, ◌≡◌, refl, ap, sym, subst, ◌∙◌, Bool, true, false, none, some, List,
  length, if◌then◌else◌, arith,
}
use coucal.Keys.Laws.{KeyLaws}
use coucal.Keys.{key_text, calc_hashes, hash_text, equal_texts}
use coucal.Pool.Duplicating.{Generous}
use coucal.Pool.Regions.{by_name, Pooled}
use coucal.Pool.Text.{IsText}
use coucal.Pool.{text}
use coucal.Run.{◌>>=◌, Returns}
use coucal.State.{Item, Name, Pool, Custom, World, Coucal, Allocator, stash_size}
use coucal.Table.Adding.{restat-Valid, NewEntry}
use coucal.Table.Entries.{mass, one_if}
use coucal.Table.Exchanging.{Exchanged, Exchanged-Valid, Exchanged-view}
use coucal.Table.Finding.{Found, Search, at_first, at_second, stashed, absent, search_lem}
use coucal.Table.Growing.{Kept, grow_if_full-Kept}
use coucal.Table.Layout.{weight}
use coucal.Table.Pooling.Moving.{moved-Pooled}
use coucal.Table.Reading.{absent_value}
use coucal.Table.Stashing.{add_item-Added}
use coucal.Table.Valid.{Valid, misfiled, entry_of}
use coucal.Table.View.{view}
use coucal.Table.Write.{
  count_add, count_write, write_new, replace_value, store, write_entry, write_value,
}
use coucal.Table.Writing.{
  true_ne_false, Wrote, counted_up, counted_up-Layout, inserted-Exchanged, finish_write,
  replaced-Wrote, restat-Wrote,
}
use coucal.Table.{Slot}
use coucal.Table.Replacing.{replace_value-Exchanged}
use coucal.Table.Pooling.Tables.{PooledTable}
use coucal.Table.Pooling.Preparing.{Prepared, prepare}

-- The hashes of the key are those of its duplicate.
module _ (c c2 : Coucal) (name stored : Name) (value : ℕ) (laws : KeyLaws c.custom.key)
    (v : Valid c) (none_there : weight (λ item. one_if (entry_of c (key_text c name) item)) c ≡ 0)
    (p : Prepared c (key_text c name) c2 stored) where
  abbrev item : Item
  item = record { name = some stored; value = value; hashes = calc_hashes c name }

  laws2 : KeyLaws c2.custom.key
  laws2 = subst (λ (u : Custom). KeyLaws u.key) (sym p.custom) laws

  item-of : equal_texts c2.custom.key (key_text c2 stored) (key_text c name) ≡ true
  item-of = rw p.duplicate (laws2.equal_refl (key_text c name))

  item-filed : mass (misfiled c2) item ≡ 0
  unfolding calc_hashes
  item-filed =
      let same : hash_text c2.custom.key (text c2.pool.buffer stored)
          ≡ hash_text c.custom.key (key_text c name) =
        λ i. hash_text (p.custom i).key (p.duplicate i) in
      ground (arith, same)

  -- The entry is added, and the table may grow.
  module _ (r : Coucal × Bool) (c' : Coucal) (a : NewEntry c2 item r)
      (kept : Kept (counted_up r.0) c') where
    inserted : Exchanged c2 (key_text c name) none (some item) c'
    inserted =
        inserted-Exchanged c2 (key_text c name) item p.valid item-of item-filed p.absent r c' a kept

    inserted-Pooled : Pooled c' none
    inserted-Pooled =
        moved-Pooled c2 c' (some item) none inserted.pool inserted.custom
          (λ g. omega (arith, inserted.balance (by_name g))) (p.pooled item refl)

    inserted-Wrote : Wrote c name value (c', true)
    inserted-Wrote =
        let there = absent_value c name v none_there in
        record {
          valid = Exchanged-Valid c2 (key_text c name) none (some item) c' laws2 p.valid inserted;
          custom = inserted.custom ∙ p.custom;
          reads = λ q.
              Exchanged-view c2 (key_text c name) none (some item) c' laws2 p.valid inserted q
              ∙ (λ i.
                  if equal_texts (p.custom i).key q (key_text c name)
                  then some value
                  else p.reads q i);
          added = rw there;
          nitems = rw there (omega (arith, inserted.used, p.used));
          freed_values = rw there (
              kept.freed_values ∙ ap (λ (w : World). w.freed_values) a.rest.world ∙ p.freed_values);
          freed_keys =
              kept.freed_keys ∙ ap (λ (w : World). w.freed_keys) a.rest.world ∙ p.freed_keys;
          thins = λ e. absurd (true_ne_false e);
          taller = omega (arith, kept.taller, a.rest.lg_size, p.lg_size);
          grows = omega (arith, p.grows, ap (λ (p : Pool). p.size) inserted.pool);
        }

-- What the write of a missing key needs in pool mode: a free slot in the stash, a table below the
-- greatest size, a key with no NUL byte, and a pool that can grow by it.
pub record CanAppend (c : Coucal) (t : List ℕ) : Type 0 where
  pub room : c.stash.size < stash_size
  pub small : c.lg_size < 32
  pub string : IsText t
  pub bound : c.pool.size + (length t + 1) ≤ 2 ^ 63

-- What `coucal_write_value` promises in pool mode.
pub record Stored (c : Coucal) (name : Name) (value : ℕ) (r : Coucal × Bool) : Type 0 where
  pub wrote : Wrote c name value r
  pub table : PooledTable r.0

stored :
    (c : Coucal) (name : Name) (value : ℕ) (r : Coucal × Bool)
    → Wrote c name value r
    → Pooled r.0 none
    → Stored c name value r
stored c name value r w k = record { wrote = w; table = record { valid = w.valid; pool = k } }

-- The write of a missing key, with the growth of the table behind it.
write_new-Stored :
    (alloc : Allocator) (c : Coucal) (name : Name) (value : ℕ)
    → KeyLaws c.custom.key
    → Valid c
    → Pooled c none
    → Generous alloc
    → CanAppend c (key_text c name)
    → weight (λ item. one_if (entry_of c (key_text c name) item)) c ≡ 0
    → Returns
        (write_new alloc c name value (calc_hashes c name) >>= finish_write alloc)
        (Stored c name value)
unfolding write_new view calc_hashes
write_new-Stored alloc c name value laws v k generous can none_there =
    let c0 = count_add c in
    let v0 = restat-Valid c _ v in
    let k0 = moved-Pooled c c0 none none refl refl (λ g. refl) k in
    let (r, run, p) = prepare alloc c0 name v0 k0 generous can.string can.bound none_there in
    let item : Item = record { name = some r.1; value = value; hashes = calc_hashes c name } in
    let (r2, run2, a) =
      add_item-Added r.0 item p.valid.layout (omega (arith, p.stash_shrinks, can.room)) (λ e. cc) in
    let entry : NewEntry r.0 item r2 = record {
      done = a.done;
      layout = a.layout;
      rest = a.rest;
      stash_grows = a.stash_grows;
      balance = a.balance;
    } in
    let (c', run', kept) =
      grow_if_full-Kept alloc (counted_up r2.0) (counted_up-Layout r2.0 a.layout)
        (omega (arith, can.small, a.rest.lg_size, p.lg_size)) (generous _ _) in
    (
      (c', true),
      rw (run, ◌>>=◌, run2, finish_write, a.done, run'),
      stored c name value (c', true)
          (restat-Wrote c _ name value (c', true)
            (inserted-Wrote c0 r.0 name r.1 value laws v0 none_there p r2 c' entry kept))
          (inserted-Pooled c0 r.0 name r.1 value laws v0 none_there p r2 c' entry kept),
    )

-- A replaced value leaves the pool as it is.
replaced-Pooled :
    (c : Coucal) (name : Name) (at : Slot) (value : ℕ)
    → Valid c
    → Found c name at
    → Pooled c none
    → Pooled (replace_value c at value) none
replaced-Pooled c name at value v found k =
    let (x, _, _) = replace_value-Exchanged c name at value v found in
    moved-Pooled c (replace_value c at value) none none x.pool x.custom
      (λ g. omega (arith, x.balance (by_name g))) k

store-Stored :
    (alloc : Allocator) (c : Coucal) (name : Name) (value : ℕ)
    → KeyLaws c.custom.key
    → Valid c
    → Pooled c none
    → Generous alloc
    → (view c (key_text c name) ≡ none → CanAppend c (key_text c name))
    → Returns
        (store alloc c name value (calc_hashes c name) >>= finish_write alloc)
        (Stored c name value)
unfolding store
store-Stored alloc c name value laws v k generous can = go (search_lem c name laws v)
  where
    replaced : (at : Slot) → Found c name at → Stored c name value (replace_value c at value, false)
    replaced at here =
        stored c name value (replace_value c at value, false)
          (replaced-Wrote c name at value laws v here) (replaced-Pooled c name at value v here k)

    go :
        Search c name
        → Returns
            (store alloc c name value (calc_hashes c name) >>= finish_write alloc)
            (Stored c name value)
    go (at_first e1 here) = ((replace_value c _ value, false), rw e1, replaced _ here)
    go (at_second e1 e2 here) = ((replace_value c _ value, false), rw (e1, e2), replaced _ here)
    go (stashed e1 e2 i e3 here) =
        ((replace_value c _ value, false), rw (e1, e2, e3), replaced _ here)
    go (absent e1 e2 e3 none_there) =
        rw (e1, e2, e3)
          (write_new-Stored alloc c name value laws v k generous
            (can (absent_value c name v none_there)) none_there)

-- On a valid table with its keys in a pool in order, and handlers that keep the laws of keys, if every
-- request for memory is granted, `coucal_write_value` fails no assertion, whether the pool grows, is
-- compacted or has room. It leaves a valid table with its pool in order in which the key reads the new
-- value and every other key what it read before, tells by its result whether the key was missing,
-- counts one item more just then, and hands the old value, if there is one and it is not NULL, to the
-- free handler of values. A key that is missing has no NUL byte, and needs a free slot in the stash, a
-- table below the greatest size, and a pool that stays within 2^63 bytes with it; the pool grows by no
-- more than the key and its NUL, and a replacement moves no entry.
pub write_value-Stored :
    (alloc : Allocator) (c : Coucal) (name : Name) (value : ℕ)
    → KeyLaws c.custom.key
    → PooledTable c
    → Generous alloc
    → (view c (key_text c name) ≡ none → CanAppend c (key_text c name))
    → Returns (write_value alloc c name value) (Stored c name value)
unfolding write_value write_entry calc_hashes view
write_value-Stored alloc c name value laws t generous can =
    let c0 = count_write c in
    let able : view c0 (key_text c0 name) ≡ none → CanAppend c0 (key_text c0 name) = λ e.
      let a = can e in
      record { room = a.room; small = a.small; string = a.string; bound = a.bound } in
    let (r, run, s) =
      store-Stored alloc c0 name value laws (restat-Valid c _ t.valid)
        (moved-Pooled c c0 none none refl refl (λ g. refl) t.pool) generous able in
    (r, run, stored c name value r (restat-Wrote c _ name value r s.wrote) s.table.pool)
