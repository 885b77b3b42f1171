-- ===== src/Table/Removing.antt =====
-- `coucal_remove`, for keys that the caller's handlers duplicate and release.
use coucal.Base.{
  ℕ, ◌≤◌, ◌+◌, ◌<◌, ◌≡◌, refl, ap, ◌∙◌, ◌⊎◌, inl, inr, Bool, true, false, not, none, some, List,
  ◌∷◌, ◌==◌, if◌then◌else◌, is_none, Bool-cases, arith,
}
use coucal.Base.Words.{dec_size}
use coucal.Keys.Laws.{KeyLaws}
use coucal.Keys.{key_text, equal_texts}
use coucal.Run.{Run, ok, ◌>>=◌, ◌>>◌, assert, Returns}
use coucal.State.{Item, Name, Pool, Coucal, Allocator}
use coucal.Table.Exchanging.{Exchanged, Exchanged-Valid, Exchanged-view}
use coucal.Table.Finding.{Found, Search, at_first, at_second, stashed, absent, search_lem}
use coucal.Table.Reading.{Found-value, absent_value, mass-le-weight}
use coucal.Table.Remove.{del_item, remove_entry, remove}
use coucal.Table.Replacing.{freed}
use coucal.Table.Valid.{Valid, entry_of}
use coucal.Table.View.{view, view_congr}
use coucal.Table.Writing.{released, used-lt, free_value-released}
use coucal.Table.{Slot, item_at}
use coucal.Table.Finding.{Inside}
use coucal.Table.Layout.{Layout}
use coucal.Table.Pooling.Detaching.{detached, settled, lowered, detached-Thins, settled-Thins}
use coucal.Table.Thinning.{Thins, Thins-refl, Thins-trans}
use coucal.Table.{in_table, in_stash}
use coucal.Table.Wiping.{after, After, after-After, del_item-wiped, relayout, wiped, key_released}

module _ (c : Coucal) (name : Name) (at : Slot) (stored : Name) (laws : KeyLaws c.custom.key)
    (v : Valid c) (found : Found c name at) (named : (item_at c at).name ≡ some stored) where
  abbrev done : Coucal
  done = let c' = after c at stored in record c' { used = dec_size c'.used }

  facts : After c at stored (after c at stored)
  facts = after-After c at stored v.layout found.inside named

  used-pos : 0 < c.used
  used-pos = ground (arith, v.counted, mass-le-weight (λ _. 1) c at)

  removed-Exchanged : Exchanged c (key_text c name) (some (item_at c at)) none done
  removed-Exchanged = record {
    layout = relayout (after c at stored) _ _ facts.layout;
    custom = facts.custom;
    pool = facts.pool;
    used = ground (arith, facts.used, used-pos, used-lt c v);
    balance = λ f. omega (arith, facts.balance f);
    inside = λ f. mass-le-weight f c at;
    old_of = found.entry;
    new_of = tt;
    filed = refl;
    absent = λ e. cc;
  }

-- What `coucal_remove` promises.
pub record Removed (c : Coucal) (name : Name) (r : Coucal × Bool) : Type 0 where
  pub valid : Valid r.0
  pub custom : r.0.custom ≡ c.custom
  pub reads :
      (k : List ℕ)
      → view r.0 k ≡ (if equal_texts c.custom.key k (key_text c name) then none else view c k)
  pub removed : r.1 ≡ not (is_none (view c (key_text c name)))
  pub nitems : (if is_none (view c (key_text c name)) then r.0.used else r.0.used + 1) ≡ c.used
  pub freed_values :
      r.0.world.freed_values
      ≡ released c.custom.value_free (view c (key_text c name)) c.world.freed_values
  pub freed_keys :
      ((view c (key_text c name) ≡ none) × (r.0.world.freed_keys ≡ c.world.freed_keys))
      ⊎ ((t : List ℕ) × (equal_texts c.custom.key t (key_text c name) ≡ true)
          × (r.0.world.freed_keys ≡ t ∷ c.world.freed_keys))
  pub thins : Thins c r.0
  pub smaller : r.0.pool.size ≤ c.pool.size

-- A key that is not there: nothing changes.
pub absent-Removed :
    (c : Coucal) (name : Name)
    → KeyLaws c.custom.key
    → Valid c
    → view c (key_text c name) ≡ none
    → Removed c name (c, false)
absent-Removed c name laws v there = record {
  valid = v;
  custom = refl;
  reads = λ k. elim (Bool-cases (equal_texts c.custom.key k (key_text c name))) [
    | inl e ↦ rw e (view_congr c (key_text c name) k laws e ∙ there)
    | inr e ↦ rw e
  ];
  removed = rw there;
  nitems = rw there;
  freed_values = rw there;
  freed_keys = inl (there, refl);
  thins = Thins-refl c;
  smaller = omega arith;
}

entry-named :
    (c : Coucal) (k : List ℕ) (item : Item) (stored : Name)
    → item.name ≡ some stored
    → entry_of c k item ≡ true
    → equal_texts c.custom.key (key_text c stored) k ≡ true
entry-named c k item stored named e = ground arith

released-Thins : (c : Coucal) (stored : Name) → Thins c (key_released c stored)
released-Thins c stored = record {
  lg_size = refl;
  table = λ k i. omega arith;
  stash = λ k i. omega arith;
}

after-Thins :
    (c : Coucal) (at : Slot) (stored : Name)
    → Layout c
    → Inside c at
    → Thins c (record (after c at stored) { used = dec_size (after c at stored).used })
unfolding after
after-Thins c at stored l inside = go at inside
  where
    steps :
        (at : Slot)
        → Inside c at
        → Thins c (lowered (settled at (key_released (detached c at) stored)))
    steps at inside =
        Thins-trans (detached-Thins c at l inside)
          (Thins-trans (released-Thins (detached c at) stored) (settled-Thins at _))

    go :
        (at : Slot)
        → Inside c at
        → Thins c (record (after c at stored) { used = dec_size (after c at stored).used })
    go (in_table pos) inside = steps (in_table pos) inside
    go (in_stash i) inside = steps (in_stash i) inside

-- A key that is there: its entry goes.
present-Removed :
    (c : Coucal) (name : Name) (at : Slot) (stored : Name)
    → KeyLaws c.custom.key
    → Valid c
    → Found c name at
    → (item_at c at).name ≡ some stored
    → Removed c name (record (after c at stored) { used = dec_size (after c at stored).used }, true)
present-Removed c name at stored laws v found named =
    let x = removed-Exchanged c name at stored laws v found named in
    let a = after-After c at stored v.layout found.inside named in
    let there = Found-value c name v at found in
    let old = some (item_at c at) in
    let c' = record (after c at stored) { used = dec_size (after c at stored).used } in
    let (values, keys) = free_value-released c.custom.value_free (item_at c at).value c.world in
    record {
      valid = Exchanged-Valid c (key_text c name) old none c' laws v x;
      custom = x.custom;
      reads = Exchanged-view c (key_text c name) old none c' laws v x;
      removed = rw there;
      nitems = rw there (ground (arith, x.used));
      freed_values = rw there (a.freed_values ∙ values);
      freed_keys = inr (
        key_text c stored,
        entry-named c (key_text c name) (item_at c at) stored named found.entry,
        a.freed_keys ∙ ap (λ ks. key_text c stored ∷ ks) keys,
      );
      thins = after-Thins c at stored v.layout found.inside;
      smaller = omega (arith, ap (λ (p : Pool). p.size) x.pool);
    }

-- A found entry has a key.
pub Found-named :
    (c : Coucal) (name : Name) (at : Slot)
    → Found c name at
    → (stored : Name) × ((item_at c at).name ≡ some stored)
Found-named c name at found = ground (arith, found.entry)

-- The end of `coucal_remove`, with the result of `coucal_remove_`.
abbrev pub finish_remove : Coucal × Bool → Run (Coucal × Bool)
finish_remove r = elim r.1 [
  | false ↦ ok r
  | true ↦ assert (not (r.0.used == 0)) >> ok (record (r.0) { used = dec_size r.0.used }, true)
]

-- The assertion holds, since an entry was counted.
finish_remove-Found :
    (c : Coucal) (name : Name) (at : Slot) (stored : Name)
    → KeyLaws c.custom.key
    → Valid c
    → Found c name at
    → (item_at c at).name ≡ some stored
    → Returns (finish_remove (after c at stored, true)) (Removed c name)
finish_remove-Found c name at stored laws v found named =
    let a = after-After c at stored v.layout found.inside named in
    let counted : ((after c at stored).used == 0) ≡ false =
      ground (arith, a.used, used-pos c name at stored laws v found named) in
    (_, rw counted, present-Removed c name at stored laws v found named)

-- On a valid table whose handlers free keys and keep the laws of keys, `coucal_remove` fails no
-- assertion. It leaves a valid table in which the key reads nothing and every other key what it read
-- before, tells by its result whether there was an entry, and counts one item less just then. The old
-- value, if it is not NULL, goes to the free handler of values; a key equal to the one removed goes to
-- the free handler of keys once if there was an entry, and none otherwise. No entry moves to another
-- slot, and the pool is not larger than it was.
pub remove-Removed :
    (alloc : Allocator) (c : Coucal) (name : Name) (free : ℕ)
    → KeyLaws c.custom.key
    → Valid c
    → c.custom.key.free ≡ some free
    → Returns (remove alloc c name) (Removed c name)
unfolding remove remove_entry after
remove-Removed alloc c name free laws v handler = go (search_lem c name laws v)
  where
    deleted :
        (at : Slot) (stored : Name)
        → Found c name at
        → (item_at c at).name ≡ some stored
        → del_item alloc c at ≡ ok (key_released (wiped (freed c (item_at c at).value) at) stored)
    deleted at stored here named =
        del_item-wiped alloc c at stored free v.layout here.inside named handler

    go : Search c name → Returns (remove alloc c name) (Removed c name)
    go (at_first e1 here) =
        let (stored, named) = Found-named c name _ here in
        rw (e1, deleted _ stored here named, ◌>>=◌)
          (finish_remove-Found c name _ stored laws v here named)
    go (at_second e1 e2 here) =
        let (stored, named) = Found-named c name _ here in
        rw (e1, e2, deleted _ stored here named, ◌>>=◌)
          (finish_remove-Found c name _ stored laws v here named)
    go (stashed e1 e2 i e3 here) =
        let (stored, named) = Found-named c name _ here in
        rw (e1, e2, e3, deleted _ stored here named, ◌>>=◌)
          (finish_remove-Found c name _ stored laws v here named)
    go (absent e1 e2 e3 none_there) = (
      (c, false),
      rw (e1, e2, e3),
      absent-Removed c name laws v (absent_value c name v none_there),
    )
