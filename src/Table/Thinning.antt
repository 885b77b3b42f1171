-- ===== src/Table/Thinning.antt =====
-- Tables whose entries stay in their slots or go, as a removal leaves them.
use coucal.Base.{
  ℕ, ◌≤◌, ◌<◌, ◌≡◌, refl, ap, subst, ==_iff, sym, ◌∙◌, inl, inr, List, length, get_or, get_or-set,
  set, Bool-cases, ◌==◌, arith,
}
use coucal.State.{Item, null_item, Stats, Coucal}
use coucal.Table.Entries.{mass, one_if}
use coucal.Table.Finding.{Inside, inside_table, inside_stash}
use coucal.Table.Layout.{Layout}
use coucal.Table.Rekeying.{Rekeyed, Rekeyed-slot}
use coucal.Table.Valid.{entry_of}
use coucal.Table.Wiping.{wiped}
use coucal.Table.Replacing.{
  freed, with_value, freed-Layout, freed-Inside, item_at-freed, replace_value-write_at,
}
use coucal.Table.Write.{replace_value}
use coucal.Table.{Slot, in_table, in_stash, item_at, write_at, get_item, get_stash}

-- Is the item an entry of the key?
abbrev pub holds : Coucal → List ℕ → Item → ℕ
holds c k item = mass (λ x. one_if (entry_of c k x)) item

-- No slot holds an entry that it did not hold before.
pub record Thins (c c' : Coucal) : Type 0 where
  pub lg_size : c'.lg_size ≡ c.lg_size
  pub table : (k : List ℕ) (i : ℕ) → holds c' k (get_item c' i) ≤ holds c k (get_item c i)
  pub stash : (k : List ℕ) (i : ℕ) → holds c' k (get_stash c' i) ≤ holds c k (get_stash c i)

pub Thins-refl : (c : Coucal) → Thins c c
Thins-refl c = record { lg_size = refl; table = λ k i. omega arith; stash = λ k i. omega arith }

pub Thins-trans : {a b c : Coucal} → Thins a b → Thins b c → Thins a c
Thins-trans s t = record {
  lg_size = t.lg_size ∙ s.lg_size;
  table = λ k i. omega (arith, s.table k i, t.table k i);
  stash = λ k i. omega (arith, s.stash k i, t.stash k i);
}

pub Rekeyed-Thins : (c c' : Coucal) → Rekeyed c c' → Thins c c'
Rekeyed-Thins c c' r = record {
  lg_size = r.lg_size;
  table =
      λ k i. omega (arith, Rekeyed-slot c c' r k (get_item c i) (get_item c' i) (r.table.slots i));
  stash = λ k i.
      omega (arith, Rekeyed-slot c c' r k (get_stash c i) (get_stash c' i) (r.stash.slots i));
}

set_le :
    (f : Item → ℕ) (xs : List Item) (pos i : ℕ) (item : Item)
    → pos < length xs
    → f item ≤ f (get_or xs pos null_item)
    → f (get_or (set xs pos item) i null_item) ≤ f (get_or xs i null_item)
set_le f xs pos i item h e =
    rw (get_or-set xs pos i item null_item h) (elim (Bool-cases (pos == i)) [
      | inl same ↦
          let at : pos ≡ i = (==_iff pos i).0 same in
          rw same (omega (arith, e, ap (λ j. f (get_or xs j null_item)) at))
      | inr other ↦ rw other (omega arith)
    ])

-- A slot that gets an item of no other key.
pub write_at-Thins :
    (c : Coucal) (at : Slot) (item : Item)
    → Layout c
    → Inside c at
    → ((k : List ℕ) → holds c k item ≤ holds c k (item_at c at))
    → Thins c (write_at c at item)
write_at-Thins c (in_table pos) item l (inside_table _ h) le = record {
  lg_size = refl;
  table = λ k i. set_le (λ x. holds c k x) c.items pos i item h (le k);
  stash = λ k i. omega arith;
}
write_at-Thins c (in_stash j) item l (inside_stash _ h) le = record {
  lg_size = refl;
  table = λ k i. omega arith;
  stash = λ k i.
      set_le (λ x. holds c k x) c.stash.items j i item
        (omega (arith, l.stash_extent, l.stash_width)) (le k);
}

pub wiped-Thins : (c : Coucal) (at : Slot) → Layout c → Inside c at → Thins c (wiped c at)
wiped-Thins c at l inside = write_at-Thins c at null_item l inside (λ k. omega arith)

-- What a free handler does outside is no part of it.
pub freed-Thins : (c : Coucal) (value : ℕ) → Thins c (freed c value)
freed-Thins c value = record {
  lg_size = refl;
  table = λ k i. omega arith;
  stash = λ k i. omega arith;
}

pub replace_value-Thins :
    (c : Coucal) (at : Slot) (value : ℕ)
    → Layout c
    → Inside c at
    → Thins c (replace_value c at value)
replace_value-Thins c at value l inside =
    let c' = freed c (item_at c at).value in
    let same : (k : List ℕ)
        → holds c' k (with_value (item_at c at) value) ≤ holds c' k (item_at c' at) =
      λ k. omega (arith, ap (λ x. holds c' k x) (item_at-freed c (item_at c at).value at)) in
    subst (Thins c) (sym (replace_value-write_at c at value l inside)) (
      Thins-trans (freed-Thins c (item_at c at).value) (
        write_at-Thins c' at (with_value (item_at c at) value)
          (freed-Layout c (item_at c at).value l) (freed-Inside c (item_at c at).value at inside)
          same))

pub restat-Thins :
    (c : Coucal) (s : Stats) (c' : Coucal) → Thins (record c { stats = s }) c' → Thins c c'
restat-Thins c s c' t = record { lg_size = t.lg_size; table = t.table; stash = t.stash }
