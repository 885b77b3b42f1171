-- ===== src/Table/Merging.antt =====
-- The merge of the stash after a growth: every stashed item is added again, from a copy.
use coucal.Base.{
  ℕ, ◌+◌, ◌≤◌, ◌≡◌, refl, ap, inl, inr, List, [], ◌∷◌, take, replicate, ◌==◌, get_or-replicate,
  length-replicate, Bool-cases, le→leb, arith,
}
use coucal.Run.{◌>>=◌, Returns}
use coucal.State.{Item, null_item, Coucal, stash_size}
use coucal.Table.Draining.{Shuffled, Shuffled-refl}
use coucal.Table.Entries.{mass, total, live, total-take, total-replicate, live-le-length}
use coucal.Table.Grow.{reinsert, merge_stash}
use coucal.Table.Layout.{Layout, SameRest, SameRest-refl, SameRest-trans, weight}
use coucal.Table.Placing.{live_of_not_free, mass-free}
use coucal.Table.Stashing.{add_item-Added}
use coucal.Table.{is_empty_item}

record Reinserted (items : List Item) (c c' : Coucal) : Type 0 where
  layout : Layout c'
  rest : SameRest c c'
  stash_grows : c'.stash.size ≤ c.stash.size + live items
  balance : (f : Item → ℕ) → weight f c' ≡ weight f c + total f items

-- As long as the items would all fit the stash, no addition fails.
reinsert-Reinserted :
    (items : List Item) (c : Coucal)
    → Layout c
    → c.stash.size + live items ≤ stash_size
    → Returns (reinsert items c) (Reinserted items c)
unfolding reinsert total
reinsert-Reinserted [] c l room = (
  c,
  refl,
  record {
    layout = l;
    rest = SameRest-refl c;
    stash_grows = omega arith;
    balance = λ f. omega arith;
  },
)
reinsert-Reinserted (x ∷ items) c l room = elim (Bool-cases (is_empty_item x)) [
  | inl e ↦
      let zero_mass = λ (f : Item → ℕ). mass-free f x e in
      let (r, run, k) = reinsert-Reinserted items c l (omega (arith, zero_mass (λ _. 1))) in
      (
        r,
        rw (e, reinsert) run,
        record {
          layout = k.layout;
          rest = k.rest;
          stash_grows = omega (arith, k.stash_grows);
          balance = λ f. omega (arith, k.balance f, zero_mass f);
        },
      )
  | inr e ↦
      let one : mass (λ _. 1) x ≡ 1 = ground arith in
      let (r, run, a) = add_item-Added c x l (omega arith) (live_of_not_free x e) in
      let (r', run', k) = reinsert-Reinserted items r.0 a.layout (omega (arith, a.stash_grows)) in
      (
        r',
        rw (e, reinsert, run, ◌>>=◌, a.done) run',
        record {
          layout = k.layout;
          rest = SameRest-trans a.rest k.rest;
          stash_grows = omega (arith, k.stash_grows, a.stash_grows);
          balance = λ f. omega (arith, k.balance f, a.balance f);
        },
      )
]

abbrev emptied : Coucal → Coucal
emptied c = record c {
  stash = record { items = replicate stash_size null_item; size = 0; extent = 0 };
}

emptied-SameRest : (c : Coucal) → SameRest c (emptied c)
emptied-SameRest c = record {
  lg_size = refl;
  used = refl;
  pool = refl;
  custom = refl;
  world = refl;
}

emptied-Layout : (c : Coucal) → Layout c → Layout (emptied c)
emptied-Layout c l = record {
  lg_low = l.lg_low;
  lg_high = l.lg_high;
  width = l.width;
  home = l.home;
  stash_width = length-replicate 16 null_item;
  stash_extent = omega arith;
  stash_live = total-replicate (λ _. 1) 16;
  stash_clear = λ i h. ap (λ x. x.name) (get_or-replicate 16 i null_item);
}

-- On a table that keeps the layout, the merge of the stash fails no assertion (it cannot overflow the
-- stash, and `stash.size <= old_size` holds), keeps the layout, every weight of the entries and the
-- rest of the table, and does not grow the stash.
pub merge_stash-Shuffled : (c : Coucal) → Layout c → Returns (merge_stash c) (Shuffled c)
unfolding merge_stash
merge_stash-Shuffled c l = elim (Bool-cases (c.stash.size == 0)) [
  | inl e ↦ (c, rw e, Shuffled-refl c l)
  | inr e ↦
      let (c', run, k) =
        reinsert-Reinserted (take c.stash.extent c.stash.items) (emptied c) (emptied-Layout c l)
          (omega (arith, all (λ _. 1), l.stash_live, small)) in
      let fits : c'.stash.size ≤ c.stash.size =
        omega (arith, k.stash_grows, all (λ _. 1), l.stash_live) in
      (
        c',
        rw (e, run, ◌>>=◌, le→leb _ _ fits),
        record {
          layout = k.layout;
          rest = SameRest-trans (emptied-SameRest c) k.rest;
          stash_shrinks = fits;
          balance = λ f. omega (arith, k.balance f, all f, total-replicate f 16);
        },
      )
]
  where
    all : (f : Item → ℕ) → total f (take c.stash.extent c.stash.items) ≡ total f c.stash.items
    all f = total-take f c.stash.extent c.stash.items l.stash_clear

    small : c.stash.size ≤ stash_size
    small = omega (arith, l.stash_live, l.stash_width, live-le-length c.stash.items)
