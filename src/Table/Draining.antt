-- ===== src/Table/Draining.antt =====
-- `coucal_drain_stash`: entries that move from the stash to the table.
use coucal.Base.{
  ℕ, zero, suc, ◌+◌, ◌≤◌, ◌<◌, ◌≡◌, refl, ◌∙◌, inl, inr, true, false, none, some, List, length,
  get_or, set, ◌==◌, ltb, get_or-set, length-set, Bool-cases, Option-cases, arith,
}
use coucal.Base.Words.{dec_size}
use coucal.State.{Item, null_item, Coucal, stash_size}
use coucal.Table.Add.{vacancy, drain_one, drain_from, trim, trim_stash, drain_stash}
use coucal.Table.Entries.{mass, total, total-set, live-le-length}
use coucal.Table.Layout.{
  IsHome, Layout, SameRest, SameRest-refl, SameRest-trans, weight, set_item-home,
}
use coucal.Table.Placing.{mass-free}
use coucal.Table.Position.{hash_to_pos_at-lt}
use coucal.Table.{hash_to_pos, get_item, set_item, get_stash, set_stash, is_free, is_empty_item}

-- What an operation promises that only moves entries about.
pub record Shuffled (c c' : Coucal) : Type 0 where
  pub layout : Layout c'
  pub rest : SameRest c c'
  pub stash_shrinks : c'.stash.size ≤ c.stash.size
  pub balance : (f : Item → ℕ) → weight f c' ≡ weight f c

pub Shuffled-refl : (c : Coucal) → Layout c → Shuffled c c
Shuffled-refl c l = record {
  layout = l;
  rest = SameRest-refl c;
  stash_shrinks = omega arith;
  balance = λ f. refl;
}

pub Shuffled-trans : {a b c : Coucal} → Shuffled a b → Shuffled b c → Shuffled a c
Shuffled-trans h k = record {
  layout = k.layout;
  rest = SameRest-trans h.rest k.rest;
  stash_shrinks = omega (arith, h.stash_shrinks, k.stash_shrinks);
  balance = λ f. k.balance f ∙ h.balance f;
}

-- What a vacancy is.
record Vacant (c : Coucal) (item : Item) (pos : ℕ) : Type 0 where
  free : is_free c pos ≡ true
  inside : pos < length c.items
  at_home : IsHome c.lg_size pos item

vacancy-Vacant :
    (c : Coucal) (item : Item) (pos : ℕ) → Layout c → vacancy c item ≡ some pos → Vacant c item pos
unfolding vacancy hash_to_pos
vacancy-Vacant c item pos l e = ground (
  arith,
  hash_to_pos_at-lt c.lg_size item.hashes.hash1 l.lg_high,
  hash_to_pos_at-lt c.lg_size item.hashes.hash2 l.lg_high,
  l.width,
)

-- The stashed item `i` goes to the free position `pos` of its own.
module _ (c : Coucal) (i pos : ℕ) (l : Layout c) (v : Vacant c (get_stash c i) pos)
    (lv : is_empty_item (get_stash c i) ≡ false) (inside : i < stash_size) where
  abbrev unstashed : Coucal
  unstashed =
      let c' = set_stash (set_item c pos (get_stash c i)) i null_item in
      record c' { stash = record (c'.stash) { size = dec_size c'.stash.size } }

  taken :
      (f : Item → ℕ)
      → total f (set c.stash.items i null_item) + mass f (get_stash c i) ≡ total f c.stash.items
  taken f = omega (arith, total-set f c.stash.items i null_item (omega (arith, l.stash_width)))

  unstashed-Layout : Layout unstashed
  unstashed-Layout = record {
    lg_low = l.lg_low;
    lg_high = l.lg_high;
    width = length-set c.items pos (get_stash c i) ∙ l.width;
    home = set_item-home c pos (get_stash c i) l.home v.inside v.at_home;
    stash_width = length-set c.stash.items i null_item ∙ l.stash_width;
    stash_extent = l.stash_extent;
    stash_live =
        ground (arith, taken (λ _. 1), l.stash_live, l.stash_width, live-le-length c.stash.items);
    stash_clear = λ j h. ground (
      arith,
      get_or-set c.stash.items i j null_item null_item (omega (arith, l.stash_width)),
      l.stash_clear j,
    );
  }

  unstashed-Shuffled : Shuffled c unstashed
  unstashed-Shuffled = record {
    layout = unstashed-Layout;
    rest = record { lg_size = refl; used = refl; pool = refl; custom = refl; world = refl };
    stash_shrinks =
        ground (arith, taken (λ _. 1), l.stash_live, l.stash_width, live-le-length c.stash.items);
    balance = λ f. omega (
      arith,
      taken f,
      total-set f c.items pos (get_stash c i) v.inside,
      mass-free f (get_item c pos) v.free,
    );
  }

drain_one-Shuffled :
    (c : Coucal) (i : ℕ)
    → Layout c
    → i < stash_size
    → Shuffled c (drain_one c i) × ((drain_one c i).stash.extent ≡ c.stash.extent)
unfolding drain_one
drain_one-Shuffled c i l inside = elim (Bool-cases (is_empty_item (get_stash c i))) [
  | inl e ↦ rw e (Shuffled-refl c l, refl)
  | inr e ↦ elim (Option-cases (vacancy c (get_stash c i))) [
    | inl full ↦ rw (e, full) (Shuffled-refl c l, refl)
    | inr (pos, found) ↦
        rw (e, found)
          (
            unstashed-Shuffled c i pos l (vacancy-Vacant c (get_stash c i) pos l found) e inside,
            refl,
          )
  ]
]

drain_from-Shuffled :
    (n i : ℕ) (c : Coucal)
    → Layout c
    → i + n ≤ stash_size
    → Shuffled c (drain_from n i c) × ((drain_from n i c).stash.extent ≡ c.stash.extent)
unfolding drain_from
drain_from-Shuffled zero i c l h = (Shuffled-refl c l, refl)
drain_from-Shuffled (suc n) i c l h =
    let (one, same) = drain_one-Shuffled c i l (omega arith) in
    let (rest, same') = drain_from-Shuffled n (i + 1) (drain_one c i) one.layout (omega arith) in
    (Shuffled-trans one rest, same' ∙ same)

trim-le : (items : List Item) (extent : ℕ) → trim items extent ≤ extent
unfolding trim
trim-le items zero = omega arith
trim-le items (suc extent) = ground (arith, trim-le items extent)

trim-clear :
    (items : List Item) (extent : ℕ) (i : ℕ)
    → trim items extent ≤ i
    → i < extent
    → (get_or items i null_item).name ≡ none
unfolding trim
trim-clear items zero i h lt = absurd (omega arith)
trim-clear items (suc extent) i h lt = elim (Bool-cases (i == extent)) [
  | inl e ↦ ground arith
  | inr e ↦ ground (arith, trim-clear items extent i)
]

-- The extent falls past free slots only.
pub trim_stash-Shuffled : (c : Coucal) → Layout c → Shuffled c (trim_stash c)
unfolding trim_stash
trim_stash-Shuffled c l = record {
  layout = record {
    lg_low = l.lg_low;
    lg_high = l.lg_high;
    width = l.width;
    home = l.home;
    stash_width = l.stash_width;
    stash_extent = omega (arith, trim-le c.stash.items c.stash.extent, l.stash_extent);
    stash_live = l.stash_live;
    stash_clear = λ i h. elim (Bool-cases (ltb i c.stash.extent)) [
      | inl e ↦ trim-clear c.stash.items c.stash.extent i h (ground arith)
      | inr e ↦ l.stash_clear i (ground arith)
    ];
  };
  rest = record { lg_size = refl; used = refl; pool = refl; custom = refl; world = refl };
  stash_shrinks = omega arith;
  balance = λ f. refl;
}

-- On a table that keeps the layout, `coucal_drain_stash` keeps the layout, every weight of the
-- entries and the rest of the table, and does not grow the stash.
pub drain_stash-Shuffled : (c : Coucal) → Layout c → Shuffled c (drain_stash c)
unfolding drain_stash
drain_stash-Shuffled c l =
    let (drained, _) = drain_from-Shuffled c.stash.extent 0 c l (omega (arith, l.stash_extent)) in
    Shuffled-trans drained (trim_stash-Shuffled (drain_from c.stash.extent 0 c) drained.layout)
