-- ===== src/Table/Stashing.antt =====
-- The emergency stash of `coucal_add_item_`, and the whole function.
use coucal.Base.{
  ℕ, zero, suc, ◌+◌, ◌≤◌, ◌<◌, ◌≡◌, refl, ap, ◌∙◌, ◌≢◌, inl, inr, Bool, true, Option, none, some,
  List, [], ◌∷◌, get_or, set, ◌==◌, get_or-set, length-set, Bool-cases, lt→ltb, arith,
}
use coucal.Base.Words.{pow2}
use coucal.Run.{◌>>=◌, Returns}
use coucal.State.{Item, null_item, Coucal, stash_size}
use coucal.Table.Add.{first_hole, put_in_stash, add_to_stash, settle, add_item}
use coucal.Table.Entries.{mass, total, live, total-set}
use coucal.Table.Layout.{IsHome, Layout, SameRest, SameRest-trans, weight, set_item-home}
use coucal.Table.Placing.{Kicked, cuckoo-Kicked, mass-free, set_item-SameRest}
use coucal.Table.Position.{hash_to_pos_at-lt}
use coucal.Table.{hash_to_pos, get_item, set_item, get_stash, is_free}

first_hole-le : (n : ℕ) (items : List Item) → first_hole n items ≤ n
unfolding first_hole
first_hole-le zero items = omega arith
first_hole-le (suc n) [] = omega arith
first_hole-le (suc n) (x ∷ items) = ground (arith, first_hole-le n items)

first_hole-free :
    (n : ℕ) (items : List Item)
    → first_hole n items < n
    → (get_or items (first_hole n items) null_item).name ≡ none
unfolding first_hole
first_hole-free zero items h = absurd (omega arith)
first_hole-free (suc n) [] h = refl
first_hole-free (suc n) (x ∷ items) h = ground (arith, first_hole-free n items)

-- Without a hole all the slots up to the extent are live.
first_hole-full : (n : ℕ) (items : List Item) → first_hole n items ≡ n → n ≤ live items
unfolding first_hole total
first_hole-full zero items h = omega arith
first_hole-full (suc n) [] h = absurd (omega arith)
first_hole-full (suc n) (x ∷ items) h = ground (arith, first_hole-full n items)

-- What `coucal_add_item_` promises.
pub record Added (c : Coucal) (item : Item) (r : Coucal × Bool) : Type 0 where
  pub done : r.1 ≡ true
  pub layout : Layout r.0
  pub rest : SameRest c r.0
  pub stash_grows : r.0.stash.size ≤ c.stash.size + 1
  pub balance : (f : Item → ℕ) → weight f r.0 ≡ weight f c + mass f item

module _ (c : Coucal) (item : Item) (l : Layout c) (room : c.stash.size < stash_size)
    (lv : item.name ≢ none) where
  hole : ℕ
  hole = first_hole c.stash.extent c.stash.items

  hole-lt : hole < stash_size
  unfolding hole
  hole-lt = elim (Bool-cases (hole == c.stash.extent)) [
    | inl e ↦
        ground (arith, l.stash_live, l.stash_extent, first_hole-full c.stash.extent c.stash.items)
    | inr e ↦ ground (arith, l.stash_extent, first_hole-le c.stash.extent c.stash.items)
  ]

  hole-free : (get_or c.stash.items hole null_item).name ≡ none
  unfolding hole
  hole-free = elim (Bool-cases (hole == c.stash.extent)) [
    | inl e ↦ l.stash_clear _ (ground arith)
    | inr e ↦
        first_hole-free c.stash.extent c.stash.items
          (ground (arith, first_hole-le c.stash.extent c.stash.items))
  ]

  stash-balance :
      (f : Item → ℕ) → total f (set c.stash.items hole item) ≡ total f c.stash.items + mass f item
  stash-balance f = ground (
    arith,
    total-set f c.stash.items hole item (omega (arith, l.stash_width, hole-lt)),
    hole-free,
  )

  put_in_stash-clear :
      (i : ℕ)
      → (put_in_stash c item).stash.extent ≤ i
      → (get_stash (put_in_stash c item) i).name ≡ none
  unfolding put_in_stash hole
  put_in_stash-clear i h = ground (
    arith,
    get_or-set c.stash.items hole i item null_item (omega (arith, l.stash_width, hole-lt)),
    l.stash_clear i,
    l.stash_extent,
    hole-lt,
    first_hole-le c.stash.extent c.stash.items,
  )

  pub put_in_stash-Layout : Layout (put_in_stash c item)
  unfolding put_in_stash hole
  put_in_stash-Layout = record {
    lg_low = l.lg_low;
    lg_high = l.lg_high;
    width = l.width;
    home = l.home;
    stash_width = length-set c.stash.items hole item ∙ l.stash_width;
    stash_extent = ground (arith, hole-lt, l.stash_extent);
    stash_live = ground (arith, stash-balance (λ _. 1), l.stash_live);
    stash_clear = put_in_stash-clear;
  }

  pub put_in_stash-Added : Added c item (put_in_stash c item, true)
  unfolding put_in_stash hole
  put_in_stash-Added = record {
    done = refl;
    layout = put_in_stash-Layout;
    rest = record { lg_size = refl; used = refl; pool = refl; custom = refl; world = refl };
    stash_grows = omega arith;
    balance = λ f. omega (arith, stash-balance f);
  }

-- The loop does not touch the stash, so the layout holds between it and the emergency stash.
Kicked-Layout :
    (c : Coucal) (item : Item) (r : Coucal × Option Item) → Layout c → Kicked c item r → Layout r.0
Kicked-Layout c item (c', left) l k = record {
  lg_low = rw k.rest.lg_size l.lg_low;
  lg_high = rw k.rest.lg_size l.lg_high;
  width = rw k.rest.lg_size (k.width ∙ l.width);
  home = k.home;
  stash_width = rw k.stash l.stash_width;
  stash_extent = rw k.stash l.stash_extent;
  stash_live = rw k.stash l.stash_live;
  stash_clear = rw k.stash l.stash_clear;
}

settle-Added :
    (c : Coucal) (item : Item) (r : Coucal × Option Item)
    → Layout c
    → c.stash.size < stash_size
    → Kicked c item r
    → Returns (settle r) (Added c item)
unfolding settle add_to_stash
settle-Added c item (c', none) l room k = (
  (c', true),
  refl,
  record {
    done = refl;
    layout = Kicked-Layout c item (c', none) l k;
    rest = k.rest;
    stash_grows = rw k.stash (omega arith);
    balance = λ f. rw k.stash (omega (arith, k.balance f));
  },
)
settle-Added c item (c', some lost) l room k =
    let room' : c'.stash.size < stash_size = rw k.stash room in
    let a =
      put_in_stash-Added c' lost (Kicked-Layout c item (c', some lost) l k) room' k.left_live in
    (
      (put_in_stash c' lost, true),
      rw (lt→ltb _ _ room'),
      record {
        done = refl;
        layout = a.layout;
        rest = SameRest-trans k.rest a.rest;
        stash_grows = omega (arith, a.stash_grows, ap (λ s. s.size) k.stash);
        balance = λ f. omega (arith, a.balance f, k.balance f, ap (λ s. total f s.items) k.stash);
      },
    )

-- An item that goes to a free position of its own.
placed-Added :
    (c : Coucal) (pos : ℕ) (item : Item)
    → Layout c
    → pos < pow2 c.lg_size
    → IsHome c.lg_size pos item
    → is_free c pos ≡ true
    → Added c item (set_item c pos item, true)
placed-Added c pos item l inside at e = record {
  done = refl;
  layout = record {
    lg_low = l.lg_low;
    lg_high = l.lg_high;
    width = length-set c.items pos item ∙ l.width;
    home = set_item-home c pos item l.home (rw l.width inside) at;
    stash_width = l.stash_width;
    stash_extent = l.stash_extent;
    stash_live = l.stash_live;
    stash_clear = l.stash_clear;
  };
  rest = set_item-SameRest c pos item;
  stash_grows = omega arith;
  balance = λ f.
      omega
        (arith, total-set f c.items pos item (rw l.width inside), mass-free f (get_item c pos) e);
}

-- On a table that keeps the layout and has a free slot in the stash, `coucal_add_item_` with an item
-- that has a key fails no assertion and returns 1: the layout is kept, every weight of the entries
-- grows by that of the item (so it is added, and no entry is lost), the stash grows by one at most,
-- and the rest of the table is as before.
pub add_item-Added :
    (c : Coucal) (item : Item)
    → Layout c
    → c.stash.size < stash_size
    → item.name ≢ none
    → Returns (add_item c item) (Added c item)
unfolding add_item hash_to_pos
add_item-Added c item l room lv = elim (Bool-cases (is_free c pos1)) [
  | inl e ↦ ((set_item c pos1 item, true), rw e, placed-Added c pos1 item l in1 (inr (inl refl)) e)
  | inr e ↦ elim (Bool-cases (is_free c pos2)) [
    | inl e' ↦ (
      (set_item c pos2 item, true),
      rw (e, e'),
      placed-Added c pos2 item l in2 (inr (inr refl)) e',
    )
    | inr e' ↦
        let (r, run, k) =
          cuckoo-Kicked (pow2 c.lg_size) c item item.hashes.hash1 item.hashes.hash1 l.lg_high
            l.width l.home lv (inr (inl refl)) in
        let (r', run', a) = settle-Added c item r l room k in (r', rw (e, e', run, ◌>>=◌) run', a)
  ]
]
  where
    pos1 : ℕ
    pos1 = hash_to_pos c item.hashes.hash1

    pos2 : ℕ
    pos2 = hash_to_pos c item.hashes.hash2

    in1 : pos1 < pow2 c.lg_size
    in1 = hash_to_pos_at-lt c.lg_size item.hashes.hash1 l.lg_high

    in2 : pos2 < pow2 c.lg_size
    in2 = hash_to_pos_at-lt c.lg_size item.hashes.hash2 l.lg_high
