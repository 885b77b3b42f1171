-- ===== src/Table/Placing.antt =====
-- The cuckoo loop of `coucal_add_item_`.
use coucal.Base.{
  ℕ, zero, suc, ◌+◌, ◌≤◌, ◌<◌, ◌≡◌, refl, ◌∙◌, ◌≢◌, inl, inr, true, false, Option, none, some,
  length, ◌==◌, length-set, Bool-cases, arith,
}
use coucal.Base.Words.{pow2}
use coucal.Run.{◌>>=◌, Returns}
use coucal.State.{Item, Coucal}
use coucal.Table.Add.{other_hash, cuckoo, count_moved}
use coucal.Table.Entries.{mass, total, total-set}
use coucal.Table.Layout.{IsHome, SameRest, SameRest-refl, SameRest-trans, set_item-home}
use coucal.Table.Position.{hash_to_pos_at-lt}
use coucal.Table.{hash_to_pos, hash_to_pos_at, get_item, set_item, is_free, is_empty_item}

-- An item that was found at one of its positions has a hash that leads to the other.
other_hash-home :
    (c : Coucal) (pos : ℕ) (item : Item)
    → IsHome c.lg_size pos item
    → item.name ≢ none
    → Returns (other_hash c pos item) λ h. IsHome c.lg_size (hash_to_pos c h) item
unfolding other_hash hash_to_pos
other_hash-home c pos item h lv =
    elim (Bool-cases (pos == hash_to_pos_at c.lg_size item.hashes.hash1)) [
      | inl e ↦ (item.hashes.hash2, ground arith, ground arith)
      | inr e ↦ (item.hashes.hash1, ground arith, ground arith)
    ]

abbrev pub left_over : (Item → ℕ) → Option Item → ℕ
left_over f none = 0
left_over f (some item) = mass f item

abbrev pub IsLive : Option Item → Type 0
IsLive none = Unit
IsLive (some item) = item.name ≢ none

-- What the cuckoo loop leaves, started with `item` in hand.
pub record Kicked (c : Coucal) (item : Item) (r : Coucal × Option Item) : Type 0 where
  pub rest : SameRest c r.0
  pub stash : r.0.stash ≡ c.stash
  pub width : length r.0.items ≡ length c.items
  pub home : (i : ℕ) → IsHome r.0.lg_size i (get_item r.0 i)
  pub balance : (f : Item → ℕ) → total f r.0.items + left_over f r.1 ≡ total f c.items + mass f item
  pub left_live : IsLive r.1

pub set_item-SameRest : (c : Coucal) (pos : ℕ) (item : Item) → SameRest c (set_item c pos item)
set_item-SameRest c pos item = record {
  lg_size = refl;
  used = refl;
  pool = refl;
  custom = refl;
  world = refl;
}

kick-SameRest :
    (c : Coucal) (pos : ℕ) (item : Item) → SameRest c (count_moved (set_item c pos item))
kick-SameRest c pos item = record {
  lg_size = refl;
  used = refl;
  pool = refl;
  custom = refl;
  world = refl;
}

pub mass-free : (f : Item → ℕ) (item : Item) → is_empty_item item ≡ true → mass f item ≡ 0
mass-free f item e = ground arith

pub live_of_not_free : (item : Item) → is_empty_item item ≡ false → item.name ≢ none
live_of_not_free item e = ground arith

-- One kick, then the rest of the loop with the kicked item in hand.
Kicked-trans :
    (c : Coucal) (item lost : Item) (kicked : Coucal) (r : Coucal × Option Item)
    → Kicked c item (kicked, some lost)
    → Kicked kicked lost r
    → Kicked c item r
Kicked-trans c item lost kicked r h k = record {
  rest = SameRest-trans h.rest k.rest;
  stash = k.stash ∙ h.stash;
  width = k.width ∙ h.width;
  home = k.home;
  balance = λ f. omega (arith, h.balance f, k.balance f);
  left_live = k.left_live;
}

-- With an item in hand that has a key and a hash of it that leads home, on a table of at most 2 ^ 32
-- slots in which every item is at one of its two positions, the cuckoo loop of `coucal_add_item_`
-- fails no assertion, whatever the number of rounds. Every item is home afterwards, and what the
-- table holds with the item that is left over, if one is, weighs what it did with the item in hand;
-- the stash and the rest of the table are as before.
pub cuckoo-Kicked :
    (loops : ℕ) (c : Coucal) (item : Item) (h init : ℕ)
    → c.lg_size ≤ 32
    → length c.items ≡ pow2 c.lg_size
    → ((i : ℕ) → IsHome c.lg_size i (get_item c i))
    → item.name ≢ none
    → IsHome c.lg_size (hash_to_pos c h) item
    → Returns (cuckoo loops c item h init) (Kicked c item)
unfolding cuckoo hash_to_pos
cuckoo-Kicked zero c item h init high width home lv at = (
  (c, some item),
  refl,
  record {
    rest = SameRest-refl c;
    stash = refl;
    width = refl;
    home = home;
    balance = λ f. refl;
    left_live = lv;
  },
)
cuckoo-Kicked (suc loops) c item h init high width home lv at = elim (Bool-cases (is_free c pos)) [
  | inl e ↦ (
    (set_item c pos item, none),
    rw (e, cuckoo),
    record {
      rest = set_item-SameRest c pos item;
      stash = refl;
      width = length-set c.items pos item;
      home = placed;
      balance = λ f. omega (arith, total-set f c.items pos item inside, mass-free f lost e);
      left_live = tt;
    },
  )
  | inr e ↦
      let (next, found, other) = other_hash-home c pos lost (home pos) (live_of_not_free lost e) in
      let stopped : Kicked c item (kicked, some lost) = record {
        rest = kick-SameRest c pos item;
        stash = refl;
        width = length-set c.items pos item;
        home = placed;
        balance = λ f. total-set f c.items pos item inside;
        left_live = live_of_not_free lost e;
      } in
      elim (Bool-cases (next == init)) [
        | inl back ↦ ((kicked, some lost), rw (e, cuckoo, found, ◌>>=◌, back), stopped)
        | inr on ↦
            let (r, run, k) =
              cuckoo-Kicked loops kicked lost next init high (length-set c.items pos item ∙ width)
                placed (live_of_not_free lost e) other in
            (r, rw (e, cuckoo, found, ◌>>=◌, on) run, Kicked-trans c item lost kicked r stopped k)
      ]
]
  where
    pos : ℕ
    pos = hash_to_pos c h

    lost : Item
    lost = get_item c pos

    kicked : Coucal
    kicked = count_moved (set_item c pos item)

    inside : pos < length c.items
    inside = omega (arith, hash_to_pos_at-lt c.lg_size h high)

    placed : (i : ℕ) → IsHome c.lg_size i (get_item (set_item c pos item) i)
    placed = set_item-home c pos item home inside at
