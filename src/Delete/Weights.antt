-- ===== src/Delete/Weights.antt =====
-- What is released with an item, and what a write to a slot leaves alone.
use coucal.Base.{
  ℕ, ◌+◌, ◌<◌, ◌≡◌, refl, ap, inl, inr, false, Option, none, some, List, [], ◌∷◌, length, get_or,
  get_or-set_self, get_or-beyond, ltb, ltb→lt, ◌==◌, if◌then◌else◌, Bool-cases, arith,
}
use coucal.Pool.{text}
use coucal.State.{Name, Item, null_item, ValueFree, World, Coucal}
use coucal.Table.Write.{free_value}
use coucal.Table.{Slot, in_table, in_stash, item_at, write_at, is_empty_item}

-- The sum of a weight over a list of values or keys: every weight tells how often each is there.
abbrev pub tally : {A : Type 0} → (A → ℕ) → List A → ℕ
tally g [] = 0
tally g (value ∷ values) = g value + tally g values

-- The weight of the value of an item that is released.
abbrev pub released_weight : Option ValueFree → (ℕ → ℕ) → Item → ℕ
released_weight none g item = 0
released_weight (some _) g item = if item.value == 0 then 0 else g item.value

-- The weight of the key of an item that is released, by what the key holds.
abbrev pub released_key : Option ℕ → Option (List ℕ) → (List ℕ → ℕ) → Item → ℕ
released_key none b g item = 0
released_key (some _) b g item = elim item.name [ none ↦ 0 | some name ↦ g (text b name) ]

pub tally-free_value :
    (h : Option ValueFree) (g : ℕ → ℕ) (item : Item) (w : World)
    → tally g (free_value h item.value w).freed_values
      ≡ tally g w.freed_values + released_weight h g item
unfolding free_value
tally-free_value none g item w = ground arith
tally-free_value (some _) g item w = ground arith

pub free_value-keys :
    (h : Option ValueFree) (v : ℕ) (w : World) → (free_value h v w).freed_keys ≡ w.freed_keys
unfolding free_value
free_value-keys none v w = ground arith
free_value-keys (some _) v w = ground arith

pub named_key :
    (h : Option ℕ) (b : Option (List ℕ)) (g : List ℕ → ℕ) (item : Item) (stored : Name) (f : ℕ)
    → h ≡ some f
    → item.name ≡ some stored
    → g (text b stored) ≡ released_key h b g item
named_key h b g item stored f e named = rw (e, named) refl

pub item_at-world :
    (c : Coucal) (w : World) (at : Slot) → item_at (record c { world = w }) at ≡ item_at c at
item_at-world c w (in_table pos) = refl
item_at-world c w (in_stash i) = refl

-- A write to a slot leaves the settings, the world and the pool.
pub write_at-apart :
    (c : Coucal) (at : Slot) (item : Item)
    → ((write_at c at item).custom ≡ c.custom)
      × ((write_at c at item).world ≡ c.world)
      × ((write_at c at item).pool ≡ c.pool)
write_at-apart c (in_table pos) item = (refl, refl, refl)
write_at-apart c (in_stash i) item = (refl, refl, refl)

pub live-in_range :
    (xs : List Item) (i : ℕ) → is_empty_item (get_or xs i null_item) ≡ false → i < length xs
live-in_range xs i e = elim (Bool-cases (ltb i (length xs))) [
  | inl h ↦ ltb→lt _ _ h
  | inr h ↦
      let out : get_or xs i null_item ≡ null_item = get_or-beyond xs i null_item (ground arith) in
      let free = ap is_empty_item out in cc
]

-- A live slot is read as it was written.
pub item_at-written :
    (c : Coucal) (at : Slot) (item : Item)
    → is_empty_item (item_at c at) ≡ false
    → item_at (write_at c at item) at ≡ item
item_at-written c (in_table pos) item e =
    get_or-set_self c.items pos item null_item (live-in_range c.items pos e)
item_at-written c (in_stash i) item e =
    get_or-set_self c.stash.items i item null_item (live-in_range c.stash.items i e)
