-- ===== src/Table/Layout.antt =====
-- The layout of a table: where its items may stand.
use coucal.Base.{ℕ, ◌+◌, ◌≤◌, ◌<◌, ◌≡◌, refl, ◌⊎◌, none, length, get_or-set, arith}
use coucal.Base.Words.{pow2}
use coucal.State.{Item, null_item, Coucal, stash_size}
use coucal.Table.Entries.{total, live}
use coucal.Table.{hash_to_pos_at, get_item, set_item, get_stash}

-- An item of slot `i` stands at one of its two positions.
abbrev pub IsHome : ℕ → ℕ → Item → Type 0
IsHome lg i item =
    (item.name ≡ none)
    ⊎ ((hash_to_pos_at lg item.hashes.hash1 ≡ i) ⊎ (hash_to_pos_at lg item.hashes.hash2 ≡ i))

pub record Layout (c : Coucal) : Type 0 where
  pub lg_low : 4 ≤ c.lg_size
  pub lg_high : c.lg_size ≤ 32
  pub width : length c.items ≡ pow2 c.lg_size
  pub home : (i : ℕ) → IsHome c.lg_size i (get_item c i)
  pub stash_width : length c.stash.items ≡ stash_size
  pub stash_extent : c.stash.extent ≤ stash_size
  pub stash_live : live c.stash.items ≡ c.stash.size
  pub stash_clear : (i : ℕ) → c.stash.extent ≤ i → (get_stash c i).name ≡ none

-- What the operations that only move items leave alone.
pub record SameRest (c c' : Coucal) : Type 0 where
  pub lg_size : c'.lg_size ≡ c.lg_size
  pub used : c'.used ≡ c.used
  pub pool : c'.pool ≡ c.pool
  pub custom : c'.custom ≡ c.custom
  pub world : c'.world ≡ c.world

-- All the entries: those of the table, then those of the stash.
abbrev pub weight : (Item → ℕ) → Coucal → ℕ
weight f c = total f c.items + total f c.stash.items

pub SameRest-refl : (c : Coucal) → SameRest c c
SameRest-refl c = record { lg_size = refl; used = refl; pool = refl; custom = refl; world = refl }

pub SameRest-trans : {a b c : Coucal} → SameRest a b → SameRest b c → SameRest a c
SameRest-trans h k = record { lg_size = cc; used = cc; pool = cc; custom = cc; world = cc }

-- A write at a position of the item keeps the others home.
pub set_item-home :
    (c : Coucal) (pos : ℕ) (item : Item)
    → ((i : ℕ) → IsHome c.lg_size i (get_item c i))
    → pos < length c.items
    → IsHome c.lg_size pos item
    → (i : ℕ) → IsHome c.lg_size i (get_item (set_item c pos item) i)
set_item-home c pos item h lt at i =
    rw (get_or-set c.items pos i item null_item lt) (ground (arith, h i))
