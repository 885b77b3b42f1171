-- ===== src/Table.antt =====
-- The slots of the table and of the stash, and the search for a key in them (coucal.c).
pub mod Add
pub mod Entries
pub mod Position
pub mod Layout
pub mod Placing
pub mod View
pub mod Wiping
pub mod Removing
pub mod Writing
pub mod Adding
pub mod Replacing
pub mod Exchanging
pub mod Slots
pub mod Spans
pub mod Rekeying
pub mod Thinning
pub mod Pooling
pub mod Modes
pub mod Invisible
pub mod Reading
pub mod Finding
pub mod Valid
pub mod Merging
pub mod Growing
pub mod Relocating
pub mod Draining
pub mod Stashing
pub mod Grow
pub mod Write
pub mod Remove
use coucal.Base.{
  ℕ, zero, suc, ◌+◌, ◌-◌, ◌%◌, Bool, true, false, Option, none, some, List, [], ◌∷◌, get_or, set,
  ◌==◌, if◌then◌else◌, is_none, bit_and,
}
use coucal.Base.Words.{u32_mod, pow2}
use coucal.Keys.{calc_hashes, matches}
use coucal.State.{Hashkeys, Name, Item, null_item, Stash, Coucal}

-- `coucal_hash_to_pos_`: the mask is cut to 32 bits.
unfoldable pub hash_to_pos_at : ℕ → ℕ → ℕ
hash_to_pos_at lg_size hash = bit_and hash ((pow2 lg_size - 1) % u32_mod)

unfoldable pub hash_to_pos : Coucal → ℕ → ℕ
unfolding hash_to_pos_at
hash_to_pos c hash = hash_to_pos_at c.lg_size hash

-- `hashtable->items[pos]`, read and written. Reads and writes out of range do not happen
-- (`hash_to_pos` is in range); here they give the empty item and change nothing.
abbrev pub get_item : Coucal → ℕ → Item
get_item c pos = get_or c.items pos null_item

abbrev pub set_item : Coucal → ℕ → Item → Coucal
set_item c pos item = record c { items = set c.items pos item }

abbrev pub get_stash : Coucal → ℕ → Item
get_stash c i = get_or c.stash.items i null_item

abbrev pub set_stash : Coucal → ℕ → Item → Coucal
set_stash c i item = record c { stash = record (c.stash) { items = set c.stash.items i item } }

abbrev pub is_empty_item : Item → Bool
is_empty_item item = is_none item.name

abbrev pub is_free : Coucal → ℕ → Bool
is_free c pos = is_empty_item (get_item c pos)

-- A place where an item stands: `&items[pos]` or `&stash.items[i]`.
pub data Slot : Type 0 where
  in_table : ℕ → Slot
  in_stash : ℕ → Slot

abbrev pub item_at : Coucal → Slot → Item
item_at c (in_table pos) = get_item c pos
item_at c (in_stash i) = get_stash c i

abbrev pub write_at : Coucal → Slot → Item → Coucal
write_at c (in_table pos) item = set_item c pos item
write_at c (in_stash i) item = set_stash c i item

-- The loop over the stash, `n` rounds from index `i` on: the index of the first match.
unfoldable pub find_in_stash : Coucal → Name → Hashkeys → ℕ → List Item → ℕ → Option ℕ
unfolding matches
find_in_stash c name hashes zero items i = none
find_in_stash c name hashes (suc n) [] i = none
find_in_stash c name hashes (suc n) (item ∷ items) i =
    if matches c item name hashes then some i else find_in_stash c name hashes n items (i + 1)

-- `if (stash.size != 0) for (i = 0; i < stash.extent; i++)`
unfoldable pub search_stash : Coucal → Name → Hashkeys → Option ℕ
unfolding find_in_stash
search_stash c name hashes =
    if c.stash.size == 0 then none else find_in_stash c name hashes c.stash.extent c.stash.items 0

-- `coucal_fetch_value_hashes`: the pointer to a value is the slot that it stands in.
unfoldable pub fetch_value_hashes : Coucal → Name → Hashkeys → Option Slot
fetch_value_hashes c name hashes =
    let pos1 = hash_to_pos c hashes.hash1 in
    let pos2 = hash_to_pos c hashes.hash2 in
    if matches c (get_item c pos1) name hashes
    then some (in_table pos1)
    else if matches c (get_item c pos2) name hashes
    then some (in_table pos2)
    else elim (search_stash c name hashes) [ none ↦ none | some i ↦ some (in_stash i) ]

unfoldable pub fetch_value : Coucal → Name → Option Slot
fetch_value c name = fetch_value_hashes c name (calc_hashes c name)
