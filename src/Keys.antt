-- ===== src/Keys.antt =====
-- Keys as the table sees them: hashing, comparison, duplication and release, each by the caller's
-- handler or by the default (coucal.c, from `coucal_calc_hashes` to `coucal_free_key`).
pub mod Laws
use coucal.Base.{ℕ, Bool, true, false, ◌&&◌, none, some, List, [], ◌∷◌, ◌==◌}
use coucal.Hash.{hash_string}
use coucal.Pool.{text, dup_name_internal, free_key_internal}
use coucal.Run.{Run, ok}
use coucal.State.{Hashkeys, Name, outside, Item, KeyHandlers, Coucal, Allocator}

-- `strcmp(a, b) == 0`
unfoldable pub strcmp_equal : List ℕ → List ℕ → Bool
strcmp_equal [] [] = true
strcmp_equal [] (b ∷ bs) = false
strcmp_equal (a ∷ as') [] = false
strcmp_equal (a ∷ as') (b ∷ bs) = a == b && strcmp_equal as' bs

-- What `calc_hashes` and `equals` do with what the keys hold.
unfoldable pub hash_text : KeyHandlers → List ℕ → Hashkeys
hash_text h bytes = elim h.hash [ none ↦ hash_string bytes | some hash ↦ hash bytes ]

unfoldable pub equal_texts : KeyHandlers → List ℕ → List ℕ → Bool
unfolding strcmp_equal
equal_texts h a b = elim h.equals [ none ↦ strcmp_equal a b | some equals ↦ equals a b ]

abbrev pub key_text : Coucal → Name → List ℕ
key_text c name = text c.pool.buffer name

unfoldable pub calc_hashes : Coucal → Name → Hashkeys
calc_hashes c name = hash_text c.custom.key (key_text c name)

unfoldable pub equals : Coucal → Name → Name → Bool
equals c a b = equal_texts c.custom.key (key_text c a) (key_text c b)

-- `coucal_matches_`; `coucal_matches` is the same at an item of the table.
unfoldable pub matches : Coucal → Item → Name → Hashkeys → Bool
matches c item name hashes = elim item.name [
  | none ↦ false
  | some stored ↦
      item.hashes.hash1 == hashes.hash1
      && (item.hashes.hash2 == hashes.hash2 && equals c stored name)
]

unfoldable pub dup_name : Allocator → Coucal → Name → Run (Coucal × Name)
dup_name alloc c name = elim c.custom.key.dup [
  | none ↦ dup_name_internal alloc c name
  | some dup ↦ ok (c, outside (dup (key_text c name)))
]

unfoldable pub free_key : Allocator → Coucal → Name → Run Coucal
free_key alloc c name = elim c.custom.key.free [
  | none ↦ free_key_internal alloc c name
  | some _ ↦
      ok (record c {
        world = record (c.world) { freed_keys = key_text c name ∷ c.world.freed_keys };
      })
]
