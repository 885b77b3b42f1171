-- ===== src/Table/Add.antt =====
-- `coucal_add_item_`: the cuckoo loop and the emergency stash, and `coucal_drain_stash`.
use coucal.Base.{
  ℕ, zero, suc, ◌+◌, Bool, true, false, Option, none, some, List, [], ◌∷◌, get_or, set, ltb, ◌==◌,
  if◌then◌else◌,
}
use coucal.Base.Words.{inc_size, dec_size, pow2}
use coucal.Run.{Run, ok, abort, ◌>>=◌}
use coucal.State.{Item, null_item, Coucal, stash_size}
use coucal.Table.{hash_to_pos, get_item, set_item, get_stash, set_stash, is_empty_item, is_free}

abbrev pub count_moved : Coucal → Coucal
count_moved c = record c {
  stats = record (c.stats) { cuckoo_moved = inc_size c.stats.cuckoo_moved };
}

-- The hash that leads to the other position of an item that was kicked from `pos`.
unfoldable pub other_hash : Coucal → ℕ → Item → Run ℕ
unfolding hash_to_pos
other_hash c pos item =
    if pos == hash_to_pos c item.hashes.hash1
    then ok item.hashes.hash2
    else if pos == hash_to_pos c item.hashes.hash2
    then ok item.hashes.hash1
    else abort

-- The loop `for (loops = POW2(lg_size); loops != 0; --loops)`. With `none` the item was placed; with
-- `some item` the loop was left and `item` has no place.
unfoldable pub cuckoo : ℕ → Coucal → Item → ℕ → ℕ → Run (Coucal × Option Item)
unfolding hash_to_pos other_hash
cuckoo zero c item cuckoo_hash initial_cuckoo_hash = ok (c, some item)
cuckoo (suc loops) c item cuckoo_hash initial_cuckoo_hash =
    let pos = hash_to_pos c cuckoo_hash in
    let lost = get_item c pos in
    let kicked = count_moved (set_item c pos item) in
    elim (is_free c pos) [
      | true ↦ ok (set_item c pos item, none)
      | false ↦ other_hash c pos lost >>= λ next. elim (next == initial_cuckoo_hash) [
        | true ↦ ok (kicked, some lost)
        | false ↦ cuckoo loops kicked lost next initial_cuckoo_hash
      ]
    ]

-- `for (i = 0; i < stash.extent && stash.items[i].name != NULL; i++);`
unfoldable pub first_hole : ℕ → List Item → ℕ
first_hole zero items = 0
first_hole (suc n) [] = 0
first_hole (suc n) (item ∷ items) = if is_empty_item item then 0 else suc (first_hole n items)

-- "emergency stashing for the rare cases of collisions", with the statistics.
unfoldable pub put_in_stash : Coucal → Item → Coucal
unfolding first_hole
put_in_stash c item =
    let s = c.stash in
    let i = first_hole s.extent s.items in
    let extent = if i == s.extent then inc_size s.extent else s.extent in
    let size = inc_size s.size in
    let max_size = if ltb c.stats.max_stash_size size then size else c.stats.max_stash_size in
    record c {
      stash = record { items = set s.items i item; size = size; extent = extent };
      stats = record (c.stats) {
        stash_added = inc_size c.stats.stash_added;
        max_stash_size = max_size;
      };
    }

-- With a full stash the code logs and fails an assertion.
unfoldable pub add_to_stash : Coucal → Item → Run Coucal
unfolding put_in_stash
add_to_stash c item = if ltb c.stash.size stash_size then ok (put_in_stash c item) else abort

-- What is done after the loop with the item that it left over.
unfoldable pub settle : Coucal × Option Item → Run (Coucal × Bool)
unfolding add_to_stash
settle (c, none) = ok (c, true)
settle (c, some item) = add_to_stash c item >>= λ c'. ok (c', true)

-- `coucal_add_item_`. It returns 1, or does not return.
unfoldable pub add_item : Coucal → Item → Run (Coucal × Bool)
unfolding hash_to_pos cuckoo settle
add_item c item =
    let pos1 = hash_to_pos c item.hashes.hash1 in
    let pos2 = hash_to_pos c item.hashes.hash2 in
    let hash = item.hashes.hash1 in
    if is_free c pos1
    then ok (set_item c pos1 item, true)
    else if is_free c pos2
    then ok (set_item c pos2 item, true)
    else cuckoo (pow2 c.lg_size) c item hash hash >>= settle

-- The place in the table to which a stashed item can move: `none` is the `(size_t) -1` of the code.
unfoldable pub vacancy : Coucal → Item → Option ℕ
unfolding hash_to_pos
vacancy c item =
    let pos1 = hash_to_pos c item.hashes.hash1 in
    let pos2 = hash_to_pos c item.hashes.hash2 in
    if is_free c pos1 then some pos1 else if is_free c pos2 then some pos2 else none

unfoldable pub drain_one : Coucal → ℕ → Coucal
unfolding vacancy
drain_one c i =
    let item = get_stash c i in
    if is_empty_item item then c else elim (vacancy c item) [
      | none ↦ c
      | some pos ↦
          let c' = set_stash (set_item c pos item) i null_item in
          record c' { stash = record (c'.stash) { size = dec_size c'.stash.size } }
    ]

-- `for (i = 0; i < stash.extent; i++)`, `n` rounds from `i` on.
unfoldable pub drain_from : ℕ → ℕ → Coucal → Coucal
unfolding drain_one
drain_from zero i c = c
drain_from (suc n) i c = drain_from n (i + 1) (drain_one c i)

-- `while (stash.extent != 0 && stash.items[stash.extent - 1].name == NULL) stash.extent--;`
unfoldable pub trim : List Item → ℕ → ℕ
trim items zero = 0
trim items (suc extent) =
    if is_empty_item (get_or items extent null_item) then trim items extent else suc extent

unfoldable pub trim_stash : Coucal → Coucal
unfolding trim
trim_stash c = record c { stash = record (c.stash) { extent = trim c.stash.items c.stash.extent } }

unfoldable pub drain_stash : Coucal → Coucal
unfolding drain_from trim_stash
drain_stash c = trim_stash (drain_from c.stash.extent 0 c)
