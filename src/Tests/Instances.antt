-- ===== src/Tests/Instances.antt =====
-- The theorems at concrete tables.
use coucal.Api.Creation.{new_table-Valid, get_pow2_lem, new_lem}
use coucal.Api.Settings.{with_handlers-Valid, with_free-Valid}
use coucal.Api.{get_pow2, new, new_table}
use coucal.Base.Words.{pow2}
use coucal.Base.{
  ◌≢◌, ℕ, ◌+◌, ◌-◌, ◌%◌, ◌^◌, ◌≤◌, ◌<◌, ◌≡◌, refl, ◌⊎◌, inl, inr, sym, ap, Bool, true, none, some,
  List, [], ◌∷◌, length, arith,
}
use coucal.Keys.Laws.{KeyLaws, strcmp-KeyLaws}
use coucal.Run.{Run, ok, abort, Returns}
use coucal.State.{Item, Coucal, default_free}
use coucal.Table.Add.{add_item, cuckoo, drain_stash}
use coucal.Table.Placing.{Kicked, cuckoo-Kicked}
use coucal.Table.Draining.{Shuffled}
use coucal.Table.Grow.{grow_if_full, grow, merge_stash}
use coucal.Table.Growing.{Grown, grow-Grown}
use coucal.Table.Merging.{merge_stash-Shuffled}
use coucal.Table.Position.{hash_to_pos_at-eq-mod}
use coucal.Table.Reading.{value_at, fetch_value-view}
use coucal.Table.Remove.{remove}
use coucal.Table.Removing.{Removed, remove-Removed}
use coucal.Table.Stashing.{Added, add_item-Added}
use coucal.Table.Valid.{Valid}
use coucal.Table.View.{view}
use coucal.Table.Write.{write_value}
use coucal.Table.Writing.{Wrote, CanAdd, write_value-Wrote}
use coucal.Table.{hash_to_pos_at, fetch_value}
use mathlib.Core.Option.{some-injective}
use coucal.Api.Reads.{Reads, reads_lem}
use coucal.Hash.{hash_string}
use coucal.Hash.Distinct.{hash_string-ne}
use coucal.Table.Invisible.{grow_if_full-view, drain_stash-view}
use coucal.Delete.{delete}
use coucal.Delete.Released.{delete-released}
use coucal.Delete.Weights.{tally, released_weight, released_key}
use coucal.Enum.{enum_new}
use coucal.Enum.Complete.{enumerate, enumerate-all}
use coucal.Table.Entries.{total}
use coucal.Table.Layout.{weight}
use coucal.Tests.{plenty, copying, nothing, empty, key, program, byte_hash}

pub copying-KeyLaws : KeyLaws copying
copying-KeyLaws =
    strcmp-KeyLaws copying refl (λ dup a e. sym (ap (λ f. f a) (some-injective _ _ e)))

abbrev base : Coucal
base = new_table nothing 4

empty-Valid : Valid empty
empty-Valid =
    with_free-Valid _ (some default_free) (
      with_handlers-Valid base copying (new_table-Valid nothing 4 (omega arith) (omega arith)) refl)

-- The first table of a run, or the empty one.
abbrev state_of : Run (Coucal × Bool) → Coucal
state_of abort = empty
state_of (ok r) = r.0

abbrev wrote : Coucal → ℕ → Coucal
wrote c b = state_of (write_value plenty c (key b) (b + 1))

CanAdd-wrote : (c : Coucal) → c.stash.size < 16 → c.lg_size < 32 → CanAdd plenty c
CanAdd-wrote c room small = record { room = room; small = small; memory = refl }

-- A write keeps a table of the handlers valid.
wrote-Valid :
    (c : Coucal) (b : ℕ)
    → c.custom.key ≡ copying
    → Valid c
    → c.stash.size < 16
    → c.lg_size < 32
    → Valid (wrote c b)
wrote-Valid c b e v room small =
    let (r, run, w) =
      write_value-Wrote plenty c (key b) (b + 1) (λ a. a) (rw e copying-KeyLaws) v (rw e)
        (λ _. CanAdd-wrote c room small) in
    rw run w.valid

-- Three keys of the same positions: two stand in the stash.
abbrev crowded : Coucal
crowded = wrote (wrote (wrote empty 64) 128) 192

crowded-Valid : Valid crowded
unfolding program
crowded-Valid =
    wrote-Valid (wrote (wrote empty 64) 128) 192 refl
      (wrote-Valid (wrote empty 64) 128 refl
        (wrote-Valid empty 64 refl empty-Valid (omega arith) (omega arith)) (omega arith)
        (omega arith))
      (omega arith) (omega arith)

write_value-Wrote_example :
    Returns (write_value plenty crowded (key 128) 5) (Wrote crowded (key 128) 5)
unfolding program
write_value-Wrote_example =
    write_value-Wrote plenty crowded (key 128) 5 (λ a. a) copying-KeyLaws crowded-Valid refl
      (λ _. CanAdd-wrote crowded (omega arith) (omega arith))

remove-Removed_example : Returns (remove plenty crowded (key 128)) (Removed crowded (key 128))
unfolding program
remove-Removed_example =
    remove-Removed plenty crowded (key 128) 1 copying-KeyLaws crowded-Valid refl

fetch_value-view_example :
    value_at crowded (fetch_value crowded (key 192)) ≡ view crowded (192 ∷ 7 ∷ [])
unfolding program
fetch_value-view_example = fetch_value-view crowded (key 192) crowded-Valid copying-KeyLaws

-- An entry of the positions of `crowded`.
abbrev newcomer : Item
newcomer = record { name = some (key 0); value = 9; hashes = byte_hash (0 ∷ 7 ∷ []) }

add_item-Added_example : Returns (add_item crowded newcomer) (Added crowded newcomer)
unfolding program
add_item-Added_example =
    add_item-Added crowded newcomer crowded-Valid.layout (omega arith) (λ e. cc)

grow-Grown_example : Returns (grow plenty crowded) (Grown crowded)
unfolding program
grow-Grown_example = grow-Grown plenty crowded crowded-Valid.layout (omega arith) refl

merge_stash-Shuffled_example : Returns (merge_stash crowded) (Shuffled crowded)
unfolding program
merge_stash-Shuffled_example = merge_stash-Shuffled crowded crowded-Valid.layout

cuckoo-Kicked_example : Returns (cuckoo 16 crowded newcomer 0 0) (Kicked crowded newcomer)
unfolding program
cuckoo-Kicked_example =
    cuckoo-Kicked 16 crowded newcomer 0 0 (omega arith) refl crowded-Valid.layout.home (λ e. cc)
      (inr (inl refl))

hash_to_pos_at-eq-mod_example : hash_to_pos_at 32 4294967295 ≡ 4294967295 % 2 ^ 32
hash_to_pos_at-eq-mod_example = hash_to_pos_at-eq-mod 32 4294967295 (omega arith)

get_pow2_lem_example :
    (4 ≤ get_pow2 100)
    × (100 ≤ 2 ^ 32 → (get_pow2 100 ≤ 32) × (100 ≤ pow2 (get_pow2 100)))
    × (2 ^ 32 < 100 → get_pow2 100 ≡ 33)
    × ((get_pow2 100 ≡ 4) ⊎ (pow2 (get_pow2 100 - 1) < 100))
get_pow2_lem_example = get_pow2_lem 100

new_lem_example :
    (100 ≤ 2 ^ 32
      → (c : Coucal) × (new plenty nothing 100 ≡ some c)
        × Valid c
        × ((k : List ℕ) → view c k ≡ none)
        × (100 ≤ length c.items))
    × (2 ^ 32 < 100 → new plenty nothing 100 ≡ none)
new_lem_example = new_lem plenty nothing 100 refl refl

reads_lem_example : Reads crowded (key 192)
unfolding program
reads_lem_example = reads_lem crowded (key 192) copying-KeyLaws crowded-Valid

enumerate-all_example :
    ((enumerate 40 (enum_new crowded)).1 ≡ true)
    × ((f : Item → ℕ) → total f (enumerate 40 (enum_new crowded)).0 ≡ weight f crowded)
unfolding program
enumerate-all_example = enumerate-all crowded 40 crowded-Valid.layout (omega arith)

delete-released_example : Returns (delete plenty crowded) λ w.
    ((g : ℕ → ℕ)
      → tally g w.freed_values
        ≡ tally g crowded.world.freed_values
          + weight (released_weight crowded.custom.value_free g) crowded)
    × ((g : List ℕ → ℕ)
        → tally g w.freed_keys
          ≡ tally g crowded.world.freed_keys
            + weight (released_key crowded.custom.key.free crowded.pool.buffer g) crowded)
unfolding program
delete-released_example = delete-released plenty crowded crowded-Valid.layout

hash_string-ne_example : (hash_string (104 ∷ 105 ∷ [])).hash1 ≢ (hash_string (104 ∷ 105 ∷ [])).hash2
hash_string-ne_example = hash_string-ne (104 ∷ 105 ∷ [])

grow_if_full-view_example :
    Returns
      (grow_if_full plenty crowded)
      λ c'. Valid c' × ((k : List ℕ) → view c' k ≡ view crowded k)
unfolding program
grow_if_full-view_example = grow_if_full-view plenty crowded crowded-Valid (omega arith) refl

drain_stash-view_example :
    Valid (drain_stash crowded) × ((k : List ℕ) → view (drain_stash crowded) k ≡ view crowded k)
unfolding program
drain_stash-view_example = drain_stash-view crowded crowded-Valid
