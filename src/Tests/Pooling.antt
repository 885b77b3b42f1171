-- ===== src/Tests/Pooling.antt =====
-- The theorems about the string pool and the default mode at concrete tables.
use coucal.Api.Modes.{Increased, inc_value-Increased}
use coucal.Api.Pooling.{set_up, set_up-PooledTable}
use coucal.Table.Modes.{library_keys}
use coucal.Api.{inc_value}
use coucal.Base.{
  ℕ, ◌+◌, ◌^◌, ◌≤◌, ◌<◌, ◌≡◌, refl, subst, sym, ap, Bool, some, List, [], ◌∷◌, ◌++◌, arith,
}
use coucal.Base.{Bool}
use coucal.Hash.Md5.{Md5, Streaming, fold_digest, hash_data_md5, hash_data_md5_lem}
use coucal.Hash.{separate}
use coucal.Keys.Laws.{KeyLaws, strcmp-KeyLaws}
use coucal.Pool.Appending.{Duplicated}
use coucal.Pool.Capacity.{grow_capacity_lem}
use coucal.Pool.Compacting.{StashClear, Compacted, compact_pool-Compacted}
use coucal.Pool.Duplicating.{Generous, dup_name_internal-Duplicated}
use coucal.Pool.Extending.{Roomy, realloc_pool-Roomy}
use coucal.Pool.Regions.{Pooled}
use coucal.Pool.Releasing.{Released, free_key_internal-Released, Dense, free_key_internal-Dense}
use coucal.Pool.Text.{Copied, copy_string-Copied}
use coucal.Pool.{
  text, copy_string, compact_pool, realloc_pool, grow_capacity, dup_name_internal,
  free_key_internal,
}
use coucal.Run.{Run, ok, abort, Returns}
use coucal.State.{Name, pooled, the_empty_string, Item, null_hashes, Coucal, default_free}
use coucal.Table.Pooling.Removing.{Dropped, remove-Dropped}
use coucal.Table.Pooling.Tables.{PooledTable}
use coucal.Table.Pooling.Writing.{Stored, write_value-Stored}
use coucal.Table.Modes.{library_keys}
use coucal.Table.Remove.{remove}
use coucal.Table.Write.{write_value}
use coucal.Tests.{plenty, pooling, nothing, key, pool_program}

pub pooling-KeyLaws : KeyLaws pooling
pooling-KeyLaws = strcmp-KeyLaws pooling refl (λ dup a e. cc)

pub generous : Generous plenty
generous n bytes = refl

abbrev start : Coucal
start = set_up nothing 4 pooling (some default_free)

start-PooledTable : PooledTable start
start-PooledTable =
    set_up-PooledTable nothing 4 pooling (some default_free) (omega arith) (omega arith)
      (record { no_dup = refl; no_free = refl })

abbrev pub table_of : Run (Coucal × Bool) → Coucal
table_of abort = start
table_of (ok r) = r.0

abbrev put : Coucal → ℕ → Coucal
put c b = table_of (write_value plenty c (key b) (b + 1))

-- A write keeps the pool in order.
put-PooledTable :
    (c : Coucal) (b : ℕ)
    → 0 < b
    → c.custom.key ≡ pooling
    → PooledTable c
    → c.stash.size < 16
    → c.lg_size < 32
    → c.pool.size ≤ 256
    → PooledTable (put c b)
unfolding text
put-PooledTable c b pos e t room small short =
    let (r, run, s) =
      write_value-Stored plenty c (key b) (b + 1) (rw e pooling-KeyLaws) t generous (λ _. record {
        room = room;
        small = small;
        string = (omega arith, (omega arith, tt));
        bound = omega arith;
      }) in
    rw run s.table

-- Three keys of the same positions, in the pool.
abbrev pub three : Coucal
three = put (put (put start 64) 128) 192

pub three-PooledTable : PooledTable three
unfolding pool_program
three-PooledTable =
    put-PooledTable (put (put start 64) 128) 192 (omega arith) refl
      (put-PooledTable (put start 64) 128 (omega arith) refl
        (put-PooledTable start 64 (omega arith) refl start-PooledTable (omega arith) (omega arith)
          (omega arith))
        (omega arith) (omega arith) (omega arith))
      (omega arith) (omega arith) (omega arith)

three-StashClear : StashClear three
three-StashClear = three-PooledTable.valid.layout.stash_clear

write_value-Stored_example :
    Returns (write_value plenty three (key 0x21) 5) (Stored three (key 0x21) 5)
unfolding pool_program
write_value-Stored_example =
    write_value-Stored plenty three (key 0x21) 5 pooling-KeyLaws three-PooledTable generous (λ _.
      record {
        room = omega arith;
        small = omega arith;
        string = (omega arith, (omega arith, tt));
        bound = omega arith;
      })

remove-Dropped_example : Returns (remove plenty three (key 128)) (Dropped three (key 128))
unfolding pool_program
remove-Dropped_example =
    remove-Dropped plenty three (key 128) pooling-KeyLaws three-PooledTable generous

inc_value-Increased_example :
    Returns (inc_value plenty three (key 128) 5) (Increased three (key 128) 5)
unfolding pool_program
inc_value-Increased_example =
    inc_value-Increased plenty three (key 128) 5 pooling-KeyLaws (library_keys three-PooledTable)
      generous (omega arith)
      (λ _. record {
        room = omega arith;
        small = omega arith;
        string = (omega arith, (omega arith, tt));
        bound = omega arith;
      })

-- The key to duplicate is memory of the pool itself.
dup_name_internal-Duplicated_example :
    Returns (dup_name_internal plenty three (pooled 3)) (Duplicated three (128 ∷ 7 ∷ []))
unfolding pool_program
dup_name_internal-Duplicated_example =
    dup_name_internal-Duplicated plenty three (pooled 3) three-PooledTable.pool three-StashClear
      generous (omega arith, (omega arith, tt)) (omega arith)

-- A key that was duplicated, and belongs to an item beside the table.
abbrev extra_of : Run (Coucal × Name) → Coucal × Name
extra_of abort = (three, the_empty_string)
extra_of (ok r) = r

abbrev extra : Coucal × Name
extra = extra_of (dup_name_internal plenty three (key 9))

abbrev item_of : Coucal × Name → Item
item_of r = record { name = some r.1; value = 0; hashes = null_hashes }

abbrev extra_item : Item
extra_item = item_of extra

extra-Pooled : Pooled extra.0 (some extra_item)
unfolding pool_program
extra-Pooled =
    let (r, run, d) =
      dup_name_internal-Duplicated plenty three (key 9) three-PooledTable.pool three-StashClear
        generous (omega arith, (omega arith, tt)) (omega arith) in
    subst (λ m. Pooled (extra_of m).0 (some (item_of (extra_of m)))) (sym run)
      (d.pooled (item_of r) refl)

free_key_internal-Released_example :
    Returns (free_key_internal plenty extra.0 extra.1) (Released extra.0)
unfolding pool_program
free_key_internal-Released_example =
    free_key_internal-Released plenty extra.0 extra_item extra.1 extra-Pooled three-StashClear
      generous refl

compact_pool-Compacted_example : Returns (compact_pool plenty three 9) (Compacted three 9)
unfolding pool_program
compact_pool-Compacted_example =
    compact_pool-Compacted plenty three 9 three-PooledTable.pool three-StashClear (omega arith)
      (omega arith) refl

realloc_pool-Roomy_example : Returns (realloc_pool plenty three 512) (Roomy three 512)
unfolding pool_program
realloc_pool-Roomy_example =
    realloc_pool-Roomy plenty three 512 three-PooledTable.pool three-StashClear (omega arith)
      (omega arith) refl

grow_capacity_lem_example :
    Returns (grow_capacity plenty 65 (2 ^ 8) 1000) λ n. (1000 ≤ n) × (n ≤ 2 ^ 63)
grow_capacity_lem_example =
    grow_capacity_lem plenty 65 8 1000 (omega arith) (omega arith) (omega arith)

free_key_internal-Dense_example : Returns (free_key_internal plenty extra.0 (pooled 9)) Dense
unfolding pool_program
free_key_internal-Dense_example =
    free_key_internal-Dense plenty extra.0 extra_item 9 extra-Pooled three-StashClear generous refl

-- Two bytes and their NUL fit a block of four bytes from the second one on.
abbrev zeros : List ℕ
zeros = 0 ∷ 0 ∷ 0 ∷ 0 ∷ []

copy_string-Copied_example :
    (1 + 2 < 4 → Returns (copy_string 4 zeros 1 (5 ∷ 6 ∷ 0 ∷ [])) (Copied zeros 1 (5 ∷ 6 ∷ [])))
    × (4 ≤ 1 + 2 → copy_string 4 zeros 1 (5 ∷ 6 ∷ 0 ∷ []) ≡ abort)
copy_string-Copied_example =
    copy_string-Copied 4 zeros 1 (5 ∷ 6 ∷ []) (omega arith, (omega arith, tt)) (omega arith)
      (omega arith)

set_up-PooledTable_example : PooledTable (set_up nothing 4 pooling (some default_free))
set_up-PooledTable_example =
    set_up-PooledTable nothing 4 pooling (some default_free) (omega arith) (omega arith)
      (record { no_dup = refl; no_free = refl })

-- A digest that keeps its input.
abbrev keeping : Md5
keeping = record { Context = List ℕ; init = ok []; update = λ ctx a. ctx ++ a; final = λ ctx. ctx }

append_assoc : (a b c : List ℕ) → (a ++ b) ++ c ≡ a ++ (b ++ c)
append_assoc [] b c = refl
append_assoc (x ∷ a) b c = ap (λ r. x ∷ r) (append_assoc a b c)

append-nil : (a : List ℕ) → a ++ [] ≡ a
append-nil [] = refl
append-nil (x ∷ a) = ap (λ r. x ∷ r) (append-nil a)

keeping-Streaming : Streaming keeping
keeping-Streaming = record { update-append = append_assoc; update-empty = append-nil }

hash_data_md5_lem_example :
    hash_data_md5 keeping (104 ∷ 105 ∷ []) ≡ ok (separate (fold_digest (104 ∷ 105 ∷ [])))
hash_data_md5_lem_example = hash_data_md5_lem keeping (104 ∷ 105 ∷ []) keeping-Streaming
