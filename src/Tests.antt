-- ===== src/Tests.antt =====
-- Runs on small tables, and the theorems at concrete inputs.
mod Instances
mod Pooling
mod Walks
mod Fuzzing
mod Clients
use coucal.Base.{
  replicate, ℕ, ◌+◌, ◌*◌, ◌/◌, ◌%◌, ◌≤◌, ◌<◌, ◌≡◌, refl, ◌∙◌, subst, sym, ap, inl, inr, Bool, true,
  false, Option, none, some, List, [], ◌∷◌, arith,
}
use coucal.Api.Creation.{new_table-Valid}
use coucal.Api.Settings.{with_handlers-Valid}
use coucal.Api.{new_table}
use coucal.Report.{assert_failed, set_global_assert_handler, logged, failed, of_table, global}
use coucal.Api.{set_assert_handler}
use coucal.Keys.Laws.{KeyLaws, strcmp-KeyLaws}
use coucal.Keys.{
  calc_hashes, equals, matches, dup_name, free_key, hash_text, equal_texts, strcmp_equal,
}
use coucal.Pool.{
  text, dup_name_internal, copy_name, make_room, append_string, realloc_pool, extend_pool,
  compact_pool, grow_capacity, free_key_internal, free_string, compact_if_sparse, invalidate, cstr,
}
use coucal.Run.{Run, ok, abort, ◌>>=◌, Returns}
use coucal.State.{
  Name, outside, Hashkeys, Item, null_item, KeyHandlers, World, Coucal, Allocator, ValueFree,
  default_free,
}
use coucal.Table.Add.{add_item, cuckoo, other_hash, settle, add_to_stash, drain_stash}
use coucal.Table.Grow.{grow, grow_if_full, double_items, relocate_from, merge_stash}
use coucal.Table.Remove.{remove, remove_entry, del_item, del_name, leave_hole}
use coucal.Table.Removing.{Removed, remove-Removed}
use coucal.Table.Valid.{Valid}
use coucal.Table.View.{view}
use coucal.Table.Write.{
  write_value, write_entry, store, write_new, drain_if_used, replace_value, del_value, free_value,
}
use coucal.Table.Writing.{Wrote, CanAdd, write_value-Wrote}
use coucal.Table.{hash_to_pos, hash_to_pos_at, search_stash, fetch_value, fetch_value_hashes}

-- Memory without bounds.
abbrev plenty : Allocator
plenty = record { succeeds = λ _ _. true; moves = λ _. false; garbage = λ _ _. 0 }

-- Hashes by the first byte: keys with the same first byte collide.
abbrev byte_hash : List ℕ → Hashkeys
byte_hash [] = record { hash1 = 0; hash2 = 1 }
byte_hash (b ∷ _) = record { hash1 = b; hash2 = b / 4 }

abbrev copying : KeyHandlers
copying = record { dup = some (λ a. a); free = some 1; hash = some byte_hash; equals = none }

abbrev nothing : World
nothing = record { freed_values = []; freed_keys = []; allocations = 0 }

abbrev empty : Coucal
empty =
    let c = new_table nothing 4 in
    record c { custom = record (c.custom) { key = copying; value_free = some default_free } }

abbrev key : ℕ → Name
key b = outside (b ∷ 7 ∷ [])

program : Unit {0}
unfolding text hash_text equal_texts strcmp_equal calc_hashes equals matches dup_name free_key
    cuckoo settle add_item drain_stash grow grow_if_full double_items relocate_from merge_stash
    remove remove_entry del_item del_name leave_hole write_value write_entry store write_new
    drain_if_used replace_value free_value del_value replicate hash_to_pos search_stash fetch_value
    fetch_value_hashes view
program = tt

abbrev Summary : Type 0
Summary = Bool × ℕ × ℕ × List ℕ × ℕ

-- The result, the number of items, the exponent, the freed values and the size of the stash.
abbrev summary : Coucal × Bool → Summary
summary (c, flag) = (flag, c.used, c.lg_size, c.world.freed_values, c.stash.size)

abbrev none_ran : Summary
none_ran = (false, 0, 0, [], 0)

abbrev summarise : Run (Coucal × Bool) → Summary
summarise abort = none_ran
summarise (ok r) = summary r

abbrev fill : List ℕ → Coucal × Bool → Run (Coucal × Bool)
fill [] r = ok r
fill (b ∷ bs) r = write_value plenty r.0 (key b) (b + 1) >>= fill bs

-- The second write of a key replaces, and the old value is freed.
rewrite_frees : summarise (fill (40 ∷ 40 ∷ []) (empty, false)) ≡ (false, 1, 4, 41 ∷ [], 0)
unfolding program
rewrite_frees = refl

-- The eighth entry doubles the table.
eighth_doubles :
    summarise (fill (1 ∷ 2 ∷ 3 ∷ 4 ∷ 5 ∷ 6 ∷ 7 ∷ 8 ∷ []) (empty, false)) ≡ (true, 8, 5, [], 0)
unfolding program
eighth_doubles = refl

-- Keys with the same positions end up in the stash.
third_is_stashed : summarise (fill (64 ∷ 128 ∷ 192 ∷ 0 ∷ []) (empty, false)) ≡ (true, 4, 4, [], 3)
unfolding program
third_is_stashed = refl

-- A removal frees the value, and a second one finds nothing.
removal_frees :
    summarise (fill (64 ∷ 128 ∷ 192 ∷ []) (empty, false) >>= λ r. remove plenty r.0 (key 128))
    ≡ (true, 2, 4, 129 ∷ [], 1)
unfolding program
removal_frees = refl

removal_of_nothing :
    summarise (fill (64 ∷ 128 ∷ []) (empty, false) >>= λ r. remove plenty r.0 (key 3))
    ≡ (false, 2, 4, [], 1)
unfolding program
removal_of_nothing = refl

-- Keys in the pool: no `dup` handler.
abbrev pooling : KeyHandlers
pooling = record { dup = none; free = none; hash = some byte_hash; equals = none }

abbrev empty_pooling : Coucal
empty_pooling = record empty { custom = record (empty.custom) { key = pooling } }

pool_program : Unit {0}
unfolding program dup_name_internal copy_name make_room append_string realloc_pool extend_pool
    compact_pool grow_capacity free_key_internal free_string compact_if_sparse invalidate cstr
pool_program = tt

abbrev pool_summary : Run (Coucal × Bool) → ℕ × ℕ × ℕ
pool_summary abort = (0, 0, 0)
pool_summary (ok (c, _)) = (c.pool.size, c.pool.capacity, c.pool.used)

-- Each key takes its bytes and a NUL; the pool grows to 256 bytes at the first one.
keys_in_pool : pool_summary (fill (64 ∷ 128 ∷ 3 ∷ []) (empty_pooling, false)) ≡ (9, 256, 9)
unfolding pool_program
keys_in_pool = refl

-- A removal leaves a hole in the pool, and compacts it if more than half is unused.
removals_compact :
    pool_summary (
      fill (64 ∷ 128 ∷ 3 ∷ []) (empty_pooling, false) >>= λ r.
      remove plenty r.0 (key 64) >>= λ r. remove plenty r.0 (key 128))
    ≡ (3, 128, 3)
unfolding pool_program
removals_compact = refl

-- A handler of the table comes before a global one, each of the two for itself.
own_handler_first :
    assert_failed
      (set_global_assert_handler (some 1) (some 2))
      (some (set_assert_handler empty (some 7) none))
    ≡ ok (logged (of_table 7) ∷ failed (global 2) ∷ [])
unfolding assert_failed set_global_assert_handler set_assert_handler
own_handler_first = refl
