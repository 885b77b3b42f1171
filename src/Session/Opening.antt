-- ===== src/Session/Opening.antt =====
-- A client that makes its own table: `coucal_new`, `coucal_value_set_key_handler`, then a list of calls.
use coucal.Api.Creation.{get_pow2_lem, new_table-Valid}
use coucal.Api.Pooling.{set_up-PooledTable}
use coucal.Api.Settings.{with_handlers, with_handlers-Valid, with_handlers-view}
use coucal.Api.{new, new_table, get_pow2, set_key_handler}
use coucal.Base.{ℕ, ◌+◌, ◌^◌, ◌≤◌, ◌≡◌, refl, none, some, List, le→leb, lt→ltb, arith}
use coucal.Keys.Laws.{KeyLaws}
use coucal.Pool.Duplicating.{Generous}
use coucal.Run.{Run, ok, abort, ◌>>=◌, Returns}
use coucal.Session.Replaying.{session-Replayed}
use coucal.Session.Room.{few-has_room, costs, loads}
use coucal.Session.{Call, Answer, session, empty_mapping, replay, Represents, AddsTexts}
use coucal.State.{World, KeyHandlers, Coucal, Allocator, stash_size}
use coucal.Table.Grow.{is_acceptable_pow2}
use coucal.Table.Modes.{Ready, library_keys, caller_keys}

-- The library keeps the keys, or the caller duplicates and releases them.
pub data Keeping (h : KeyHandlers) : Type 0 where
  by_library : h.dup ≡ none → h.free ≡ none → Keeping h
  by_caller : (dup : List ℕ → List ℕ) (free : ℕ) → h.dup ≡ some dup → h.free ≡ some free → Keeping h

-- `coucal_new(initial_size)`, the handlers, and the calls. A table that is NULL is a crash.
unfoldable pub opened : Allocator → World → ℕ → KeyHandlers → List Call → Run (Coucal × List Answer)
unfolding new set_key_handler session
opened alloc w initial_size h calls = elim (new alloc w initial_size) [
  | none ↦ abort
  | some c ↦ set_key_handler c h >>= λ c'. session alloc c' calls
]

abbrev two_blocks : World → World
two_blocks w = record w { allocations = w.allocations + 2 }

new-made :
    (alloc : Allocator) (w : World) (n : ℕ)
    → Generous alloc
    → n ≤ 2 ^ 32
    → new alloc w n ≡ some (new_table (two_blocks w) (get_pow2 n))
unfolding new is_acceptable_pow2
new-made alloc w n generous small =
    let (low, fits, _, _) = get_pow2_lem n in
    let (high, _) = fits small in
    rw (
      le→leb _ _ high,
      lt→ltb (get_pow2 n) 64 (omega arith),
      generous w.allocations _,
      generous (w.allocations + 1) _,
    )

handlers_set :
    (c : Coucal) (h : KeyHandlers) → Keeping h → set_key_handler c h ≡ ok (with_handlers c h)
unfolding set_key_handler
handlers_set c h (by_library no_dup no_free) = rw (no_dup, no_free)
handlers_set c h (by_caller dup free has_dup has_free) = rw (has_dup, has_free)

module _ (w : World) (lg : ℕ) (h : KeyHandlers) (low : 4 ≤ lg) (high : lg ≤ 32) where
  abbrev made : Coucal
  made = with_handlers (new_table w lg) h

  made-Ready : Keeping h → Ready made
  made-Ready (by_library no_dup no_free) =
      library_keys
        (set_up-PooledTable w lg h none low high (record { no_dup = no_dup; no_free = no_free }))
  made-Ready (by_caller dup free has_dup has_free) = caller_keys (record {
    valid = with_handlers-Valid (new_table w lg) h (new_table-Valid w lg low high) refl;
    dup = dup;
    has_dup = has_dup;
    free = free;
    has_free = has_free;
  })

  made-Represents : Keeping h → Represents h made empty_mapping
  made-Represents kept = record {
    table = made-Ready kept;
    handlers = refl;
    entries = λ k. with_handlers-view (new_table w lg) h k (new_table-Valid w lg low high) refl;
    count = refl;
  }

-- If every request for memory is granted, the handlers keep the laws of keys, and `dup` and `free` are
-- both set or both NULL, then from `coucal_new` of a size up to 2^32 on, with these handlers set, no list
-- of calls fails an assertion that may add at most sixteen entries with keys that have no NUL byte,
-- if the exponent of the size with as many doublings is at most 32 and the keys take at most 2^63 bytes:
-- every call answers what a partial map answers that was empty at first, and the table reads in
-- the end as the map says then. How the keys collide does not matter.
pub opened-Replayed :
    (alloc : Allocator) (w : World) (initial_size : ℕ) (h : KeyHandlers) (calls : List Call)
    → Generous alloc
    → KeyLaws h
    → Keeping h
    → AddsTexts calls
    → initial_size ≤ 2 ^ 32
    → costs calls ≤ stash_size
    → get_pow2 initial_size + costs calls ≤ 32
    → loads calls ≤ 2 ^ 63
    → Returns (opened alloc w initial_size h calls) λ r.
      Represents h r.0 (replay h empty_mapping calls).0 × (r.1 ≡ (replay h empty_mapping calls).1)
unfolding opened
opened-Replayed alloc w n h calls generous laws kept strings small few low bytes =
    let w' = two_blocks w in
    let c = new_table w' (get_pow2 n) in
    let (least, fits, _, _) = get_pow2_lem n in
    let x = made-Represents w' (get_pow2 n) h least (fits small).0 kept in
    let (r, run, y) =
      session-Replayed alloc h (with_handlers c h) empty_mapping calls generous laws x strings (
        few-has_room alloc h (with_handlers c h) empty_mapping calls generous laws x strings
          (omega arith) low (omega arith)) in
    (r, rw (opened, new-made alloc w n generous small, handlers_set c h kept, ◌>>=◌) run, y)
