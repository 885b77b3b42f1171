-- ===== src/Report/Dump.antt =====
-- What the library prints of a table: the summary `coucal_log_stats`, and the dump of the stash before the
-- last assertion of `coucal_add_item_`. A line is told by the arguments of its format.
use coucal.Api.{memory_size}
use coucal.Base.{ℕ, ◌+◌, ◌%◌, Option, none, some, List, [], ◌∷◌, ◌++◌, take, ◌==◌, if◌then◌else◌}
use coucal.Base.Words.{u32_mod, pow2}
use coucal.Report.Levels.{log_critical, log_info, log_at}
use coucal.Run.{Run, ok, ◌>>=◌}
use coucal.Report.{Globals, Event, get_name, assert_failed}
use coucal.State.{Name, Item, Coucal}
use coucal.Table.{get_item, hash_to_pos, is_free, is_empty_item}

-- `avg_moved`: 0.0, or the quotient of two counts as a `double`.
pub data Average : Type 0 where
  no_average : Average
  quotient : ℕ → ℕ → Average

-- The arguments of the summary, in their order.
pub record Summary : Type 0 where
  pub name : Option Name
  pub size : ℕ
  pub lg2 : ℕ
  pub used : ℕ
  pub stash_size : ℕ
  pub pool_size : ℕ
  pub pool_capacity : ℕ
  pub pool_used : ℕ
  pub writes : ℕ
  pub new : ℕ
  pub moved : ℕ
  pub stashed : ℕ
  pub max_stash_size : ℕ
  pub avg_moved : Average
  pub rehash : ℕ
  pub pool_compact : ℕ
  pub pool_realloc : ℕ
  pub memory : ℕ

unfoldable pub summary : Coucal → Summary
unfolding get_name memory_size
summary c = record {
  name = get_name (some c);
  size = pow2 c.lg_size;
  lg2 = c.lg_size;
  used = c.used;
  stash_size = c.stash.size;
  pool_size = c.pool.size;
  pool_capacity = c.pool.capacity;
  pool_used = c.pool.used;
  writes = c.stats.write_count;
  new = c.stats.add_count;
  moved = c.stats.cuckoo_moved;
  stashed = c.stats.stash_added;
  max_stash_size = c.stats.max_stash_size;
  avg_moved =
      if c.stats.add_count == 0
      then no_average
      else quotient c.stats.cuckoo_moved c.stats.add_count;
  rehash = c.stats.rehash_count;
  pool_compact = c.stats.pool_compact_count;
  pool_realloc = c.stats.pool_realloc_count;
  memory = memory_size c;
}

-- `coucal_print_key`: what a handler makes of the key, or the key as a string.
pub data PrintedKey : Type 0 where
  by_handler : ℕ → Name → PrintedKey
  as_string : Name → PrintedKey

unfoldable pub print_key_of : Coucal → Name → PrintedKey
print_key_of c name = elim c.custom.print.key [
  | none ↦ as_string name
  | some handler ↦ by_handler handler name
]

-- An item by the names of the two print handlers and what they are given, its positions as `int`, and its
-- hashes.
pub record Shown : Type 0 where
  pub key : ℕ × Option Name
  pub value : ℕ × ℕ
  pub pos1 : ℕ
  pub pos2 : ℕ
  pub hash1 : ℕ
  pub hash2 : ℕ

-- The lines of the dump: an item of the stash with its index, and what stands in the two slots it wants.
pub data DumpLine : Type 0 where
  stash_item : ℕ → Shown → DumpLine
  collision : Shown → DumpLine
  free_slot : ℕ → DumpLine

-- `(int)`, by the low 32 bits.
abbrev as_int : ℕ → ℕ
as_int n = n % u32_mod

module _ (print_key print_value : ℕ) (c : Coucal) where
  unfoldable pub show_item : Item → Shown
  unfolding hash_to_pos
  show_item item = record {
    key = (print_key, item.name);
    value = (print_value, item.value);
    pos1 = as_int (hash_to_pos c item.hashes.hash1);
    pos2 = as_int (hash_to_pos c item.hashes.hash2);
    hash1 = item.hashes.hash1;
    hash2 = item.hashes.hash2;
  }

  unfoldable pub show_slot : ℕ → DumpLine
  unfolding show_item
  show_slot pos =
      if is_free c pos then free_slot (as_int pos) else collision (show_item (get_item c pos))

  -- One round of the loop over the stash.
  unfoldable pub show_stashed : ℕ → Item → List DumpLine
  unfolding show_slot
  show_stashed i item =
      if is_empty_item item
      then []
      else stash_item (as_int i) (show_item item)
        ∷ show_slot (hash_to_pos c item.hashes.hash1)
        ∷ show_slot (hash_to_pos c item.hashes.hash2)
        ∷ []

  unfoldable pub show_stash : ℕ → List Item → List DumpLine
  unfolding show_stashed
  show_stash i [] = []
  show_stash i (item ∷ items) = show_stashed i item ++ show_stash (i + 1) items

-- "debugging": nothing without both print handlers.
unfoldable pub dump : Coucal → List DumpLine
unfolding show_stash
dump c = elim c.custom.print.key [
  | none ↦ []
  | some print_key ↦ elim c.custom.print.value [
    | none ↦ []
    | some print_value ↦ show_stash print_key print_value c 0 (take c.stash.extent c.stash.items)
  ]
]

-- What is printed, and by whom.
pub data Report : Type 0 where
  dumped : List Event → DumpLine → Report
  summarised : List Event → Summary → Report
  asserted : List Event → Report

-- `coucal_log_stats`
unfoldable pub log_stats : ℕ → Globals → Coucal → Run Report
unfolding log_at summary
log_stats log_level globals c = log_at log_level globals (some c) log_info (some 1) >>= λ events.
    ok (summarised events (summary c))

unfoldable pub log_dump : ℕ → Globals → Coucal → List DumpLine → Run (List Report)
unfolding log_at
log_dump log_level globals c [] = ok []
log_dump log_level globals c (line ∷ lines) = do
  events ← log_at log_level globals (some c) log_critical (some 2)
  rest ← log_dump log_level globals c lines
  ok (dumped events line ∷ rest)

-- "we are doomed": the dump, the summary, and the assertion.
unfoldable pub report_collision : ℕ → Globals → Coucal → Run (List Report)
unfolding log_dump log_stats dump assert_failed
report_collision log_level globals c = do
  lines ← log_dump log_level globals c (dump c)
  summary ← log_stats log_level globals c
  failure ← assert_failed globals (some c)
  ok (lines ++ summary ∷ asserted failure ∷ [])
