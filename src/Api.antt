-- ===== src/Api.antt =====
-- The public operations of coucal.h over the table: creation, reads, typed writes, counters,
-- settings and sizes.
pub mod Creation
pub mod Settings
pub mod Reads
pub mod Counts
pub mod Pooling
pub mod Starting
pub mod Modes
use coucal.Base.{
  ℕ, zero, suc, ◌+◌, ◌-◌, ◌*◌, ◌%◌, Bool, true, false, not, ◌&&◌, Option, none, some, replicate,
  length, ltb, ◌==◌, if◌then◌else◌, is_none,
}
use coucal.Base.Words.{size_mod, u32_mod, pow2, add_size}
use coucal.Run.{Run, ok, ◌>>=◌, ◌>>◌, assert}
use coucal.State.{
  Name, null_item, ValueFree, default_free, KeyHandlers, World, Coucal, Allocator, stash_size,
  min_lg_size,
}
use coucal.Table.{item_at, write_at, fetch_value}
use coucal.Table.Grow.{sizeof_item, is_acceptable_pow2}
use coucal.Table.Write.{write_value}

-- `for (size = MIN_LG_SIZE; is_acceptable_pow2(size) && POW2(size) < initial_size; size++);`
unfoldable pub get_pow2_from : ℕ → ℕ → ℕ → ℕ
unfolding is_acceptable_pow2
get_pow2_from zero size initial_size = size
get_pow2_from (suc fuel) size initial_size =
    let rest = get_pow2_from fuel (size + 1) initial_size in
    if is_acceptable_pow2 size && ltb (pow2 size) initial_size then rest else size

-- At most 29 rounds lead from 4 to 33, which is not acceptable.
unfoldable pub get_pow2 : ℕ → ℕ
unfolding get_pow2_from
get_pow2 initial_size = get_pow2_from 30 min_lg_size initial_size

-- `sizeof(struct_coucal)`, by the layout of the fields on a machine of 64 bits.
abbrev pub sizeof_coucal : ℕ
sizeof_coucal = 8 + 2 * 8 + (16 * sizeof_item + 16) + 4 * 8 + 8 * 8 + (2 + 5 + 4 + 3) * 8

abbrev pub no_key_handlers : KeyHandlers
no_key_handlers = record { dup = none; free = none; hash = none; equals = none }

abbrev pub new_table : World → ℕ → Coucal
new_table world lg_size = record {
  items = replicate (pow2 lg_size) null_item;
  lg_size = lg_size;
  used = 0;
  stash = record { items = replicate stash_size null_item; size = 0; extent = 0 };
  pool = record { buffer = none; size = 0; capacity = 0; used = 0 };
  stats = record {
    max_stash_size = 0;
    write_count = 0;
    add_count = 0;
    cuckoo_moved = 0;
    stash_added = 0;
    rehash_count = 0;
    pool_compact_count = 0;
    pool_realloc_count = 0;
  };
  custom = record {
    value_free = none;
    key = no_key_handlers;
    error = record { log = none; fatal = none; name = none };
    print = record { key = none; value = none };
  };
  world = world;
}

-- `coucal_new`: NULL for a size that is out of range, or if a block is refused.
unfoldable pub new : Allocator → World → ℕ → Option Coucal
new alloc world initial_size =
    let lg_size = get_pow2 initial_size in
    let n = world.allocations in
    let got =
      alloc.succeeds n sizeof_coucal && alloc.succeeds (n + 1) (pow2 lg_size * sizeof_item) in
    if is_acceptable_pow2 lg_size
    then if got then some (new_table (record world { allocations = n + 2 }) lg_size) else none
    else none

-- `coucal_read_value`; the flag says whether the caller passes a place for the value.
unfoldable pub read_value : Coucal → Name → Bool → ℕ → ℕ × Bool
read_value c name wanted old = elim (fetch_value c name) [
  | none ↦ (old, false)
  | some at ↦ (if wanted then (item_at c at).value else old, true)
]

-- `coucal_read`: the place is zeroed before.
unfoldable pub read : Coucal → Name → Bool → ℕ × Bool
read c name wanted = read_value c name wanted 0

-- `coucal_read_pvoid` with its place: the union is read as a pointer, with the same 64 bits.
unfoldable pub read_pvoid : Coucal → Name → Bool → ℕ × Bool
read_pvoid c name wanted = read_value c name wanted 0

unfoldable pub readptr : Coucal → Name → ℕ × Bool
readptr c name =
    let (value, found) = read c name true in (value, if value == 0 then false else found)

unfoldable pub get_intptr : Coucal → Name → ℕ
get_intptr c name = let (value, found) = read c name true in if found then value else 0

unfoldable pub get_pvoid : Coucal → Name → ℕ
get_pvoid c name = let (value, found) = read_pvoid c name true in if found then value else 0

unfoldable pub exists : Coucal → Name → Bool
exists c name = (read_value c name false 0).1

unfoldable pub write : Allocator → Coucal → Name → ℕ → Run (Coucal × Bool)
write alloc c name value = write_value alloc c name value

unfoldable pub add : Allocator → Coucal → Name → ℕ → Run Coucal
add alloc c name value = write_value alloc c name value >>= λ r. ok r.0

-- The pointer that fills the union is its 64-bit word.
unfoldable pub write_pvoid : Allocator → Coucal → Name → ℕ → Run (Coucal × Bool)
write_pvoid alloc c name pvalue = write_value alloc c name pvalue

unfoldable pub add_pvoid : Allocator → Coucal → Name → ℕ → Run Coucal
add_pvoid alloc c name pvalue = write_value alloc c name pvalue >>= λ r. ok r.0

-- `coucal_inc_`: the 64-bit word of the entry and the sum wrap.
unfoldable pub inc_value : Allocator → Coucal → Name → ℕ → Run (Coucal × ℕ)
inc_value alloc c name amount = elim (fetch_value c name) [
  | some at ↦
      let item = item_at c at in
      let value = add_size item.value amount in
      ok (write_at c at (record item { value = value }), value)
  | none ↦ do (c', added) ← write alloc c name amount; assert added; ok (c', amount)
]

-- `(int)` keeps the low 32 bits; the result is their pattern.
unfoldable pub inc : Allocator → Coucal → Name → Run (Coucal × ℕ)
inc alloc c name = inc_value alloc c name 1 >>= λ r. ok (r.0, r.1 % u32_mod)

unfoldable pub dec : Allocator → Coucal → Name → Run (Coucal × ℕ)
dec alloc c name = inc_value alloc c name (size_mod - 1) >>= λ r. ok (r.0, r.1 % u32_mod)

unfoldable pub nitems : Option Coucal → ℕ
nitems none = 0
nitems (some c) = c.used

unfoldable pub memory_size : Coucal → ℕ
memory_size c = (sizeof_coucal + pow2 c.lg_size * sizeof_item + c.pool.capacity) % size_mod

unfoldable pub value_is_malloc : Coucal → Bool → Coucal
value_is_malloc c false = record c { custom = record (c.custom) { value_free = none } }
value_is_malloc c true = elim c.custom.value_free [
  | none ↦ record c { custom = record (c.custom) { value_free = some default_free } }
  | some _ ↦ c
]

unfoldable pub set_value_handler : Coucal → Option ValueFree → Coucal
set_value_handler c free = record c { custom = record (c.custom) { value_free = free } }

-- `coucal_value_set_key_handler`: "dup and free must be consistent".
unfoldable pub set_key_handler : Coucal → KeyHandlers → Run Coucal
set_key_handler c h =
    assert (if is_none h.dup then is_none h.free else not (is_none h.free))
    >> ok (record c { custom = record (c.custom) { key = h } })

-- `coucal_created`: items that are NULL are the empty list.
unfoldable pub created : Option Coucal → Bool
created none = false
created (some c) = not (length c.items == 0)

unfoldable pub set_name : Coucal → Option Name → Coucal
set_name c name = record c {
  custom = record (c.custom) { error = record (c.custom.error) { name = name } };
}

unfoldable pub set_assert_handler : Coucal → Option ℕ → Option ℕ → Coucal
set_assert_handler c log fatal = record c {
  custom = record (c.custom) { error = record (c.custom.error) { log = log; fatal = fatal } };
}

unfoldable pub set_print_handler : Coucal → Option ℕ → Option ℕ → Coucal
set_print_handler c key value = record c {
  custom = record (c.custom) { print = record { key = key; value = value } };
}
