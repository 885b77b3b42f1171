-- ===== src/Table/Modes.antt =====
-- Removals and writes in both modes: keys in the string pool, and keys that handlers of
-- the caller duplicate and release.
use coucal.Base.{
  ℕ, ◌≤◌, not, ◌+◌, ◌≡◌, ap, sym, ◌∙◌, Bool, Option, none, some, List, if◌then◌else◌, is_none,
}
use coucal.Keys.Laws.{KeyLaws}
use coucal.Keys.{key_text, equal_texts}
use coucal.Pool.Duplicating.{Generous}
use coucal.Run.{Returns}
use coucal.State.{Name, Custom, Coucal, Allocator}
use coucal.Table.Pooling.Removing.{remove-Dropped}
use coucal.Table.Pooling.Tables.{PooledTable}
use coucal.Table.Pooling.Writing.{CanAppend, write_value-Stored}
use coucal.Table.Remove.{remove}
use coucal.Table.Removing.{remove-Removed}
use coucal.Table.Thinning.{Thins}
use coucal.Table.Valid.{Valid}
use coucal.Table.View.{view}
use coucal.Table.Write.{write_value}
use coucal.Table.Writing.{CanAdd, Wrote, write_value-Wrote}

-- A valid table with handlers that duplicate and release keys.
pub record HandledTable (c : Coucal) : Type 0 where
  pub valid : Valid c
  pub dup : List ℕ → List ℕ
  pub has_dup : c.custom.key.dup ≡ some dup
  pub free : ℕ
  pub has_free : c.custom.key.free ≡ some free

-- A table in order, in one mode or the other.
pub data Ready (c : Coucal) : Type 0 where
  library_keys : PooledTable c → Ready c
  caller_keys : HandledTable c → Ready c

pub Ready-Valid : {c : Coucal} → Ready c → Valid c
Ready-Valid (library_keys t) = t.valid
Ready-Valid (caller_keys t) = t.valid

pub same_handlers :
    {c c' : Coucal} → c'.custom ≡ c.custom → Valid c' → HandledTable c → HandledTable c'
same_handlers e v t = record {
  valid = v;
  dup = t.dup;
  has_dup = ap (λ (u : Custom). u.key.dup) e ∙ t.has_dup;
  free = t.free;
  has_free = ap (λ (u : Custom). u.key.free) e ∙ t.has_free;
}

-- What `coucal_remove` promises in both modes.
pub record Deleted (c : Coucal) (name : Name) (r : Coucal × Bool) : Type 0 where
  pub ready : Ready r.0
  pub custom : r.0.custom ≡ c.custom
  pub reads :
      (k : List ℕ)
      → view r.0 k ≡ (if equal_texts c.custom.key k (key_text c name) then none else view c k)
  pub removed : r.1 ≡ not (is_none (view c (key_text c name)))
  pub nitems : (if is_none (view c (key_text c name)) then r.0.used else r.0.used + 1) ≡ c.used
  pub thins : Thins c r.0
  pub smaller : r.0.pool.size ≤ c.pool.size

pub remove-Deleted :
    (alloc : Allocator) (c : Coucal) (name : Name)
    → KeyLaws c.custom.key
    → Ready c
    → Generous alloc
    → Returns (remove alloc c name) (Deleted c name)
remove-Deleted alloc c name laws (library_keys t) generous =
    let (r, run, d) = remove-Dropped alloc c name laws t generous in
    (
      r,
      run,
      record {
        ready = library_keys d.table;
        custom = d.custom;
        reads = d.reads;
        removed = d.removed;
        nitems = d.nitems;
        thins = d.thins;
        smaller = d.smaller;
      },
    )
remove-Deleted alloc c name laws (caller_keys t) generous =
    let (r, run, d) = remove-Removed alloc c name t.free laws t.valid t.has_free in
    (
      r,
      run,
      record {
        ready = caller_keys (same_handlers d.custom d.valid t);
        custom = d.custom;
        reads = d.reads;
        removed = d.removed;
        nitems = d.nitems;
        thins = d.thins;
        smaller = d.smaller;
      },
    )

-- Room for a key that is missing: a free slot in the stash, a table below the greatest size, and a key
-- that the pool can take.
abbrev pub CanTake : Coucal → List ℕ → Type 0
CanTake c t = CanAppend c t

pub handled_room :
    (alloc : Allocator) (c : Coucal) (t : List ℕ) → Generous alloc → CanTake c t → CanAdd alloc c
handled_room alloc c t generous can = record {
  room = can.room;
  small = can.small;
  memory = generous _ _;
}

-- What `coucal_write_value` promises in both modes.
pub record Written (c : Coucal) (name : Name) (value : ℕ) (r : Coucal × Bool) : Type 0 where
  pub ready : Ready r.0
  pub wrote : Wrote c name value r

pub write_value-Written :
    (alloc : Allocator) (c : Coucal) (name : Name) (value : ℕ)
    → KeyLaws c.custom.key
    → Ready c
    → Generous alloc
    → (view c (key_text c name) ≡ none → CanTake c (key_text c name))
    → Returns (write_value alloc c name value) (Written c name value)
write_value-Written alloc c name value laws (library_keys t) generous can =
    let (r, run, s) = write_value-Stored alloc c name value laws t generous can in
    (r, run, record { ready = library_keys s.table; wrote = s.wrote })
write_value-Written alloc c name value laws (caller_keys t) generous can =
    let (r, run, w) =
      write_value-Wrote alloc c name value t.dup laws t.valid t.has_dup
        (λ e. handled_room alloc c (key_text c name) generous (can e)) in
    (r, run, record { ready = caller_keys (same_handlers w.custom w.valid t); wrote = w })

none_ne_some : (v : ℕ) → ◌≡◌ {A = Option ℕ} none (some v) → ⊥
none_ne_some v e = cc

-- A key that is there needs no room.
pub present-CanTake :
    (c : Coucal) (name : Name) (old : ℕ)
    → view c (key_text c name) ≡ some old
    → view c (key_text c name) ≡ none
    → CanTake c (key_text c name)
present-CanTake c name old there e = absurd (none_ne_some old (sym e ∙ there))
