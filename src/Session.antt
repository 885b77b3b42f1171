-- ===== src/Session.antt =====
-- A client of the public operations of coucal.h: a list of calls on a table, and the
-- same calls on a partial map with a count.
pub mod Performing
pub mod Room
pub mod Replaying
pub mod Opening
pub mod Filling
use coucal.Api.Reads.{found_or}
use coucal.Api.{
  write, add, inc, dec, read, readptr, get_intptr, read_pvoid, get_pvoid, write_pvoid, add_pvoid,
  exists, nitems,
}
use coucal.Base.{
  ℕ, suc, ◌+◌, ◌-◌, ◌*◌, ◌%◌, ◌≡◌, Bool, true, false, not, Option, none, some, List, [], ◌∷◌,
  length, ◌==◌, if◌then◌else◌, is_none,
}
use coucal.Base.Words.{size_mod, u32_mod}
use coucal.Keys.{equal_texts}
use coucal.Pool.Text.{IsText}
use coucal.Run.{Run, ok, ◌>>=◌}
use coucal.State.{Name, outside, KeyHandlers, Coucal, Allocator}
use coucal.Table.Modes.{Ready}
use coucal.Table.Remove.{remove}
use coucal.Table.View.{view}

-- A call, with the bytes of its key.
pub data Call : Type 0 where
  call_write : List ℕ → ℕ → Call
  call_write_pvoid : List ℕ → ℕ → Call
  call_add : List ℕ → ℕ → Call
  call_add_pvoid : List ℕ → ℕ → Call
  call_inc : List ℕ → Call
  call_dec : List ℕ → Call
  call_remove : List ℕ → Call
  call_read : List ℕ → Call
  call_read_pvoid : List ℕ → Call
  call_readptr : List ℕ → Call
  call_get_intptr : List ℕ → Call
  call_get_pvoid : List ℕ → Call
  call_exists : List ℕ → Call
  call_nitems : Call

-- What a call gives back: nothing, a flag, a number, or a value with a flag.
pub data Answer : Type 0 where
  done : Answer
  flag : Bool → Answer
  number : ℕ → Answer
  value : ℕ → Bool → Answer

abbrev pub with_flag : Coucal × Bool → Run (Coucal × Answer)
with_flag r = ok (r.0, flag r.1)

abbrev with_number : Coucal × ℕ → Run (Coucal × Answer)
with_number r = ok (r.0, number r.1)

abbrev with_nothing : Coucal → Run (Coucal × Answer)
with_nothing c = ok (c, done)

abbrev with_value : Coucal → ℕ × Bool → Run (Coucal × Answer)
with_value c r = ok (c, value r.0 r.1)

unfoldable pub perform : Allocator → Coucal → Call → Run (Coucal × Answer)
unfolding write add write_pvoid add_pvoid inc dec remove read readptr get_intptr read_pvoid
    get_pvoid exists nitems
perform alloc c (call_write k v) = write alloc c (outside k) v >>= with_flag
perform alloc c (call_write_pvoid k v) = write_pvoid alloc c (outside k) v >>= with_flag
perform alloc c (call_add k v) = add alloc c (outside k) v >>= with_nothing
perform alloc c (call_add_pvoid k v) = add_pvoid alloc c (outside k) v >>= with_nothing
perform alloc c (call_inc k) = inc alloc c (outside k) >>= with_number
perform alloc c (call_dec k) = dec alloc c (outside k) >>= with_number
perform alloc c (call_remove k) = remove alloc c (outside k) >>= with_flag
perform alloc c (call_read k) = with_value c (read c (outside k) true)
perform alloc c (call_read_pvoid k) = with_value c (read_pvoid c (outside k) true)
perform alloc c (call_readptr k) = with_value c (readptr c (outside k))
perform alloc c (call_get_intptr k) = ok (c, number (get_intptr c (outside k)))
perform alloc c (call_get_pvoid k) = ok (c, number (get_pvoid c (outside k)))
perform alloc c (call_exists k) = ok (c, flag (exists c (outside k)))
perform alloc c call_nitems = ok (c, number (nitems (some c)))

abbrev pub with_answer : Answer → Coucal × List Answer → Run (Coucal × List Answer)
with_answer a s = ok (s.0, a ∷ s.1)

unfoldable pub session : Allocator → Coucal → List Call → Run (Coucal × List Answer)
unfolding perform
session alloc c [] = ok (c, [])
session alloc c (call ∷ calls) =
    perform alloc c call >>= λ r. session alloc r.0 calls >>= with_answer r.1

-- A partial map, and the number of its keys.
pub record Mapping : Type 0 where
  pub lookup : List ℕ → Option ℕ
  pub count : ℕ

abbrev pub empty_mapping : Mapping
empty_mapping = record { lookup = λ k. none; count = 0 }

-- The same calls on a partial map.
module _ (h : KeyHandlers) where
  abbrev pub put : Mapping → List ℕ → ℕ → Mapping
  put m k v = record {
    lookup = λ q. if equal_texts h q k then some v else m.lookup q;
    count = if is_none (m.lookup k) then m.count + 1 else m.count;
  }

  abbrev pub drop : Mapping → List ℕ → Mapping
  drop m k = record {
    lookup = λ q. if equal_texts h q k then none else m.lookup q;
    count = if is_none (m.lookup k) then m.count else m.count - 1;
  }

  abbrev pub or_zero : Mapping → List ℕ → ℕ
  or_zero m k = found_or (m.lookup k) 0

  abbrev pub sum : Mapping → List ℕ → ℕ → ℕ
  sum m k amount = (or_zero m k + amount) % size_mod

  abbrev pub has : Mapping → List ℕ → Bool
  has m k = not (is_none (m.lookup k))

  abbrev pub expected : Mapping → Call → Mapping × Answer
  expected m (call_write k v) = (put m k v, flag (is_none (m.lookup k)))
  expected m (call_write_pvoid k v) = (put m k v, flag (is_none (m.lookup k)))
  expected m (call_add k v) = (put m k v, done)
  expected m (call_add_pvoid k v) = (put m k v, done)
  expected m (call_inc k) = (put m k (sum m k 1), number (sum m k 1 % u32_mod))
  expected m (call_dec k) =
      (put m k (sum m k (size_mod - 1)), number (sum m k (size_mod - 1) % u32_mod))
  expected m (call_remove k) = (drop m k, flag (has m k))
  expected m (call_read k) = (m, value (or_zero m k) (has m k))
  expected m (call_read_pvoid k) = (m, value (or_zero m k) (has m k))
  expected m (call_readptr k) = (m, value (or_zero m k) (not (or_zero m k == 0)))
  expected m (call_get_intptr k) = (m, number (or_zero m k))
  expected m (call_get_pvoid k) = (m, number (or_zero m k))
  expected m (call_exists k) = (m, flag (has m k))
  expected m call_nitems = (m, number m.count)

  unfoldable pub replay : Mapping → List Call → Mapping × List Answer
  replay m [] = (m, [])
  replay m (call ∷ calls) =
      let rest = replay (expected m call).0 calls in (rest.0, (expected m call).1 ∷ rest.1)

  -- A table in order with these handlers that reads as the map says.
  pub record Represents (c : Coucal) (m : Mapping) : Type 0 where
    pub table : Ready c
    pub handlers : c.custom.key ≡ h
    pub entries : (k : List ℕ) → view c k ≡ m.lookup k
    pub count : c.used ≡ m.count

-- The key of a call that may add an entry.
abbrev pub adds : Call → Option (List ℕ)
adds (call_write k v) = some k
adds (call_write_pvoid k v) = some k
adds (call_add k v) = some k
adds (call_add_pvoid k v) = some k
adds (call_inc k) = some k
adds (call_dec k) = some k
adds _ = none

-- Strings have no NUL byte.
abbrev pub AddsText : Option (List ℕ) → Type 0
AddsText none = Unit
AddsText (some k) = IsText k

unfoldable pub AddsTexts : List Call → Type 0
AddsTexts [] = Unit
AddsTexts (call ∷ calls) = AddsText (adds call) × AddsTexts calls

-- How many entries a call may add, and how many bytes of the pool it may use.
abbrev pub cost : Call → ℕ
cost call = elim (adds call) [ none ↦ 0 | some k ↦ 1 ]

abbrev pub load : Call → ℕ
load call = elim (adds call) [ none ↦ 0 | some k ↦ length k + 1 ]
