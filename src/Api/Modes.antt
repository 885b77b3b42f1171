-- ===== src/Api/Modes.antt =====
-- `coucal_inc_` in both modes.
use coucal.Api.Counts.{Counted, inc_value-Counted}
use coucal.Api.Pooling.{inc_value-Tallied}
use coucal.Api.{inc_value}
use coucal.Base.{ℕ, ◌<◌, ◌≡◌, none}
use coucal.Base.Words.{size_mod}
use coucal.Keys.Laws.{KeyLaws}
use coucal.Keys.{key_text}
use coucal.Pool.Duplicating.{Generous}
use coucal.Run.{Returns}
use coucal.State.{Name, Coucal, Allocator}
use coucal.Table.Modes.{Ready, library_keys, caller_keys, CanTake, handled_room, same_handlers}
use coucal.Table.View.{view}

-- What `coucal_inc_` promises in both modes.
pub record Increased (c : Coucal) (name : Name) (amount : ℕ) (r : Coucal × ℕ) : Type 0 where
  pub ready : Ready r.0
  pub counted : Counted c name amount r

-- On a table in order, whose keys are in the pool or duplicated by handlers of the caller that keep the
-- laws of keys, if every request for memory is granted and a missing key has room, an increment by less
-- than 2^64 fails no assertion: it gives the value of the key, or 0, plus the amount, on 64 bits, the key
-- reads that, every other key reads as before, the count grows by one for a new key only, and the table
-- is in order.
pub inc_value-Increased :
    (alloc : Allocator) (c : Coucal) (name : Name) (amount : ℕ)
    → KeyLaws c.custom.key
    → Ready c
    → Generous alloc
    → amount < size_mod
    → (view c (key_text c name) ≡ none → CanTake c (key_text c name))
    → Returns (inc_value alloc c name amount) (Increased c name amount)
inc_value-Increased alloc c name amount laws (library_keys t) generous small can =
    let (r, run, d) = inc_value-Tallied alloc c name amount laws t generous small can in
    (r, run, record { ready = library_keys d.table; counted = d.counted })
inc_value-Increased alloc c name amount laws (caller_keys t) generous small can =
    let (r, run, d) =
      inc_value-Counted alloc c name amount t.dup laws t.valid t.has_dup small
        (λ e. handled_room alloc c (key_text c name) generous (can e)) in
    (r, run, record { ready = caller_keys (same_handlers d.custom d.valid t); counted = d })
