-- ===== src/Session/Filling.antt =====
-- How far a session of a client gets when nothing is known of the room in the table.
use coucal.Base.{
  ℕ, ◌+◌, ◌^◌, ◌≤◌, ◌<◌, ◌≡◌, ◌⊎◌, inl, inr, refl, ap, false, Option, none, some, List, [], ◌∷◌,
  ◌++◌, length, ltb, Bool-cases, arith,
}
use coucal.Keys.Laws.{KeyLaws}
use coucal.Pool.Duplicating.{Generous}
use coucal.Run.{ok, ◌>>=◌, Returns}
use coucal.Session.Performing.{perform-Performed}
use coucal.Session.Room.{has_room_for, has_room_for-Fits}
use coucal.Session.{
  Call, Answer, perform, session, Mapping, expected, replay, Represents, adds, AddsTexts,
}
use coucal.State.{KeyHandlers, Coucal, Allocator, stash_size}

-- A key may be added, and there is no free slot in the stash, the table has the greatest size, or the
-- pool cannot hold the key within 2^63 bytes.
abbrev pub NoRoom : Coucal → Option (List ℕ) → Type 0
NoRoom c none = ⊥
NoRoom c (some k) =
    (stash_size ≤ c.stash.size) ⊎ ((32 ≤ c.lg_size) ⊎ (2 ^ 63 < c.pool.size + (length k + 1)))

-- The table and the answers after a list of calls are those of the map.
abbrev pub Follows : KeyHandlers → Mapping → List Call → Coucal × List Answer → Type 0
Follows h m calls r = Represents h r.0 (replay h m calls).0 × (r.1 ≡ (replay h m calls).1)

-- All calls were answered, or all before one that may add a key where there is no room.
pub data Progress (alloc : Allocator) (h : KeyHandlers) (c : Coucal) (m : Mapping)
    (calls : List Call) : Type 0 where
  finished : Returns (session alloc c calls) (Follows h m calls) → Progress alloc h c m calls
  filled :
      (before : List Call) (call : Call) (after : List Call)
      → calls ≡ before ++ call ∷ after
      → Returns (session alloc c before) (λ r. Follows h m before r × NoRoom r.0 (adds call))
      → Progress alloc h c m calls

full-NoRoom : (c : Coucal) (o : Option (List ℕ)) → has_room_for c o ≡ false → NoRoom c o
full-NoRoom c none e = cc
full-NoRoom c (some k) e = elim (Bool-cases (ltb c.stash.size stash_size)) [
  | inr full ↦ inl (ground arith)
  | inl free ↦ elim (Bool-cases (ltb c.lg_size 32)) [
    | inr tall ↦ inr (inl (ground arith))
    | inl low ↦ inr (inr (ground arith))
  ]
]

-- On a table in order that reads as a partial map says, with handlers that keep the laws of keys, if
-- every request for memory is granted, a list of calls whose added keys have no NUL byte is answered as
-- the map answers, and leaves a table in order that reads as the map says; or the calls before some
-- call of the list are, and this call may add a key to a table with a full stash, of the greatest size,
-- or whose pool cannot hold the key within 2^63 bytes.
pub session-Progress :
    (alloc : Allocator) (h : KeyHandlers) (c : Coucal) (m : Mapping) (calls : List Call)
    → Generous alloc
    → KeyLaws h
    → Represents h c m
    → AddsTexts calls
    → Progress alloc h c m calls
unfolding session replay AddsTexts
session-Progress alloc h c m [] generous laws x strings = finished ((c, []), refl, (x, refl))
session-Progress alloc h c m (call ∷ calls) generous laws x (string, strings) =
    elim (Bool-cases (has_room_for c (adds call))) [
      | inr full ↦
          filled [] call calls refl ((c, []), refl, ((x, refl), full-NoRoom c (adds call) full))
      | inl room ↦
          let (r, run, p) =
            perform-Performed alloc h c m generous laws x call
              (has_room_for-Fits c (adds call) room string) in
          later r run p.answer (
            session-Progress alloc h r.0 (expected h m call).0 calls generous laws
              p.advanced.represents strings)
    ]
  where
    later :
        (r : Coucal × Answer)
        → perform alloc c call ≡ ok r
        → r.1 ≡ (expected h m call).1
        → Progress alloc h r.0 (expected h m call).0 calls
        → Progress alloc h c m (call ∷ calls)
    later r run answer (finished (s, run', (y, e))) =
        finished ((s.0, r.1 ∷ s.1), rw (run, ◌>>=◌, run'), (y, λ i. answer i ∷ e i))
    later r run answer (filled before last after split (s, run', ((y, e), full))) =
        filled (call ∷ before) last after (ap (λ l. call ∷ l) split)
          ((s.0, r.1 ∷ s.1), rw (run, ◌>>=◌, run'), ((y, λ i. answer i ∷ e i), full))
