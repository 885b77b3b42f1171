-- ===== src/Session/Room.antt =====
-- The room that the calls of a client need, along their run, and when it is there.
use coucal.Base.{
  ℕ, ◌+◌, ◌^◌, ◌≤◌, ◌≡◌, refl, ap, sym, ◌∙◌, Bool, true, ◌&&◌, Option, none, some, List, [], ◌∷◌,
  length, ltb, leb, arith,
}
use coucal.Keys.Laws.{KeyLaws}
use coucal.Pool.Duplicating.{Generous}
use coucal.Run.{Run, ok, abort}
use coucal.Session.Performing.{Fits, perform-Performed}
use coucal.Session.{
  Call, Answer, perform, Mapping, expected, Represents, adds, AddsText, AddsTexts, cost, load,
}
use coucal.State.{KeyHandlers, Coucal, Allocator, stash_size}
use coucal.Table.Modes.{Ready-Valid}

-- A free slot in the stash, a size of the table below the greatest, and a pool that can grow.
abbrev pub has_room_for : Coucal → Option (List ℕ) → Bool
has_room_for c none = true
has_room_for c (some k) =
    ltb c.stash.size stash_size && (ltb c.lg_size 32 && leb (c.pool.size + (length k + 1)) (2 ^ 63))

abbrev pub after_call : (Coucal → Bool) → Run (Coucal × Answer) → Bool
after_call f abort = true
after_call f (ok r) = f r.0

-- Is there room before every call of the run that may add an entry?
unfoldable pub has_room : Allocator → Coucal → List Call → Bool
unfolding perform
has_room alloc c [] = true
has_room alloc c (call ∷ calls) =
    has_room_for c (adds call) && after_call (λ c'. has_room alloc c' calls) (perform alloc c call)

pub has_room_for-Fits :
    (c : Coucal) (o : Option (List ℕ)) → has_room_for c o ≡ true → AddsText o → Fits c o
has_room_for-Fits c none room string = tt
has_room_for-Fits c (some k) room string = record {
  room = ground arith;
  small = ground arith;
  string = string;
  bound = ground arith;
}

pub has_room-head :
    (alloc : Allocator) (c : Coucal) (call : Call) (calls : List Call)
    → has_room alloc c (call ∷ calls) ≡ true
    → has_room_for c (adds call) ≡ true
unfolding has_room
has_room-head alloc c call calls e =
    first (has_room_for c (adds call))
      (after_call (λ c'. has_room alloc c' calls) (perform alloc c call)) e
  where
    first : (p q : Bool) → p && q ≡ true → p ≡ true
    first p q e = ground arith

pub has_room-tail :
    (alloc : Allocator) (c : Coucal) (call : Call) (calls : List Call) (r : Coucal × Answer)
    → perform alloc c call ≡ ok r
    → has_room alloc c (call ∷ calls) ≡ true
    → has_room alloc r.0 calls ≡ true
unfolding has_room
has_room-tail alloc c call calls r run e =
    sym (ap (after_call (λ c'. has_room alloc c' calls)) run)
    ∙ second (has_room_for c (adds call))
        (after_call (λ c'. has_room alloc c' calls) (perform alloc c call)) e
  where
    second : (p q : Bool) → p && q ≡ true → q ≡ true
    second p q e = ground arith

-- The entries and the bytes that a list of calls may add.
unfoldable pub costs : List Call → ℕ
costs [] = 0
costs (call ∷ calls) = cost call + costs calls

unfoldable pub loads : List Call → ℕ
loads [] = 0
loads (call ∷ calls) = load call + loads calls

-- A table in order whose entries, with one for every call that may add one, are no more than
-- sixteen, whose exponent with as many doublings is at most 32, and whose pool with the keys of these
-- calls stays within 2^63 bytes, has room before every call of the run, however its keys collide, if every
-- request for memory is granted, the handlers keep the laws of keys, and the added keys have no NUL byte.
pub few-has_room :
    (alloc : Allocator) (h : KeyHandlers) (c : Coucal) (m : Mapping) (calls : List Call)
    → Generous alloc
    → KeyLaws h
    → Represents h c m
    → AddsTexts calls
    → c.used + costs calls ≤ stash_size
    → c.lg_size + costs calls ≤ 32
    → c.pool.size + loads calls ≤ 2 ^ 63
    → has_room alloc c calls ≡ true
unfolding has_room AddsTexts costs loads
few-has_room alloc h c m [] generous laws x strings few low small = refl
few-has_room alloc h c m (call ∷ calls) generous laws x (string, strings) few low small =
    let room : has_room_for c (adds call) ≡ true =
      fitting (adds call) (omega arith) (omega arith) (omega arith) in
    let (r, run, p) =
      perform-Performed alloc h c m generous laws x call
        (has_room_for-Fits c (adds call) room string) in
    let a = p.advanced in
    let rest =
      few-has_room alloc h r.0 (expected h m call).0 calls generous laws a.represents strings
        (omega (arith, a.fuller)) (omega (arith, a.taller)) (omega (arith, a.grows)) in
    rw (room, run) rest
  where
    fitting :
        (o : Option (List ℕ))
        → c.used + elim o [ none ↦ 0 | some k ↦ 1 ] ≤ stash_size
        → c.lg_size + elim o [ none ↦ 0 | some k ↦ 1 ] ≤ 32
        → c.pool.size + elim o [ none ↦ 0 | some k ↦ length k + 1 ] ≤ 2 ^ 63
        → has_room_for c o ≡ true
    fitting none a b d = refl
    fitting (some k) a b d =
        ground (arith, (Ready-Valid x.table).counted, (Ready-Valid x.table).layout.stash_live)
