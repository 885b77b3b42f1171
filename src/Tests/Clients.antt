-- ===== src/Tests/Clients.antt =====
-- Clients of the table at concrete inputs: a session of calls, the program sample.c, and a loop that
-- empties the table.
use coucal.Api.Starting.{fresh_table, default-KeyLaws}
use coucal.Api.{no_key_handlers}
use coucal.Base.{ℕ, ◌+◌, ◌≡◌, ◌⊎◌, refl, true, false, ltb, List, [], ◌∷◌, arith}
use coucal.Hash.{hash_string}
use coucal.Pool.Duplicating.{Generous}
use coucal.Refusal.Client.{session-Refused}
use coucal.Refusal.{Refused}
use coucal.Run.{abort, Returns}
use coucal.Sample.Printing.{Printed, main-Printed}
use coucal.Sample.Storing.{arguments, calls_of, AllTexts}
use coucal.Sample.{Memory, main}
use coucal.Session.Replaying.{fresh-Represents}
use coucal.Session.Filling.{Progress, session-Progress}
use coucal.Session.Opening.{opened, by_caller, opened-Replayed}
use coucal.Tests.Instances.{copying-KeyLaws}
use coucal.Session.Room.{has_room, few-has_room, costs, loads}
use coucal.Session.{
  Call, perform, call_write, call_inc, call_remove, call_read, call_exists, call_nitems, session,
  replay, Represents, empty_mapping, AddsTexts,
}
use coucal.State.{Coucal, Allocator}
use coucal.Tests.{plenty, nothing, pool_program, copying}

generous : Generous plenty
generous n bytes = refl

abbrev fresh : Coucal
fresh = fresh_table nothing

-- Two keys, one of them removed.
abbrev calls : List Call
calls =
    call_write (97 ∷ []) 5
    ∷ call_inc (97 ∷ [])
    ∷ call_write (98 ∷ 99 ∷ []) 7
    ∷ call_remove (97 ∷ [])
    ∷ call_read (98 ∷ 99 ∷ [])
    ∷ call_exists (97 ∷ [])
    ∷ call_nitems
    ∷ []

calls-AddsTexts : AddsTexts calls
unfolding AddsTexts
calls-AddsTexts = (
  (omega arith, tt),
  ((omega arith, tt), ((omega arith, (omega arith, tt)), (tt, (tt, (tt, (tt, tt)))))),
)

few-has_room_example : has_room plenty fresh calls ≡ true
unfolding costs loads
few-has_room_example =
    few-has_room plenty no_key_handlers fresh empty_mapping calls generous default-KeyLaws
      (fresh-Represents nothing) calls-AddsTexts (omega arith) (omega arith) (omega arith)

session-Progress_example : Progress plenty no_key_handlers fresh empty_mapping calls
session-Progress_example =
    session-Progress plenty no_key_handlers fresh empty_mapping calls generous default-KeyLaws
      (fresh-Represents nothing) calls-AddsTexts

-- A table of at least 100 slots, whose keys the caller copies and hashes by their first byte.
opened-Replayed_example : Returns (opened plenty nothing 100 copying calls) λ r.
    Represents copying r.0 (replay copying empty_mapping calls).0
    × (r.1 ≡ (replay copying empty_mapping calls).1)
unfolding costs loads coucal.Api.get_pow2
opened-Replayed_example =
    opened-Replayed plenty nothing 100 copying calls generous copying-KeyLaws
      (by_caller (λ a. a) 1 refl refl) calls-AddsTexts (omega arith) (omega arith) (omega arith)
      (omega arith)

-- Memory that runs out at the first block of the pool.
abbrev scarce : Allocator
scarce = record { succeeds = λ n _. ltb n 2; moves = λ _. false; garbage = λ _ _. 0 }

session-Refused_example :
    (Refused scarce × (session scarce fresh calls ≡ abort))
    ⊎ Progress scarce no_key_handlers fresh empty_mapping calls
session-Refused_example =
    session-Refused scarce no_key_handlers fresh empty_mapping calls default-KeyLaws
      (fresh-Represents nothing) calls-AddsTexts

-- The first call aborts there, the pool having no block for its key.
scarce_aborts : session scarce fresh calls ≡ abort
unfolding session perform pool_program hash_string coucal.Api.write
scarce_aborts = refl

-- One string of one byte at each address.
abbrev letters : Memory
letters address = (address + 1) ∷ []

-- The key at 97 twice.
abbrev pairs : List (ℕ × ℕ)
pairs = (97, 65) ∷ (98, 66) ∷ (97, 67) ∷ []

pairs-AllTexts : AllTexts letters pairs
pairs-AllTexts = ((omega arith, tt), ((omega arith, tt), ((omega arith, tt), tt)))

pairs-AddsTexts : AddsTexts (calls_of letters pairs)
unfolding AddsTexts
pairs-AddsTexts = ((omega arith, tt), ((omega arith, tt), ((omega arith, tt), tt)))

main-Printed_example :
    Returns (main letters plenty nothing (1 ∷ arguments pairs)) (Printed letters pairs)
unfolding costs loads
main-Printed_example =
    main-Printed letters plenty nothing 1 pairs generous (omega arith) pairs-AllTexts (
      few-has_room plenty no_key_handlers fresh empty_mapping (calls_of letters pairs) generous
        default-KeyLaws (fresh-Represents nothing) pairs-AddsTexts (omega arith) (omega arith)
        (omega arith))
