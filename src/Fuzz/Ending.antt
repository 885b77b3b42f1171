-- ===== src/Fuzz/Ending.antt =====
-- The harness as a whole, `LLVMFuzzerTestOneInput`.
use coucal.Base.{ℕ, ◌+◌, ◌^◌, ◌<◌, ◌≤◌, ◌≡◌, true, ◌⊎◌, inl, inr, arith, List, length}
use coucal.Fuzz.Checking.{fuzz_end-ends}
use coucal.Fuzz.Filling.{rounds_from, Filled, Headway, finished, filled, fuzz_rounds-Headway}
use coucal.Fuzz.Running.{few_rounds-has_room, has_room, start_table, fuzz_rounds-Agrees}
use coucal.Fuzz.{
  KeyPrinter, KeyScanner, Prints, Scans, decode, nothing_modelled, fuzz_one_input, fuzz_rounds,
}
use coucal.Pool.Duplicating.{Generous}
use coucal.Run.{ok, ◌>>=◌}
use coucal.State.{World, Allocator}

-- If every request for memory is granted, the printed keys are as they should be and are read back, the
-- harness ends normally on every input of less than 2^31 bytes, as long as the stash has a free slot and
-- the table is below the greatest size before every round: no operation, and no item of the enumeration
-- at the end, diverges from the model, and no assertion of the library fails, up to the destruction of
-- the table.
pub fuzz_one_input-ends :
    (alloc : Allocator) (print : KeyPrinter) (scan : KeyScanner) (w : World) (bytes : List ℕ)
    → Generous alloc
    → Prints print
    → Scans print scan
    → length bytes < 2 ^ 31
    → has_room alloc print
        (record { table = start_table w; model = nothing_modelled })
        (decode bytes)
      ≡ true
    → (w' : World) × (fuzz_one_input alloc print scan w bytes ≡ ok w')
unfolding fuzz_one_input
fuzz_one_input-ends alloc print scan w bytes generous prints scans short room =
    let (s, run, a) = fuzz_rounds-Agrees alloc print w bytes generous prints short room in
    let (w', run') = fuzz_end-ends print (length (decode bytes)) s a scan scans alloc in
    (w', rw run run')

-- If every request for memory is granted, the printed keys are as they should be and are read back, the
-- harness ends normally on every input of less than 2^31 bytes: no operation, and no item of the
-- enumeration at the end, diverges from the model, and no assertion of the library fails, up to the
-- destruction of the table; or the rounds before some round of the input end normally, with the table in
-- agreement with the model, and this round finds a full stash or a table of the greatest size.
pub fuzz_one_input-Filled :
    (alloc : Allocator) (print : KeyPrinter) (scan : KeyScanner) (w : World) (bytes : List ℕ)
    → Generous alloc
    → Prints print
    → Scans print scan
    → length bytes < 2 ^ 31
    → ((w' : World) × (fuzz_one_input alloc print scan w bytes ≡ ok w'))
      ⊎ Filled print 0 (rounds_from alloc print w) (decode bytes)
unfolding fuzz_one_input fuzz_rounds
fuzz_one_input-Filled alloc print scan w bytes generous prints scans short =
    ended (fuzz_rounds-Headway alloc print w bytes generous prints short)
  where
    ended :
        Headway print 0 (rounds_from alloc print w) (decode bytes)
        → ((w' : World) × (fuzz_one_input alloc print scan w bytes ≡ ok w'))
          ⊎ Filled print 0 (rounds_from alloc print w) (decode bytes)
    ended (filled x) = inr x
    ended (finished (s, run, a)) =
        let (w', run') = fuzz_end-ends print (0 + length (decode bytes)) s a scan scans alloc in
        inl (w', rw (run, ◌>>=◌) run')

-- If every request for memory is granted, the printed keys are as they should be and are read back, the
-- harness ends normally on every input of at most 33 bytes, whatever its keys collide on: sixteen rounds
-- cannot fill the stash, nor bring the table to the greatest size.
pub short_input-ends :
    (alloc : Allocator) (print : KeyPrinter) (scan : KeyScanner) (w : World) (bytes : List ℕ)
    → Generous alloc
    → Prints print
    → Scans print scan
    → length bytes ≤ 33
    → (w' : World) × (fuzz_one_input alloc print scan w bytes ≡ ok w')
short_input-ends alloc print scan w bytes generous prints scans short =
    fuzz_one_input-ends alloc print scan w bytes generous prints scans (omega arith)
      (few_rounds-has_room alloc print w bytes generous prints short)
