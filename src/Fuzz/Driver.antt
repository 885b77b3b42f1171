-- ===== src/Fuzz/Driver.antt =====
-- The replay driver of the standalone build of the harness (fuzz/coucal_fuzz.c): every file named by an
-- argument is one input. What the file system and `malloc` give for a file is a parameter.
use coucal.Base.{ℕ, ◌^◌, ◌<◌, ◌≡◌, refl, true, List, [], ◌∷◌, length}
use coucal.Fuzz.Ending.{fuzz_one_input-ends}
use coucal.Fuzz.Running.{has_room, start_table}
use coucal.Fuzz.{KeyPrinter, KeyScanner, Prints, Scans, decode, nothing_modelled, fuzz_one_input}
use coucal.Pool.Duplicating.{Generous}
use coucal.Run.{Run, ok, ◌>>=◌, Returns}
use coucal.State.{World, Allocator}

-- A file that cannot be opened, measured or given a buffer, or the bytes that were read.
pub data TestCase : Type 0 where
  unreadable : TestCase
  holds : List ℕ → TestCase

-- `main`: the exit status, with the world.
unfoldable pub replay_files :
    Allocator → KeyPrinter → KeyScanner → World → List TestCase → Run (World × ℕ)
unfolding fuzz_one_input
replay_files alloc print scan world [] = ok (world, 0)
replay_files alloc print scan world (unreadable ∷ cases) = ok (world, 1)
replay_files alloc print scan world (holds buf ∷ cases) =
    fuzz_one_input alloc print scan world buf >>= λ world'.
    replay_files alloc print scan world' cases

-- Each input is short, and has room in a new table.
abbrev pub AllReady : Allocator → KeyPrinter → List TestCase → Type 0
AllReady alloc print [] = Unit
AllReady alloc print (unreadable ∷ cases) = AllReady alloc print cases
AllReady alloc print (holds buf ∷ cases) =
    (length buf < 2 ^ 31)
    × ((w : World)
        → has_room alloc print (record { table = start_table w; model = nothing_modelled })
            (decode buf)
          ≡ true)
    × AllReady alloc print cases

-- The exit status: 1 if a file is unreadable.
abbrev pub exit_status : List TestCase → ℕ
exit_status [] = 0
exit_status (unreadable ∷ cases) = 1
exit_status (holds buf ∷ cases) = exit_status cases

-- If every request for memory is granted, the printed keys are as they should be and are read back, the
-- driver ends normally on all files of less than 2^31 bytes, as long as there is room for the rounds of
-- each, and tells by its exit status whether it met an unreadable one.
pub replay_files-ends :
    (alloc : Allocator) (print : KeyPrinter) (scan : KeyScanner) (w : World) (cases : List TestCase)
    → Generous alloc
    → Prints print
    → Scans print scan
    → AllReady alloc print cases
    → Returns (replay_files alloc print scan w cases) λ r. r.1 ≡ exit_status cases
unfolding replay_files
replay_files-ends alloc print scan w [] generous prints scans ready = ((w, 0), refl, refl)
replay_files-ends alloc print scan w (unreadable ∷ cases) generous prints scans ready =
    ((w, 1), refl, refl)
replay_files-ends alloc print scan w (holds buf ∷ cases) generous prints scans
      (short, room, ready) =
    let (w1, run1) =
      fuzz_one_input-ends alloc print scan w buf generous prints scans short (room w) in
    let (r, run2, e) = replay_files-ends alloc print scan w1 cases generous prints scans ready in
    (r, rw (run1, ◌>>=◌) run2, e)
