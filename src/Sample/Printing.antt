-- ===== src/Sample/Printing.antt =====
-- The whole of sample.c.

use coucal.Api.Starting.{default-KeyLaws, new-granted, fresh_table}
use coucal.Api.{no_key_handlers, nitems}
use coucal.Base.{
  ℕ, suc, ◌*◌, ◌%◌, ◌<◌, ◌≡◌, refl, ◌∙◌, true, false, not, ◌||◌, List, ◌∷◌, ◌++◌, length, ◌==◌,
  arith,
}
use coucal.Delete.Released.{delete-released}
use coucal.Pool.Duplicating.{Generous}
use coucal.Run.{◌>>=◌, Returns}
use coucal.Sample.Listing.{Lists, listed_lines}
use coucal.Sample.Storing.{
  arguments, calls_of, AllTexts, AllTexts-AddsTexts, latest, fill-session, replay-latest, all-Kept,
  checked_lines, check-lines, latest_or-none, length-arguments,
}
use coucal.Sample.{
  Memory, Line, stored, checking_keys, enumerating_keys, exit_success, Output, fill, report, main,
}
use coucal.Session.Replaying.{fresh-Represents, session-Replayed}
use coucal.Session.Room.{has_room}
use coucal.Session.{empty_mapping, Represents, replay}
use coucal.Table.Modes.{Ready-Valid}
use coucal.State.{World, Coucal, Allocator}

module _ (memory : Memory) where
  -- What the program prints for its pairs: the number of keys, the arguments with the latest values of
  -- their keys, and the listing.
  pub record Printed (pairs : List (ℕ × ℕ)) (out : Output) : Type 0 where
    pub code : out.code ≡ exit_success
    pub n : ℕ
    pub listing : List Line
    pub lines :
        out.lines
        ≡ stored n
          ∷ checking_keys
          ∷ (checked_lines memory pairs pairs ++ enumerating_keys ∷ listing)
    pub listed : Lists memory pairs n listing

  report-Printed :
      (alloc : Allocator) (pairs : List (ℕ × ℕ)) (c : Coucal)
      → Represents no_key_handlers c
          (replay no_key_handlers empty_mapping (calls_of memory pairs)).0
      → Returns (report memory alloc c (arguments pairs)) (Printed pairs)
  unfolding report nitems
  report-Printed alloc pairs c x =
      let m = (replay no_key_handlers empty_mapping (calls_of memory pairs)).0 in
      let agree : (t : List ℕ) → m.lookup t ≡ latest memory pairs t =
        λ t. replay-latest memory pairs empty_mapping t ∙ latest_or-none memory pairs t in
      let checked = check-lines memory c m pairs pairs x agree (all-Kept memory pairs) in
      let (listing, run, listed) = listed_lines memory c m pairs x agree in
      let (world, deleted, _) = delete-released alloc c (Ready-Valid x.table).layout in
      (
        record {
          lines =
              stored c.used
              ∷ checking_keys
              ∷ (checked_lines memory pairs pairs ++ enumerating_keys ∷ listing);
          code = exit_success;
          world = world;
        },
        rw (checked, ◌>>=◌, run, deleted) refl,
        record { code = refl; n = c.used; listing = listing; lines = refl; listed = listed },
      )

  fill-Represents :
      (alloc : Allocator) (w : World) (pairs : List (ℕ × ℕ))
      → Generous alloc
      → AllTexts memory pairs
      → has_room alloc (fresh_table w) (calls_of memory pairs) ≡ true
      → Returns (fill memory alloc (arguments pairs) (fresh_table w)) λ c.
        Represents no_key_handlers c
          (replay no_key_handlers empty_mapping (calls_of memory pairs)).0
  fill-Represents alloc w pairs generous texts room =
      let (r, run, (x, _)) =
        session-Replayed alloc no_key_handlers (fresh_table w) empty_mapping (calls_of memory pairs)
          generous default-KeyLaws (fresh-Represents w) (AllTexts-AddsTexts memory pairs texts)
          room in
      (r.0, fill-session memory alloc pairs (fresh_table w) ∙ rw run refl, x)

  right_count : (n k : ℕ) → n ≡ 2 * k → 0 < k → (suc n == 1 || not (suc n % 2 == 1)) ≡ false
  right_count n k e h = ground arith

  -- If every request for memory is granted, sample.c with one pair of arguments or more, whose keys have
  -- no NUL byte, ends with success, as long as there is room in the table: its `assert` does not fail,
  -- nor does any of the library. It prints the number of different keys; then each key argument with
  -- the value of the last pair that has this key; then, in some order, every key once, with the same
  -- values.
  pub main-Printed :
      (alloc : Allocator) (w : World) (program : ℕ) (pairs : List (ℕ × ℕ))
      → Generous alloc
      → 0 < length pairs
      → AllTexts memory pairs
      → has_room alloc (fresh_table w) (calls_of memory pairs) ≡ true
      → Returns (main memory alloc w (program ∷ arguments pairs)) (Printed pairs)
  unfolding main
  main-Printed alloc w program pairs generous some_pair texts room =
      let (c, run, x) = fill-Represents alloc w pairs generous texts room in
      let (out, run', p) = report-Printed alloc pairs c x in
      (
        out,
        rw
            (
              right_count (length (arguments pairs)) (length pairs) (length-arguments memory pairs)
                  some_pair,
              new-granted alloc w generous,
              run,
              ◌>>=◌,
            )
            run',
        p,
      )
