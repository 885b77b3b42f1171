-- ===== src/Sample.antt =====
-- The program sample.c: it stores the pairs of key and value that its arguments are, reads every key
-- back, lists the table, and deletes it. What it prints is a list of lines.
pub mod Storing
pub mod Listing
pub mod Printing
use coucal.Api.{new, write_pvoid, read_pvoid, nitems}
use coucal.Base.{
  ℕ, zero, suc, ◌+◌, ◌%◌, Bool, true, false, not, ◌||◌, Option, none, some, List, [], ◌∷◌, ◌++◌,
  length, get_or, drop, ◌==◌, if◌then◌else◌,
}
use coucal.Base.Words.{pow2}
use coucal.Delete.{delete}
use coucal.Enum.{Enum, enum_new, enum_next}
use coucal.Keys.{key_text}
use coucal.Run.{Run, ok, abort, ◌>>=◌, ◌>>◌, assert}
use coucal.State.{outside, World, Coucal, Allocator, stash_size}

-- The string at an address, without its NUL.
abbrev pub Memory : Type 0
Memory = ℕ → List ℕ

-- The calls of `printf`.
pub data Line : Type 0 where
  usage : List ℕ → Line
  stored : ℕ → Line
  checking_keys : Line
  enumerating_keys : Line
  pair : List ℕ → List ℕ → Line

pub data ExitCode : Type 0 where
  exit_success : ExitCode
  exit_failure : ExitCode

pub record Output : Type 0 where
  pub lines : List Line
  pub code : ExitCode
  pub world : World

module _ (memory : Memory) where
  -- "Fill hashtable", over `argv[i]` and `argv[i + 1]`. Past the last argument there is NULL.
  unfoldable pub fill : Allocator → List ℕ → Coucal → Run Coucal
  unfolding write_pvoid
  fill alloc [] c = ok c
  fill alloc (name ∷ []) c = write_pvoid alloc c (outside (memory name)) 0 >>= λ r. ok r.0
  fill alloc (name ∷ value ∷ args) c =
      write_pvoid alloc c (outside (memory name)) value >>= λ r. fill alloc args r.0

  -- "Check we have the items"
  unfoldable pub check : Coucal → List ℕ → Run (List Line)
  unfolding read_pvoid
  check c [] = ok []
  check c (name ∷ []) =
      let r = read_pvoid c (outside (memory name)) true in
      assert r.1 >> ok (pair (memory name) (memory r.0) ∷ [])
  check c (name ∷ _ ∷ args) =
      let r = read_pvoid c (outside (memory name)) true in
      assert r.1 >> (check c args >>= λ lines. ok (pair (memory name) (memory r.0) ∷ lines))

  -- "Enumerate", in at most so many rounds. The name of an item is never NULL where `enum_next` gives it.
  unfoldable pub list_items : ℕ → Enum → Run (List Line)
  unfolding enum_next
  list_items zero e = abort
  list_items (suc fuel) e =
      let r = enum_next e in
      let rest = list_items fuel r.1 in
      elim r.0 [
        | none ↦ ok []
        | some item ↦ elim item.name [
          | none ↦ abort
          | some name ↦
              rest >>= λ lines. ok (pair (key_text e.table name) (memory item.value) ∷ lines)
        ]
      ]

  -- From the first `printf` on. There are at most as many rounds as slots, and the one that ends the loop.
  unfoldable pub report : Allocator → Coucal → List ℕ → Run Output
  unfolding check list_items delete nitems
  report alloc c args = do
    checked ← check c args
    listed ← list_items (pow2 c.lg_size + stash_size + 1) (enum_new c)
    world ← delete alloc c
    ok (record {
      lines = stored (nitems (some c)) ∷ checking_keys ∷ (checked ++ enumerating_keys ∷ listed);
      code = exit_success;
      world = world;
    })

  -- `main`, by its arguments with the name of the program. `assert(hashtable != NULL)` is an `abort()`.
  unfoldable pub main : Allocator → World → List ℕ → Run Output
  unfolding fill report new
  main alloc world argv =
      let argc = length argv in
      let args = drop 1 argv in
      if argc == 1 || not (argc % 2 == 1)
      then ok (record {
        lines = usage (memory (get_or argv 0 0)) ∷ [];
        code = exit_failure;
        world = world;
      })
      else elim (new alloc world 0) [
        | none ↦ abort
        | some hashtable ↦ fill alloc args hashtable >>= λ c. report alloc c args
      ]
