-- ===== src/Fuzz.antt =====
-- The differential harness fuzz/coucal_fuzz.c: every operation is applied to a table and to a flat array,
-- and any divergence is an `abort()`. The keys are in the string pool, and hashed by default.
pub mod Agreeing
pub mod Stepping
pub mod Running
pub mod Filling
pub mod Checking
pub mod Ending
pub mod Driver
use coucal.Api.{new, set_assert_handler, write, exists, read, inc, nitems}
use coucal.Base.{
  ℕ, zero, suc, ◌+◌, ◌-◌, ◌<◌, ◌%◌, ◌^◌, ◌≡◌, Bool, true, false, not, ◌&&◌, Option, none, some,
  List, [], ◌∷◌, length, ltb, ◌==◌, if◌then◌else◌,
}
use coucal.Base.Words.{pow2, size_mod, inc_size, dec_size}
use coucal.Pool.Text.{IsText}
use coucal.Run.{Run, ok, abort, ◌>>=◌, ◌>>◌, assert}
use coucal.State.{Name, outside, Item, World, Coucal, Allocator, stash_size}
use coucal.Delete.{delete}
use coucal.Enum.{Enum, enum_new, enum_next}
use coucal.Pool.{text}
use coucal.Table.Remove.{remove}

-- `FZ_KEYS`
abbrev pub fz_keys : ℕ
fz_keys = 256

-- `snprintf(key, sizeof(key), "k%u", kid)`, by what it writes.
abbrev pub KeyPrinter : Type 0
KeyPrinter = ℕ → List ℕ

-- What the harness relies on: different identifiers give different strings, which fit `char key[16]`.
pub record Prints (print : KeyPrinter) : Type 0 where
  pub print-IsText : (kid : ℕ) → IsText (print kid)
  pub length-print : (kid : ℕ) → length (print kid) < 16
  pub print_injective : (i j : ℕ) → i < fz_keys → j < fz_keys → print i ≡ print j → i ≡ j

-- The reference model: `mval`, `mpresent`, `model_count` and `counter`.
pub record Reference : Type 0 where
  pub value : ℕ → ℕ
  pub present : ℕ → Bool
  pub count : ℕ
  pub counter : ℕ

pub record Harness : Type 0 where
  pub table : Coucal
  pub model : Reference

-- `array[kid] = v`
abbrev pub at_key : {A : Type 0} → (ℕ → A) → ℕ → A → ℕ → A
at_key f kid v i = if i == kid then v else f i

-- An `int` as an `intptr_t`, by the patterns of their words.
abbrev pub widen : ℕ → ℕ
widen n = if ltb n (2 ^ 31) then n else n + (size_mod - 2 ^ 32)

module _ (alloc : Allocator) (print : KeyPrinter) where
  -- "write / replace"
  unfoldable pub fuzz_write : Harness → ℕ → Run Harness
  unfolding write
  fuzz_write s kid = do
    let m = s.model
    let v = (m.counter + 1) % size_mod
    (h, added) ← write alloc s.table (outside (print kid)) v
    assert (if m.present kid then not added else added)
    ok (record {
      table = h;
      model = record {
        value = at_key m.value kid v;
        present = at_key m.present kid true;
        count = if m.present kid then m.count else inc_size m.count;
        counter = v;
      };
    })

  -- "remove"
  unfoldable pub fuzz_remove : Harness → ℕ → Run Harness
  unfolding remove
  fuzz_remove s kid = do
    let m = s.model
    (h, removed) ← remove alloc s.table (outside (print kid))
    assert (if m.present kid then removed else not removed)
    ok (record {
      table = h;
      model = record m {
        present = at_key m.present kid false;
        count = if m.present kid then dec_size m.count else m.count;
      };
    })

  -- "lookup"
  unfoldable pub fuzz_lookup : Harness → ℕ → Run Harness
  unfolding exists read
  fuzz_lookup s kid = do
    let m = s.model
    let name = outside (print kid)
    assert (if m.present kid then exists s.table name else not (exists s.table name))
    let (got, found) = read s.table name true
    assert (if m.present kid then found && got == m.value kid else true)
    ok s

  -- "inc"
  unfoldable pub fuzz_inc : Harness → ℕ → Run Harness
  unfolding inc
  fuzz_inc s kid = do
    let m = s.model
    (h, got) ← inc alloc s.table (outside (print kid))
    let v = if m.present kid then (m.value kid + 1) % size_mod else 1
    assert (widen got == v)
    ok (record {
      table = h;
      model = record m {
        value = at_key m.value kid v;
        present = at_key m.present kid true;
        count = if m.present kid then m.count else inc_size m.count;
      };
    })

  -- One round: two bytes, the operation and the identifier of the key.
  unfoldable pub fuzz_step : Harness → ℕ × ℕ → Run Harness
  unfolding fuzz_write fuzz_remove fuzz_lookup fuzz_inc nitems
  fuzz_step s (code, byte) = do
    let op = code % 4
    let kid = byte % fz_keys
    s' ←
        if op == 0
        then fuzz_write s kid
        else if op == 1
        then fuzz_remove s kid
        else if op == 2
        then fuzz_lookup s kid
        else fuzz_inc s kid
    assert (nitems (some s'.table) == s'.model.count)
    ok s'

  unfoldable pub fuzz_steps : Harness → List (ℕ × ℕ) → Run Harness
  unfolding fuzz_step
  fuzz_steps s [] = ok s
  fuzz_steps s (op ∷ ops) = fuzz_step s op >>= λ s'. fuzz_steps s' ops

-- The model before the first operation.
abbrev pub nothing_modelled : Reference
nothing_modelled = record { value = λ _. 0; present = λ _. false; count = 0; counter = 0 }

-- A table that is NULL is a crash of `coucal_set_assert_handler`.
unfoldable pub fuzz_start : Allocator → World → Run Harness
unfolding new set_assert_handler
fuzz_start alloc world = elim (new alloc world 0) [
  | none ↦ abort
  | some h ↦ ok (record { table = set_assert_handler h (some 1) none; model = nothing_modelled })
]

-- Two bytes for a round; a last byte alone is not read.
unfoldable pub decode : List ℕ → List (ℕ × ℕ)
decode [] = []
decode (code ∷ []) = []
decode (code ∷ byte ∷ bytes) = (code, byte) ∷ decode bytes

-- `LLVMFuzzerTestOneInput`, up to the enumeration at its end.
unfoldable pub fuzz_rounds : Allocator → KeyPrinter → World → List ℕ → Run Harness
unfolding fuzz_start fuzz_steps decode
fuzz_rounds alloc print world bytes =
    fuzz_start alloc world >>= λ s. fuzz_steps alloc print s (decode bytes)

-- `sscanf((const char *) it->name, "k%u", &kid)`: the identifier, if one is read.
abbrev pub KeyScanner : Type 0
KeyScanner = List ℕ → Option ℕ

-- What the harness relies on: a printed key is read back.
abbrev pub Scans : KeyPrinter → KeyScanner → Type 0
Scans print scan = (kid : ℕ) → kid < fz_keys → scan (print kid) ≡ some kid

module _ (scan : KeyScanner) where
  -- One item of the enumeration, against the model. Gives `check` with the item entered. The name of an
  -- item is never NULL where `enum_next` gives it.
  unfoldable pub fuzz_item : Harness → Item → (ℕ → Bool) → Run (ℕ → Bool)
  unfolding text
  fuzz_item s item check =
      let known = λ (kid : ℕ).
        assert (ltb kid fz_keys)
        >> (assert (s.model.present kid && not (check kid))
            >> (assert (item.value == s.model.value kid) >> ok (at_key check kid true))) in
      elim item.name [
        | none ↦ abort
        | some name ↦ elim (scan (text s.table.pool.buffer name)) [
          | none ↦ abort
          | some kid ↦ known kid
        ]
      ]

  -- The loop; gives `seen`.
  unfoldable pub fuzz_enum : ℕ → Harness → Enum → (ℕ → Bool) → ℕ → Run ℕ
  unfolding fuzz_item enum_next
  fuzz_enum zero s e check seen = abort
  fuzz_enum (suc fuel) s e check seen =
      let r = enum_next e in
      elim r.0 [
        | none ↦ ok seen
        | some item ↦
            fuzz_item s item check >>= λ check'. fuzz_enum fuel s r.1 check' (inc_size seen)
      ]

  -- "Enumeration must reproduce the model set exactly." There are at most as many rounds as slots, and
  -- the one that ends the loop.
  unfoldable pub fuzz_end : Allocator → Harness → Run World
  unfolding fuzz_enum delete
  fuzz_end alloc s = do
    seen ← fuzz_enum (pow2 s.table.lg_size + stash_size + 1) s (enum_new s.table) (λ _. false) 0
    assert (seen == s.model.count)
    delete alloc s.table

-- `LLVMFuzzerTestOneInput`
unfoldable pub fuzz_one_input : Allocator → KeyPrinter → KeyScanner → World → List ℕ → Run World
unfolding fuzz_rounds fuzz_end
fuzz_one_input alloc print scan world bytes =
    fuzz_rounds alloc print world bytes >>= fuzz_end scan alloc
