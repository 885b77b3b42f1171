-- ===== src/Sample/Storing.antt =====
-- The first two loops of sample.c: the pairs are stored, and read back.
use coucal.Api.Reads.{found_or, reads_lem}
use coucal.Api.Starting.{laws_of}
use coucal.Api.{write_pvoid, no_key_handlers}
use coucal.Base.{
  ℕ, ◌≡◌, refl, ap, ◌∙◌, Bool, true, false, not, Option, none, some, List, [], ◌∷◌, length, ◌*◌,
  if◌then◌else◌, is_none, arith,
}
use coucal.Keys.{strcmp_equal, equal_texts}
use coucal.Pool.Text.{IsText}
use coucal.Pool.{text}
use coucal.Run.{Run, ok, abort, ◌>>=◌}
use coucal.Sample.{Memory, Line, pair, fill, check}
use coucal.Session.{
  Call, Answer, flag, call_write_pvoid, with_flag, with_answer, perform, session, Mapping, replay,
  Represents, AddsTexts,
}
use coucal.Table.Modes.{Ready-Valid}
use coucal.State.{outside, Coucal, Allocator}

abbrev last_table : Coucal × List Answer → Run Coucal
last_table s = ok s.0

abbrev or_else : Option ℕ → Option ℕ → Option ℕ
or_else (some v) o = some v
or_else none o = o

-- The arguments that pairs of addresses are.
abbrev pub arguments : List (ℕ × ℕ) → List ℕ
arguments [] = []
arguments ((name, value) ∷ pairs) = name ∷ value ∷ arguments pairs

module _ (memory : Memory) where
  abbrev pub calls_of : List (ℕ × ℕ) → List Call
  calls_of [] = []
  calls_of ((name, value) ∷ pairs) = call_write_pvoid (memory name) value ∷ calls_of pairs

  abbrev pub AllTexts : List (ℕ × ℕ) → Type 0
  AllTexts [] = Unit
  AllTexts ((name, value) ∷ pairs) = IsText (memory name) × AllTexts pairs

  pub AllTexts-AddsTexts : (pairs : List (ℕ × ℕ)) → AllTexts pairs → AddsTexts (calls_of pairs)
  unfolding AddsTexts
  AllTexts-AddsTexts [] all = tt
  AllTexts-AddsTexts ((name, value) ∷ pairs) (string, all) = (string, AllTexts-AddsTexts pairs all)

  -- The value that the last pair with the key gives it.
  unfoldable pub latest : List (ℕ × ℕ) → List ℕ → Option ℕ
  latest [] t = none
  latest ((name, value) ∷ pairs) t =
      or_else (latest pairs t) (if strcmp_equal t (memory name) then some value else none)

  abbrev pub latest_or : List (ℕ × ℕ) → List ℕ → Option ℕ → Option ℕ
  latest_or pairs t o = or_else (latest pairs t) o

  pub latest_or-none : (pairs : List (ℕ × ℕ)) (t : List ℕ) → latest_or pairs t none ≡ latest pairs t
  latest_or-none pairs t = go (latest pairs t)
    where
      go : (o : Option ℕ) → or_else o none ≡ o
      go none = refl
      go (some v) = refl

  pub length-arguments : (pairs : List (ℕ × ℕ)) → length (arguments pairs) ≡ 2 * length pairs
  length-arguments [] = refl
  length-arguments ((name, value) ∷ pairs) = omega (arith, length-arguments pairs)

  -- The loop is a session of writes.
  pub fill-session :
      (alloc : Allocator) (pairs : List (ℕ × ℕ)) (c : Coucal)
      → fill memory alloc (arguments pairs) c ≡ (session alloc c (calls_of pairs) >>= last_table)
  unfolding fill session perform
  fill-session alloc [] c = refl
  fill-session alloc ((name, value) ∷ pairs) c =
      go (fill-session alloc pairs) (write_pvoid alloc c (outside (memory name)) value)
    where
      go_on : Coucal × Answer → Run (Coucal × List Answer)
      go_on r = session alloc r.0 (calls_of pairs) >>= with_answer r.1

      collected :
          (a : Answer) (s : Run (Coucal × List Answer))
          → (s >>= last_table) ≡ (s >>= with_answer a >>= last_table)
      collected a abort = refl
      collected a (ok s) = refl

      go :
          ((c : Coucal)
            → fill memory alloc (arguments pairs) c
              ≡ (session alloc c (calls_of pairs) >>= last_table))
          → (w : Run (Coucal × Bool))
          → (w >>= λ r. fill memory alloc (arguments pairs) r.0)
            ≡ (w >>= with_flag >>= go_on >>= last_table)
      go rest abort = refl
      go rest (ok r) = rest r.0 ∙ collected (flag r.1) (session alloc r.0 (calls_of pairs))

  pub replay-latest :
      (pairs : List (ℕ × ℕ)) (m : Mapping) (t : List ℕ)
      → (replay no_key_handlers m (calls_of pairs)).0.lookup t ≡ latest_or pairs t (m.lookup t)
  unfolding replay latest equal_texts
  replay-latest [] m t = refl
  replay-latest ((name, value) ∷ pairs) m t =
      replay-latest pairs _ t ∙ go (latest pairs t) (strcmp_equal t (memory name))
    where
      go :
          (later : Option ℕ) (same : Bool)
          → ◌≡◌ {A = Option ℕ}
              (or_else later (if same then some value else m.lookup t))
              (or_else (or_else later (if same then some value else none)) (m.lookup t))
      go (some v) same = refl
      go none true = refl
      go none false = refl

  -- Every key of the pairs has a value.
  abbrev Kept : List (ℕ × ℕ) → List (ℕ × ℕ) → Type 0
  Kept all [] = Unit
  Kept all ((name, value) ∷ pairs) = (is_none (latest all (memory name)) ≡ false) × Kept all pairs

  Kept-more : (x : ℕ × ℕ) (all pairs : List (ℕ × ℕ)) → Kept all pairs → Kept (x ∷ all) pairs
  unfolding latest
  Kept-more x all [] k = tt
  Kept-more (n, v) all ((name, value) ∷ pairs) (here, k) =
      (ground (arith, here), Kept-more (n, v) all pairs k)

  strcmp_self : (t : List ℕ) → strcmp_equal t t ≡ true
  unfolding strcmp_equal
  strcmp_self [] = refl
  strcmp_self (b ∷ t) = ground (arith, strcmp_self t)

  pub all-Kept : (pairs : List (ℕ × ℕ)) → Kept pairs pairs
  unfolding latest
  all-Kept [] = tt
  all-Kept ((name, value) ∷ pairs) = (
    first (latest pairs (memory name)) (strcmp_equal (memory name) (memory name))
        (strcmp_self (memory name)),
    Kept-more (name, value) pairs pairs (all-Kept pairs),
  )
    where
      first :
          (later : Option ℕ) (same : Bool)
          → same ≡ true
          → is_none (or_else later (if same then some value else none)) ≡ false
      first later same e = ground arith

  -- What the second loop prints: for every argument that is a key, its latest value.
  abbrev pub checked_lines : List (ℕ × ℕ) → List (ℕ × ℕ) → List Line
  checked_lines all [] = []
  checked_lines all ((name, value) ∷ pairs) =
      pair (memory name) (memory (found_or (latest all (memory name)) 0)) ∷ checked_lines all pairs

  pub check-lines :
      (c : Coucal) (m : Mapping) (all pairs : List (ℕ × ℕ))
      → Represents no_key_handlers c m
      → ((t : List ℕ) → m.lookup t ≡ latest all t)
      → Kept all pairs
      → check memory c (arguments pairs) ≡ ok (checked_lines all pairs)
  unfolding check text
  check-lines c m all [] x same k = refl
  check-lines c m all ((name, value) ∷ pairs) x same (here, k) =
      let reads =
        reads_lem c (outside (memory name)) (laws_of c x.handlers) (Ready-Valid x.table) in
      let e = x.entries (memory name) ∙ same (memory name) in
      let there : not (is_none (latest all (memory name))) ≡ true = ap not here in
      rw (reads.pvoid, e, there, ◌>>=◌, check-lines c m all pairs x same k) refl
