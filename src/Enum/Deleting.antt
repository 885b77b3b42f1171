-- ===== src/Enum/Deleting.antt =====
-- An enumeration while entries are deleted, and values replaced, between its rounds (coucal.h: "every
-- entry not yet deleted is still visited exactly once").
use coucal.Enum.Ahead.{
  all_slots, span_mono, span-skip, Gives, gives, ends, enum_next-Gives, end-le, some_ne_none,
  limit-span, all_passed,
}
use coucal.Enum.Walking.{
  Walk, times_of, times, Step, round, deletion, replacement, Steps, stop, step,
}
use coucal.Base.{
  ℕ, suc, ◌+◌, ◌-◌, ◌≤◌, ◌<◌, ◌≡◌, ap, subst, sym, ◌∙◌, inl, inr, Bool, true, false, Option, none,
  some, List, [], ◌∷◌, ltb, leb, is_none, ◌==◌, ==_iff, Bool-cases, arith,
}
use coucal.Base.Words.{pow2}
use coucal.Enum.Complete.{whole-span}
use coucal.Enum.Steps.{slot_at, at_index, end_of, next-beyond}
use coucal.Enum.{Enum, enum_next}
use coucal.Keys.Laws.{KeyLaws}
use coucal.Keys.{equal_texts, key_text}
use coucal.Pool.Duplicating.{Generous}
use coucal.Pool.{text}
use coucal.Run.{Run, ok, abort}
use coucal.State.{Item, Name, outside, Custom, Coucal, Allocator, stash_size}
use coucal.Table.Entries.{mass, one_if}
use coucal.Table.Layout.{weight}
use coucal.Table.Modes.{Ready, Ready-Valid, remove-Deleted, write_value-Written, present-CanTake}
use coucal.Table.Reading.{absent_value}
use coucal.Table.Spans.{span, span-append}
use coucal.Table.Thinning.{Thins, holds}
use coucal.Table.Valid.{entry_of}
use coucal.Table.View.{view}
use coucal.Table.{is_empty_item}
use mathlib.Core.Option.{some-injective}

abbrev of_key : Coucal → List ℕ → Item → ℕ
of_key c k item = one_if (entry_of c k item)

-- Slots before the cursor, and from it on.
abbrev passed : Coucal → List ℕ → ℕ → ℕ
passed c k i = span (slot_at c) (of_key c k) i 0

abbrev ahead : Coucal → List ℕ → ℕ → ℕ
ahead c k i = span (slot_at c) (of_key c k) (all_slots c - i) i

-- Entries that were passed were given, and no key is given twice.
pub record Walking (w : Walk) : Type 0 where
  pub table : Ready w.table
  pub laws : KeyLaws w.table.custom.key
  pub inside : w.index ≤ all_slots w.table
  pub seen : (k : List ℕ) → passed w.table k w.index ≤ times w.table k w.given
  pub once : (k : List ℕ) → times w.table k w.given + ahead w.table k w.index ≤ 1

thinner-slot :
    (c c' : Coucal)
    → Thins c c'
    → (k : List ℕ) (j : ℕ) → holds c' k (slot_at c' j) ≤ holds c k (slot_at c j)
thinner-slot c c' t k j = elim (Bool-cases (ltb j (pow2 c.lg_size))) [
  | inl low ↦ rw (t.lg_size, low) (t.table k j)
  | inr high ↦ rw (t.lg_size, high) (t.stash k (j - pow2 c.lg_size))
]

-- A deletion, or a replacement, keeps the state of the walk.
pub deletion-Walking :
    (c c' : Coucal) (i : ℕ) (given : List (List ℕ))
    → Thins c c'
    → Ready c'
    → c'.custom ≡ c.custom
    → Walking (record { table = c; index = i; given = given })
    → Walking (record { table = c'; index = i; given = given })
deletion-Walking c c' i given t p custom w = record {
  table = p;
  laws = subst (λ (u : Custom). KeyLaws u.key) (sym custom) w.laws;
  inside = omega (arith, w.inside, same);
  seen = λ k. omega (
    arith,
    span_mono (slot_at c) (slot_at c') (of_key c k) (of_key c' k) i 0 (thinner-slot c c' t k),
    w.seen k,
    same_times k given,
  );
  once = λ k. omega (
    arith,
    span_mono (slot_at c) (slot_at c') (of_key c k) (of_key c' k) (all_slots c - i) i
        (thinner-slot c c' t k),
    ap (λ n. span (slot_at c') (of_key c' k) (n - i) i) same,
    w.once k,
    same_times k given,
  );
}
  where
    same : all_slots c' ≡ all_slots c
    same = ap (λ n. pow2 n + stash_size) t.lg_size

    same_times : (k : List ℕ) (ts : List (List ℕ)) → times c' k ts ≡ times c k ts
    same_times k ts = λ i. times_of (custom i) k ts

of_item :
    (c : Coucal) (k : List ℕ) (item : Item) (name : Name)
    → item.name ≡ some name
    → mass (of_key c k) item ≡ one_if (equal_texts c.custom.key (key_text c name) k)
of_item c k item name e = rw e

-- The cursor moves past the item that is given.
advance :
    (c : Coucal) (i d : ℕ) (given : List (List ℕ)) (name : Name)
    → i + d < end_of c
    → ((m : ℕ) → i ≤ m → m < i + d → is_empty_item (slot_at c m) ≡ true)
    → (slot_at c (i + d)).name ≡ some name
    → Walking (record { table = c; index = i; given = given })
    → Walking (record { table = c; index = i + d + 1; given = key_text c name ∷ given })
unfolding times_of
advance c i d given name lt free named w = record {
  table = w.table;
  laws = w.laws;
  inside = omega (arith, end-le c (Ready-Valid w.table).layout);
  seen = λ k. omega (
    arith,
    w.seen k,
    of_item c k (slot_at c (i + d)) name named,
    ap (λ m. span (slot_at c) (of_key c k) m 0) before,
    span-append (slot_at c) (of_key c k) i (d + 1) 0,
    ap (λ j. span (slot_at c) (of_key c k) (d + 1) j) start,
    span-skip (slot_at c) (of_key c k) d 0 i free,
  );
  once = λ k. omega (
    arith,
    w.once k,
    of_item c k (slot_at c (i + d)) name named,
    ap (λ m. span (slot_at c) (of_key c k) m i) rest,
    span-skip (slot_at c) (of_key c k) d (all_slots c - (i + d + 1)) i free,
  );
}
  where
    before : i + d + 1 ≡ i + (d + 1)
    before = omega arith

    start : 0 + i ≡ i
    start = omega arith

    rest : all_slots c - i ≡ d + suc (all_slots c - (i + d + 1))
    rest = omega (arith, end-le c (Ready-Valid w.table).layout)

pub round-Walking :
    (c : Coucal) (i : ℕ) (given : List (List ℕ)) (item : Item) (name : Name) (e : Enum)
    → enum_next (at_index c i) ≡ (some item, e)
    → item.name ≡ some name
    → Walking (record { table = c; index = i; given = given })
    → Walking (record { table = e.table; index = e.index; given = key_text c name ∷ given })
round-Walking c i given item name e run named w = elim (Bool-cases (leb i (end_of c))) [
  | inr past ↦
      let none_there = next-beyond c i (ground arith) in
      absurd (some_ne_none item (ap (λ r. r.0) (sym run ∙ none_there)))
  | inl low ↦ go (enum_next-Gives c (end_of c - i) i (ground arith))
]
  where
    go :
        Gives c i (enum_next (at_index c i))
        → Walking (record { table = e.table; index = e.index; given = key_text c name ∷ given })
    go (ends after e') = absurd (some_ne_none item (ap (λ r. r.0) (sym run) ∙ e'))
    go (gives d lt full before e') =
        let same = sym e' ∙ run in
        let item_is : slot_at c (i + d) ≡ item = some-injective _ _ (ap (λ r. r.0) same) in
        let e_is : at_index c (i + d + 1) ≡ e = ap (λ r. r.1) same in
        subst
          (λ (x : Enum).
            Walking (record { table = x.table; index = x.index; given = key_text c name ∷ given }))
          e_is (advance c i d given name lt before (ap (λ (x : Item). x.name) item_is ∙ named) w)

pub start-Walking :
    (c : Coucal)
    → KeyLaws c.custom.key
    → Ready c
    → Walking (record { table = c; index = 0; given = [] })
unfolding times_of
start-Walking c laws t = record {
  table = t;
  laws = laws;
  inside = omega arith;
  seen = λ k. omega arith;
  once = λ k. omega (
    arith,
    limit-span c (of_key c k) (Ready-Valid t).layout,
    ap (λ m. span (slot_at c) (of_key c k) m 0) whole,
    (Ready-Valid t).once k,
  );
}
  where
    whole : all_slots c - 0 ≡ all_slots c
    whole = omega arith

abbrev result_or : Coucal × Bool → Run (Coucal × Bool) → Coucal × Bool
result_or d abort = d
result_or d (ok r) = r

none_ne_some : (v : ℕ) → ◌≡◌ {A = Option ℕ} none (some v) → ⊥
none_ne_some v e = cc

Step-Walking :
    (alloc : Allocator) (a b : Walk) → Generous alloc → Step alloc a b → Walking a → Walking b
Step-Walking alloc _ _ generous (round c i given item name e run named) w =
    round-Walking c i given item name e run named w
Step-Walking alloc _ _ generous (deletion c c' i given name removed run) w =
    let (r, run', d) = remove-Deleted alloc c name w.laws w.table generous in
    let same : r ≡ (c', removed) = ap (result_or r) (sym run' ∙ run) in
    subst (λ (x : Coucal × Bool). Walking (record { table = x.0; index = i; given = given })) same
      (deletion-Walking c r.0 i given d.thins d.ready d.custom w)
Step-Walking alloc _ _ generous (replacement c c' i given name old value added there run) w =
    let (r, run', s) =
      write_value-Written alloc c name value w.laws w.table generous
        (present-CanTake c name old there) in
    let old_key : r.1 ≡ false = s.wrote.added ∙ ap is_none there in
    let same : r ≡ (c', added) = ap (result_or r) (sym run' ∙ run) in
    subst (λ (x : Coucal × Bool). Walking (record { table = x.0; index = i; given = given })) same
      (deletion-Walking c r.0 i given (s.wrote.thins old_key) s.ready s.wrote.custom w)

Steps-Walking :
    (alloc : Allocator) (a b : Walk) → Generous alloc → Steps alloc a b → Walking a → Walking b
Steps-Walking alloc a _ generous (stop _) w = w
Steps-Walking alloc a b generous (step _ m _ first rest) w =
    Steps-Walking alloc m b generous rest (Step-Walking alloc a m generous first w)

-- Where nothing more is given, every entry was passed.
pub finished :
    (c : Coucal) (i : ℕ) (given : List (List ℕ)) (k : List ℕ) (value : ℕ)
    → Walking (record { table = c; index = i; given = given })
    → (enum_next (at_index c i)).0 ≡ none
    → view c k ≡ some value
    → times c k given ≡ 1
unfolding text
finished c i given k value w last there =
    let weighs : 0 < weight (of_key c k) c = elim (Bool-cases (weight (of_key c k) c == 0)) [
      | inl e ↦ absurd (
          none_ne_some value
            (sym (absent_value c (outside k) (Ready-Valid w.table) ((==_iff _ 0).0 e)) ∙ there))
      | inr e ↦ ground arith
    ] in
    let l = (Ready-Valid w.table).layout in
    omega (arith, w.once k, w.seen k, weighs, whole-span c (of_key c k) l, reached)
  where
    reached : span (slot_at c) (of_key c k) (end_of c) 0 ≤ passed c k i
    reached = all_passed c i (of_key c k) last

-- With every request for memory granted and handlers that keep the laws of keys: when an enumeration
-- ends that began on a valid table, with its keys in a pool in order or duplicated and released by
-- handlers of the caller, and between whose rounds entries were deleted and values replaced, no key was given twice, and every key that is
-- still in the table was given just once.
pub walk-once :
    (alloc : Allocator) (c c' : Coucal) (i : ℕ) (given : List (List ℕ))
    → KeyLaws c.custom.key
    → Ready c
    → Generous alloc
    → Steps alloc
        (record { table = c; index = 0; given = [] })
        (record { table = c'; index = i; given = given })
    → (enum_next (at_index c' i)).0 ≡ none
    → (k : List ℕ)
    → (times c' k given ≤ 1) × ((value : ℕ) → view c' k ≡ some value → times c' k given ≡ 1)
walk-once alloc c c' i given laws t generous steps last k =
    let w = Steps-Walking alloc _ _ generous steps (start-Walking c laws t) in
    (omega (arith, w.once k), λ value there. finished c' i given k value w last there)
