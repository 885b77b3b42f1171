-- ===== src/Enum/Draining.antt =====
-- A loop of a client that deletes every item that an enumeration gives, by its own name (coucal.h: "the
-- name may still be passed back to this library as a key").
use coucal.Enum.Ahead.{Gives, gives, ends, enum_next-Gives, some_ne_none}
use coucal.Enum.Deleting.{Walking, deletion-Walking, round-Walking, start-Walking, finished}
use coucal.Enum.Entries.{Entry, slot-Entry, no_entry-used, enum_next-table}
use coucal.Enum.Steps.{at_index, end_of, next-beyond, slot_at}
use coucal.Enum.Walking.{times, times_of}
use coucal.Enum.{Enum, enum_new, enum_next}
use coucal.Base.{
  ℕ, zero, suc, ◌+◌, ◌-◌, ◌<◌, ◌≡◌, refl, ap, subst, sym, ◌∙◌, inl, inr, Bool, false, Option, none,
  some, List, [], ◌∷◌, leb, is_none, if◌then◌else◌, Bool-cases, Option-cases, arith,
}
use coucal.Keys.Laws.{KeyLaws}
use coucal.Keys.{equal_texts, key_text}
use coucal.Pool.Duplicating.{Generous}
use coucal.Run.{Run, ok, abort, ◌>>=◌, Returns}
use coucal.State.{Item, Name, Coucal, Allocator}
use coucal.Table.Entries.{one_if}
use coucal.Table.Modes.{Ready, Ready-Valid, Deleted, remove-Deleted}
use coucal.Table.Remove.{remove}
use coucal.Table.View.{view}
use mathlib.Core.Option.{some-injective}

-- `while ((item = coucal_enum_next(&e)) != NULL) coucal_remove(h, item->name);` in at most so many rounds:
-- the table, and the number of removals.
unfoldable pub drain : Allocator → ℕ → Enum → Run (Coucal × ℕ)
unfolding enum_next remove
drain alloc zero e = abort
drain alloc (suc fuel) e =
    let r = enum_next e in
    elim r.0 [
      | none ↦ ok (r.1.table, 0)
      | some item ↦ elim item.name [
        | none ↦ abort
        | some name ↦ remove alloc r.1.table name >>= λ x.
            drain alloc fuel (record { table = x.0; index = r.1.index }) >>= λ s. ok (s.0, suc s.1)
      ]
    ]

-- What a call of `coucal_enum_next` gives is an entry of the same table.
given-Entry :
    (c : Coucal) (i : ℕ) (item : Item) (e : Enum)
    → KeyLaws c.custom.key
    → Ready c
    → enum_next (at_index c i) ≡ (some item, e)
    → Entry c item × (e.table ≡ c)
given-Entry c i item e laws t run = elim (Bool-cases (leb i (end_of c))) [
  | inr past ↦
      let none_there = next-beyond c i (ground arith) in
      absurd (some_ne_none item (ap (λ r. r.0) (sym run ∙ none_there)))
  | inl low ↦ go (enum_next-Gives c (end_of c - i) i (ground arith))
]
  where
    go : Gives c i (enum_next (at_index c i)) → Entry c item × (e.table ≡ c)
    go (ends after e') = absurd (some_ne_none item (ap (λ r. r.0) (sym run) ∙ e'))
    go (gives d lt full before e') =
        let same = sym e' ∙ run in
        let item_is : slot_at c (i + d) ≡ item = some-injective _ _ (ap (λ r. r.0) same) in
        (
          subst (Entry c) item_is (slot-Entry c laws (Ready-Valid t) (i + d) lt full),
          sym (ap (λ (r : Option Item × Enum). r.1.table) same),
        )

-- Between two rounds: what was given is gone.
record Draining (c : Coucal) (i : ℕ) (given : List (List ℕ)) : Type 0 where
  pub walking : Walking (record { table = c; index = i; given = given })
  pub gone : (k : List ℕ) → 0 < times c k given → view c k ≡ none

-- The key of an item that was given and removed.
removed-Draining :
    (c c' : Coucal) (i : ℕ) (given : List (List ℕ)) (name : Name) (removed : Bool)
    → ((k : List ℕ) → 0 < times c k given → view c k ≡ none)
    → Walking (record { table = c; index = i; given = key_text c name ∷ given })
    → Deleted c name (c', removed)
    → Draining c' i (key_text c name ∷ given)
unfolding times_of
removed-Draining c c' i given name removed gone w d = record {
  walking = deletion-Walking c c' i (key_text c name ∷ given) d.thins d.ready d.custom w;
  gone = λ k h. elim (Bool-cases (equal_texts c.custom.key k (key_text c name))) [
    | inl same ↦ d.reads k ∙ rw same refl
    | inr other ↦ d.reads k ∙ rw other (gone k (still k other h))
  ];
}
  where
    uncounted : (b : Bool) (m n : ℕ) → b ≡ false → 0 < n → n ≡ one_if b + m → 0 < m
    uncounted b m n e h s = ground arith

    still :
        (k : List ℕ)
        → equal_texts c.custom.key k (key_text c name) ≡ false
        → 0 < times c' k (key_text c name ∷ given)
        → 0 < times c k given
    still k other h =
        uncounted (equal_texts c.custom.key (key_text c name) k) (times c k given)
          (times c' k (key_text c name ∷ given)) (w.laws.equal_symm (key_text c name) k ∙ other) h
          (λ i. times_of (d.custom i) k (key_text c name ∷ given))

-- What the loop promises.
pub record Drained (c : Coucal) (r : Coucal × ℕ) : Type 0 where
  pub table : Ready r.0
  pub custom : r.0.custom ≡ c.custom
  pub reads : (k : List ℕ) → view r.0 k ≡ none
  pub nitems : r.0.used ≡ 0
  pub rounds : r.1 ≡ c.used

-- The end of the loop.
last-Drained :
    (c : Coucal) (i : ℕ) (given : List (List ℕ))
    → Draining c i given
    → (enum_next (at_index c i)).0 ≡ none
    → Drained c (c, 0)
last-Drained c i given x last =
    let w = x.walking in
    let empty : (k : List ℕ) → view c k ≡ none = λ k. elim (Option-cases (view c k)) [
      | inl e ↦ e
      | inr (value, e) ↦ x.gone k (omega (arith, finished c i given k value w last e))
    ] in
    let used = no_entry-used c w.laws (Ready-Valid w.table) empty in
    record { table = w.table; custom = refl; reads = empty; nitems = used; rounds = sym used }

-- One round, by the result of `coucal_enum_next`.
abbrev sweep : Allocator → ℕ → Option Item × Enum → Run (Coucal × ℕ)
sweep alloc fuel r = elim r.0 [
  | none ↦ ok (r.1.table, 0)
  | some item ↦ elim item.name [
    | none ↦ abort
    | some name ↦ remove alloc r.1.table name >>= λ x.
        drain alloc fuel (record { table = x.0; index = r.1.index }) >>= λ s. ok (s.0, suc s.1)
  ]
]

sweep-run :
    (alloc : Allocator) (fuel : ℕ) (item : Item) (name : Name) (e : Enum) (r : Coucal × Bool)
    (s : Coucal × ℕ)
    → item.name ≡ some name
    → remove alloc e.table name ≡ ok r
    → drain alloc fuel (at_index r.0 e.index) ≡ ok s
    → sweep alloc fuel (some item, e) ≡ ok (s.0, suc s.1)
sweep-run alloc fuel item name e r s named removed run = rw (named, removed, ◌>>=◌, run) refl

abbrev DrainsWith : Allocator → ℕ → Type 0
DrainsWith alloc fuel =
    (c : Coucal) (i : ℕ) (given : List (List ℕ))
    → Draining c i given
    → c.used < fuel
    → Returns (drain alloc fuel (at_index c i)) (Drained c)

one_less :
    (o : Option ℕ) (value u n : ℕ)
    → o ≡ some value
    → (if is_none o then u else u + 1) ≡ n
    → suc u ≡ n
one_less o value u n e h = ground arith

module _ (alloc : Allocator) (fuel : ℕ) (generous : Generous alloc) (rest : DrainsWith alloc fuel)
    (c : Coucal) (i : ℕ) (given : List (List ℕ)) (x : Draining c i given)
    (h : c.used < suc fuel) where
  sweep_item :
      (item : Item) (e : Enum)
      → enum_next (at_index c i) ≡ (some item, e)
      → Returns (sweep alloc fuel (some item, e)) (Drained c)
  sweep_item item e run =
      let laws = x.walking.laws in
      let (entry, same) = given-Entry c i item e laws x.walking.table run in
      let name = entry.name in
      let w : Walking (record { table = c; index = e.index; given = key_text c name ∷ given }) =
        subst
          (λ (y : Coucal).
            Walking (record { table = y; index = e.index; given = key_text c name ∷ given }))
          same (round-Walking c i given item name e run entry.named x.walking) in
      let (r, removed, d) = remove-Deleted alloc c name laws x.walking.table generous in
      let down : suc r.0.used ≡ c.used =
        one_less _ item.value r.0.used c.used entry.reads d.nitems in
      let next : Draining r.0 e.index (key_text c name ∷ given) =
        removed-Draining c r.0 e.index given name r.1 x.gone w d in
      let (s, run', p) = rest r.0 e.index (key_text c name ∷ given) next (omega arith) in
      (
        (s.0, suc s.1),
        sweep-run alloc fuel item name e r s entry.named
            (ap (λ (y : Coucal). remove alloc y name) same ∙ removed) run',
        record {
          table = p.table;
          custom = p.custom ∙ d.custom;
          reads = p.reads;
          nitems = p.nitems;
          rounds = ap suc p.rounds ∙ down;
        },
      )

  sweep-Drained :
      (r : Option Item × Enum)
      → enum_next (at_index c i) ≡ r
      → Returns (sweep alloc fuel r) (Drained c)
  sweep-Drained (none, e) run =
      let same : e.table ≡ c =
        ap (λ (r : Option Item × Enum). r.1.table) (sym run) ∙ enum_next-table (at_index c i) in
      ((c, 0), rw same refl, last-Drained c i given x (ap (λ r. r.0) run))
  sweep-Drained (some item, e) run = sweep_item item e run

drain-DrainsWith : (alloc : Allocator) (fuel : ℕ) → Generous alloc → DrainsWith alloc fuel
unfolding drain
drain-DrainsWith alloc zero generous c i given x h = absurd (omega arith)
drain-DrainsWith alloc (suc fuel) generous c i given x h =
    sweep-Drained alloc fuel generous (drain-DrainsWith alloc fuel generous) c i given x h
      (enum_next (at_index c i)) refl

-- With every request for memory granted and handlers that keep the laws of keys, on a valid table with its
-- keys in a pool in order, or duplicated and released by handlers of the caller: a loop that deletes
-- every item that an enumeration gives, by the name of the item, fails no assertion and ends. It makes
-- just as many removals as the table had items, in as many rounds and one more, and leaves a valid table
-- in the same mode with no item and no key that reads a value.
pub drain-empties :
    (alloc : Allocator) (c : Coucal)
    → KeyLaws c.custom.key
    → Ready c
    → Generous alloc
    → Returns (drain alloc (suc c.used) (enum_new c)) (Drained c)
unfolding times_of
drain-empties alloc c laws t generous =
    drain-DrainsWith alloc (suc c.used) generous c 0 []
      (record { walking = start-Walking c laws t; gone = λ k h. absurd (omega arith) })
      (omega arith)
