-- ===== src/Sample/Listing.antt =====
-- The last loop of sample.c, over the enumeration of the table.
use coucal.Api.{no_key_handlers}
use coucal.Api.Starting.{laws_of}
use coucal.Base.{
  ℕ, zero, suc, ◌+◌, ◌≡◌, refl, ap, sym, ◌∙◌, true, Option, none, some, List, [], ◌∷◌, length,
  if◌then◌else◌, is_none, arith,
}
use coucal.Base.Words.{pow2}
use coucal.Enum.Complete.{enumerate, visit}
use coucal.Enum.Entries.{Entries, enumerate-view, enum_next-table}
use coucal.Enum.{Enum, enum_new, enum_next}
use coucal.Keys.{key_text, strcmp_equal, equal_texts}
use coucal.Run.{Run, ok, abort, ◌>>=◌, Returns}
use coucal.Sample.Storing.{latest}
use coucal.Sample.{Memory, Line, pair, list_items}
use coucal.Session.{Mapping, Represents}
use coucal.Table.Modes.{Ready-Valid}
use coucal.State.{Item, Coucal, stash_size}
use coucal.Table.Entries.{total, one_if}
use coucal.Table.Valid.{entry_of}
use coucal.Table.View.{view}

module _ (memory : Memory) where
  abbrev item_line : Coucal → Item → Line
  item_line c item = elim item.name [
    | none ↦ pair [] (memory item.value)
    | some name ↦ pair (key_text c name) (memory item.value)
  ]

  item_lines : Coucal → List Item → List Line
  item_lines c [] = []
  item_lines c (item ∷ items) = item_line c item ∷ item_lines c items

  -- One round of the loop, by the result of `coucal_enum_next`.
  abbrev tell : ℕ → Coucal → Option Item × Enum → Run (List Line)
  tell fuel c r = elim r.0 [
    | none ↦ ok []
    | some item ↦ elim item.name [
      | none ↦ abort
      | some name ↦ list_items memory fuel r.1 >>= λ lines.
          ok (pair (key_text c name) (memory item.value) ∷ lines)
    ]
  ]

  abbrev Told : ℕ → Coucal → Type 0
  Told fuel c =
      (e : Enum)
      → e.table ≡ c
      → (enumerate fuel e).1 ≡ true
      → Entries c (enumerate fuel e).0
      → list_items memory fuel e ≡ ok (item_lines c (enumerate fuel e).0)

  round :
      (c : Coucal) (fuel : ℕ) (r : Option Item × Enum)
      → Told fuel c
      → r.1.table ≡ c
      → (visit fuel r).1 ≡ true
      → Entries c (visit fuel r).0
      → tell fuel c r ≡ ok (item_lines c (visit fuel r).0)
  unfolding Entries item_lines
  round c fuel (none, e) rest same ended all = refl
  round c fuel (some item, e) rest same ended (entry, all) =
      rw (entry.named, rest e same ended all, ◌>>=◌) refl

  list_items-lines : (c : Coucal) (fuel : ℕ) → Told fuel c
  unfolding list_items enumerate
  list_items-lines c zero e same ended all = cc
  list_items-lines c (suc fuel) e same ended all =
      ap (λ (x : Coucal). tell fuel x (enum_next e)) same
      ∙ round c fuel (enum_next e) (list_items-lines c fuel) (enum_next-table e ∙ same) ended all

  -- How often a key is listed.
  pub times : List ℕ → List Line → ℕ
  times t [] = 0
  times t (pair k v ∷ lines) = one_if (strcmp_equal k t) + times t lines
  times t (_ ∷ lines) = times t lines

  -- A line with a key of the pairs and the string of its latest value.
  abbrev pub Says : List (ℕ × ℕ) → Line → Type 0
  Says all (pair k s) = (v : ℕ) × (latest memory all k ≡ some v) × (s ≡ memory v)
  Says all _ = ⊥

  unfoldable pub AllSay : List (ℕ × ℕ) → List Line → Type 0
  AllSay all [] = Unit
  AllSay all (line ∷ lines) = Says all line × AllSay all lines

  -- What the listing promises: so many lines, each with the latest value of its key, and one for every key.
  pub record Lists (all : List (ℕ × ℕ)) (n : ℕ) (lines : List Line) : Type 0 where
    pub number : length lines ≡ n
    pub values : AllSay all lines
    pub once : (t : List ℕ) → times t lines ≡ (if is_none (latest memory all t) then 0 else 1)

  module _ (c : Coucal) (all : List (ℕ × ℕ)) (handlers : c.custom.key ≡ no_key_handlers)
      (same : (t : List ℕ) → view c t ≡ latest memory all t) where
    lines-number : (items : List Item) → length (item_lines c items) ≡ length items
    unfolding item_lines
    lines-number [] = refl
    lines-number (item ∷ items) = ap suc (lines-number items)

    lines-values : (items : List Item) → Entries c items → AllSay all (item_lines c items)
    unfolding item_lines AllSay Entries
    lines-values [] listed = tt
    lines-values (item ∷ items) (entry, listed) = (
      rw entry.named (item.value, sym (same (key_text c entry.name)) ∙ entry.reads, refl),
      lines-values items listed,
    )

    lines-times :
        (t : List ℕ) (items : List Item)
        → Entries c items
        → times t (item_lines c items) ≡ total (λ item. one_if (entry_of c t item)) items
    unfolding item_lines total times Entries equal_texts
    lines-times t [] listed = refl
    lines-times t (item ∷ items) (entry, listed) =
        rw (entry.named, handlers) (omega (arith, lines-times t items listed))

  pub listed_lines :
      (c : Coucal) (m : Mapping) (all : List (ℕ × ℕ))
      → Represents no_key_handlers c m
      → ((t : List ℕ) → m.lookup t ≡ latest memory all t)
      → Returns
          (list_items memory (pow2 c.lg_size + stash_size + 1) (enum_new c))
          (Lists all c.used)
  listed_lines c m all x agree =
      let laws = laws_of c x.handlers in
      let fuel = pow2 c.lg_size + stash_size + 1 in
      let same : (t : List ℕ) → view c t ≡ latest memory all t = λ t. x.entries t ∙ agree t in
      let (ended, listed, number, once) =
        enumerate-view c laws (Ready-Valid x.table) fuel (omega arith) in
      let items = (enumerate fuel (enum_new c)).0 in
      (
        item_lines c items,
        list_items-lines c fuel (enum_new c) refl ended listed,
        record {
          number = lines-number c all x.handlers same items ∙ number;
          values = lines-values c all x.handlers same items listed;
          once = λ t.
              lines-times c all x.handlers same t items listed
              ∙ once t
              ∙ ap (λ o. if is_none o then 0 else 1) (same t);
        },
      )
