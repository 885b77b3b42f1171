-- ===== src/Report/Counting.antt =====
-- The dump of the stash has a line for each of its items.
use coucal.Base.{
  ℕ, ◌+◌, ◌≡◌, refl, ap, ◌∙◌, some, List, [], ◌∷◌, ◌++◌, Bool-cases, inl, inr, true, false, take,
  arith,
}
use coucal.Report.Dump.{
  DumpLine, stash_item, show_stash, show_stashed, show_slot, dump, collision, free_slot,
}
use coucal.State.{Item, Coucal}
use coucal.Table.Entries.{mass, total, total-take}
use coucal.Table.Layout.{Layout}
use coucal.Table.{is_empty_item, is_free, hash_to_pos}

pub stash_lines : List DumpLine → ℕ
stash_lines [] = 0
stash_lines (stash_item i shown ∷ lines) = 1 + stash_lines lines
stash_lines (_ ∷ lines) = stash_lines lines

stash_lines-append :
    (xs ys : List DumpLine) → stash_lines (xs ++ ys) ≡ stash_lines xs + stash_lines ys
unfolding stash_lines
stash_lines-append [] ys = omega arith
stash_lines-append (stash_item i shown ∷ xs) ys = omega (arith, stash_lines-append xs ys)
stash_lines-append (collision shown ∷ xs) ys = stash_lines-append xs ys
stash_lines-append (free_slot i ∷ xs) ys = stash_lines-append xs ys

module _ (print_key print_value : ℕ) (c : Coucal) where
  slot_line :
      (pos : ℕ) (lines : List DumpLine)
      → stash_lines (show_slot print_key print_value c pos ∷ lines) ≡ stash_lines lines
  unfolding show_slot stash_lines
  slot_line pos lines = elim (Bool-cases (is_free c pos)) [
    | inl free ↦ rw free refl
    | inr full ↦ rw full refl
  ]

  stashed_lines :
      (i : ℕ) (item : Item)
      → stash_lines (show_stashed print_key print_value c i item) ≡ mass (λ _. 1) item
  unfolding show_stashed stash_lines
  stashed_lines i item = elim (Bool-cases (is_empty_item item)) [
    | inl free ↦ rw free (weightless item free)
    | inr full ↦ rw full (
        ap (λ n. 1 + n)
          (slot_line (hash_to_pos c item.hashes.hash1) _
            ∙ slot_line (hash_to_pos c item.hashes.hash2) [])
        ∙ weight_one item full)
  ]
    where
      weightless : (item : Item) → is_empty_item item ≡ true → 0 ≡ mass (λ _. 1) item
      weightless item e = ground arith

      weight_one : (item : Item) → is_empty_item item ≡ false → 1 + 0 ≡ mass (λ _. 1) item
      weight_one item e = ground arith

  show_stash-lines :
      (i : ℕ) (items : List Item)
      → stash_lines (show_stash print_key print_value c i items) ≡ total (λ _. 1) items
  unfolding show_stash total stash_lines
  show_stash-lines i [] = refl
  show_stash-lines i (item ∷ items) =
      stash_lines-append (show_stashed print_key print_value c i item) _
      ∙ omega (arith, stashed_lines i item, show_stash-lines (i + 1) items)

-- With both print handlers set, the dump of a table that keeps the layout names as many items of the
-- stash as it has.
pub dump-lines :
    (c : Coucal) (print_key print_value : ℕ)
    → Layout c
    → c.custom.print.key ≡ some print_key
    → c.custom.print.value ≡ some print_value
    → stash_lines (dump c) ≡ c.stash.size
unfolding dump
dump-lines c print_key print_value l key value =
    rw (key, value)
      (show_stash-lines print_key print_value c 0 (take c.stash.extent c.stash.items)
        ∙ total-take (λ _. 1) c.stash.extent c.stash.items l.stash_clear
        ∙ l.stash_live)
