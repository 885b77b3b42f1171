-- ===== src/Table/Reading.antt =====
-- Lookups (`coucal_fetch_value`) against the abstract view.
use coucal.Base.{◌⊎◌, inl, inr, ℕ, ◌≤◌, ◌≡◌, ap, sym, ◌∙◌, Option, none, some, arith}
use coucal.Keys.Laws.{KeyLaws}
use coucal.Keys.{key_text}
use coucal.State.{Item, Name, Coucal}
use coucal.Table.Entries.{
  mass, total, one_if, and_value, value_of, mass-le-total, total-append, first-eq-none,
  first_of_hits,
}
use coucal.Table.Finding.{Found, Search, at_first, at_second, stashed, absent, search_lem}
use coucal.Table.Layout.{weight}
use coucal.Table.Valid.{Valid, entry_of}
use coucal.Table.View.{entries, view}
use coucal.Table.{Slot, in_table, in_stash, item_at, fetch_value, fetch_value_hashes}

pub weight-entries : (f : Item → ℕ) (c : Coucal) → total f (entries c) ≡ weight f c
weight-entries f c = total-append f c.items c.stash.items

-- A slot weighs no more than the table.
pub mass-le-weight : (f : Item → ℕ) (c : Coucal) (at : Slot) → mass f (item_at c at) ≤ weight f c
mass-le-weight f c (in_table pos) = omega (arith, mass-le-total f c.items pos)
mass-le-weight f c (in_stash i) = omega (arith, mass-le-total f c.stash.items i)

abbrev pub value_at : Coucal → Option Slot → Option ℕ
value_at c none = none
value_at c (some at) = some (item_at c at).value

module _ (c : Coucal) (name : Name) (v : Valid c) where
  pub Found-value :
      (at : Slot) → Found c name at → view c (key_text c name) ≡ some (item_at c at).value
  unfolding view
  Found-value at here =
      let item = item_at c at in
      let p = entry_of c (key_text c name) in
      let own : mass (λ i. one_if (and_value p item.value i)) item ≡ 1 =
        ground (arith, here.entry) in
      first_of_hits p (entries c) item.value
        (omega (arith, weight-entries (λ i. one_if (p i)) c, v.once (key_text c name)))
        (omega (
          arith,
          own,
          mass-le-weight (λ i. one_if (and_value p item.value i)) c at,
          weight-entries (λ i. one_if (and_value p item.value i)) c,
        ))

  pub absent_value :
      weight (λ item. one_if (entry_of c (key_text c name) item)) c ≡ 0
      → view c (key_text c name) ≡ none
  unfolding view
  absent_value e =
      let p = entry_of c (key_text c name) in
      ap value_of (first-eq-none p (entries c) (weight-entries (λ i. one_if (p i)) c ∙ e))

  -- In a valid table whose handlers keep the laws of keys, `coucal_fetch_value` finds the value that
  -- the key has in the view of the table, wherever its entry stands, and nothing just when the key
  -- has none.
  pub fetch_value-view :
      KeyLaws c.custom.key → value_at c (fetch_value c name) ≡ view c (key_text c name)
  unfolding fetch_value fetch_value_hashes
  fetch_value-view laws = go (search_lem c name laws v)
    where
      go : Search c name → value_at c (fetch_value c name) ≡ view c (key_text c name)
      go (at_first e1 here) = rw e1 (sym (Found-value _ here))
      go (at_second e1 e2 here) = rw (e1, e2) (sym (Found-value _ here))
      go (stashed e1 e2 i e3 here) = rw (e1, e2, e3) (sym (Found-value _ here))
      go (absent e1 e2 e3 none_there) = rw (e1, e2, e3) (sym (absent_value none_there))

  -- The same by the slot.
  pub fetch_value-cases :
      KeyLaws c.custom.key
      → ((at : Slot) × (fetch_value c name ≡ some at) × Found c name at)
        ⊎ ((fetch_value c name ≡ none) × (view c (key_text c name) ≡ none))
  unfolding fetch_value fetch_value_hashes
  fetch_value-cases laws = go (search_lem c name laws v)
    where
      go :
          Search c name
          → ((at : Slot) × (fetch_value c name ≡ some at) × Found c name at)
            ⊎ ((fetch_value c name ≡ none) × (view c (key_text c name) ≡ none))
      go (at_first e1 here) = inl (_, rw e1, here)
      go (at_second e1 e2 here) = inl (_, rw (e1, e2), here)
      go (stashed e1 e2 i e3 here) = inl (_, rw (e1, e2, e3), here)
      go (absent e1 e2 e3 none_there) = inr (rw (e1, e2, e3), absent_value none_there)
