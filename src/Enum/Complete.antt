-- ===== src/Enum/Complete.antt =====
-- A whole enumeration.
use coucal.Base.{
  subst, ℕ, zero, suc, ◌+◌, ◌-◌, ◌≤◌, ◌<◌, ◌≡◌, refl, ap, sym, ◌∙◌, inl, inr, Bool, true, false,
  Option, none, some, List, [], ◌∷◌, length, ltb, Bool-cases, arith,
}
use coucal.Base.Words.{pow2}
use coucal.Enum.{Enum, enum_new, enum_next}
use coucal.State.{Item, Coucal}
use coucal.Table.Entries.{mass, total}
use coucal.Table.Layout.{Layout, weight}
use coucal.Table.Spans.{span, span-append, span-total, span-free}
use coucal.Table.{get_item, get_stash, is_empty_item}
use coucal.Enum.Steps.{slot_at, at_index, end_of, next-free, next-live, next-end}

-- `while ((item = coucal_enum_next(&e)) != NULL)`: the items of at most `fuel` rounds, and whether
-- the last round gave NULL.
unfoldable pub enumerate : ℕ → Enum → List Item × Bool
unfolding enum_next
enumerate zero e = ([], false)
enumerate (suc fuel) e =
    let r = enum_next e in
    let rest = enumerate fuel r.1 in
    elim r.0 [ none ↦ ([], true) | some item ↦ (item ∷ rest.0, rest.1) ]

-- One round, with the result of `coucal_enum_next`.
abbrev pub visit : ℕ → Option Item × Enum → List Item × Bool
visit fuel r = elim r.0 [
  | none ↦ ([], true)
  | some item ↦ (item ∷ (enumerate fuel r.1).0, (enumerate fuel r.1).1)
]

pub enumerate-visit :
    (fuel : ℕ) (e : Enum) (r : Option Item × Enum)
    → enum_next e ≡ r
    → enumerate (suc fuel) e ≡ visit fuel r
unfolding enumerate
enumerate-visit fuel e r h = ap (visit fuel) h

module _ (c : Coucal) where
  abbrev Lists : List Item × Bool → ℕ → ℕ → Type 0
  Lists r n i = (r.1 ≡ true) × ((f : Item → ℕ) → total f r.0 ≡ span (slot_at c) f n i)

  visit-Lists :
      (n i : ℕ) (item : Item) (rest : List Item × Bool)
      → slot_at c i ≡ item
      → Lists rest n (i + 1)
      → Lists (item ∷ rest.0, rest.1) (suc n) i
  unfolding total
  visit-Lists n i item rest e (done, all) = (done, λ f. omega (arith, all f, ap (mass f) e))

  free-Lists :
      (n i : ℕ) (r : List Item × Bool)
      → is_empty_item (slot_at c i) ≡ true
      → Lists r n (i + 1)
      → Lists r (suc n) i
  free-Lists n i r e (done, all) = (done, λ f. omega (arith, all f, massless f (slot_at c i) e))
    where
      massless : (f : Item → ℕ) (item : Item) → is_empty_item item ≡ true → mass f item ≡ 0
      massless f item e = ground arith

  enumerate-from :
      (n fuel i : ℕ) → i + n ≡ end_of c → n < fuel → Lists (enumerate fuel (at_index c i)) n i
  unfolding total
  enumerate-from n zero i e h = absurd (omega arith)
  enumerate-from zero (suc fuel) i e h =
      let here : i ≡ end_of c = omega arith in
      let stop : enum_next (at_index c i) ≡ (none, at_index c (end_of c)) =
        ap (λ k. enum_next (at_index c k)) here ∙ next-end c in
      subst (λ r. Lists r zero i) (sym (enumerate-visit fuel (at_index c i) _ stop))
        (refl, λ f. no_items f)
    where
      no_items : (f : Item → ℕ) → total f [] ≡ 0
      no_items f = refl
  enumerate-from (suc n) (suc fuel) i e h = elim (Bool-cases (is_empty_item (slot_at c i))) [
    | inl free ↦
        let same =
          enumerate-visit fuel (at_index c i) _ (next-free c i (omega arith) free)
          ∙ sym (enumerate-visit fuel (at_index c (i + 1)) _ refl) in
        subst (λ r. Lists r (suc n) i) (sym same)
          (free-Lists n i _ free (enumerate-from n (suc fuel) (i + 1) (omega arith) (omega arith)))
    | inr full ↦
        subst (λ r. Lists r (suc n) i)
          (sym (enumerate-visit fuel (at_index c i) _ (next-live c i (omega arith) full)))
          (visit-Lists n i _ (enumerate fuel (at_index c (i + 1))) refl
            (enumerate-from n fuel (i + 1) (omega arith) (omega arith)))
  ]

  slot-table : (l : Layout c) (k : ℕ) → k < length c.items → slot_at c (0 + k) ≡ get_item c k
  slot-table l k lt = ground (arith, l.width)

  slot-stash : (k : ℕ) → slot_at c (pow2 c.lg_size + k) ≡ get_stash c k
  slot-stash k =
      let high : ltb (pow2 c.lg_size + k) (pow2 c.lg_size) ≡ false = ground arith in
      rw high (ap (get_stash c) (omega arith))

  stash-span :
      (f : Item → ℕ)
      → Layout c
      → span (slot_at c) f c.stash.extent (pow2 c.lg_size) ≡ total f c.stash.items
  stash-span f l =
      let rest = length c.stash.items - c.stash.extent in
      let whole : c.stash.extent + rest ≡ length c.stash.items =
        omega (arith, l.stash_extent, l.stash_width) in
      omega (
        arith,
        span-append (slot_at c) f c.stash.extent rest (pow2 c.lg_size),
        ap (λ n. span (slot_at c) f n (pow2 c.lg_size)) whole,
        span-total (slot_at c) f c.stash.items (pow2 c.lg_size) (λ k lt. slot-stash k),
        span-free (slot_at c) f rest (pow2 c.lg_size + c.stash.extent) (clear l),
      )
    where
      clear : Layout c → (k : ℕ) → pow2 c.lg_size + c.stash.extent ≤ k → (slot_at c k).name ≡ none
      clear l k le = ground (arith, l.stash_clear (k - pow2 c.lg_size))

  table-span : (f : Item → ℕ) → Layout c → span (slot_at c) f (pow2 c.lg_size) 0 ≡ total f c.items
  table-span f l = omega (
    arith,
    span-total (slot_at c) f c.items 0 (slot-table l),
    ap (λ n. span (slot_at c) f n 0) l.width,
  )

  -- The slots up to the end are those of the table and of the stash.
  pub whole-span : (f : Item → ℕ) → Layout c → span (slot_at c) f (end_of c) 0 ≡ weight f c
  whole-span f l = omega (
    arith,
    span-append (slot_at c) f (pow2 c.lg_size) c.stash.extent 0,
    table-span f l,
    stash-span f l,
    ap (span (slot_at c) f c.stash.extent) (start (pow2 c.lg_size)),
  )
    where
      start : (n : ℕ) → 0 + n ≡ n
      start n = omega arith

  -- On a table that keeps the layout, more calls of `coucal_enum_next` than there are slots in the
  -- table and the stash end with NULL, and give each entry of the table and of the stash just once:
  -- every weight of the items given is that of the table.
  pub enumerate-all :
      (fuel : ℕ)
      → Layout c
      → pow2 c.lg_size + 16 < fuel
      → ((enumerate fuel (enum_new c)).1 ≡ true)
        × ((f : Item → ℕ) → total f (enumerate fuel (enum_new c)).0 ≡ weight f c)
  enumerate-all fuel l h =
      let (done, all) =
        enumerate-from (end_of c) fuel 0 (omega arith) (omega (arith, l.stash_extent)) in
      (done, λ f. all f ∙ whole-span f l)
