-- ===== src/Table/Entries.antt =====
-- What an array of items holds, whatever the order: sums of weights over its live items, and the
-- first live item that passes a test.
use coucal.Base.{
  ℕ, zero, suc, ◌+◌, ◌≤◌, ◌<◌, ◌≡◌, refl, Bool, true, false, ◌&&◌, Option, none, some, List, [],
  ◌∷◌, ◌++◌, length, get_or, set, take, replicate, ◌==◌, if◌then◌else◌, Option-cases, inl, inr, sym,
  ◌∙◌, arith,
}
use coucal.State.{Item, null_item}

-- The weight of one item: 0 if its slot is free.
abbrev pub mass : (Item → ℕ) → Item → ℕ
mass f item = elim item.name [ none ↦ 0 | some _ ↦ f item ]

unfoldable pub total : (Item → ℕ) → List Item → ℕ
total f [] = 0
total f (item ∷ items) = mass f item + total f items

-- The number of live items.
abbrev pub live : List Item → ℕ
live items = total (λ _. 1) items

-- The test of a live item as a weight.
abbrev pub one_if : Bool → ℕ
one_if true = 1
one_if false = 0

abbrev pub passes : (Item → Bool) → Item → Bool
passes p item = elim item.name [ none ↦ false | some _ ↦ p item ]

-- The first live item that passes.
unfoldable pub first : (Item → Bool) → List Item → Option Item
first p [] = none
first p (item ∷ items) = if passes p item then some item else first p items

module _ (f : Item → ℕ) where
  pub total-append : (xs ys : List Item) → total f (xs ++ ys) ≡ total f xs + total f ys
  unfolding total
  total-append [] ys = omega arith
  total-append (x ∷ xs) ys = omega (arith, total-append xs ys)

  pub total-replicate : (n : ℕ) → total f (replicate n null_item) ≡ 0
  unfolding total replicate
  total-replicate zero = refl
  total-replicate (suc n) = omega (arith, total-replicate n)

  -- A write exchanges one weight for another.
  pub total-set :
      (xs : List Item) (i : ℕ) (item : Item)
      → i < length xs
      → total f (set xs i item) + mass f (get_or xs i null_item) ≡ total f xs + mass f item
  unfolding total
  total-set [] i item h = absurd (omega arith)
  total-set (x ∷ xs) zero item h = omega arith
  total-set (x ∷ xs) (suc i) item h = omega (arith, total-set xs i item (omega arith))

  -- Nothing is lost where an array is cut at an index past which it is free.
  pub total-take :
      (n : ℕ) (xs : List Item)
      → ((i : ℕ) → n ≤ i → (get_or xs i null_item).name ≡ none)
      → total f (take n xs) ≡ total f xs
  unfolding total
  total-take zero [] h = refl
  total-take zero (x ∷ xs) h =
      ground (arith, h 0, total-take zero xs (λ i _. h (suc i) (omega arith)))
  total-take (suc n) [] h = refl
  total-take (suc n) (x ∷ xs) h = omega (arith, total-take n xs (λ i p. h (suc i) (omega arith)))

  -- No slot weighs more than the array.
  pub mass-le-total : (xs : List Item) (i : ℕ) → mass f (get_or xs i null_item) ≤ total f xs
  unfolding total
  mass-le-total [] i = omega arith
  mass-le-total (x ∷ xs) zero = omega arith
  mass-le-total (x ∷ xs) (suc i) = omega (arith, mass-le-total xs i)

  pub total-eq-zero :
      (xs : List Item)
      → ((i : ℕ) → i < length xs → mass f (get_or xs i null_item) ≡ 0)
      → total f xs ≡ 0
  unfolding total
  total-eq-zero [] h = refl
  total-eq-zero (x ∷ xs) h =
      omega (arith, h 0 (omega arith), total-eq-zero xs (λ i p. h (suc i) (omega arith)))

  -- An array with no live item weighs nothing.
  pub total_of_no_live : (xs : List Item) → total (λ _. 1) xs ≡ 0 → total f xs ≡ 0
  unfolding total
  total_of_no_live [] h = refl
  total_of_no_live (x ∷ xs) h = ground (arith, total_of_no_live xs)

pub live-le-length : (xs : List Item) → live xs ≤ length xs
unfolding total
live-le-length [] = omega arith
live-le-length (x ∷ xs) = ground (arith, live-le-length xs)

-- A free slot leaves room.
pub live-lt-length :
    (xs : List Item) (i : ℕ)
    → i < length xs
    → (get_or xs i null_item).name ≡ none
    → live xs < length xs
unfolding total
live-lt-length [] i h e = absurd (omega arith)
live-lt-length (x ∷ xs) zero h e = ground (arith, live-le-length xs)
live-lt-length (x ∷ xs) (suc i) h e = ground (arith, live-lt-length xs i (omega arith) e)

-- Two tests, one of which is stronger.
abbrev pub and_value : (Item → Bool) → ℕ → Item → Bool
and_value p v item = p item && item.value == v

abbrev pub value_of : Option Item → Option ℕ
value_of none = none
value_of (some item) = some item.value

module _ (p : Item → Bool) where
  abbrev pub hits : List Item → ℕ
  hits xs = total (λ item. one_if (p item)) xs

  abbrev pub hits_value : ℕ → List Item → ℕ
  hits_value v xs = total (λ item. one_if (and_value p v item)) xs

  pub first-eq-none : (xs : List Item) → hits xs ≡ 0 → first p xs ≡ none
  unfolding total first
  first-eq-none [] h = refl
  first-eq-none (x ∷ xs) h = ground (arith, first-eq-none xs)

  pub first-some_hits :
      (xs : List Item) (v : ℕ) → value_of (first p xs) ≡ some v → 0 < hits_value v xs
  unfolding total first
  first-some_hits [] v h = cc
  first-some_hits (x ∷ xs) v h = ground (arith, first-some_hits xs v)

  pub hits_value-le : (xs : List Item) (v : ℕ) → hits_value v xs ≤ hits xs
  unfolding total
  hits_value-le [] v = omega arith
  hits_value-le (x ∷ xs) v = ground (arith, hits_value-le xs v)

  pub first_of_hits :
      (xs : List Item) (v : ℕ) → hits xs ≤ 1 → 0 < hits_value v xs → value_of (first p xs) ≡ some v
  unfolding total first
  first_of_hits [] v h k = absurd (omega arith)
  first_of_hits (x ∷ xs) v h k = ground (arith, first_of_hits xs v, hits_value-le xs v)

  pub first-none-hits : (xs : List Item) → value_of (first p xs) ≡ none → hits xs ≡ 0
  unfolding total first
  first-none-hits [] h = refl
  first-none-hits (x ∷ xs) h = ground (arith, first-none-hits xs)

-- Arrays with the same weights give the same value, where at most one item passes.
pub first-eq_of_totals :
    (p : Item → Bool) (xs ys : List Item)
    → ((f : Item → ℕ) → total f xs ≡ total f ys)
    → hits p ys ≤ 1
    → value_of (first p ys) ≡ value_of (first p xs)
first-eq_of_totals p xs ys same once = elim (Option-cases (value_of (first p xs))) [
  | inl e ↦ rw (first-eq-none p ys (sym (same _) ∙ first-none-hits p xs e)) (sym e)
  | inr (v, e) ↦
      first_of_hits p ys v once
        (rw (← same (λ item. one_if (and_value p v item))) (first-some_hits p xs v e))
      ∙ sym e
]
