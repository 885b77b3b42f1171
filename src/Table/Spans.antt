-- ===== src/Table/Spans.antt =====
-- Sums of weights over the slots of an index range.
use coucal.Base.{
  ℕ, zero, suc, ◌+◌, ◌≤◌, ◌<◌, ◌≡◌, refl, ap, ◌∙◌, none, List, [], ◌∷◌, length, get_or, arith,
}
use coucal.State.{Item, null_item}
use coucal.Table.Entries.{mass, total}

module _ (at : ℕ → Item) where
  -- The weight of `n` slots from `i` on.
  abbrev pub span : (Item → ℕ) → ℕ → ℕ → ℕ
  span f zero i = 0
  span f (suc n) i = mass f (at i) + span f n (i + 1)

  pub span-append : (f : Item → ℕ) (n m i : ℕ) → span f (n + m) i ≡ span f n i + span f m (i + n)
  span-append f zero m i = omega (arith, ap (λ k. span f k i) none_more, ap (span f m) start)
    where
      none_more : 0 + m ≡ m
      none_more = omega arith

      start : i ≡ i + 0
      start = omega arith
  span-append f (suc n) m i =
      omega (arith, span-append f n m (i + 1), ap (span f m) shift, ap (λ k. span f k i) one_more)
    where
      one_more : suc n + m ≡ suc (n + m)
      one_more = omega arith

      shift : i + 1 + n ≡ i + suc n
      shift = omega arith

  -- Slots that agree with the items of an array weigh as much.
  pub span-total :
      (f : Item → ℕ) (xs : List Item) (i : ℕ)
      → ((k : ℕ) → k < length xs → at (i + k) ≡ get_or xs k null_item)
      → span f (length xs) i ≡ total f xs
  unfolding total
  span-total f [] i h = refl
  span-total f (x ∷ xs) i h = omega (
    arith,
    ap (mass f) (ap at (here i) ∙ h 0 (omega arith)),
    span-total f xs (i + 1) (λ k lt. ap at (next i k) ∙ h (suc k) (omega arith)),
  )
    where
      here : (i : ℕ) → i ≡ i + 0
      here i = omega arith

      next : (i k : ℕ) → i + 1 + k ≡ i + suc k
      next i k = omega arith

  pub span-free : (f : Item → ℕ) (n i : ℕ) → ((k : ℕ) → i ≤ k → (at k).name ≡ none) → span f n i ≡ 0
  span-free f zero i h = refl
  span-free f (suc n) i h = ground (arith, h i, span-free f n (i + 1) (λ k le. h k (omega arith)))
