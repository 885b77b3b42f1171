-- ===== src/Pool/Stable.antt =====
-- Changes of the block that spare the regions of the keys.
use coucal.Base.{
  ℕ, suc, ◌+◌, ◌≤◌, ◌<◌, ◌≡◌, refl, ap, ◌∙◌, inl, inr, Option-cases, leb, ◌==◌, ◌&&◌, List, [], ◌∷◌,
  length, get_or, drop, some, arith,
}
use coucal.Pool.Regions.{Block, by_name, cover, region, bad}
use coucal.Pool.Text.{cstr-drop_congr}
use coucal.Pool.{cstr, text, bytes_of}
use coucal.State.{Name, the_empty_string, pooled, outside, Item, null_item, Coucal}
use coucal.Table.Entries.{mass, total, mass-le-total, one_if}
use coucal.Table.Layout.{weight}
use coucal.Table.Rekeying.{name_text, SameItems}

-- The weights that know a key by its place and by what it reads.
pub data Sees (b b' : Block) (g g' : Name → ℕ) : Type 0 where
  sees : ((n : Name) → text b' n ≡ text b n → g' n ≡ g n) → Sees b b' g g'

pub cover-Sees : (b b' : Block) (p : ℕ) → Sees b b' (cover b p) (cover b' p)
cover-Sees b b' p = sees same
  where
    same : (n : Name) → text b' n ≡ text b n → cover b' p n ≡ cover b p n
    same the_empty_string e = refl
    same (outside _) e = refl
    same (pooled o) e = ap (λ t. one_if (leb o p && leb p (o + length t))) e

pub region-Sees : (b b' : Block) → Sees b b' (region b) (region b')
region-Sees b b' = sees same
  where
    same : (n : Name) → text b' n ≡ text b n → region b' n ≡ region b n
    same the_empty_string e = refl
    same (outside _) e = refl
    same (pooled o) e = ap (λ t. length t + 1) e

pub bad-Sees : (b b' : Block) → Sees b b' (bad b) (bad b')
bad-Sees b b' = sees same
  where
    same : (n : Name) → text b' n ≡ text b n → bad b' n ≡ bad b n
    same the_empty_string e = refl
    same (outside _) e = refl
    same (pooled o) e = ap (λ t. one_if (length t == 0)) e

-- The two blocks agree on the bytes that the keys of `xs` occupy.
abbrev pub Spares : Block → Block → List Item → Type 0
Spares b b' xs =
    (p : ℕ)
    → 0 < total (by_name (cover b p)) xs
    → get_or (bytes_of b') p 0 ≡ get_or (bytes_of b) p 0

module _ (b b' : Block) (xs : List Item) (spares : Spares b b' xs) where
  same_string :
      (i o : ℕ)
      → (get_or xs i null_item).name ≡ some (pooled o)
      → text b' (pooled o) ≡ text b (pooled o)
  unfolding text
  same_string i o named =
      cstr-drop_congr (bytes_of b) (bytes_of b') o (λ p h le. spares p (covered p h le))
    where
      covers :
          (item : Item) (p : ℕ)
          → item.name ≡ some (pooled o)
          → o ≤ p
          → p ≤ o + length (text b (pooled o))
          → mass (by_name (cover b p)) item ≡ 1
      covers item p e h le = rw e (ground arith)

      covered :
          (p : ℕ)
          → o ≤ p
          → p ≤ o + length (cstr (drop o (bytes_of b)))
          → 0 < total (by_name (cover b p)) xs
      covered p h le = omega (
        arith,
        covers (get_or xs i null_item) p named h le,
        mass-le-total (by_name (cover b p)) xs i,
      )

  same_text : (i : ℕ) (n : Name) → (get_or xs i null_item).name ≡ some n → text b' n ≡ text b n
  unfolding text
  same_text i the_empty_string named = refl
  same_text i (outside _) named = refl
  same_text i (pooled o) named = same_string i o named

  pub stable-SameItems : SameItems b b' xs xs
  stable-SameItems = record {
    width = refl;
    slots =
        λ i. record { reads = reads i (get_or xs i null_item) refl; value = refl; hashes = refl };
  }
    where
      reads :
          (i : ℕ) (item : Item)
          → get_or xs i null_item ≡ item
          → name_text b' item ≡ name_text b item
      reads i item at = elim (Option-cases item.name) [
        | inl free ↦ rw free refl
        | inr (n, named) ↦ rw named (ap some (same_text i n (ap (λ x. x.name) at ∙ named)))
      ]

total_congr :
    (g g' : Name → ℕ) (xs : List Item)
    → ((i : ℕ) (n : Name) → (get_or xs i null_item).name ≡ some n → g' n ≡ g n)
    → total (by_name g') xs ≡ total (by_name g) xs
unfolding total
total_congr g g' [] h = refl
total_congr g g' (x ∷ xs) h = elim (Option-cases x.name) [
  | inl free ↦ rw free (omega (arith, total_congr g g' xs (λ i. h (suc i))))
  | inr (n, named) ↦ rw named (omega (arith, h 0 n named, total_congr g g' xs (λ i. h (suc i))))
]

pub stable-total :
    (b b' : Block) (xs : List Item) (g g' : Name → ℕ)
    → Spares b b' xs
    → Sees b b' g g'
    → total (by_name g') xs ≡ total (by_name g) xs
stable-total b b' xs g g' spares (sees same) =
    total_congr g g' xs (λ i n named. same n (same_text b b' xs spares i n named))

-- A whole table.
pub stable-weight :
    (c : Coucal) (b b' : Block) (g g' : Name → ℕ)
    → Spares b b' c.items
    → Spares b b' c.stash.items
    → Sees b b' g g'
    → weight (by_name g') c ≡ weight (by_name g) c
stable-weight c b b' g g' s t k =
    omega (arith, stable-total b b' c.items g g' s k, stable-total b b' c.stash.items g g' t k)
