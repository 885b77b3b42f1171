-- ===== src/Pool/Regions.antt =====
-- The regions of the pool that keys occupy.
use coucal.Base.{
  ℕ, zero, suc, ◌+◌, ◌-◌, ◌^◌, ◌≤◌, ◌<◌, ◌≡◌, refl, ◌∙◌, inl, inr, Option-cases, ◌++◌, ltb, leb,
  ◌==◌, if◌then◌else◌, ◌&&◌, List, [], ◌∷◌, length, drop, Option, none, some, arith,
}
use coucal.Pool.{cstr, text, bytes_of}
use coucal.State.{Name, the_empty_string, pooled, outside, Item, Coucal}
use coucal.Table.Entries.{mass, total, total-append, one_if}
use coucal.Table.Layout.{weight}
use coucal.Table.Placing.{left_over}

abbrev pub Block : Type 0
Block = Option (List ℕ)

-- A weight of the key of an item.
abbrev pub by_name : (Name → ℕ) → Item → ℕ
by_name g item = elim item.name [ none ↦ 0 | some n ↦ g n ]

-- Does the key occupy the byte at `p`, with its NUL?
abbrev pub cover : Block → ℕ → Name → ℕ
cover b p the_empty_string = 0
cover b p (pooled o) = one_if (leb o p && leb p (o + length (text b (pooled o))))
cover b p (outside _) = 0

-- The bytes that the key occupies.
abbrev pub region : Block → Name → ℕ
region b the_empty_string = 0
region b (pooled o) = length (text b (pooled o)) + 1
region b (outside _) = 0

-- A key that the pool never holds: memory outside, or a released string.
abbrev pub bad : Block → Name → ℕ
bad b the_empty_string = 0
bad b (pooled o) = one_if (length (text b (pooled o)) == 0)
bad b (outside _) = 1

-- The pool is in order: its sizes fit, each byte below the size belongs to one key at most, and
-- `used` counts the bytes of the keys of the entries and of one more item, if there is one, whose
-- key is in the pool and not in the table.
pub record Pooled (c : Coucal) (o : Option Item) : Type 0 where
  pub no_dup : c.custom.key.dup ≡ none
  pub no_free : c.custom.key.free ≡ none
  pub block : length (bytes_of c.pool.buffer) ≡ c.pool.capacity
  pub size_fits : c.pool.size ≤ c.pool.capacity
  pub bound : c.pool.capacity ≤ 2 ^ 63
  pub good : weight (by_name (bad c.pool.buffer)) c + left_over (by_name (bad c.pool.buffer)) o ≡ 0
  pub apart :
      (p : ℕ)
      → weight (by_name (cover c.pool.buffer p)) c + left_over (by_name (cover c.pool.buffer p)) o
        ≤ one_if (ltb p c.pool.size)
  pub counted :
      c.pool.used
      ≡ weight (by_name (region c.pool.buffer)) c + left_over (by_name (region c.pool.buffer)) o

-- Sums over the bytes below `n`.
sum_to : ℕ → (ℕ → ℕ) → ℕ
sum_to zero f = 0
sum_to (suc n) f = sum_to n f + f n

sum_to_mono : (n : ℕ) (f g : ℕ → ℕ) → ((p : ℕ) → f p ≤ g p) → sum_to n f ≤ sum_to n g
unfolding sum_to
sum_to_mono zero f g h = omega arith
sum_to_mono (suc n) f g h = omega (arith, h n, sum_to_mono n f g h)

sum_to_add : (n : ℕ) (f g : ℕ → ℕ) → sum_to n (λ p. f p + g p) ≡ sum_to n f + sum_to n g
unfolding sum_to
sum_to_add zero f g = refl
sum_to_add (suc n) f g = omega (arith, sum_to_add n f g)

sum_to_zero : (n : ℕ) → sum_to n (λ _. 0) ≡ 0
unfolding sum_to
sum_to_zero zero = refl
sum_to_zero (suc n) = omega (arith, sum_to_zero n)

sum_to_below : (n s : ℕ) → sum_to n (λ p. one_if (ltb p s)) ≡ (if leb n s then n else s)
unfolding sum_to
sum_to_below zero s = ground arith
sum_to_below (suc n) s = ground (arith, sum_to_below n s)

sum_to_range :
    (n a e : ℕ)
    → a ≤ e
    → sum_to n (λ p. one_if (leb a p && leb p e))
      ≡ (if leb n a then 0 else if leb n e then n - a else e + 1 - a)
unfolding sum_to
sum_to_range zero a e h = ground arith
sum_to_range (suc n) a e h = ground (arith, sum_to_range n a e h)

-- The order of the two sums does not matter.
sum_to-total :
    (n : ℕ) (g : ℕ → Name → ℕ) (xs : List Item)
    → sum_to n (λ p. total (by_name (g p)) xs) ≡ total (by_name (λ k. sum_to n (λ p. g p k))) xs
unfolding total
sum_to-total n g [] = sum_to_zero n
sum_to-total n g (x ∷ xs) =
    sum_to_add n (λ p. mass (by_name (g p)) x) (λ p. total (by_name (g p)) xs)
    ∙ omega (arith, sum_to-total n g xs, one x)
  where
    one :
        (x : Item)
        → sum_to n (λ p. mass (by_name (g p)) x) ≡ mass (by_name (λ k. sum_to n (λ p. g p k))) x
    one x = elim (Option-cases x.name) [
      | inl free ↦ rw free (sum_to_zero n)
      | inr (k, named) ↦ rw named refl
    ]

length-cstr : (xs : List ℕ) → length (cstr xs) ≤ length xs
unfolding cstr
length-cstr [] = omega arith
length-cstr (x ∷ xs) = ground (arith, length-cstr xs)

length-drop : (o : ℕ) (xs : List ℕ) → length (drop o xs) ≡ length xs - o
length-drop zero xs = omega arith
length-drop (suc o) [] = omega arith
length-drop (suc o) (x ∷ xs) = omega (arith, length-drop o xs)

-- A key of the pool is not longer than the block.
pub text-fits :
    (b : Block) (o : ℕ)
    → 0 < length (text b (pooled o))
    → o + length (text b (pooled o)) ≤ length (bytes_of b)
unfolding text
text-fits b o h = omega (arith, length-cstr (drop o (bytes_of b)), length-drop o (bytes_of b))

region-le :
    (b : Block) (n : ℕ) (k : Name)
    → length (bytes_of b) < n
    → region b k ≤ sum_to n (λ p. cover b p k) + bad b k
region-le b n the_empty_string h = omega arith
region-le b n (outside _) h = omega arith
region-le b n (pooled o) h =
    ground (arith, text-fits b o, sum_to_range n o (o + length (text b (pooled o))) (omega arith))

total_mono :
    (f g h : Name → ℕ) (xs : List Item)
    → ((k : Name) → f k ≤ g k + h k)
    → total (by_name f) xs ≤ total (by_name g) xs + total (by_name h) xs
unfolding total
total_mono f g h [] le = omega arith
total_mono f g h (x ∷ xs) le = elim (Option-cases x.name) [
  | inl free ↦ rw free (omega (arith, total_mono f g h xs le))
  | inr (k, named) ↦ rw named (omega (arith, le k, total_mono f g h xs le))
]

-- The entries, and the item that is kept beside them.
abbrev beside : Option Item → List Item
beside none = []
beside (some item) = item ∷ []

total-beside : (f : Item → ℕ) (o : Option Item) → total f (beside o) ≡ left_over f o
unfolding total
total-beside f none = refl
total-beside f (some item) = omega arith

abbrev held : Coucal → Option Item → List Item
held c o = (c.items ++ c.stash.items) ++ beside o

total-held :
    (f : Item → ℕ) (c : Coucal) (o : Option Item) → total f (held c o) ≡ weight f c + left_over f o
total-held f c o = omega (
  arith,
  total-append f (c.items ++ c.stash.items) (beside o),
  total-append f c.items c.stash.items,
  total-beside f o,
)

-- In a pool in order, with or without an item beside the table, no more bytes are in use than the size
-- of the pool.
pub used-le-size : (c : Coucal) (o : Option Item) → Pooled c o → c.pool.used ≤ c.pool.size
used-le-size c o k =
    let b = c.pool.buffer in
    let n = suc (length (bytes_of b)) in
    let xs = held c o in
    omega (
      arith,
      k.counted,
      k.good,
      total-held (by_name (region b)) c o,
      total-held (by_name (bad b)) c o,
      total_mono (region b) (λ k. sum_to n (λ p. cover b p k)) (bad b) xs
          (λ k. region-le b n k (omega arith)),
      sum_to-total n (cover b) xs,
      sum_to_mono n (λ p. total (by_name (cover b p)) xs) (λ p. one_if (ltb p c.pool.size))
          (λ p. omega (arith, total-held (by_name (cover b p)) c o, k.apart p)),
      below n c.pool.size,
    )
  where
    below : (n s : ℕ) → sum_to n (λ p. one_if (ltb p s)) ≤ s
    below n s = ground (arith, sum_to_below n s)

-- The string of an entry, with its NUL, ends below the size.
pub cover-in_size :
    (c : Coucal) (o : Option Item) (offset : ℕ) (item : Item)
    → Pooled c o
    → ((f : Item → ℕ) → mass f item ≤ weight f c + left_over f o)
    → item.name ≡ some (pooled offset)
    → offset + length (text c.pool.buffer (pooled offset)) < c.pool.size
cover-in_size c o offset item k inside named =
    let b = c.pool.buffer in
    let e = offset + length (text b (pooled offset)) in
    let own : mass (by_name (cover b e)) item ≡ 1 = rw named (ground arith) in
    ground (arith, own, inside (by_name (cover b e)), k.apart e)
