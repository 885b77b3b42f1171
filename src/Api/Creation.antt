-- ===== src/Api/Creation.antt =====
-- `coucal_new`: the size that it chooses, and the table that it makes.
use coucal.Api.{get_pow2_from, get_pow2, new_table, new, sizeof_coucal}
use coucal.Base.{
  ℕ, zero, suc, ◌+◌, ◌-◌, ◌*◌, ◌^◌, ◌≤◌, ◌<◌, ◌≡◌, refl, ap, sym, ◌∙◌, ◌⊎◌, inl, inr, true, false,
  ◌&&◌, none, some, List, length, ltb, leb, lt→ltb, leb→le, le→leb, ◌==◌, Bool-cases,
  get_or-replicate, length-replicate, arith,
}
use coucal.Base.Words.{pow2}
use coucal.State.{Item, null_item, World, Coucal, Allocator, stash_size}
use coucal.Table.Entries.{total-replicate, one_if, first-eq-none, value_of}
use coucal.Table.Grow.{is_acceptable_pow2, sizeof_item}
use coucal.Table.Layout.{Layout, weight}
use coucal.Table.Position.{pow2-le}
use coucal.Table.Reading.{weight-entries}
use coucal.Table.Valid.{Valid, entry_of, misfiled}
use coucal.Table.View.{view, entries}

-- The chosen exponent: the least from `size` on that is large enough, or the first that is refused.
record Chosen (size initial_size r : ℕ) : Type 0 where
  from_size : size ≤ r
  bounded : r ≤ 33
  enough : r ≤ 32 → initial_size ≤ pow2 r
  least : (r ≡ size) ⊎ (pow2 (r - 1) < initial_size)

acceptable-le :
    (size n : ℕ)
    → (is_acceptable_pow2 size && ltb (pow2 size) n) ≡ true
    → (size ≤ 32) × (pow2 size < n)
unfolding is_acceptable_pow2
acceptable-le size n e = ground arith

refused :
    (size n : ℕ)
    → (is_acceptable_pow2 size && ltb (pow2 size) n) ≡ false
    → size ≤ 32
    → n ≤ pow2 size
unfolding is_acceptable_pow2
refused size n e h = ground arith

add-sub_one : (n : ℕ) → n + 1 - 1 ≡ n
add-sub_one n = omega arith

get_pow2_from-Chosen :
    (fuel size initial_size : ℕ)
    → 33 < size + fuel
    → size ≤ 33
    → Chosen size initial_size (get_pow2_from fuel size initial_size)
unfolding get_pow2_from
get_pow2_from-Chosen zero size n f h = absurd (omega arith)
get_pow2_from-Chosen (suc fuel) size n f h =
    elim (Bool-cases (is_acceptable_pow2 size && ltb (pow2 size) n)) [
      | inl go ↦
          let (fits, short) = acceptable-le size n go in
          let c = get_pow2_from-Chosen fuel (size + 1) n (omega arith) (omega arith) in
          rw go (record {
            from_size = omega (arith, c.from_size);
            bounded = c.bounded;
            enough = c.enough;
            least = elim c.least [
              | inl e ↦ inr (rw (e, add-sub_one size) short)
              | inr less ↦ inr less
            ];
          })
      | inr stop ↦ rw stop (record {
        from_size = omega arith;
        bounded = h;
        enough = λ small. refused size n stop small;
        least = inl refl;
      })
    ]

-- `get_pow2` gives the least exponent from `MIN_LG_SIZE` on whose power holds the size, up to
-- 2 ^ 32; past that, 33, which is not acceptable.
pub get_pow2_lem :
    (n : ℕ)
    → (4 ≤ get_pow2 n)
      × (n ≤ 2 ^ 32 → (get_pow2 n ≤ 32) × (n ≤ pow2 (get_pow2 n)))
      × (2 ^ 32 < n → get_pow2 n ≡ 33)
      × ((get_pow2 n ≡ 4) ⊎ (pow2 (get_pow2 n - 1) < n))
unfolding get_pow2
get_pow2_lem n =
    let c = get_pow2_from-Chosen 30 4 n (omega arith) (omega arith) in
    let r = get_pow2_from 30 4 n in
    let low : n ≤ 2 ^ 32 → r ≤ 32 =
      λ h. elim c.least [ inl e ↦ omega arith | inr less ↦ below r n c.bounded less h ] in
    let high : 2 ^ 32 < n → r ≡ 33 = λ h. elim (Bool-cases (leb r 32)) [
      | inl small ↦
          let e = c.enough (leb→le _ _ small) in
          absurd (omega (arith, pow2-le r (leb→le _ _ small)))
      | inr big ↦ ground (arith, c.bounded)
    ] in
    (c.from_size, λ h. (low h, c.enough (low h)), high, c.least)
  where
    below : (r n : ℕ) → r ≤ 33 → pow2 (r - 1) < n → n ≤ 2 ^ 32 → r ≤ 32
    below r n h less small = elim (Bool-cases (r == 33)) [
      | inl e ↦
          let same : r ≡ 33 = ground arith in absurd (omega (arith, ap (λ x. pow2 (x - 1)) same))
      | inr e ↦ ground arith
    ]

new_table-Layout : (w : World) (lg : ℕ) → 4 ≤ lg → lg ≤ 32 → Layout (new_table w lg)
new_table-Layout w lg low high = record {
  lg_low = low;
  lg_high = high;
  width = length-replicate (pow2 lg) null_item;
  home = λ i. inl (ap (λ x. x.name) (get_or-replicate (pow2 lg) i null_item));
  stash_width = length-replicate 16 null_item;
  stash_extent = omega arith;
  stash_live = total-replicate (λ _. 1) 16;
  stash_clear = λ i h. ap (λ x. x.name) (get_or-replicate 16 i null_item);
}

pub new_table-weight : (w : World) (lg : ℕ) (f : Item → ℕ) → weight f (new_table w lg) ≡ 0
new_table-weight w lg f = omega (arith, total-replicate f (pow2 lg), total-replicate f stash_size)

pub new_table-Valid : (w : World) (lg : ℕ) → 4 ≤ lg → lg ≤ 32 → Valid (new_table w lg)
new_table-Valid w lg low high = record {
  layout = new_table-Layout w lg low high;
  counted = sym (new_table-weight w lg (λ _. 1));
  hashed = new_table-weight w lg (misfiled (new_table w lg));
  once =
      λ k. omega (arith, new_table-weight w lg (λ item. one_if (entry_of (new_table w lg) k item)));
}

pub new_table-view : (w : World) (lg : ℕ) (k : List ℕ) → view (new_table w lg) k ≡ none
unfolding view
new_table-view w lg k =
    let c = new_table w lg in
    ap value_of (
      first-eq-none (entry_of c k) (entries c) (
        weight-entries (λ item. one_if (entry_of c k item)) c
        ∙ new_table-weight w lg (λ item. one_if (entry_of c k item))))

-- If the allocator grants both blocks, `coucal_new` succeeds for every size up to 2 ^ 32, with a
-- table that is valid and empty and has at least as many slots as asked for; for a larger size it
-- gives NULL.
pub new_lem :
    (alloc : Allocator) (w : World) (n : ℕ)
    → alloc.succeeds w.allocations sizeof_coucal ≡ true
    → alloc.succeeds (w.allocations + 1) (pow2 (get_pow2 n) * sizeof_item) ≡ true
    → (n ≤ 2 ^ 32
        → (c : Coucal) × (new alloc w n ≡ some c)
          × Valid c
          × ((k : List ℕ) → view c k ≡ none)
          × (n ≤ length c.items))
      × (2 ^ 32 < n → new alloc w n ≡ none)
unfolding new is_acceptable_pow2
new_lem alloc w n first second =
    let (low, fits, big, _) = get_pow2_lem n in
    (
      λ h.
          let (high, holds) = fits h in
          let w' = record w { allocations = w.allocations + 2 } in
          let c = new_table w' (get_pow2 n) in
          (
            c,
            rw (le→leb _ _ high, lt→ltb (get_pow2 n) 64 (omega arith), first, second),
            new_table-Valid w' (get_pow2 n) low high,
            new_table-view w' (get_pow2 n),
            omega (arith, length-replicate (pow2 (get_pow2 n)) null_item),
          ),
      λ h. rw (big h),
    )
