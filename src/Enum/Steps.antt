-- ===== src/Enum/Steps.antt =====
-- Single calls of `coucal_enum_next`.
use coucal.Base.{
  subst, ℕ, zero, suc, ◌+◌, ◌-◌, ◌≤◌, ◌<◌, ◌≡◌, refl, ap, sym, ◌∙◌, inl, inr, Bool, true, false,
  none, some, ltb, lt→ltb, ltb→lt, if◌then◌else◌, Bool-cases, arith,
}
use coucal.Base.Words.{pow2}
use coucal.Enum.{Enum, enum_next, next_in_stash, take_stash, take_table, is_hole, skip}
use coucal.State.{Item, Coucal}
use coucal.Table.{get_item, get_stash, is_empty_item, is_free}

-- The item that the enumeration reads at an index.
abbrev pub slot_at : Coucal → ℕ → Item
slot_at c i = if ltb i (pow2 c.lg_size) then get_item c i else get_stash c (i - pow2 c.lg_size)

abbrev pub at_index : Coucal → ℕ → Enum
at_index c i = record { table = c; index = i }

abbrev pub end_of : Coucal → ℕ
end_of c = pow2 c.lg_size + c.stash.extent

skip-free :
    (free : ℕ → Bool) (i n : ℕ)
    → i < n
    → free i ≡ true
    → skip free (n - i) i ≡ skip free (n - (i + 1)) (i + 1)
unfolding skip
skip-free free i n h e =
    let rounds : n - i ≡ suc (n - (i + 1)) = omega arith in rw (rounds, skip, e)

skip-stops : (free : ℕ → Bool) (i n : ℕ) → free i ≡ false → skip free (n - i) i ≡ i
unfolding skip
skip-stops free i n e = go (n - i)
  where
    go : (m : ℕ) → skip free m i ≡ i
    go zero = refl
    go (suc m) = rw e

skip-past : (free : ℕ → Bool) (i n : ℕ) → n ≤ i → skip free (n - i) i ≡ i
unfolding skip
skip-past free i n h = let rounds : n - i ≡ 0 = omega arith in rw rounds

module _ (c : Coucal) where
  -- Past the table just the stash is read.
  next-past : (i : ℕ) → pow2 c.lg_size ≤ i → enum_next (at_index c i) ≡ next_in_stash c i
  unfolding enum_next take_table
  next-past i h =
      let past : ltb i (pow2 c.lg_size) ≡ false = ground arith in
      rw (skip-past (is_free c) i (pow2 c.lg_size) h, past)

  not-low : (i : ℕ) → ltb i (pow2 c.lg_size) ≡ false → pow2 c.lg_size ≤ i
  not-low i e = ground arith

  abbrev slot_if : Bool → ℕ → Item
  slot_if low i = if low then get_item c i else get_stash c (i - pow2 c.lg_size)

  -- A free slot is passed over.
  free_low :
      (i : ℕ)
      → i < pow2 c.lg_size
      → is_free c i ≡ true
      → enum_next (at_index c i) ≡ enum_next (at_index c (i + 1))
  unfolding enum_next
  free_low i lt free = ap (take_table c) (skip-free (is_free c) i (pow2 c.lg_size) lt free)

  free_high :
      (i : ℕ)
      → pow2 c.lg_size ≤ i
      → i < end_of c
      → is_hole c i ≡ true
      → enum_next (at_index c i) ≡ enum_next (at_index c (i + 1))
  unfolding next_in_stash
  free_high i le h hole =
      next-past i le
      ∙ ap (take_stash c) (skip-free (is_hole c) i (end_of c) h hole)
      ∙ sym (next-past (i + 1) (omega arith))

  pub next-free :
      (i : ℕ)
      → i < end_of c
      → is_empty_item (slot_at c i) ≡ true
      → enum_next (at_index c i) ≡ enum_next (at_index c (i + 1))
  next-free i h e = elim (Bool-cases (ltb i (pow2 c.lg_size))) [
    | inl low ↦ free_low i (ltb→lt _ _ low) (subst (λ b. is_empty_item (slot_if b i) ≡ true) low e)
    | inr high ↦
        free_high i (not-low i high) h (subst (λ b. is_empty_item (slot_if b i) ≡ true) high e)
  ]

  -- A live slot is given, and the index moves past it.
  live_low :
      (i : ℕ)
      → ltb i (pow2 c.lg_size) ≡ true
      → is_free c i ≡ false
      → enum_next (at_index c i) ≡ (some (get_item c i), at_index c (i + 1))
  unfolding enum_next take_table
  live_low i lt full = rw (skip-stops (is_free c) i (pow2 c.lg_size) full, lt)

  live_high :
      (i : ℕ)
      → pow2 c.lg_size ≤ i
      → i < end_of c
      → is_hole c i ≡ false
      → enum_next (at_index c i) ≡ (some (get_stash c (i - pow2 c.lg_size)), at_index c (i + 1))
  unfolding next_in_stash take_stash
  live_high i le h full =
      next-past i le ∙ rw (skip-stops (is_hole c) i (end_of c) full, lt→ltb i (end_of c) h)

  pub next-live :
      (i : ℕ)
      → i < end_of c
      → is_empty_item (slot_at c i) ≡ false
      → enum_next (at_index c i) ≡ (some (slot_at c i), at_index c (i + 1))
  next-live i h e = elim (Bool-cases (ltb i (pow2 c.lg_size))) [
    | inl low ↦ rw low (live_low i low (subst (λ b. is_empty_item (slot_if b i) ≡ false) low e))
    | inr high ↦
        rw high
          (live_high i (not-low i high) h (subst (λ b. is_empty_item (slot_if b i) ≡ false) high e))
  ]

  -- Past the last slot, wherever, there is nothing more.
  pub next-beyond : (i : ℕ) → end_of c ≤ i → enum_next (at_index c i) ≡ (none, at_index c i)
  unfolding next_in_stash take_stash
  next-beyond i h =
      let past : ltb i (end_of c) ≡ false = ground arith in
      next-past i (omega arith) ∙ rw (skip-past (is_hole c) i (end_of c) h, past)

  pub next-end : enum_next (at_index c (end_of c)) ≡ (none, at_index c (end_of c))
  next-end = next-beyond (end_of c) (omega arith)
