-- ===== src/Enum/Ahead.antt =====
-- What `coucal_enum_next` finds from an index on, and the weights of the slots that it passes.
use coucal.Base.{
  ℕ, zero, suc, ◌+◌, ◌-◌, ◌≤◌, ◌<◌, ◌≡◌, refl, ap, subst, sym, ◌∙◌, inl, inr, true, false, Option,
  none, some, leb, ◌==◌, ==_iff, Bool-cases, arith,
}
use coucal.Base.Words.{pow2}
use coucal.Enum.Complete.{whole-span}
use coucal.Enum.Steps.{slot_at, at_index, end_of, next-free, next-live, next-beyond}
use coucal.Enum.{Enum, enum_next}
use coucal.State.{Item, Coucal, stash_size}
use coucal.Table.Entries.{mass}
use coucal.Table.Layout.{Layout, weight}
use coucal.Table.Spans.{span, span-append, span-free}
use coucal.Table.{is_empty_item}

-- The slots up to this index are all that a table has.
abbrev pub all_slots : Coucal → ℕ
all_slots c = pow2 c.lg_size + stash_size

-- A weight of slots that is smaller slot by slot.
pub span_mono :
    (at at' : ℕ → Item) (f g : Item → ℕ) (n i : ℕ)
    → ((j : ℕ) → mass g (at' j) ≤ mass f (at j))
    → span at' g n i ≤ span at f n i
span_mono at at' f g zero i h = omega arith
span_mono at at' f g (suc n) i h = omega (arith, h i, span_mono at at' f g n (i + 1) h)

module _ (at : ℕ → Item) (f : Item → ℕ) where
  -- Free slots weigh nothing.
  pub span-skip :
      (d n i : ℕ)
      → ((m : ℕ) → i ≤ m → m < i + d → is_empty_item (at m) ≡ true)
      → span at f (d + suc n) i ≡ mass f (at (i + d)) + span at f n (i + d + 1)
  span-skip zero n i free = omega (
    arith,
    ap (λ m. span at f m i) (one_more n),
    ap (λ j. mass f (at j) + span at f n (j + 1)) (here i),
  )
    where
      one_more : (n : ℕ) → 0 + suc n ≡ suc n
      one_more n = omega arith

      here : (i : ℕ) → i ≡ i + 0
      here i = omega arith
  span-skip (suc d) n i free = omega (
    arith,
    ap (λ m. span at f m i) (one_more d n),
    massless (at i) (free i (omega arith) (omega arith)),
    span-skip d n (i + 1) (λ m h lt. free m (omega arith) (omega arith)),
    ap (λ j. mass f (at j) + span at f n (j + 1)) (next i d),
  )
    where
      one_more : (d n : ℕ) → suc d + suc n ≡ suc (d + suc n)
      one_more d n = omega arith

      next : (i d : ℕ) → i + 1 + d ≡ i + suc d
      next i d = omega arith

      massless : (item : Item) → is_empty_item item ≡ true → mass f item ≡ 0
      massless item e = ground arith

-- What a call of `coucal_enum_next` finds from an index on.
pub data Gives (c : Coucal) (i : ℕ) (r : Option Item × Enum) : Type 0 where
  gives :
      (d : ℕ)
      → i + d < end_of c
      → is_empty_item (slot_at c (i + d)) ≡ false
      → ((m : ℕ) → i ≤ m → m < i + d → is_empty_item (slot_at c m) ≡ true)
      → r ≡ (some (slot_at c (i + d)), at_index c (i + d + 1))
      → Gives c i r
  ends :
      ((m : ℕ) → i ≤ m → m < end_of c → is_empty_item (slot_at c m) ≡ true)
      → r.0 ≡ none
      → Gives c i r

pub enum_next-Gives :
    (c : Coucal) (n i : ℕ) → i + n ≡ end_of c → Gives c i (enum_next (at_index c i))
enum_next-Gives c zero i e =
    ends (λ m h lt. absurd (omega arith)) (ap (λ r. r.0) (next-beyond c i (omega arith)))
enum_next-Gives c (suc n) i e = elim (Bool-cases (is_empty_item (slot_at c i))) [
  | inl free ↦
      subst (Gives c i) (sym (next-free c i (omega arith) free))
        (go free (enum_next (at_index c (i + 1))) (enum_next-Gives c n (i + 1) (omega arith)))
  | inr full ↦
      let here : i ≡ i + 0 = omega arith in
      gives 0 (omega arith) (subst (λ j. is_empty_item (slot_at c j) ≡ false) here full)
        (λ m h lt. absurd (omega arith))
        (next-live c i (omega arith) full ∙ ap (λ j. (some (slot_at c j), at_index c (j + 1))) here)
]
  where
    either :
        (m : ℕ)
        → is_empty_item (slot_at c i) ≡ true
        → i ≤ m
        → (i + 1 ≤ m → is_empty_item (slot_at c m) ≡ true)
        → is_empty_item (slot_at c m) ≡ true
    either m free h later = elim (Bool-cases (i == m)) [
      | inl same ↦
          let at : i ≡ m = (==_iff i m).0 same in
          ap (λ j. is_empty_item (slot_at c j)) (sym at) ∙ free
      | inr other ↦ later (ground arith)
    ]

    go :
        is_empty_item (slot_at c i) ≡ true
        → (r : Option Item × Enum) → Gives c (i + 1) r
        → Gives c i r
    go free r (gives d lt full before e') =
        let next : i + 1 + d ≡ i + suc d = omega arith in
        gives (suc d) (omega arith) (subst (λ j. is_empty_item (slot_at c j) ≡ false) next full)
          (λ m h lt'. either m free h (λ h'. before m h' (omega arith)))
          (e' ∙ ap (λ j. (some (slot_at c j), at_index c (j + 1))) next)
    go free r (ends after e') = ends (λ m h lt. either m free h (λ h'. after m h' lt)) e'

pub end-le : (c : Coucal) → Layout c → end_of c ≤ all_slots c
end-le c l = omega (arith, l.stash_extent)

pub some_ne_none : (item : Item) → ◌≡◌ {A = Option Item} (some item) none → ⊥
some_ne_none item e = cc

-- The slots up to the limit are those up to the end.
pub limit-span :
    (c : Coucal) (f : Item → ℕ) → Layout c → span (slot_at c) f (all_slots c) 0 ≡ weight f c
limit-span c f l =
    let rest = stash_size - c.stash.extent in
    omega (
      arith,
      whole-span c f l,
      ap (λ m. span (slot_at c) f m 0) all,
      span-append (slot_at c) f (end_of c) rest 0,
      span-free (slot_at c) f rest (0 + end_of c) clear,
    )
  where
    all : all_slots c ≡ end_of c + (stash_size - c.stash.extent)
    all = omega (arith, l.stash_extent)

    clear : (k : ℕ) → 0 + end_of c ≤ k → (slot_at c k).name ≡ none
    clear k le = ground (arith, l.stash_clear (k - pow2 c.lg_size))

span-empty :
    (at : ℕ → Item) (f : Item → ℕ) (n i : ℕ)
    → ((m : ℕ) → i ≤ m → m < i + n → is_empty_item (at m) ≡ true)
    → span at f n i ≡ 0
span-empty at f zero i h = refl
span-empty at f (suc n) i h = omega (
  arith,
  massless (at i) (h i (omega arith) (omega arith)),
  span-empty at f n (i + 1) (λ m le lt. h m (omega arith) (omega arith)),
)
  where
    massless : (item : Item) → is_empty_item item ≡ true → mass f item ≡ 0
    massless item e = ground arith

split_span :
    (at : ℕ → Item) (f : Item → ℕ) (a b : ℕ)
    → a ≤ b
    → span at f b 0 ≡ span at f a 0 + span at f (b - a) a
split_span at f a b h =
    ap (λ m. span at f m 0) whole
    ∙ span-append at f a (b - a) 0
    ∙ ap (λ j. span at f a 0 + span at f (b - a) j) start
  where
    whole : b ≡ a + (b - a)
    whole = omega arith

    start : 0 + a ≡ a
    start = omega arith

-- Where nothing more is given, the slots from the cursor on are free.
pub all_passed :
    (c : Coucal) (i : ℕ) (f : Item → ℕ)
    → (enum_next (at_index c i)).0 ≡ none
    → span (slot_at c) f (end_of c) 0 ≤ span (slot_at c) f i 0
all_passed c i f last = elim (Bool-cases (leb i (end_of c))) [
  | inr past ↦ omega (arith, split_span (slot_at c) f (end_of c) i (ground arith))
  | inl low ↦ go (ground arith) (enum_next-Gives c (end_of c - i) i (ground arith))
]
  where
    go :
        i ≤ end_of c
        → Gives c i (enum_next (at_index c i))
        → span (slot_at c) f (end_of c) 0 ≤ span (slot_at c) f i 0
    go le (gives d lt full before e') =
        absurd (some_ne_none (slot_at c (i + d)) (ap (λ r. r.0) (sym e') ∙ last))
    go le (ends after e') = omega (
      arith,
      split_span (slot_at c) f i (end_of c) le,
      span-empty (slot_at c) f (end_of c - i) i (λ m h lt. after m h (omega arith)),
    )
