-- ===== src/Table/Rekeying.antt =====
-- A table whose keys moved to other places in the pool, and read as before.
use coucal.Base.{
  ℕ, suc, ◌≡◌, refl, ap, sym, ◌∙◌, inl, inr, Bool, true, false, not, ◌&&◌, ◌==◌, Option, none, some,
  Option-cases, List, [], ◌∷◌, length, get_or, arith,
}
use coucal.Keys.{equal_texts, hash_text}
use coucal.Pool.Regions.{Block}
use coucal.Pool.{text}
use coucal.State.{Custom, Hashkeys, Item, null_item, Name, KeyHandlers, Coucal}
use coucal.Table.Entries.{mass, total, first, one_if, and_value, value_of}
use coucal.Table.Layout.{IsHome, Layout, weight}
use coucal.Table.Reading.{weight-entries}
use coucal.Table.Valid.{Valid, entry_of}
use coucal.Table.View.{view, keyed, well_hashed, entries, first_transfer}
use coucal.Table.{hash_to_pos_at, get_item}
use coucal.Base.Words.{pow2}

-- What the key of an item reads.
abbrev pub name_text : Block → Item → Option (List ℕ)
name_text b item = elim item.name [ none ↦ none | some n ↦ some (text b n) ]

-- An item with the same value and hashes, whose key reads the same, each in its own block.
pub record SameItem (b b' : Block) (item item' : Item) : Type 0 where
  pub reads : name_text b' item' ≡ name_text b item
  pub value : item'.value ≡ item.value
  pub hashes : item'.hashes ≡ item.hashes

-- Two arrays of items that are the same slot by slot.
pub record SameItems (b b' : Block) (xs ys : List Item) : Type 0 where
  pub width : length ys ≡ length xs
  pub slots : (i : ℕ) → SameItem b b' (get_or xs i null_item) (get_or ys i null_item)

pub record Rekeyed (c c' : Coucal) : Type 0 where
  pub table : SameItems c.pool.buffer c'.pool.buffer c.items c'.items
  pub stash : SameItems c.pool.buffer c'.pool.buffer c.stash.items c'.stash.items
  pub stash_size : c'.stash.size ≡ c.stash.size
  pub stash_extent : c'.stash.extent ≡ c.stash.extent
  pub lg_size : c'.lg_size ≡ c.lg_size
  pub used : c'.used ≡ c.used
  pub custom : c'.custom ≡ c.custom
  pub freed_values : c'.world.freed_values ≡ c.world.freed_values
  pub freed_keys : c'.world.freed_keys ≡ c.world.freed_keys

pub SameItem-free : {b b' : Block} {x y : Item} → SameItem b b' x y → x.name ≡ none → y.name ≡ none
SameItem-free {b} {b'} {x} {y} s e = elim (Option-cases y.name) [
  | inl free ↦ free
  | inr (n, named) ↦
      let e1 : name_text b x ≡ none = rw e refl in
      let e2 : name_text b' y ≡ some (text b' n) = rw named refl in cc (s.reads)
]

-- A weight that sees a key by what it reads.
abbrev pub SameMass : Block → Block → (Item → ℕ) → (Item → ℕ) → Type 0
SameMass b b' f g = (x y : Item) → SameItem b b' x y → mass g y ≡ mass f x

pub total-same :
    (b b' : Block) (f g : Item → ℕ) (xs ys : List Item)
    → SameMass b b' f g
    → SameItems b b' xs ys
    → total g ys ≡ total f xs
unfolding total
total-same b b' f g [] [] h s = refl
total-same b b' f g [] (y ∷ ys) h s = absurd (omega (arith, s.width))
total-same b b' f g (x ∷ xs) [] h s = absurd (omega (arith, s.width))
total-same b b' f g (x ∷ xs) (y ∷ ys) h s =
    let rest : SameItems b b' xs ys = record {
      width = omega (arith, s.width);
      slots = λ i. s.slots (suc i);
    } in
    omega (arith, h x y (s.slots 0), total-same b b' f g xs ys h rest)

-- The tests of an item, by what its key reads.
abbrev text_test : KeyHandlers → List ℕ → Option (List ℕ) → Bool
text_test h k none = false
text_test h k (some t) = equal_texts h t k

abbrev text_hashed : KeyHandlers → Hashkeys → Option (List ℕ) → Bool
text_hashed h hashes none = true
text_hashed h hashes (some t) =
    hashes.hash1 == (hash_text h t).hash1 && hashes.hash2 == (hash_text h t).hash2

keyed-text :
    (h : KeyHandlers) (b : Block) (k : List ℕ) (x : Item)
    → keyed h b k x ≡ text_test h k (name_text b x)
keyed-text h b k x = elim (Option-cases x.name) [
  | inl free ↦ rw free refl
  | inr (n, named) ↦ rw named refl
]

well_hashed-text :
    (h : KeyHandlers) (b : Block) (x : Item)
    → well_hashed h b x ≡ text_hashed h x.hashes (name_text b x)
well_hashed-text h b x = elim (Option-cases x.name) [
  | inl free ↦ rw free refl
  | inr (n, named) ↦ rw named refl
]

live-mass : (f : Item → ℕ) (x : Item) (n : Name) → x.name ≡ some n → mass f x ≡ f x
live-mass f x n named = ground arith

module _ (h : KeyHandlers) (b b' : Block) where
  keyed-same : (k : List ℕ) (x y : Item) → SameItem b b' x y → keyed h b' k y ≡ keyed h b k x
  keyed-same k x y s = keyed-text h b' k y ∙ ap (text_test h k) s.reads ∙ sym (keyed-text h b k x)

  well_hashed-same : (x y : Item) → SameItem b b' x y → well_hashed h b' y ≡ well_hashed h b x
  well_hashed-same x y s =
      well_hashed-text h b' y
      ∙ (λ i. text_hashed h (s.hashes i) (s.reads i))
      ∙ sym (well_hashed-text h b x)

  -- Where the weights agree for live items, and items are live together, the masses agree.
  mass-same : (f g : Item → ℕ) → ((x y : Item) → SameItem b b' x y → g y ≡ f x) → SameMass b b' f g
  mass-same f g same x y s = elim (Option-cases x.name) [
    | inl free ↦ rw (free, SameItem-free s free) refl
    | inr (n, named) ↦ elim (Option-cases y.name) [
      | inl free ↦
          let e1 : name_text b x ≡ some (text b n) = rw named refl in
          let e2 : name_text b' y ≡ none = rw free refl in cc (s.reads)
      | inr (m, named') ↦ live-mass g y m named' ∙ same x y s ∙ sym (live-mass f x n named)
    ]
  ]

  keyed_mass-same :
      (k : List ℕ)
      → SameMass b b' (λ item. one_if (keyed h b k item)) (λ item. one_if (keyed h b' k item))
  keyed_mass-same k =
      mass-same (λ item. one_if (keyed h b k item)) (λ item. one_if (keyed h b' k item))
        (λ x y s. ap one_if (keyed-same k x y s))

  value_mass-same :
      (k : List ℕ) (v : ℕ)
      → SameMass b b'
          (λ item. one_if (and_value (keyed h b k) v item))
          (λ item. one_if (and_value (keyed h b' k) v item))
  value_mass-same k v =
      mass-same (λ item. one_if (and_value (keyed h b k) v item))
        (λ item. one_if (and_value (keyed h b' k) v item))
        (λ x y s i. one_if (keyed-same k x y s i && s.value i == v))

  misfiled-same :
      SameMass b b'
        (λ item. one_if (not (well_hashed h b item)))
        (λ item. one_if (not (well_hashed h b' item)))
  misfiled-same =
      mass-same (λ item. one_if (not (well_hashed h b item)))
        (λ item. one_if (not (well_hashed h b' item)))
        (λ x y s. ap (λ t. one_if (not t)) (well_hashed-same x y s))

module _ (c c' : Coucal) (r : Rekeyed c c') where
  pub weight-same :
      (f g : Item → ℕ) → SameMass c.pool.buffer c'.pool.buffer f g → weight g c' ≡ weight f c
  weight-same f g h = omega (
    arith,
    total-same c.pool.buffer c'.pool.buffer f g c.items c'.items h r.table,
    total-same c.pool.buffer c'.pool.buffer f g c.stash.items c'.stash.items h r.stash,
  )

  IsHome-same :
      (lg i : ℕ) (x y : Item)
      → SameItem c.pool.buffer c'.pool.buffer x y
      → IsHome lg i x
      → IsHome lg i y
  IsHome-same lg i x y s (inl free) = inl (SameItem-free s free)
  IsHome-same lg i x y s (inr (inl e)) =
      inr (inl (ap (λ h. hash_to_pos_at lg h.hash1) s.hashes ∙ e))
  IsHome-same lg i x y s (inr (inr e)) =
      inr (inr (ap (λ h. hash_to_pos_at lg h.hash2) s.hashes ∙ e))

  pub Rekeyed-Layout : Layout c → Layout c'
  Rekeyed-Layout l = record {
    lg_low = omega (arith, l.lg_low, r.lg_size);
    lg_high = omega (arith, l.lg_high, r.lg_size);
    width = r.table.width ∙ l.width ∙ ap pow2 (sym r.lg_size);
    home = λ i.
        rw r.lg_size
          (IsHome-same c.lg_size i (get_item c i) (get_item c' i) (r.table.slots i) (l.home i));
    stash_width = r.stash.width ∙ l.stash_width;
    stash_extent = omega (arith, r.stash_extent, l.stash_extent);
    stash_live =
        total-same c.pool.buffer c'.pool.buffer (λ _. 1) (λ _. 1) c.stash.items c'.stash.items
          (mass-same c.custom.key c.pool.buffer c'.pool.buffer (λ _. 1) (λ _. 1) (λ x y s. refl))
          r.stash
        ∙ l.stash_live
        ∙ sym r.stash_size;
    stash_clear =
        λ i h. SameItem-free (r.stash.slots i) (l.stash_clear i (omega (arith, r.stash_extent)));
  }

  -- The same tests, under the settings of the new state.
  test : (k : List ℕ) → entry_of c' k ≡ keyed c.custom.key c'.pool.buffer k
  test k = λ i item. keyed (r.custom i).key c'.pool.buffer k item

  total_of_weight :
      (f g : Item → ℕ)
      → SameMass c.pool.buffer c'.pool.buffer f g
      → total g (entries c') ≡ total f (entries c)
  total_of_weight f g h = weight-entries g c' ∙ weight-same f g h ∙ sym (weight-entries f c)

  -- An item is an entry of a key as before.
  pub Rekeyed-slot :
      (k : List ℕ) (x y : Item)
      → SameItem c.pool.buffer c'.pool.buffer x y
      → mass (λ item. one_if (entry_of c' k item)) y ≡ mass (λ item. one_if (entry_of c k item)) x
  Rekeyed-slot k x y s =
      ap (λ (p : Item → Bool). mass (λ item. one_if (p item)) y) (test k)
      ∙ keyed_mass-same c.custom.key c.pool.buffer c'.pool.buffer k x y s

  -- A key has as many entries as before.
  pub Rekeyed-entry_of :
      (k : List ℕ)
      → weight (λ item. one_if (entry_of c' k item)) c'
        ≡ weight (λ item. one_if (entry_of c k item)) c
  Rekeyed-entry_of k =
      ap (λ (p : Item → Bool). weight (λ item. one_if (p item)) c') (test k)
      ∙ weight-same (λ item. one_if (keyed c.custom.key c.pool.buffer k item))
          (λ item. one_if (keyed c.custom.key c'.pool.buffer k item))
          (keyed_mass-same c.custom.key c.pool.buffer c'.pool.buffer k)

  pub Rekeyed-Valid : Valid c → Valid c'
  Rekeyed-Valid v =
      let b = c.pool.buffer in
      let b' = c'.pool.buffer in
      let h = c.custom.key in
      record {
        layout = Rekeyed-Layout v.layout;
        counted =
            r.used
            ∙ v.counted
            ∙ sym (
                weight-same (λ _. 1) (λ _. 1) (mass-same h b b' (λ _. 1) (λ _. 1) (λ x y s. refl)));
        hashed =
            ap (λ (u : Custom). weight (λ item. one_if (not (well_hashed u.key b' item))) c')
              r.custom
            ∙ weight-same _ _ (misfiled-same h b b')
            ∙ v.hashed;
        once = λ k. omega (arith, v.once k, Rekeyed-entry_of k);
      }

  pub Rekeyed-view : Valid c → (k : List ℕ) → view c' k ≡ view c k
  unfolding view
  Rekeyed-view v k =
      let b = c.pool.buffer in
      let b' = c'.pool.buffer in
      let h = c.custom.key in
      ap (λ p. value_of (first p (entries c'))) (test k)
      ∙ first_transfer (keyed h b k) (keyed h b' k) (entries c) (entries c')
          (total_of_weight _ _ (keyed_mass-same h b b' k))
          (λ value. total_of_weight _ _ (value_mass-same h b b' k value))
          (omega (arith, weight-entries (λ item. one_if (entry_of c k item)) c, v.once k))
