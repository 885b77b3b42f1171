-- ===== src/Table/View.antt =====
-- The abstract view of a table: a partial map from keys to values, read off its entries in any
-- order; and what an exchange of entries does to it.
use coucal.Base.{
  ℕ, ◌+◌, ◌≤◌, ◌<◌, ◌≡◌, refl, ap, sym, ◌∙◌, inl, inr, Bool, true, false, ◌&&◌, Option, none, some,
  List, ◌++◌, ◌==◌, if◌then◌else◌, Bool-cases, Option-cases, fun_ext, subst, arith,
}
use coucal.Keys.Laws.{KeyLaws}
use coucal.Keys.{equal_texts, hash_text}
use coucal.Pool.{text}
use coucal.State.{Item, KeyHandlers, Coucal}
use coucal.Table.Entries.{
  mass, total, first, one_if, and_value, value_of, hits, hits_value, first-eq-none, first-some_hits,
  first_of_hits, first-none-hits,
}
use coucal.Table.Placing.{left_over}

-- Does the item hold an entry of the key with the bytes `k`?
abbrev pub keyed : KeyHandlers → Option (List ℕ) → List ℕ → Item → Bool
keyed h b k item = elim item.name [ none ↦ false | some n ↦ equal_texts h (text b n) k ]

-- Does it keep the hashes of its key?
abbrev pub well_hashed : KeyHandlers → Option (List ℕ) → Item → Bool
well_hashed h b item = elim item.name [
  | none ↦ true
  | some n ↦
      item.hashes.hash1 == (hash_text h (text b n)).hash1
      && item.hashes.hash2 == (hash_text h (text b n)).hash2
]

abbrev pub entries : Coucal → List Item
entries c = c.items ++ c.stash.items

-- The value of a key, if it has one.
unfoldable pub view : Coucal → List ℕ → Option ℕ
view c k = value_of (first (keyed c.custom.key c.pool.buffer k) (entries c))

-- Tests that hold for as many entries, with every value, read the same value.
pub first_transfer :
    (p q : Item → Bool) (xs ys : List Item)
    → hits q ys ≡ hits p xs
    → ((v : ℕ) → hits_value q v ys ≡ hits_value p v xs)
    → hits p xs ≤ 1
    → value_of (first q ys) ≡ value_of (first p xs)
first_transfer p q xs ys same same_values once = elim (Option-cases (value_of (first p xs))) [
  | inl e ↦ ap value_of (first-eq-none q ys (same ∙ first-none-hits p xs e)) ∙ sym e
  | inr (v, e) ↦
      first_of_hits q ys v (omega arith) (omega (arith, same_values v, first-some_hits p xs v e))
      ∙ sym e
]

abbrev present : Option Item → ℕ
present none = 0
present (some _) = 1

present-le : (o : Option Item) → present o ≤ 1
present-le none = omega arith
present-le (some _) = omega arith

module _ (h : KeyHandlers) (b : Option (List ℕ)) where
  -- An entry that goes or comes is one of the key `k`.
  abbrev pub IsOf : List ℕ → Option Item → Type 0
  IsOf k none = Unit
  IsOf k (some item) = keyed h b k item ≡ true

  -- An entry `old` of `k` makes way for an entry `new` of `k`; either may be missing. Where there is
  -- no old one, the key is not there.
  pub record Exchange (k : List ℕ) (old new : Option Item) (xs ys : List Item) : Type 0 where
    pub balance : (f : Item → ℕ) → total f ys + left_over f old ≡ total f xs + left_over f new
    pub inside : (f : Item → ℕ) → left_over f old ≤ total f xs
    pub old_of : IsOf k old
    pub new_of : IsOf k new
    pub absent : old ≡ none → hits (keyed h b k) xs ≡ 0
    pub once : (k' : List ℕ) → hits (keyed h b k') xs ≤ 1

module _ (h : KeyHandlers) (laws : KeyLaws h) (b : Option (List ℕ)) where
  equal_congr :
      (t k k' : List ℕ) → equal_texts h k' k ≡ true → equal_texts h t k' ≡ equal_texts h t k
  equal_congr t k k' e =
      ground (arith, laws.equal_trans t k' k, laws.equal_trans t k k', laws.equal_symm k' k)

  keyed_congr :
      (k k' : List ℕ) (item : Item)
      → equal_texts h k' k ≡ true
      → keyed h b k' item ≡ keyed h b k item
  keyed_congr k k' item e = elim (Option-cases item.name) [
    | inl free ↦ rw free
    | inr (n, named) ↦ rw named (equal_congr (text b n) k k' e)
  ]

  keyed_apart :
      (k k' : List ℕ) (item : Item)
      → equal_texts h k' k ≡ false
      → keyed h b k item ≡ true
      → keyed h b k' item ≡ false
  keyed_apart k k' item e at =
      let n = item.name in
      elim (Option-cases item.name) [
        | inl free ↦ rw free
        | inr (n, named) ↦ ground (
          arith,
          laws.equal_trans k' (text b n) k,
          laws.equal_symm k' (text b n),
          laws.equal_symm k (text b n),
        )
      ]

  keyed_mass :
      (k k' : List ℕ) (o : Option Item)
      → IsOf h b k o
      → equal_texts h k' k ≡ true
      → left_over (λ item. one_if (keyed h b k' item)) o ≡ present o
  keyed_mass k k' none at e = refl
  keyed_mass k k' (some item) at e = ground (arith, keyed_congr k k' item e)

  apart_mass :
      (k k' : List ℕ) (o : Option Item)
      → IsOf h b k o
      → equal_texts h k' k ≡ false
      → left_over (λ item. one_if (keyed h b k' item)) o ≡ 0
  apart_mass k k' none at e = refl
  apart_mass k k' (some item) at e = ground (arith, keyed_apart k k' item e)

  apart_value_mass :
      (k k' : List ℕ) (v : ℕ) (o : Option Item)
      → IsOf h b k o
      → equal_texts h k' k ≡ false
      → left_over (λ item. one_if (and_value (keyed h b k') v item)) o ≡ 0
  apart_value_mass k k' v none at e = refl
  apart_value_mass k k' v (some item) at e = ground (arith, keyed_apart k k' item e)

  module _ (k : List ℕ) (old new : Option Item) (xs ys : List Item)
      (x : Exchange h b k old new xs ys) where
    same_hits :
        (k' : List ℕ)
        → equal_texts h k' k ≡ true
        → hits (keyed h b k') ys + present old ≡ hits (keyed h b k') xs + present new
    same_hits k' e = omega (
      arith,
      x.balance (λ item. one_if (keyed h b k' item)),
      keyed_mass k k' old x.old_of e,
      keyed_mass k k' new x.new_of e,
    )

    apart_hits :
        (k' : List ℕ) → equal_texts h k' k ≡ false → hits (keyed h b k') ys ≡ hits (keyed h b k') xs
    apart_hits k' e = omega (
      arith,
      x.balance (λ item. one_if (keyed h b k' item)),
      apart_mass k k' old x.old_of e,
      apart_mass k k' new x.new_of e,
    )

    same_absent : (k' : List ℕ) → equal_texts h k' k ≡ true → hits (keyed h b k') xs ≤ present old
    same_absent k' e = elim (Option-cases old) [
      | inl missing ↦
          let same = fun_ext (λ item. keyed_congr k k' item e) in
          omega (arith, ap (λ p. hits p xs) same, x.absent missing)
      | inr (o, here) ↦ rw here (x.once k')
    ]

    -- A key is still there at most once.
    pub exchange_once : (k' : List ℕ) → hits (keyed h b k') ys ≤ 1
    exchange_once k' = elim (Bool-cases (equal_texts h k' k)) [
      | inl e ↦ omega (arith, same_hits k' e, same_absent k' e, present-le new)
      | inr e ↦ omega (arith, apart_hits k' e, x.once k')
    ]

    present_value :
        (k' : List ℕ) (item : Item)
        → equal_texts h k' k ≡ true
        → new ≡ some item
        → 0 < hits_value (keyed h b k') item.value ys
    present_value k' item e came =
        let f = λ (i : Item). one_if (and_value (keyed h b k') item.value i) in
        omega (arith, x.balance f, x.inside f, ap (left_over f) came, own)
      where
        of_key : keyed h b k item ≡ true
        of_key = subst (IsOf h b k) came x.new_of

        own : mass (λ i. one_if (and_value (keyed h b k') item.value i)) item ≡ 1
        own = ground (arith, keyed_congr k k' item e)

    -- The view changes at the key, and nowhere else.
    pub exchange_view :
        (k' : List ℕ)
        → value_of (first (keyed h b k') ys)
          ≡ (if equal_texts h k' k then value_of new else value_of (first (keyed h b k') xs))
    exchange_view k' = elim (Bool-cases (equal_texts h k' k)) [
      | inl e ↦ elim (Option-cases new) [
        | inl gone ↦
            rw (e, gone)
              (ap value_of (
                first-eq-none (keyed h b k') ys
                  (omega (arith, same_hits k' e, same_absent k' e, ap present gone))))
        | inr (item, came) ↦
            rw (e, came)
              (first_of_hits (keyed h b k') ys item.value (exchange_once k')
                (present_value k' item e came))
      ]
      | inr e ↦ rw e (
          first_transfer (keyed h b k') (keyed h b k') xs ys (apart_hits k' e)
            (λ v. omega (
              arith,
              x.balance (λ item. one_if (and_value (keyed h b k') v item)),
              apart_value_mass k k' v old x.old_of e,
              apart_value_mass k k' v new x.new_of e,
            ))
            (x.once k'))
    ]

-- Equal keys have one value.
pub view_congr :
    (c : Coucal) (k k' : List ℕ)
    → KeyLaws c.custom.key
    → equal_texts c.custom.key k' k ≡ true
    → view c k' ≡ view c k
unfolding view
view_congr c k k' laws e =
    ap (λ p. value_of (first p (entries c)))
      (fun_ext (λ item. keyed_congr c.custom.key laws c.pool.buffer k k' item e))
