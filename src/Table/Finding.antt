-- ===== src/Table/Finding.antt =====
-- The search for a key, at its two positions and in the stash (`coucal_fetch_value_hashes`).
use coucal.Base.{
  ℕ, zero, suc, ◌+◌, ◌<◌, ◌≡◌, refl, ap, subst, sym, ◌∙◌, inl, inr, Bool, true, false, none, some,
  List, [], ◌∷◌, length, get_or, ◌==◌, ltb, ltb→lt, Bool-cases, Option-cases, arith,
}
use coucal.Keys.Laws.{KeyLaws}
use coucal.Keys.{calc_hashes, matches, key_text}
use coucal.State.{Item, null_item, Name, Hashkeys, Coucal}
use coucal.Table.Entries.{mass, total, one_if, mass-le-total, total-eq-zero, total_of_no_live}
use coucal.Table.Layout.{weight}
use coucal.Table.Position.{hash_to_pos_at-lt}
use coucal.Table.Valid.{Valid, entry_of, misfiled, matches-entry_of}
use coucal.Table.{
  hash_to_pos, get_item, get_stash, Slot, in_table, in_stash, item_at, find_in_stash, search_stash,
}

module _ (c : Coucal) (name : Name) (hashes : Hashkeys) where
  find_in_stash-some :
      (n : ℕ) (items : List Item) (i j : ℕ)
      → find_in_stash c name hashes n items i ≡ some j
      → (d : ℕ) × (j ≡ i + d) × (d < n) × (matches c (get_or items d null_item) name hashes ≡ true)
  unfolding find_in_stash
  find_in_stash-some zero items i j h = cc
  find_in_stash-some (suc n) [] i j h = cc
  find_in_stash-some (suc n) (x ∷ items) i j h = elim (Bool-cases (matches c x name hashes)) [
    | inl e ↦ (0, ground arith, omega arith, e)
    | inr e ↦
        let (d, at, lt, m) = find_in_stash-some n items (i + 1) j (rw e at h) in
        (suc d, omega arith, omega arith, m)
  ]

  find_in_stash-none :
      (n : ℕ) (items : List Item) (i j : ℕ)
      → find_in_stash c name hashes n items i ≡ none
      → j < n
      → matches c (get_or items j null_item) name hashes ≡ false
  unfolding find_in_stash matches
  find_in_stash-none zero items i j h lt = absurd (omega arith)
  find_in_stash-none (suc n) [] i j h lt = refl
  find_in_stash-none (suc n) (x ∷ items) i zero h lt = ground arith
  find_in_stash-none (suc n) (x ∷ items) i (suc j) h lt =
      ground (arith, find_in_stash-none n items (i + 1) j)

-- Where an entry stands that the search may name.
pub data Inside (c : Coucal) : Slot → Type 0 where
  inside_table : (pos : ℕ) → pos < length c.items → Inside c (in_table pos)
  inside_stash : (i : ℕ) → i < c.stash.extent → Inside c (in_stash i)

pub record Found (c : Coucal) (name : Name) (at : Slot) : Type 0 where
  pub inside : Inside c at
  pub entry : entry_of c (key_text c name) (item_at c at) ≡ true

abbrev pub match_at : Coucal → Name → ℕ → Bool
match_at c name hash = matches c (get_item c (hash_to_pos c hash)) name (calc_hashes c name)

-- The four ways in which a search can go.
pub data Search (c : Coucal) (name : Name) : Type 0 where
  at_first :
      match_at c name (calc_hashes c name).hash1 ≡ true
      → Found c name (in_table (hash_to_pos c (calc_hashes c name).hash1))
      → Search c name
  at_second :
      match_at c name (calc_hashes c name).hash1 ≡ false
      → match_at c name (calc_hashes c name).hash2 ≡ true
      → Found c name (in_table (hash_to_pos c (calc_hashes c name).hash2))
      → Search c name
  stashed :
      match_at c name (calc_hashes c name).hash1 ≡ false
      → match_at c name (calc_hashes c name).hash2 ≡ false
      → (i : ℕ) → search_stash c name (calc_hashes c name) ≡ some i
      → Found c name (in_stash i)
      → Search c name
  absent :
      match_at c name (calc_hashes c name).hash1 ≡ false
      → match_at c name (calc_hashes c name).hash2 ≡ false
      → search_stash c name (calc_hashes c name) ≡ none
      → weight (λ item. one_if (entry_of c (key_text c name) item)) c ≡ 0
      → Search c name

true_ne_false : true ≡ false → ⊥
true_ne_false e = cc

matches-hashes :
    (c : Coucal) (name : Name) (hs : Hashkeys) (item : Item)
    → matches c item name hs ≡ true
    → (item.hashes.hash1 ≡ hs.hash1) × (item.hashes.hash2 ≡ hs.hash2)
unfolding matches
matches-hashes c name hs item m = ground arith

module _ (c : Coucal) (name : Name) (laws : KeyLaws c.custom.key) (v : Valid c) where
  hashes : Hashkeys
  hashes = calc_hashes c name

  k : List ℕ
  k = key_text c name

  of_k : Item → ℕ
  of_k item = one_if (entry_of c k item)

  filed_in_table : (i : ℕ) → mass (misfiled c) (get_item c i) ≡ 0
  filed_in_table i = omega (arith, v.hashed, mass-le-total (misfiled c) c.items i)

  filed_in_stash : (i : ℕ) → mass (misfiled c) (get_stash c i) ≡ 0
  filed_in_stash i = omega (arith, v.hashed, mass-le-total (misfiled c) c.stash.items i)

  in_range : (hash : ℕ) → hash_to_pos c hash < length c.items
  unfolding hash_to_pos
  in_range hash = omega (arith, hash_to_pos_at-lt c.lg_size hash v.layout.lg_high, v.layout.width)

  Found-in_table :
      (hash : ℕ) → match_at c name hash ≡ true → Found c name (in_table (hash_to_pos c hash))
  Found-in_table hash e = record {
    inside = inside_table _ (in_range hash);
    entry = sym (matches-entry_of c name _ laws (filed_in_table _)) ∙ e;
  }

  -- An entry of the key in the table stands at one of the two positions.
  not_in_table :
      match_at c name hashes.hash1 ≡ false
      → match_at c name hashes.hash2 ≡ false
      → (i : ℕ) → mass of_k (get_item c i) ≡ 0
  unfolding hashes of_k k hash_to_pos
  not_in_table e1 e2 i = elim (Bool-cases (entry_of c k (get_item c i))) [
    | inr other ↦ ground arith
    | inl entry ↦
        let m = matches-entry_of c name (get_item c i) laws (filed_in_table i) ∙ entry in
        let (h1, h2) = matches-hashes c name hashes (get_item c i) m in
        let at = λ (p : ℕ). matches c (get_item c p) name hashes in
        elim (v.layout.home i) [
          | inl free ↦ ground arith
          | inr (inl p1) ↦
              let here : hash_to_pos c hashes.hash1 ≡ i = ap (hash_to_pos c) (sym h1) ∙ p1 in
              absurd (true_ne_false (sym m ∙ ap at (sym here) ∙ e1))
          | inr (inr p2) ↦
              let here : hash_to_pos c hashes.hash2 ≡ i = ap (hash_to_pos c) (sym h2) ∙ p2 in
              absurd (true_ne_false (sym m ∙ ap at (sym here) ∙ e2))
        ]
  ]

  no_entry : (item : Item) → entry_of c k item ≡ false → mass of_k item ≡ 0
  unfolding of_k
  no_entry item e = ground arith

  -- Nor is there one in the stash, if its loop finds none.
  not_in_stash : search_stash c name hashes ≡ none → total of_k c.stash.items ≡ 0
  unfolding search_stash hashes k
  not_in_stash e = elim (Bool-cases (c.stash.size == 0)) [
    | inl empty ↦ total_of_no_live of_k c.stash.items (ground (arith, v.layout.stash_live))
    | inr some_there ↦ total-eq-zero of_k c.stash.items (λ i _. slot i (rw some_there at e))
  ]
    where
      slot :
          (i : ℕ)
          → find_in_stash c name hashes c.stash.extent c.stash.items 0 ≡ none
          → mass of_k (get_stash c i) ≡ 0
      slot i e' = elim (Bool-cases (ltb i c.stash.extent)) [
        | inl below ↦
            let m =
              find_in_stash-none c name hashes c.stash.extent c.stash.items 0 i e'
                (ltb→lt _ _ below) in
            no_entry (get_stash c i)
              (sym (matches-entry_of c name (get_stash c i) laws (filed_in_stash i)) ∙ m)
        | inr above ↦ let free = v.layout.stash_clear i (ground arith) in ground arith
      ]

  Found-in_stash : (i : ℕ) → search_stash c name hashes ≡ some i → Found c name (in_stash i)
  unfolding search_stash hashes k
  Found-in_stash i e = elim (Bool-cases (c.stash.size == 0)) [
    | inl empty ↦ let none_found : none ≡ some i = rw empty at e in cc
    | inr some_there ↦
        let (d, at, lt, m) =
          find_in_stash-some c name hashes c.stash.extent c.stash.items 0 i (rw some_there at e) in
        let same : i ≡ d = omega arith in
        record {
          inside = inside_stash i (omega arith);
          entry =
              sym (matches-entry_of c name (get_stash c i) laws (filed_in_stash i))
              ∙ subst (λ j. matches c (get_stash c j) name hashes ≡ true) (sym same) m;
        }
  ]

  -- The search names an entry of the key if there is one, and otherwise there is none.
  pub search_lem : Search c name
  unfolding hashes k of_k
  search_lem = elim (Bool-cases (match_at c name hashes.hash1)) [
    | inl e1 ↦ at_first e1 (Found-in_table hashes.hash1 e1)
    | inr e1 ↦ elim (Bool-cases (match_at c name hashes.hash2)) [
      | inl e2 ↦ at_second e1 e2 (Found-in_table hashes.hash2 e2)
      | inr e2 ↦ elim (Option-cases (search_stash c name hashes)) [
        | inr (i, e3) ↦ stashed e1 e2 i e3 (Found-in_stash i e3)
        | inl e3 ↦
            let in_table = total-eq-zero of_k c.items (λ i _. not_in_table e1 e2 i) in
            absent e1 e2 e3 (omega (arith, in_table, not_in_stash e3))
      ]
    ]
  ]
