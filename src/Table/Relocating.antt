-- ===== src/Table/Relocating.antt =====
-- The loop of `coucal_write_value` that moves the items of the lower half after the table doubled.
use coucal.Base.{
  ℕ, zero, suc, ◌+◌, ◌≤◌, ◌<◌, ◌≡◌, none, subst, refl, ap, sym, ◌∙◌, ◌⊎◌, inl, inr, true, false,
  length, set, ◌==◌, leb, if◌then◌else◌, get_or-set, length-set, Bool-cases, ==_iff, arith,
}
use coucal.Base.Words.{pow2}
use coucal.Run.{◌>>=◌, Returns}
use coucal.State.{Item, null_item, Coucal}
use coucal.Table.Entries.{total, total-set}
use coucal.Table.Grow.{relocate_to, relocate_one, relocate_from}
use coucal.Table.Layout.{IsHome, SameRest, SameRest-refl, SameRest-trans}
use coucal.Table.Position.{hash_to_pos_at-suc, pow2-pos}
use coucal.Table.{hash_to_pos, hash_to_pos_at, get_item, set_item, is_free}

-- Slots below `i`, and those of the upper half, hold items that are home in the doubled table; slots
-- from `i` up to the old size, items that were home in the old one. The upper half is free from the
-- partner of `i` on, so a move never lands on an item.
pub record Relocating (lg : ℕ) (c : Coucal) (i : ℕ) : Type 0 where
  pub doubled : c.lg_size ≡ suc lg
  pub bound : suc lg ≤ 32
  pub width : length c.items ≡ pow2 lg + pow2 lg
  pub done : (j : ℕ) → (j < i) ⊎ (pow2 lg ≤ j) → IsHome (suc lg) j (get_item c j)
  pub todo : (j : ℕ) → i ≤ j → j < pow2 lg → IsHome lg j (get_item c j)
  pub clear : (j : ℕ) → pow2 lg + i ≤ j → (get_item c j).name ≡ none

-- Only the items of the table changed, and they hold the same entries.
pub record Carried (c c' : Coucal) : Type 0 where
  pub rest : SameRest c c'
  pub stash : c'.stash ≡ c.stash
  pub balance : (f : Item → ℕ) → total f c'.items ≡ total f c.items

Carried-refl : (c : Coucal) → Carried c c
Carried-refl c = record { rest = SameRest-refl c; stash = refl; balance = λ f. refl }

Carried-trans : {a b c : Coucal} → Carried a b → Carried b c → Carried a c
Carried-trans h k = record {
  rest = SameRest-trans h.rest k.rest;
  stash = k.stash ∙ h.stash;
  balance = λ f. k.balance f ∙ h.balance f;
}

module _ (lg : ℕ) (c : Coucal) (i : ℕ) (r : Relocating lg c i) (inside : i < pow2 lg) where
  -- The item stays: one of its positions is still `i`.
  stays : IsHome (suc lg) i (get_item c i) → Relocating lg c (suc i)
  stays at = record {
    doubled = r.doubled;
    bound = r.bound;
    width = r.width;
    done = λ j h. elim (Bool-cases (i == j)) [
      | inl e ↦ subst (λ k. IsHome (suc lg) k (get_item c k)) ((==_iff i j).0 e) at
      | inr e ↦ r.done j (ground arith)
    ];
    todo = λ j h k. r.todo j (omega arith) k;
    clear = λ j h. r.clear j (omega arith);
  }

  abbrev moved : ℕ → Coucal
  moved pos = set_item (set_item c pos (get_item c i)) i null_item

  -- The item moves up by the old size.
  module _ (pos : ℕ) (up : pos ≡ i + pow2 lg) where
    get-moved :
        (j : ℕ)
        → get_item (moved pos) j
          ≡ (if i == j then null_item else if pos == j then get_item c i else get_item c j)
    get-moved j =
        get_or-set (set c.items pos (get_item c i)) i j null_item null_item
          (omega (arith, length-set c.items pos (get_item c i), r.width))
        ∙ ap (λ x. if i == j then null_item else x)
            (get_or-set c.items pos j (get_item c i) null_item (omega (arith, r.width)))

    moves : IsHome (suc lg) pos (get_item c i) → Relocating lg (moved pos) (suc i)
    moves at = record {
      doubled = r.doubled;
      bound = r.bound;
      width =
          length-set (set c.items pos (get_item c i)) i null_item
          ∙ length-set c.items pos (get_item c i)
          ∙ r.width;
      done = λ j h. rw (get-moved j) (ground (arith, r.done j));
      todo = λ j h k. rw (get-moved j) (ground (arith, r.todo j));
      clear = λ j h. rw (get-moved j) (ground (arith, r.clear j));
    }

    moves-Carried : Carried c (moved pos)
    moves-Carried = record {
      rest = record { lg_size = refl; used = refl; pool = refl; custom = refl; world = refl };
      stash = refl;
      balance = λ f.
          let gone =
            total-set f (set c.items pos (get_item c i)) i null_item
              (omega (arith, length-set c.items pos (get_item c i), r.width)) in
          let came = total-set f c.items pos (get_item c i) (omega (arith, r.width)) in
          let old = get_or-set c.items pos i (get_item c i) null_item (omega (arith, r.width)) in
          ground (arith, gone, came, old, r.clear pos (omega arith), pow2-pos lg);
    }

  -- One of the item's hashes, `h`, led to `i` in the old table.
  relocate_to-Relocating :
      (h : ℕ)
      → hash_to_pos_at lg h ≡ i
      → IsHome (suc lg) (hash_to_pos_at (suc lg) h) (get_item c i)
      → Returns
          (relocate_to c (pow2 lg) i (hash_to_pos_at (suc lg) h))
          λ c'. Relocating lg c' (suc i) × Carried c c'
  unfolding relocate_to
  relocate_to-Relocating h old at = elim (hash_to_pos_at-suc lg h r.bound) [
    | inl same ↦
        let e : (hash_to_pos_at (suc lg) h == i) ≡ true = ground arith in
        (
          c,
          rw e,
          (stays (subst (λ k. IsHome (suc lg) k (get_item c i)) (same ∙ old) at), Carried-refl c),
        )
    | inr up ↦
        let pos = hash_to_pos_at (suc lg) h in
        let e : (pos == i) ≡ false = ground (arith, pow2-pos lg) in
        let above : leb (pow2 lg) pos ≡ true = ground arith in
        let up' : pos ≡ i + pow2 lg = up ∙ ap (λ k. k + pow2 lg) old in
        (moved pos, rw (e, above), (moves pos up' at, moves-Carried pos up'))
  ]

  -- The code computes the new position from the field `lg_size`.
  relocate_to_here :
      (h : ℕ)
      → hash_to_pos_at lg h ≡ i
      → IsHome (suc lg) (hash_to_pos_at (suc lg) h) (get_item c i)
      → Returns
          (relocate_to c (pow2 lg) i (hash_to_pos c h))
          λ c'. Relocating lg c' (suc i) × Carried c c'
  unfolding hash_to_pos
  relocate_to_here h old at =
      subst
        (λ g.
          Returns (relocate_to c (pow2 lg) i (hash_to_pos_at g h))
            λ c'. Relocating lg c' (suc i) × Carried c c')
        (sym r.doubled) (relocate_to-Relocating h old at)

  relocate_one-Relocating :
      Returns (relocate_one lg (pow2 lg) c i) λ c'. Relocating lg c' (suc i) × Carried c c'
  unfolding relocate_one hash_to_pos
  relocate_one-Relocating =
      let h = (get_item c i).hashes in
      elim (Bool-cases (is_free c i)) [
        | inl e ↦ (c, rw e, (stays (inl (ground arith)), Carried-refl c))
        | inr e ↦ elim (Bool-cases (hash_to_pos_at lg h.hash1 == i)) [
          | inl first ↦
              rw (e, first) (relocate_to_here h.hash1 ((==_iff _ i).0 first) (inr (inl refl)))
          | inr other ↦
              let second : (hash_to_pos_at lg h.hash2 == i) ≡ true =
                ground (arith, r.todo i (omega arith) inside) in
              rw (e, other, second)
                (relocate_to_here h.hash2 ((==_iff _ i).0 second) (inr (inr refl)))
        ]
      ]

-- The loop ends with every item home in the doubled table, no assertion having failed.
pub relocate_from-Relocating :
    (n : ℕ) (lg : ℕ) (c : Coucal) (i : ℕ)
    → Relocating lg c i
    → i + n ≡ pow2 lg
    → Returns (relocate_from lg (pow2 lg) n i c) λ c'. Relocating lg c' (pow2 lg) × Carried c c'
unfolding relocate_from
relocate_from-Relocating zero lg c i r e =
    (c, refl, (subst (Relocating lg c) (omega arith) r, Carried-refl c))
relocate_from-Relocating (suc n) lg c i r e =
    let (c1, run1, (r1, k1)) = relocate_one-Relocating lg c i r (omega arith) in
    let r1' : Relocating lg c1 (i + 1) = subst (Relocating lg c1) (omega arith) r1 in
    let (c2, run2, (r2, k2)) = relocate_from-Relocating n lg c1 (i + 1) r1' (omega arith) in
    (c2, rw (run1, ◌>>=◌) run2, (r2, Carried-trans k1 k2))
