-- ===== src/Pool/Relocating.antt =====
-- The loops of `coucal_compact_pool` that copy the keys of an array to a new block.
use coucal.Base.{
  ◌⊎◌, ℕ, zero, suc, ◌+◌, ◌≤◌, ◌<◌, ◌≡◌, refl, ap, sym, ◌∙◌, subst, inl, inr, ltb, leb, ◌&&◌,
  le→leb, List, [], ◌∷◌, ◌++◌, length, length-append, get_or, drop, Option, none, some, arith,
}
use coucal.Pool.Regions.{Block, by_name, cover, region, bad}
use coucal.Pool.Text.{
  IsText, cstr-IsText, cstr-drop_congr, cstr-write_bytes, copy_string-write_bytes,
  length-write_bytes, get_or-write_bytes_out,
}
use coucal.Pool.{text, bytes_of, write_bytes, relocate_name, relocate_names}
use coucal.Run.{Run, ok, ◌>>=◌, Returns}
use coucal.State.{Name, the_empty_string, pooled, outside, Item, null_item}
use coucal.Table.Entries.{mass, total, total-eq-zero, one_if}
use coucal.Table.Rekeying.{name_text, SameItem, SameItems}

-- What the copy of the keys of `items` to `block`, from `pos` on, leaves: items whose keys read the
-- same, in regions of the block from `pos` on that do not overlap.
pub record Relocated (old : Block) (items : List Item) (block : List ℕ) (pos : ℕ)
    (r : List Item × List ℕ × ℕ) : Type 0 where
  pub same : SameItems old (some r.1) items r.0
  pub width : length r.1 ≡ length block
  pub kept : (p : ℕ) → p < pos → get_or r.1 p 0 ≡ get_or block p 0
  pub end : r.2 ≡ pos + total (by_name (region old)) items
  pub good : total (by_name (bad (some r.1))) r.0 ≡ 0
  pub apart : (p : ℕ) → total (by_name (cover (some r.1) p)) r.0 ≤ one_if (leb pos p && ltb p r.2)
  pub counted : total (by_name (region (some r.1))) r.0 ≡ total (by_name (region old)) items

free-SameItem : (b b' : Block) (x : Item) → x.name ≡ none → SameItem b b' x x
free-SameItem b b' x e = record { reads = rw e; value = refl; hashes = refl }

-- No key to copy.
free-Relocated :
    (old : Block) (items : List Item) (block : List ℕ) (pos : ℕ)
    → ((i : ℕ) → (get_or items i null_item).name ≡ none)
    → Relocated old items block pos (items, block, pos)
free-Relocated old items block pos free = record {
  same = record {
    width = refl;
    slots = λ i. free-SameItem old (some block) (get_or items i null_item) (free i);
  };
  width = refl;
  kept = λ p h. refl;
  end = omega (arith, nothing (by_name (region old)));
  good = nothing (by_name (bad (some block)));
  apart = λ p. omega (arith, nothing (by_name (cover (some block) p)));
  counted = nothing (by_name (region (some block))) ∙ sym (nothing (by_name (region old)));
}
  where
    nothing : (f : Item → ℕ) → total f items ≡ 0
    nothing f = total-eq-zero f items (λ i h. massless f (get_or items i null_item) (free i))
      where
        massless : (f : Item → ℕ) (item : Item) → item.name ≡ none → mass f item ≡ 0
        massless f item e = rw e

SameItems-cons :
    {b b' : Block} {x y : Item} {xs ys : List Item}
    → SameItem b b' x y
    → SameItems b b' xs ys
    → SameItems b b' (x ∷ xs) (y ∷ ys)
SameItems-cons {b} {b'} {x} {y} {xs} {ys} s ss = record { width = ap suc ss.width; slots = slots }
  where
    slots : (i : ℕ) → SameItem b b' (get_or (x ∷ xs) i null_item) (get_or (y ∷ ys) i null_item)
    slots zero = s
    slots (suc i) = ss.slots i

-- A head with no region keeps its name.
light-Relocated :
    (old : Block) (item : Item) (items : List Item) (block : List ℕ) (pos : ℕ)
    (r : List Item × List ℕ × ℕ)
    → (item.name ≡ none) ⊎ (item.name ≡ some the_empty_string)
    → Relocated old items block pos r
    → Relocated old (item ∷ items) block pos (item ∷ r.0, r.1, r.2)
unfolding total text
light-Relocated old item items block pos r light k = record {
  same = SameItems-cons (record { reads = reads light; value = refl; hashes = refl }) k.same;
  width = k.width;
  kept = k.kept;
  end = omega (arith, k.end, no_mass (region old) light refl);
  good = omega (arith, k.good, no_mass (bad (some r.1)) light refl);
  apart = λ p. omega (arith, k.apart p, no_mass (cover (some r.1) p) light refl);
  counted =
      omega
        (arith, k.counted, no_mass (region old) light refl, no_mass (region (some r.1)) light refl);
}
  where
    reads :
        (item.name ≡ none) ⊎ (item.name ≡ some the_empty_string)
        → name_text (some r.1) item ≡ name_text old item
    reads (inl e) = rw e
    reads (inr e) = rw e

    no_mass :
        (g : Name → ℕ)
        → (item.name ≡ none) ⊎ (item.name ≡ some the_empty_string)
        → g the_empty_string ≡ 0
        → mass (by_name g) item ≡ 0
    no_mass g (inl e) h = rw e
    no_mass g (inr e) h = rw e h

module _ (old : Block) (item : Item) (items : List Item) (block : List ℕ) (pos o : ℕ)
    (named : item.name ≡ some (pooled o)) (full : 0 < length (text old (pooled o)))
    (fits : pos + length (text old (pooled o)) < length block) where
  abbrev copied : List ℕ
  copied = text old (pooled o)

  abbrev block1 : List ℕ
  block1 = write_bytes block pos (copied ++ 0 ∷ [])

  abbrev pos1 : ℕ
  pos1 = pos + length (copied ++ 0 ∷ [])

  pos1-eq : pos1 ≡ pos + length copied + 1
  pos1-eq = omega (arith, length-append copied (0 ∷ []))

  copied-IsText : IsText copied
  unfolding text
  copied-IsText = cstr-IsText (drop o (bytes_of old))

  module _ (r : List Item × List ℕ × ℕ) (k : Relocated old items block1 pos1 r) where
    abbrev item' : Item
    item' = record item { name = some (pooled pos) }

    reads_back : text (some r.1) (pooled pos) ≡ copied
    unfolding text
    reads_back =
        let back = cstr-write_bytes block pos copied copied-IsText fits in
        cstr-drop_congr block1 r.1 pos (λ p h le. k.kept p (omega (arith, pos1-eq, ap length back)))
        ∙ back

    copied-Relocated : Relocated old (item ∷ items) block pos (item' ∷ r.0, r.1, r.2)
    unfolding total
    copied-Relocated = record {
      same =
          SameItems-cons
            (record { reads = rw named (ap some reads_back); value = refl; hashes = refl }) k.same;
      width = k.width ∙ length-write_bytes block pos (copied ++ 0 ∷ []);
      kept = λ p h.
          k.kept p (omega (arith, pos1-eq))
          ∙ get_or-write_bytes_out block pos (copied ++ 0 ∷ []) p (omega (arith, pos1-eq)) (inl h);
      end = rw named (omega (arith, k.end, pos1-eq));
      good = ground (arith, k.good, ap length reads_back);
      apart = λ p. ground (arith, k.apart p, ap length reads_back, pos1-eq, k.end);
      counted = rw named (omega (arith, k.counted, ap length reads_back));
    }

-- One key.
relocate_name-copied :
    (old : Block) (capacity : ℕ) (block : List ℕ) (pos o : ℕ)
    → pos + length (text old (pooled o)) < capacity
    → relocate_name old capacity (some (pooled o)) block pos
      ≡ ok (
        some (pooled pos),
        write_bytes block pos (text old (pooled o) ++ 0 ∷ []),
        pos + length (text old (pooled o) ++ 0 ∷ []),
      )
unfolding relocate_name
relocate_name-copied old capacity block pos o h =
    let t = text old (pooled o) in
    let len : length (t ++ 0 ∷ []) ≡ length t + 1 = length-append t (0 ∷ []) in
    rw (
      copy_string-write_bytes capacity block pos (t ++ 0 ∷ []) (omega arith),
      ◌>>=◌,
      le→leb (pos + length (t ++ 0 ∷ [])) capacity (omega arith),
    )

-- One round of the loop, by the name of its item, and the rest of the loop.
abbrev round :
    Block → ℕ → ℕ → Item → List Item → List ℕ → ℕ → Option Name → Run (List Item × List ℕ × ℕ)
round old capacity n item items block pos name = do
  (name', block', pos') ← relocate_name old capacity name block pos
  (items', block'', pos'') ← relocate_names old capacity n items block' pos'
  ok (record item { name = name' } ∷ items', block'', pos'')

round-Relocated :
    (old : Block) (capacity n : ℕ) (item : Item) (items : List Item) (block : List ℕ) (pos : ℕ)
    → ((block : List ℕ) (pos : ℕ)
        → length block ≡ capacity
        → pos + total (by_name (region old)) items ≤ capacity
        → Returns (relocate_names old capacity n items block pos) (Relocated old items block pos))
    → length block ≡ capacity
    → mass (by_name (bad old)) item ≡ 0
    → pos + (mass (by_name (region old)) item + total (by_name (region old)) items) ≤ capacity
    → (name : Option Name) → item.name ≡ name
    → Returns
        (round old capacity n item items block pos name)
        (Relocated old (item ∷ items) block pos)
unfolding relocate_name
round-Relocated old capacity n item items block pos ih w good fits none e =
    let (r, run, k) = ih block pos w (omega arith) in
    (
      (record item { name = none } ∷ r.0, r.1, r.2),
      rw (run, ◌>>=◌),
      subst (λ o. Relocated old (item ∷ items) block pos (record item { name = o } ∷ r.0, r.1, r.2))
          e (light-Relocated old item items block pos r (inl e) k),
    )
round-Relocated old capacity n item items block pos ih w good fits (some the_empty_string) e =
    let (r, run, k) = ih block pos w (omega arith) in
    (
      (record item { name = some the_empty_string } ∷ r.0, r.1, r.2),
      rw (run, ◌>>=◌),
      subst (λ o. Relocated old (item ∷ items) block pos (record item { name = o } ∷ r.0, r.1, r.2))
          e (light-Relocated old item items block pos r (inr e) k),
    )
round-Relocated old capacity n item items block pos ih w good fits (some (outside t)) e =
    absurd (omega (arith, good, ap (λ o. mass (by_name (bad old)) (record item { name = o })) e))
round-Relocated old capacity n item items block pos ih w good fits (some (pooled o)) e =
    let full : 0 < length (text old (pooled o)) =
      ground (arith, good, ap (λ o. mass (by_name (bad old)) (record item { name = o })) e) in
    let space : pos + (length (text old (pooled o)) + 1 + total (by_name (region old)) items)
        ≤ capacity =
      omega (arith, fits, ap (λ o. mass (by_name (region old)) (record item { name = o })) e) in
    let b1 = write_bytes block pos (text old (pooled o) ++ 0 ∷ []) in
    let p1 = pos + length (text old (pooled o) ++ 0 ∷ []) in
    let len : length (text old (pooled o) ++ 0 ∷ []) ≡ length (text old (pooled o)) + 1 =
      length-append (text old (pooled o)) (0 ∷ []) in
    let (r, run, k) =
      ih b1 p1 (length-write_bytes block pos (text old (pooled o) ++ 0 ∷ []) ∙ w) (omega arith) in
    (
      (record item { name = some (pooled pos) } ∷ r.0, r.1, r.2),
      rw (relocate_name-copied old capacity block pos o (omega arith), ◌>>=◌, run),
      copied-Relocated old item items block pos o e full (omega arith) r k,
    )

-- The loop fails no assertion, if the block has room for every key.
pub relocate_names-Relocated :
    (old : Block) (capacity n : ℕ) (items : List Item) (block : List ℕ) (pos : ℕ)
    → length block ≡ capacity
    → total (by_name (bad old)) items ≡ 0
    → ((i : ℕ) → n ≤ i → (get_or items i null_item).name ≡ none)
    → pos + total (by_name (region old)) items ≤ capacity
    → Returns (relocate_names old capacity n items block pos) (Relocated old items block pos)
unfolding relocate_names total
relocate_names-Relocated old capacity zero items block pos w good clear fits =
    (_, refl, free-Relocated old items block pos (λ i. clear i (omega arith)))
relocate_names-Relocated old capacity (suc n) [] block pos w good clear fits =
    (_, refl, free-Relocated old [] block pos (λ i. refl))
relocate_names-Relocated old capacity (suc n) (item ∷ items) block pos w good clear fits =
    round-Relocated old capacity n item items block pos
      (λ block' pos' w' fits'.
        relocate_names-Relocated old capacity n items block' pos' w' (omega (arith, good))
          (λ i h. clear (suc i) (omega arith)) fits')
      w (omega (arith, good)) (omega (arith, fits)) item.name refl
