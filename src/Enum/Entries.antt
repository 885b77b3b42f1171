-- ===== src/Enum/Entries.antt =====
-- The items of an enumeration as entries of the view of the table.
use coucal.Base.{
  ℕ, zero, suc, ◌+◌, ◌-◌, ◌<◌, ◌≤◌, ◌≡◌, refl, ap, sym, ◌∙◌, subst, inl, inr, Bool, true, false,
  Option, none, some, List, [], ◌∷◌, length, ltb, if◌then◌else◌, is_none, Bool-cases, Option-cases,
  arith,
}
use coucal.Base.Words.{pow2}
use coucal.Enum.Complete.{enumerate, enumerate-visit, enumerate-all}
use coucal.Enum.Steps.{slot_at, at_index, end_of, next-free, next-live, next-end}
use coucal.Enum.{Enum, enum_new, enum_next, take_table, next_in_stash, take_stash}
use coucal.Keys.Laws.{KeyLaws}
use coucal.Keys.{equal_texts, key_text}
use coucal.Pool.{text}
use coucal.State.{Item, Name, outside, Coucal}
use coucal.Table.Entries.{mass, total, one_if, first-none-hits}
use coucal.Table.Finding.{Inside, inside_table, inside_stash, Found}
use coucal.Table.Layout.{Layout, weight}
use coucal.Table.Reading.{Found-value, absent_value, weight-entries}
use coucal.Table.Valid.{Valid, entry_of}
use coucal.Table.View.{view, entries}
use coucal.Table.{Slot, in_table, in_stash, item_at, is_empty_item}

-- The slot of an index of the enumeration.
pub slot_of :
    (c : Coucal) (i : ℕ)
    → Layout c
    → i < end_of c
    → (at : Slot) × Inside c at × (item_at c at ≡ slot_at c i)
slot_of c i l h = elim (Bool-cases (ltb i (pow2 c.lg_size))) [
  | inl low ↦ (in_table i, inside_table i (ground (arith, l.width)), rw low refl)
  | inr high ↦ (in_stash (i - pow2 c.lg_size), inside_stash _ (ground arith), rw high refl)
]

-- The enumeration stays at its table.
pub enum_next-table : (e : Enum) → (enum_next e).1.table ≡ e.table
unfolding enum_next take_table next_in_stash take_stash
enum_next-table e = ground arith

-- An item that is an entry of the table, with the value that its key reads.
pub record Entry (c : Coucal) (item : Item) : Type 0 where
  pub name : Name
  pub named : item.name ≡ some name
  pub reads : view c (key_text c name) ≡ some item.value

unfoldable pub Entries : Coucal → List Item → Type 0
Entries c [] = Unit
Entries c (item ∷ items) = Entry c item × Entries c items

entry_of_self :
    (c : Coucal) (item : Item) (name : Name)
    → item.name ≡ some name
    → equal_texts c.custom.key (key_text c name) (key_text c name) ≡ true
    → entry_of c (key_text c name) item ≡ true
entry_of_self c item name named e = ground arith

module _ (c : Coucal) (laws : KeyLaws c.custom.key) (v : Valid c) where
  pub slot-Entry :
      (i : ℕ) → i < end_of c → is_empty_item (slot_at c i) ≡ false → Entry c (slot_at c i)
  unfolding text
  slot-Entry i h full =
      let (at, inside, e) = slot_of c i v.layout h in
      elim (Option-cases (slot_at c i).name) [
        | inl free ↦ absurd (not_free (slot_at c i) free full)
        | inr (name, named) ↦
            let t = key_text c name in
            let found : Found c (outside t) at = record {
              inside = inside;
              entry =
                  ap (entry_of c t) e
                  ∙ entry_of_self c (slot_at c i) name named (laws.equal_refl t);
            } in
            record {
              name = name;
              named = named;
              reads = Found-value c (outside t) v at found ∙ ap (λ (x : Item). some x.value) e;
            }
      ]
    where
      not_free : (item : Item) → item.name ≡ none → is_empty_item item ≡ false → ⊥
      not_free item e full = ground arith

  enumerate-Entries :
      (n fuel i : ℕ) → i + n ≡ end_of c → Entries c (enumerate fuel (at_index c i)).0
  unfolding Entries enumerate
  enumerate-Entries n zero i e = tt
  enumerate-Entries zero (suc fuel) i e =
      let here : i ≡ end_of c = omega arith in
      let stop : enum_next (at_index c i) ≡ (none, at_index c (end_of c)) =
        ap (λ k. enum_next (at_index c k)) here ∙ next-end c in
      rw (enumerate-visit fuel (at_index c i) _ stop) tt
  enumerate-Entries (suc n) (suc fuel) i e = elim (Bool-cases (is_empty_item (slot_at c i))) [
    | inl free ↦
        let same =
          enumerate-visit fuel (at_index c i) _ (next-free c i (omega arith) free)
          ∙ sym (enumerate-visit fuel (at_index c (i + 1)) _ refl) in
        subst (λ (r : List Item × Bool). Entries c r.0) (sym same)
          (enumerate-Entries n (suc fuel) (i + 1) (omega arith))
    | inr full ↦
        subst (λ (r : List Item × Bool). Entries c r.0)
          (sym (enumerate-visit fuel (at_index c i) _ (next-live c i (omega arith) full)))
          (slot-Entry i (omega arith) full, enumerate-Entries n fuel (i + 1) (omega arith))
  ]

  -- The entries of a key weigh 1 if it has a value.
  key-weight :
      (k : List ℕ)
      → weight (λ item. one_if (entry_of c k item)) c ≡ (if is_none (view c k) then 0 else 1)
  unfolding view text
  key-weight k = elim (Option-cases (view c k)) [
    | inl there ↦ rw there (
        sym (weight-entries (λ item. one_if (entry_of c k item)) c)
        ∙ first-none-hits (entry_of c k) (entries c) there)
    | inr (value, there) ↦ rw there (
        only_one (weight (λ item. one_if (entry_of c k item)) c) (v.once k)
          (λ e. some_none value (sym there ∙ absent_value c (outside k) v e)))
  ]
    where
      some_none : (value : ℕ) → ◌≡◌ {A = Option ℕ} (some value) none → ⊥
      some_none value e = cc

      only_one : (n : ℕ) → n ≤ 1 → (n ≡ 0 → ⊥) → n ≡ 1
      only_one zero h e = absurd (e refl)
      only_one (suc zero) h e = refl
      only_one (suc (suc n)) h e = absurd (omega arith)

  live-length : (items : List Item) → Entries c items → total (λ _. 1) items ≡ length items
  unfolding Entries total
  live-length [] all = refl
  live-length (item ∷ items) (entry, all) =
      omega (arith, live-length items all, live_mass item entry.name entry.named)
    where
      live_mass : (item : Item) (name : Name) → item.name ≡ some name → mass (λ _. 1) item ≡ 1
      live_mass item name e = ground arith

  -- In a valid table whose handlers keep the laws of keys, more calls of `coucal_enum_next` than there
  -- are slots end with NULL. The items given are as many as the table counts; each has a key, and the
  -- value that this key reads; and a key is among them once if it reads a value, and never otherwise.
  pub enumerate-view :
      (fuel : ℕ)
      → pow2 c.lg_size + 16 < fuel
      → let r = enumerate fuel (enum_new c) in
        (r.1 ≡ true)
        × Entries c r.0
        × (length r.0 ≡ c.used)
        × ((k : List ℕ)
            → total (λ item. one_if (entry_of c k item)) r.0
              ≡ (if is_none (view c k) then 0 else 1))
  enumerate-view fuel h =
      let (ended, all) = enumerate-all c fuel v.layout h in
      let listed = enumerate-Entries (end_of c) fuel 0 (omega arith) in
      (
        ended,
        listed,
        omega (arith, live-length _ listed, all (λ _. 1), v.counted),
        λ k. all (λ item. one_if (entry_of c k item)) ∙ key-weight k,
      )

  -- Where no key reads a value, there is no item.
  pub no_entry-used : ((k : List ℕ) → view c k ≡ none) → c.used ≡ 0
  unfolding Entries
  no_entry-used empty =
      let fuel = pow2 c.lg_size + 16 + 1 in
      let (ended, listed, number, once) = enumerate-view fuel (omega arith) in
      sym number ∙ no_items (enumerate fuel (enum_new c)).0 listed
    where
      some_none : (value : ℕ) → ◌≡◌ {A = Option ℕ} (some value) none → ⊥
      some_none value e = cc

      no_items : (items : List Item) → Entries c items → length items ≡ 0
      no_items [] all = refl
      no_items (item ∷ items) (entry, all) =
          absurd (some_none item.value (sym entry.reads ∙ empty (key_text c entry.name)))
