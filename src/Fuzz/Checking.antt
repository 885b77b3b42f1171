-- ===== src/Fuzz/Checking.antt =====
-- The enumeration at the end of the harness, against the model.
use coucal.Api.{no_key_handlers}
use coucal.Base.{
  ◌⊎◌, ℕ, zero, suc, ◌+◌, ◌<◌, ◌≤◌, ◌≡◌, refl, ap, sym, ◌∙◌, inl, inr, Bool, true, false, Option,
  none, some, List, lt→ltb, ◌==◌, ==_iff, if◌then◌else◌, Bool-cases, Option-cases, arith,
}
use coucal.Base.Words.{pow2, inc_size}
use coucal.Delete.Released.{delete-released}
use coucal.Enum.Entries.{slot_of}
use coucal.Enum.Complete.{whole-span}
use coucal.Enum.Steps.{slot_at, at_index, end_of, next-free, next-live, next-end}
use coucal.Enum.{Enum, enum_next}
use coucal.Fuzz.Agreeing.{Agrees}
use coucal.Api.Starting.{laws_of}
use coucal.Fuzz.{
  KeyPrinter, KeyScanner, Scans, Harness, at_key, fz_keys, fuzz_item, fuzz_enum, fuzz_end,
}
use coucal.Keys.Laws.{strcmp_equal-eq}
use coucal.Keys.{equal_texts}
use coucal.Pool.{text}
use coucal.Run.{Run, ok, ◌>>=◌}
use coucal.State.{Item, Name, outside, World, Coucal, Allocator, stash_size}
use coucal.Table.Entries.{mass, one_if}
use coucal.Table.Finding.{Inside, Found}
use coucal.Table.Reading.{Found-value}
use coucal.Table.Spans.{span}
use coucal.Table.Valid.{entry_of}
use coucal.Table.View.{view}
use coucal.Table.Writing.{used-lt}
use coucal.Table.{Slot, item_at, is_empty_item}

-- Is the key one of an identifier below `n`?
key_cases :
    (print : KeyPrinter) (k : List ℕ) (n : ℕ)
    → ((kid : ℕ) × (kid < n) × (equal_texts no_key_handlers k (print kid) ≡ true))
      ⊎ ((kid : ℕ) → kid < n → equal_texts no_key_handlers k (print kid) ≡ false)
key_cases print k zero = inr (λ kid h. absurd (omega arith))
key_cases print k (suc n) = elim (key_cases print k n) [
  | inl (kid, h, e) ↦ inl (kid, omega arith, e)
  | inr none_below ↦ elim (Bool-cases (equal_texts no_key_handlers k (print n))) [
    | inl e ↦ inl (n, omega arith, e)
    | inr e ↦ inr (λ kid h. elim (Bool-cases (kid == n)) [
      | inl same ↦
          let at : kid ≡ n = (==_iff kid n).0 same in
          ap (λ i. equal_texts no_key_handlers k (print i)) at ∙ e
      | inr other ↦ none_below kid (ground arith)
    ])
  ]
]

module _ (print : KeyPrinter) (n : ℕ) (s : Harness) (a : Agrees print n s) where
  abbrev c : Coucal
  c = s.table

  -- What is known of an item that the enumeration gives.
  record Known (item : Item) (kid : ℕ) : Type 0 where
    pub small : kid < fz_keys
    pub name : Name
    pub named : item.name ≡ some name
    pub reads : text c.pool.buffer name ≡ print kid
    pub present : s.model.present kid ≡ true
    pub value : item.value ≡ s.model.value kid
    pub counts : mass (λ x. one_if (entry_of c (print kid) x)) item ≡ 1

  said : (p : Bool) (v w : ℕ) → (if p then some v else none) ≡ some w → (p ≡ true) × (w ≡ v)
  said p v w e = (ground arith, ground arith)

  counted_once :
      (item : Item) (name : Name) (k : List ℕ)
      → item.name ≡ some name
      → equal_texts c.custom.key (text c.pool.buffer name) k ≡ true
      → (mass (λ x. one_if (entry_of c k x)) item ≡ 1) × (entry_of c k item ≡ true)
  counted_once item name k named e = (ground arith, ground arith)

  -- An entry of the table is one of the model.
  entry-Known :
      (at : Slot) (item : Item) (name : Name)
      → Inside c at
      → item_at c at ≡ item
      → item.name ≡ some name
      → (kid : ℕ) × Known item kid
  unfolding equal_texts text
  entry-Known at item name inside e named =
      let t = text c.pool.buffer name in
      let laws = laws_of c a.handlers in
      let found : Found c (outside t) at = record {
        inside = inside;
        entry = rw e ((counted_once item name t named (laws.equal_refl t)).1);
      } in
      let there : view c t ≡ some item.value =
        Found-value c (outside t) a.table.valid at found ∙ ap (λ (x : Item). some x.value) e in
      elim (key_cases print t fz_keys) [
        | inr unknown ↦
            let missing = a.others t unknown in absurd (no_value item.value (sym missing ∙ there))
        | inl (kid, small, equal) ↦
            let same : t ≡ print kid = strcmp_equal-eq t (print kid) equal in
            let (present, value) =
              said (s.model.present kid) (s.model.value kid) item.value
                (sym (a.entries kid small) ∙ ap (view c) (sym same) ∙ there) in
            (
              kid,
              record {
                small = small;
                name = name;
                named = named;
                reads = same;
                present = present;
                value = value;
                counts =
                    (counted_once item name (print kid) named
                      (ap (λ h. equal_texts h t (print kid)) a.handlers ∙ equal)).0;
              },
            )
      ]
    where
      no_value : (v : ℕ) → ◌≡◌ {A = Option ℕ} none (some v) → ⊥
      no_value v e = cc

  slot-Known :
      (i : ℕ)
      → i < end_of c
      → is_empty_item (slot_at c i) ≡ false
      → (kid : ℕ) × Known (slot_at c i) kid
  slot-Known i h full =
      let (at, inside, e) = slot_of c i a.table.valid.layout h in
      elim (Option-cases (slot_at c i).name) [
        | inl free ↦ absurd (not_free (slot_at c i) free full)
        | inr (name, named) ↦ entry-Known at (slot_at c i) name inside e named
      ]
    where
      not_free : (item : Item) → item.name ≡ none → is_empty_item item ≡ false → ⊥
      not_free item e full = ground arith

  -- `check` and `seen` before the last `m` slots.
  record Checked (check : ℕ → Bool) (seen m i : ℕ) : Type 0 where
    pub once :
        (kid : ℕ)
        → one_if (check kid) + span (slot_at c) (λ x. one_if (entry_of c (print kid) x)) m i ≤ 1
    pub counted : seen + span (slot_at c) (λ _. 1) m i ≡ c.used

  -- A free slot is skipped.
  skipped :
      (check : ℕ → Bool) (seen m i : ℕ)
      → is_empty_item (slot_at c i) ≡ true
      → Checked check seen (suc m) i
      → Checked check seen m (i + 1)
  skipped check seen m i free k = record {
    once = λ kid. omega (arith, k.once kid);
    counted = omega (arith, k.counted, massless (slot_at c i) free);
  }
    where
      massless : (item : Item) → is_empty_item item ≡ true → mass (λ _. 1) item ≡ 0
      massless item e = ground arith

  -- The item of a slot was not seen before.
  fresh :
      (check : ℕ → Bool) (seen m i kid : ℕ)
      → Known (slot_at c i) kid
      → Checked check seen (suc m) i
      → check kid ≡ false
  fresh check seen m i kid known k = unseen (check kid) (omega (arith, k.once kid, known.counts))
    where
      unseen : (b : Bool) → one_if b ≤ 0 → b ≡ false
      unseen b h = ground arith

  later :
      (check : ℕ → Bool) (seen m i kid : ℕ)
      → Known (slot_at c i) kid
      → Checked check seen (suc m) i
      → Checked (at_key check kid true) (inc_size seen) m (i + 1)
  later check seen m i kid known k = record {
    once = λ j. elim (Bool-cases (j == kid)) [
      | inl e ↦
          let same : j ≡ kid = (==_iff j kid).0 e in
          rw (e, same) (omega (arith, k.once kid, known.counts))
      | inr e ↦ rw e (omega (arith, k.once j))
    ];
    counted =
        omega (
          arith,
          k.counted,
          live_mass (slot_at c i) known.name known.named,
          used-lt c a.table.valid,
        );
  }
    where
      live_mass : (item : Item) (name : Name) → item.name ≡ some name → mass (λ _. 1) item ≡ 1
      live_mass item name e = ground arith

  module _ (scan : KeyScanner) (scans : Scans print scan) where
    fuzz_item-Known :
        (item : Item) (kid : ℕ) (check : ℕ → Bool)
        → Known item kid
        → check kid ≡ false
        → fuzz_item scan s item check ≡ ok (at_key check kid true)
    unfolding fuzz_item
    fuzz_item-Known item kid check k fresh =
        rw
          (
            k.named,
            fuzz_item,
            k.reads,
            scans kid k.small,
            lt→ltb kid fz_keys k.small,
            k.present,
            fresh,
          )
          (ground (arith, k.value))

    -- One round of the loop, by the result of `coucal_enum_next`.
    abbrev look : ℕ → (ℕ → Bool) → ℕ → Option Item × Enum → Run ℕ
    look fuel check seen r = elim r.0 [
      | none ↦ ok seen
      | some item ↦
          fuzz_item scan s item check >>= λ check'. fuzz_enum scan fuel s r.1 check' (inc_size seen)
    ]

    fuzz_enum-look :
        (fuel : ℕ) (e : Enum) (check : ℕ → Bool) (seen : ℕ) (r : Option Item × Enum)
        → enum_next e ≡ r
        → fuzz_enum scan (suc fuel) s e check seen ≡ look fuel check seen r
    unfolding fuzz_enum
    fuzz_enum-look fuel e check seen r h = ap (look fuel check seen) h

    fuzz_enum-used :
        (m fuel i : ℕ) (check : ℕ → Bool) (seen : ℕ)
        → i + m ≡ end_of c
        → m < fuel
        → Checked check seen m i
        → fuzz_enum scan fuel s (at_index c i) check seen ≡ ok c.used
    fuzz_enum-used m zero i check seen e h k = absurd (omega arith)
    fuzz_enum-used zero (suc fuel) i check seen e h k =
        let here : i ≡ end_of c = omega arith in
        fuzz_enum-look fuel (at_index c i) check seen (none, at_index c (end_of c))
          (ap (λ j. enum_next (at_index c j)) here ∙ next-end c)
        ∙ ap ok (omega (arith, k.counted))
    fuzz_enum-used (suc m) (suc fuel) i check seen e h k =
        elim (Bool-cases (is_empty_item (slot_at c i))) [
          | inl free ↦
              fuzz_enum-look fuel (at_index c i) check seen _ (next-free c i (omega arith) free)
              ∙ sym (fuzz_enum-look fuel (at_index c (i + 1)) check seen _ refl)
              ∙ fuzz_enum-used m (suc fuel) (i + 1) check seen (omega arith) (omega arith)
                  (skipped check seen m i free k)
          | inr full ↦
              let (kid, known) = slot-Known i (omega arith) full in
              fuzz_enum-look fuel (at_index c i) check seen _ (next-live c i (omega arith) full)
              ∙ rw
                  (
                    fuzz_item-Known (slot_at c i) kid check known
                        (fresh check seen m i kid known k),
                    ◌>>=◌,
                  )
                  (fuzz_enum-used m fuel (i + 1) (at_key check kid true) (inc_size seen)
                    (omega arith) (omega arith) (later check seen m i kid known k))
        ]

    started : Checked (λ _. false) 0 (end_of c) 0
    started =
        let v = a.table.valid in
        record {
          once = λ kid. omega (
            arith,
            whole-span c (λ x. one_if (entry_of c (print kid) x)) v.layout,
            v.once (print kid),
          );
          counted = omega (arith, whole-span c (λ _. 1) v.layout, v.counted);
        }

    -- The end of the harness aborts nowhere.
    pub fuzz_end-ends : (alloc : Allocator) → (w : World) × (fuzz_end scan alloc s ≡ ok w)
    unfolding fuzz_end
    fuzz_end-ends alloc =
        let run =
          fuzz_enum-used (end_of c) (pow2 c.lg_size + stash_size + 1) 0 (λ _. false) 0 (omega arith)
            (omega (arith, a.table.valid.layout.stash_extent)) started in
        let same : (c.used == s.model.count) ≡ true =
          (==_iff c.used s.model.count).1 (sym a.count) in
        let (w, run', _) = delete-released alloc c a.table.valid.layout in
        (w, rw (run, ◌>>=◌, same) run')
