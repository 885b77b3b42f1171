-- ===== src/Fuzz/Agreeing.antt =====
-- The agreement of the table with the reference model of the harness.
use coucal.Api.Starting.{default-KeyLaws}
use coucal.Api.{no_key_handlers}
use coucal.Base.{
  ℕ, ◌+◌, ◌*◌, ◌<◌, ◌≤◌, ◌≡◌, ap, sym, ◌∙◌, inl, inr, true, false, Option, none, some, List, ◌==◌,
  ==_iff, if◌then◌else◌, Bool-cases, arith,
}
use coucal.Fuzz.{KeyPrinter, Prints, Reference, Harness, at_key, fz_keys}
use coucal.Keys.Laws.{strcmp_equal-eq}
use coucal.Keys.{equal_texts}
use coucal.State.{Coucal}
use coucal.Table.Pooling.Tables.{PooledTable}
use coucal.Table.View.{view}

-- What the model says of a key.
abbrev pub modelled : Reference → ℕ → Option ℕ
modelled m kid = if m.present kid then some (m.value kid) else none

-- After `n` operations: the table reads what the model says, and has as many items.
pub record Agrees (print : KeyPrinter) (n : ℕ) (s : Harness) : Type 0 where
  pub table : PooledTable s.table
  pub handlers : s.table.custom.key ≡ no_key_handlers
  pub entries : (kid : ℕ) → kid < fz_keys → view s.table (print kid) ≡ modelled s.model kid
  pub others :
      (k : List ℕ)
      → ((kid : ℕ) → kid < fz_keys → equal_texts no_key_handlers k (print kid) ≡ false)
      → view s.table k ≡ none
  pub count : s.model.count ≡ s.table.used
  pub counter : s.model.counter ≤ n
  pub values : (kid : ℕ) → s.model.value kid ≤ n
  pub pool : s.table.pool.size ≤ n * 16
  pub fuller : s.table.used ≤ n
  pub taller : s.table.lg_size ≤ 4 + n

-- The keys of two identifiers are equal just when the identifiers are the same.
equal_texts-print :
    (print : KeyPrinter) (j kid : ℕ)
    → Prints print
    → j < fz_keys
    → kid < fz_keys
    → equal_texts no_key_handlers (print j) (print kid) ≡ (j == kid)
unfolding equal_texts
equal_texts-print print j kid p hj hk = elim (Bool-cases (j == kid)) [
  | inl e ↦
      let same : j ≡ kid = (==_iff j kid).0 e in
      ap (λ i. equal_texts no_key_handlers (print i) (print kid)) same
      ∙ default-KeyLaws.equal_refl (print kid)
      ∙ sym e
  | inr e ↦ elim (Bool-cases (equal_texts no_key_handlers (print j) (print kid))) [
    | inr other ↦ other ∙ sym e
    | inl equal ↦
        let same : j ≡ kid =
          p.print_injective j kid hj hk (strcmp_equal-eq (print j) (print kid) equal) in
        absurd (ground (arith, same))
  ]
]

-- One entry more, or another one, in the model and in the table.
module _ (print : KeyPrinter) (c c' : Coucal) (m : Reference) (kid : ℕ) (prints : Prints print)
    (handlers : c.custom.key ≡ no_key_handlers) (small : kid < fz_keys)
    (before : (j : ℕ) → j < fz_keys → view c (print j) ≡ modelled m j) where
  exchanged :
      (o : Option ℕ) (j : ℕ)
      → j < fz_keys
      → view c' (print j)
        ≡ (if equal_texts c.custom.key (print j) (print kid) then o else view c (print j))
      → view c' (print j) ≡ (if j == kid then o else modelled m j)
  exchanged o j hj e =
      e
      ∙ ap (λ h. if equal_texts h (print j) (print kid) then o else view c (print j)) handlers
      ∙ (λ i. if equal_texts-print print j kid prints hj small i then o else before j hj i)

  -- What the model says of a key that was written, or removed.
  pub put_entries :
      (v : ℕ)
      → ((k : List ℕ)
          → view c' k ≡ (if equal_texts c.custom.key k (print kid) then some v else view c k))
      → (j : ℕ) → j < fz_keys
      → view c' (print j)
        ≡ (if at_key m.present kid true j then some (at_key m.value kid v j) else none)
  put_entries v reads j hj = exchanged (some v) j hj (reads (print j)) ∙ ground arith

  pub drop_entries :
      ((k : List ℕ)
        → view c' k ≡ (if equal_texts c.custom.key k (print kid) then none else view c k))
      → (j : ℕ) → j < fz_keys
      → view c' (print j) ≡ (if at_key m.present kid false j then some (m.value j) else none)
  drop_entries reads j hj = exchanged none j hj (reads (print j)) ∙ ground arith

  -- A key that is none of the identifiers' stays missing.
  pub others_missing :
      (o : Option ℕ)
      → ((k : List ℕ)
          → ((kid : ℕ) → kid < fz_keys → equal_texts no_key_handlers k (print kid) ≡ false)
          → view c k ≡ none)
      → ((k : List ℕ)
          → view c' k ≡ (if equal_texts c.custom.key k (print kid) then o else view c k))
      → (k : List ℕ)
      → ((kid : ℕ) → kid < fz_keys → equal_texts no_key_handlers k (print kid) ≡ false)
      → view c' k ≡ none
  others_missing o missing reads k h =
      reads k
      ∙ ap (λ u. if equal_texts u k (print kid) then o else view c k) handlers
      ∙ ap (λ b. if b then o else view c k) (h kid small)
      ∙ missing k h
