-- ===== src/Table/Exchanging.antt =====
-- From the balance of entries to the invariant and the view: the last step of every proof about an
-- operation that changes one entry.
use coucal.Base.{ℕ, ◌+◌, ◌≤◌, ◌≡◌, ap, ◌∙◌, Bool, not, Option, none, List, if◌then◌else◌, arith}
use coucal.Keys.Laws.{KeyLaws}
use coucal.Keys.{equal_texts}
use coucal.State.{Item, Coucal}
use coucal.Table.Entries.{first, one_if, value_of}
use coucal.Table.Layout.{Layout, weight}
use coucal.Table.Placing.{left_over}
use coucal.Table.Reading.{weight-entries}
use coucal.Table.Valid.{Valid, entry_of, misfiled}
use coucal.Table.View.{
  keyed, well_hashed, entries, view, IsOf, Exchange, exchange_once, exchange_view,
}

abbrev pub count_of : Option Item → ℕ
count_of o = left_over (λ _. 1) o

-- From `c` to `c'` an entry `old` of the key `k` made way for an entry `new` of it; either may be
-- missing.
pub record Exchanged (c : Coucal) (k : List ℕ) (old new : Option Item) (c' : Coucal) : Type 0 where
  pub layout : Layout c'
  pub custom : c'.custom ≡ c.custom
  pub pool : c'.pool ≡ c.pool
  pub used : c'.used + count_of old ≡ c.used + count_of new
  pub balance : (f : Item → ℕ) → weight f c' + left_over f old ≡ weight f c + left_over f new
  pub inside : (f : Item → ℕ) → left_over f old ≤ weight f c
  pub old_of : IsOf c.custom.key c.pool.buffer k old
  pub new_of : IsOf c.custom.key c.pool.buffer k new
  pub filed : left_over (misfiled c) new ≡ 0
  pub absent : old ≡ none → weight (λ item. one_if (entry_of c k item)) c ≡ 0

module _ (c : Coucal) (k : List ℕ) (old new : Option Item) (c' : Coucal)
    (laws : KeyLaws c.custom.key) (v : Valid c) (x : Exchanged c k old new c') where
  exchange : Exchange c.custom.key c.pool.buffer k old new (entries c) (entries c')
  exchange = record {
    balance = λ f. rw (weight-entries f c, weight-entries f c') (x.balance f);
    inside = λ f. rw (weight-entries f c) (x.inside f);
    old_of = x.old_of;
    new_of = x.new_of;
    absent = λ e. weight-entries (λ item. one_if (entry_of c k item)) c ∙ x.absent e;
    once = λ k'. rw (weight-entries (λ item. one_if (entry_of c k' item)) c) (v.once k');
  }

  -- The same tests, by the key handlers and the pool of the new state.
  same_test : (k' : List ℕ) → entry_of c' k' ≡ entry_of c k'
  same_test k' = λ i item. keyed (x.custom i).key (x.pool i).buffer k' item

  same_misfiled : misfiled c' ≡ misfiled c
  same_misfiled = λ i item. one_if (not (well_hashed (x.custom i).key (x.pool i).buffer item))

  pub Exchanged-Valid : Valid c'
  Exchanged-Valid = record {
    layout = x.layout;
    counted = omega (arith, x.used, x.balance (λ _. 1), v.counted);
    hashed =
        omega
          (arith, ap (λ f. weight f c') same_misfiled, x.balance (misfiled c), v.hashed, x.filed);
    once = λ k'. omega (
      arith,
      ap (λ (p : Item → Bool). weight (λ item. one_if (p item)) c') (same_test k'),
      weight-entries (λ item. one_if (entry_of c k' item)) c',
      exchange_once c.custom.key laws c.pool.buffer k old new (entries c) (entries c') exchange k',
    );
  }

  pub Exchanged-view :
      (k' : List ℕ)
      → view c' k' ≡ (if equal_texts c.custom.key k' k then value_of new else view c k')
  unfolding view
  Exchanged-view k' =
      ap (λ p. value_of (first p (entries c'))) (same_test k')
      ∙ exchange_view c.custom.key laws c.pool.buffer k old new (entries c) (entries c') exchange k'
