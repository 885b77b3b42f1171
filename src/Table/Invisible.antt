-- ===== src/Table/Invisible.antt =====
-- Moves of entries (`coucal_drain_stash`, the growth) and the view of the table.
use coucal.Base.{ℕ, ◌<◌, ◌≡◌, ap, sym, ◌∙◌, Bool, true, not, List, arith}
use coucal.State.{Item, Coucal, Allocator}
use coucal.Run.{Returns}
use coucal.Table.Add.{drain_stash}
use coucal.Table.Draining.{drain_stash-Shuffled}
use coucal.Table.Entries.{one_if, and_value, value_of, first, total}
use coucal.Table.Grow.{grow_if_full}
use coucal.Table.Growing.{doubled_bytes, grow_if_full-Kept}
use coucal.Table.Layout.{Layout, weight}
use coucal.Table.Reading.{weight-entries}
use coucal.Table.Valid.{Valid, entry_of, misfiled}
use coucal.Table.View.{view, keyed, well_hashed, entries, first_transfer}

-- The same entries, in whatever places, under the same handlers and pool.
module _ (c c' : Coucal) (v : Valid c) (layout : Layout c') (used : c'.used ≡ c.used)
    (pool : c'.pool ≡ c.pool) (custom : c'.custom ≡ c.custom)
    (balance : (f : Item → ℕ) → weight f c' ≡ weight f c) where
  same_test : (k : List ℕ) → entry_of c' k ≡ entry_of c k
  same_test k = λ i item. keyed (custom i).key (pool i).buffer k item

  same_misfiled : misfiled c' ≡ misfiled c
  same_misfiled = λ i item. one_if (not (well_hashed (custom i).key (pool i).buffer item))

  same_total : (f : Item → ℕ) → total f (entries c') ≡ total f (entries c)
  same_total f = weight-entries f c' ∙ balance f ∙ sym (weight-entries f c)

  -- A key has as many entries.
  pub same-entry_of :
      (k : List ℕ)
      → weight (λ item. one_if (entry_of c' k item)) c'
        ≡ weight (λ item. one_if (entry_of c k item)) c
  same-entry_of k =
      ap (λ (p : Item → Bool). weight (λ item. one_if (p item)) c') (same_test k)
      ∙ balance (λ item. one_if (entry_of c k item))

  pub same-Valid : Valid c'
  same-Valid = record {
    layout = layout;
    counted = used ∙ v.counted ∙ sym (balance (λ _. 1));
    hashed = ap (λ f. weight f c') same_misfiled ∙ balance (misfiled c) ∙ v.hashed;
    once = λ k. omega (arith, same-entry_of k, v.once k);
  }

  pub same-view : (k : List ℕ) → view c' k ≡ view c k
  unfolding view
  same-view k =
      ap (λ p. value_of (first p (entries c'))) (same_test k)
      ∙ first_transfer (entry_of c k) (entry_of c k) (entries c) (entries c')
          (same_total (λ item. one_if (entry_of c k item)))
          (λ value. same_total (λ item. one_if (and_value (entry_of c k) value item)))
          (omega (arith, weight-entries (λ item. one_if (entry_of c k item)) c, v.once k))

-- On a valid table below the greatest size, if the memory of a table of twice the size is granted, the
-- check for growth at the end of `coucal_write_value`, with the growth where it is due, fails no
-- assertion and leaves a valid table in which every key reads what it read before.
pub grow_if_full-view :
    (alloc : Allocator) (c : Coucal)
    → Valid c
    → c.lg_size < 32
    → alloc.succeeds c.world.allocations (doubled_bytes c) ≡ true
    → Returns (grow_if_full alloc c) λ c'. Valid c' × ((k : List ℕ) → view c' k ≡ view c k)
grow_if_full-view alloc c v small given =
    let (c', run, k) = grow_if_full-Kept alloc c v.layout small given in
    (
      c',
      run,
      (
        same-Valid c c' v k.layout k.used k.pool k.custom k.balance,
        same-view c c' v k.layout k.used k.pool k.custom k.balance,
      ),
    )

-- On a valid table `coucal_drain_stash` leaves a valid table in which every key reads what it read
-- before.
pub drain_stash-view :
    (c : Coucal)
    → Valid c
    → Valid (drain_stash c) × ((k : List ℕ) → view (drain_stash c) k ≡ view c k)
drain_stash-view c v =
    let c' = drain_stash c in
    let s = drain_stash-Shuffled c v.layout in
    let r = s.rest in
    (
      same-Valid c c' v s.layout r.used r.pool r.custom s.balance,
      same-view c c' v s.layout r.used r.pool r.custom s.balance,
    )
