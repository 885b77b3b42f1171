-- ===== src/Table/Pooling/Moving.antt =====
-- The pool while entries move in the table, join it or leave it.
use coucal.Base.{ℕ, ◌+◌, ◌≡◌, ap, ◌∙◌, sym, ltb, Option, arith}
use coucal.Pool.Regions.{by_name, cover, region, bad, Pooled}
use coucal.State.{Name, Item, Pool, Coucal}
use coucal.Table.Entries.{one_if}
use coucal.Table.Layout.{weight}
use coucal.Table.Placing.{left_over}

-- The same pool, for the entries and the item beside them.
pub moved-Pooled :
    (c c' : Coucal) (o o' : Option Item)
    → c'.pool ≡ c.pool
    → c'.custom ≡ c.custom
    → ((g : Name → ℕ)
        → weight (by_name g) c' + left_over (by_name g) o'
          ≡ weight (by_name g) c + left_over (by_name g) o)
    → Pooled c o
    → Pooled c' o'
moved-Pooled c c' o o' pool custom balance k = record {
  no_dup = ap (λ u. u.key.dup) custom ∙ k.no_dup;
  no_free = ap (λ u. u.key.free) custom ∙ k.no_free;
  block = rw pool k.block;
  size_fits = rw pool k.size_fits;
  bound = rw pool k.bound;
  good =
      ap (λ (p : Pool). weight (by_name (bad p.buffer)) c' + left_over (by_name (bad p.buffer)) o')
        pool
      ∙ balance (bad c.pool.buffer)
      ∙ k.good;
  apart = λ q. omega (
    arith,
    ap
        (λ (p : Pool).
          weight (by_name (cover p.buffer q)) c' + left_over (by_name (cover p.buffer q)) o')
        pool,
    balance (cover c.pool.buffer q),
    k.apart q,
    ap (λ (p : Pool). one_if (ltb q p.size)) pool,
  );
  counted =
      ap (λ (p : Pool). p.used) pool
      ∙ k.counted
      ∙ sym (balance (region c.pool.buffer))
      ∙ ap
          (λ (p : Pool).
            weight (by_name (region p.buffer)) c' + left_over (by_name (region p.buffer)) o')
          (sym pool);
}
