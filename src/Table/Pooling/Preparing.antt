-- ===== src/Table/Pooling/Preparing.antt =====
-- The duplication of the key in a write: the stash is drained before, and the keys may move.
use coucal.Base.{ℕ, ◌+◌, ◌^◌, ◌≤◌, ◌≡◌, ap, ◌∙◌, none, some, List, length, arith}
use coucal.Keys.{key_text, dup_name}
use coucal.Pool.Duplicating.{Generous, dup_name_internal-Duplicated}
use coucal.Pool.Regions.{by_name, Pooled}
use coucal.Pool.Text.{IsText}
use coucal.Pool.{text, dup_name_internal}
use coucal.Run.{Returns}
use coucal.State.{Item, Name, Pool, World, Coucal, Allocator}
use coucal.Table.Adding.{drain_if_used-Shuffled}
use coucal.Table.Draining.{Shuffled}
use coucal.Table.Entries.{one_if}
use coucal.Table.Invisible.{same-Valid, same-view, same-entry_of}
use coucal.Table.Layout.{weight}
use coucal.Table.Pooling.Moving.{moved-Pooled}
use coucal.Table.Rekeying.{Rekeyed-Valid, Rekeyed-view, Rekeyed-entry_of}
use coucal.Table.Valid.{Valid, entry_of}
use coucal.Table.View.{view}
use coucal.Table.Write.{drain_if_used}

-- The table when the key was duplicated, from the table before the write: the stash was drained and
-- the keys may have moved.
pub record Prepared (c : Coucal) (t : List ℕ) (c2 : Coucal) (stored : Name) : Type 0 where
  pub valid : Valid c2
  pub reads : (k : List ℕ) → view c2 k ≡ view c k
  pub duplicate : text c2.pool.buffer stored ≡ t
  pub pooled : (item : Item) → item.name ≡ some stored → Pooled c2 (some item)
  pub absent : weight (λ item. one_if (entry_of c2 t item)) c2 ≡ 0
  pub lg_size : c2.lg_size ≡ c.lg_size
  pub stash_shrinks : c2.stash.size ≤ c.stash.size
  pub used : c2.used ≡ c.used
  pub custom : c2.custom ≡ c.custom
  pub freed_values : c2.world.freed_values ≡ c.world.freed_values
  pub freed_keys : c2.world.freed_keys ≡ c.world.freed_keys
  pub grows : c2.pool.size ≤ c.pool.size + (length t + 1)

dup_name-internal :
    (alloc : Allocator) (c : Coucal) (name : Name)
    → c.custom.key.dup ≡ none
    → dup_name alloc c name ≡ dup_name_internal alloc c name
unfolding dup_name
dup_name-internal alloc c name no_dup = rw no_dup

-- A drained table, up to the statistics.
module _ (c : Coucal) (k : List ℕ) (c1 : Coucal) (v : Valid c) (s : Shuffled c c1) where
  drained-Valid : Valid c1
  drained-Valid = same-Valid c c1 v s.layout s.rest.used s.rest.pool s.rest.custom s.balance

  drained-view : (k : List ℕ) → view c1 k ≡ view c k
  drained-view = same-view c c1 v s.layout s.rest.used s.rest.pool s.rest.custom s.balance

  drained-absent :
      weight (λ item. one_if (entry_of c k item)) c ≡ 0
      → weight (λ item. one_if (entry_of c1 k item)) c1 ≡ 0
  drained-absent e =
      same-entry_of c c1 v s.layout s.rest.used s.rest.pool s.rest.custom s.balance k ∙ e

pub prepare :
    (alloc : Allocator) (c : Coucal) (name : Name)
    → Valid c
    → Pooled c none
    → Generous alloc
    → IsText (key_text c name)
    → c.pool.size + (length (key_text c name) + 1) ≤ 2 ^ 63
    → weight (λ item. one_if (entry_of c (key_text c name) item)) c ≡ 0
    → Returns (dup_name alloc (drain_if_used c) name) λ r. Prepared c (key_text c name) r.0 r.1
prepare alloc c name v k generous string bound none_there =
    let s = drain_if_used-Shuffled c v.layout in
    let c1 = drain_if_used c in
    let t = key_text c name in
    let same_text : key_text c1 name ≡ t = ap (λ (p : Pool). text p.buffer name) s.rest.pool in
    let k1 =
      moved-Pooled c c1 none none s.rest.pool s.rest.custom
        (λ g. omega (arith, s.balance (by_name g))) k in
    let v1 = drained-Valid c t c1 v s in
    let (r, run, d) =
      dup_name_internal-Duplicated alloc c1 name k1 v1.layout.stash_clear generous
        (rw same_text string)
        (omega (arith, bound, ap length same_text, ap (λ (p : Pool). p.size) s.rest.pool)) in
    (
      r,
      dup_name-internal alloc c1 name k1.no_dup ∙ run,
      record {
        valid = Rekeyed-Valid c1 r.0 d.rekeyed v1;
        reads = λ q. Rekeyed-view c1 r.0 d.rekeyed v1 q ∙ drained-view c t c1 v s q;
        duplicate = d.reads ∙ same_text;
        pooled = d.pooled;
        absent = Rekeyed-entry_of c1 r.0 d.rekeyed t ∙ drained-absent c t c1 v s none_there;
        lg_size = d.rekeyed.lg_size ∙ s.rest.lg_size;
        stash_shrinks = omega (arith, d.rekeyed.stash_size, s.stash_shrinks);
        used = d.rekeyed.used ∙ s.rest.used;
        custom = d.rekeyed.custom ∙ s.rest.custom;
        freed_values = d.rekeyed.freed_values ∙ ap (λ (w : World). w.freed_values) s.rest.world;
        freed_keys = d.rekeyed.freed_keys ∙ ap (λ (w : World). w.freed_keys) s.rest.world;
        grows = omega (arith, d.grows, ap length same_text, ap (λ (p : Pool). p.size) s.rest.pool);
      },
    )
