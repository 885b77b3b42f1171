-- ===== src/Table/Growing.antt =====
-- The growth of the table as a whole, and the check for it at the end of `coucal_write_value`.
use coucal.Base.{
  ◌||◌, ◌/◌, Bool-cases, inr, ℕ, zero, suc, ◌+◌, ◌-◌, ◌*◌, ◌/◌, ◌≤◌, ◌<◌, ◌≡◌, refl, ap, subst, sym,
  ◌∙◌, inl, true, false, none, ◌++◌, length, replicate, ltb, leb, get_or-replicate,
  length-replicate, length-append, get_or-append_left, get_or-append_right, le→leb, lt→ltb, arith,
}
use coucal.Base.Words.{pow2, inc_size, size_mod}
use coucal.Pool.{request}
use coucal.Run.{ok, ◌>>=◌, Returns}
use coucal.State.{stash_size, Item, null_item, Coucal, Allocator}
use coucal.Table.Entries.{total, total-append, total-replicate}
use coucal.Table.Grow.{grow_if_full, is_acceptable_pow2, double_items, grow, sizeof_item}
use coucal.Table.Layout.{IsHome, Layout, weight}
use coucal.Table.Merging.{merge_stash-Shuffled}
use coucal.Table.Position.{pow2-le}
use coucal.Table.Relocating.{Relocating, Carried, relocate_from-Relocating}
use coucal.Table.{get_item}
use native.Mathlib.Nat.{pow-suc}

-- The table of `c` with its upper half cleared, before relocation.
abbrev doubled : Coucal → Coucal
doubled c = record c {
  items = c.items ++ replicate (pow2 c.lg_size) null_item;
  lg_size = suc c.lg_size;
  stats = record (c.stats) { rehash_count = inc_size c.stats.rehash_count };
  world = record (c.world) { allocations = c.world.allocations + 1 };
}

-- The number of bytes that the doubled table takes.
abbrev pub doubled_bytes : Coucal → ℕ
doubled_bytes c = pow2 c.lg_size * sizeof_item * 2

half_twice : (lg : ℕ) → 0 < lg → pow2 (lg - 1) * 2 ≡ pow2 lg
half_twice zero h = absurd (omega arith)
half_twice (suc k) h = ground (arith, pow-suc 2 k)

double_items-doubled :
    (alloc : Allocator) (c : Coucal)
    → 0 < c.lg_size
    → c.lg_size < 32
    → alloc.succeeds c.world.allocations (doubled_bytes c) ≡ true
    → double_items alloc c ≡ ok (doubled c)
unfolding double_items is_acceptable_pow2 request
double_items-doubled alloc c pos small given =
    let next : inc_size c.lg_size ≡ suc c.lg_size = omega arith in
    let low : leb (suc c.lg_size) 32 ≡ true = le→leb _ _ small in
    let wide : ltb (suc c.lg_size) 64 ≡ true = lt→ltb _ _ (omega arith) in
    let fits : ltb ((size_mod - 1) / (2 * sizeof_item)) (pow2 c.lg_size) ≡ false =
      ground (arith, pow2-le c.lg_size (omega arith)) in
    rw (half_twice c.lg_size pos, next, low, wide, fits, given)

doubled-Relocating : (c : Coucal) → Layout c → c.lg_size < 32 → Relocating c.lg_size (doubled c) 0
doubled-Relocating c l small = record {
  doubled = refl;
  bound = small;
  width =
      length-append c.items (replicate (pow2 c.lg_size) null_item)
      ∙ omega (arith, l.width, length-replicate (pow2 c.lg_size) null_item);
  done = λ j h. inl (upper j (omega arith));
  todo = λ j h lt.
      subst (IsHome c.lg_size j)
        (sym (get_or-append_left c.items _ j null_item (omega (arith, l.width)))) (l.home j);
  clear = λ j h. upper j (omega arith);
}
  where
    upper : (j : ℕ) → pow2 c.lg_size ≤ j → (get_item (doubled c) j).name ≡ none
    upper j h =
        ap (λ x. x.name)
          (get_or-append_right c.items _ j null_item (omega (arith, l.width))
            ∙ get_or-replicate (pow2 c.lg_size) (j - length c.items) null_item)

relocated-Layout :
    (c c' : Coucal)
    → Layout c
    → Relocating c.lg_size c' (pow2 c.lg_size)
    → Carried (doubled c) c'
    → Layout c'
relocated-Layout c c' l r k = record {
  lg_low = omega (arith, r.doubled, l.lg_low);
  lg_high = omega (arith, r.doubled, r.bound);
  width = rw r.doubled (omega (arith, r.width, pow-suc 2 c.lg_size));
  home = λ j. rw r.doubled (r.done j (omega arith));
  stash_width = rw k.stash l.stash_width;
  stash_extent = rw k.stash l.stash_extent;
  stash_live = rw k.stash l.stash_live;
  stash_clear = rw k.stash l.stash_clear;
}

-- What a growth promises: the table has twice the size and the same entries.
pub record Grown (c c' : Coucal) : Type 0 where
  pub layout : Layout c'
  pub doubled_lg : c'.lg_size ≡ suc c.lg_size
  pub used : c'.used ≡ c.used
  pub pool : c'.pool ≡ c.pool
  pub custom : c'.custom ≡ c.custom
  pub freed_values : c'.world.freed_values ≡ c.world.freed_values
  pub freed_keys : c'.world.freed_keys ≡ c.world.freed_keys
  pub stash_shrinks : c'.stash.size ≤ c.stash.size
  pub balance : (f : Item → ℕ) → weight f c' ≡ weight f c

-- On a table that keeps the layout and is below the greatest size, if the allocator grants the memory
-- of the doubled table, the growth fails no assertion: the exponent is one more, the layout is kept,
-- every weight of the entries (so every entry) too, the stash does not grow, and the count, the pool,
-- the settings and what was released are as before.
pub grow-Grown :
    (alloc : Allocator) (c : Coucal)
    → Layout c
    → c.lg_size < 32
    → alloc.succeeds c.world.allocations (doubled_bytes c) ≡ true
    → Returns (grow alloc c) (Grown c)
unfolding grow
grow-Grown alloc c l small given =
    let pos : 0 < c.lg_size = omega (arith, l.lg_low) in
    let (c1, run1, (r, k)) =
      relocate_from-Relocating (pow2 c.lg_size) c.lg_size (doubled c) 0
        (doubled-Relocating c l small) (omega arith) in
    let (c2, run2, m) = merge_stash-Shuffled c1 (relocated-Layout c c1 l r k) in
    (
      c2,
      rw (half_twice c.lg_size pos, double_items-doubled alloc c pos small given, ◌>>=◌, run1) run2,
      record {
        layout = m.layout;
        doubled_lg = m.rest.lg_size ∙ r.doubled;
        used = m.rest.used ∙ k.rest.used;
        pool = m.rest.pool ∙ k.rest.pool;
        custom = m.rest.custom ∙ k.rest.custom;
        freed_values = ap (λ w. w.freed_values) (m.rest.world ∙ k.rest.world);
        freed_keys = ap (λ w. w.freed_keys) (m.rest.world ∙ k.rest.world);
        stash_shrinks = omega (arith, m.stash_shrinks, ap (λ s. s.size) k.stash);
        balance = λ f. omega (
          arith,
          m.balance f,
          k.balance f,
          ap (λ s. total f s.items) k.stash,
          total-append f c.items (replicate (pow2 c.lg_size) null_item),
          total-replicate f (pow2 c.lg_size),
        );
      },
    )

-- What a growth or its omission leaves as it was.
pub record Kept (c c' : Coucal) : Type 0 where
  pub layout : Layout c'
  pub taller : c'.lg_size ≤ suc c.lg_size
  pub used : c'.used ≡ c.used
  pub pool : c'.pool ≡ c.pool
  pub custom : c'.custom ≡ c.custom
  pub freed_values : c'.world.freed_values ≡ c.world.freed_values
  pub freed_keys : c'.world.freed_keys ≡ c.world.freed_keys
  pub balance : (f : Item → ℕ) → weight f c' ≡ weight f c

pub grow_if_full-Kept :
    (alloc : Allocator) (c : Coucal)
    → Layout c
    → c.lg_size < 32
    → alloc.succeeds c.world.allocations (doubled_bytes c) ≡ true
    → Returns (grow_if_full alloc c) (Kept c)
unfolding grow_if_full
grow_if_full-Kept alloc c l small given =
    elim (Bool-cases (leb (pow2 (c.lg_size - 1)) c.used || leb (stash_size / 2) c.stash.size)) [
      | inl full ↦
          let (c', run, g) = grow-Grown alloc c l small given in
          (
            c',
            rw full run,
            record {
              layout = g.layout;
              taller = omega (arith, g.doubled_lg);
              used = g.used;
              pool = g.pool;
              custom = g.custom;
              freed_values = g.freed_values;
              freed_keys = g.freed_keys;
              balance = g.balance;
            },
          )
      | inr sparse ↦ (
        c,
        rw sparse,
        record {
          layout = l;
          taller = omega arith;
          used = refl;
          pool = refl;
          custom = refl;
          freed_values = refl;
          freed_keys = refl;
          balance = λ f. refl;
        },
      )
    ]
