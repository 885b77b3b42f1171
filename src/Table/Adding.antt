-- ===== src/Table/Adding.antt =====
-- `coucal_write_value_` on a key that is not there, with keys that a handler of the caller
-- duplicates.
use coucal.Base.{
  ℕ, ◌+◌, ◌≤◌, ◌<◌, ◌≡◌, refl, ap, ◌∙◌, inl, inr, Bool, true, some, List, ◌==◌, Bool-cases, arith,
}
use coucal.Keys.{key_text, dup_name, calc_hashes}
use coucal.Pool.{text}
use coucal.Run.{ok, ◌>>=◌, Returns}
use coucal.State.{Item, Name, outside, Stats, Coucal, Allocator, stash_size}
use coucal.Table.Draining.{Shuffled, Shuffled-refl, drain_stash-Shuffled}
use coucal.Table.Entries.{mass}
use coucal.Table.Layout.{Layout, SameRest, SameRest-trans, weight}
use coucal.Table.Stashing.{add_item-Added}
use coucal.Table.Valid.{Valid}
use coucal.Table.Write.{count_add, drain_if_used, write_new}

-- Statistics are no part of any invariant.
pub restat-Layout : (c : Coucal) (s : Stats) → Layout c → Layout (record c { stats = s })
restat-Layout c s l = record {
  lg_low = l.lg_low;
  lg_high = l.lg_high;
  width = l.width;
  home = l.home;
  stash_width = l.stash_width;
  stash_extent = l.stash_extent;
  stash_live = l.stash_live;
  stash_clear = l.stash_clear;
}

pub restat-Valid : (c : Coucal) (s : Stats) → Valid c → Valid (record c { stats = s })
restat-Valid c s v = record {
  layout = restat-Layout c s v.layout;
  counted = v.counted;
  hashed = v.hashed;
  once = v.once;
}

pub drain_if_used-Shuffled : (c : Coucal) → Layout c → Shuffled c (drain_if_used c)
unfolding drain_if_used
drain_if_used-Shuffled c l = elim (Bool-cases (c.stash.size == 0)) [
  | inl e ↦ rw e (Shuffled-refl c l)
  | inr e ↦ rw e (drain_stash-Shuffled c l)
]

restat-SameRest : (c : Coucal) (s : Stats) → SameRest c (record c { stats = s })
restat-SameRest c s = record {
  lg_size = refl;
  used = refl;
  pool = refl;
  custom = refl;
  world = refl;
}

dup_name-handler :
    (alloc : Allocator) (c : Coucal) (name : Name) (dup : List ℕ → List ℕ)
    → c.custom.key.dup ≡ some dup
    → dup_name alloc c name ≡ ok (c, outside (dup (key_text c name)))
unfolding dup_name
dup_name-handler alloc c name dup handler = rw handler

-- The item that a write adds, under a handler `dup`.
abbrev pub new_item : Coucal → Name → ℕ → (List ℕ → List ℕ) → Item
new_item c name value dup = record {
  name = some (outside (dup (key_text c name)));
  value = value;
  hashes = calc_hashes c name;
}

-- What the addition leaves: one entry more, nothing freed.
pub record NewEntry (c : Coucal) (item : Item) (r : Coucal × Bool) : Type 0 where
  pub done : r.1 ≡ true
  pub layout : Layout r.0
  pub rest : SameRest c r.0
  pub stash_grows : r.0.stash.size ≤ c.stash.size + 1
  pub balance : (f : Item → ℕ) → weight f r.0 ≡ weight f c + mass f item

pub write_new-NewEntry :
    (alloc : Allocator) (c : Coucal) (name : Name) (value : ℕ) (dup : List ℕ → List ℕ)
    → Layout c
    → c.custom.key.dup ≡ some dup
    → c.stash.size < stash_size
    → Returns
        (write_new alloc c name value (calc_hashes c name))
        (NewEntry c (new_item c name value dup))
unfolding write_new
write_new-NewEntry alloc c name value dup l handler room =
    let s = drain_if_used-Shuffled (count_add c) (restat-Layout c _ l) in
    let c2 = drain_if_used (count_add c) in
    let item = new_item c name value dup in
    let same_dup : c2.custom.key.dup ≡ some dup = ap (λ u. u.key.dup) s.rest.custom ∙ handler in
    let same_text : key_text c2 name ≡ key_text c name = ap (λ p. text p.buffer name) s.rest.pool in
    let (r, run, a) = add_item-Added c2 item s.layout (omega (arith, s.stash_shrinks)) (λ e. cc) in
    (
      r,
      rw (dup_name-handler alloc c2 name dup same_dup, same_text, ◌>>=◌) run,
      record {
        done = a.done;
        layout = a.layout;
        rest = SameRest-trans (restat-SameRest c _) (SameRest-trans s.rest a.rest);
        stash_grows = omega (arith, a.stash_grows, s.stash_shrinks);
        balance = λ f. omega (arith, a.balance f, s.balance f);
      },
    )
