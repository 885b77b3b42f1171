-- ===== src/Delete/Wiping.antt =====
-- One round of the loops of `coucal_delete`, and a whole loop.
use coucal.Base.{
  ℕ, zero, suc, ◌+◌, ◌≤◌, ◌<◌, ◌≡◌, refl, ap, ◌∙◌, inl, inr, true, false, not, Option, none, some,
  List, ◌∷◌, is_none, Bool-cases, arith,
}
use coucal.Delete.{wipe, wipe_from}
use coucal.Keys.{key_text}
use coucal.Pool.{text}
use coucal.Table.Wiping.{release_name-handler}
use coucal.Run.{ok, ◌>>=◌, Returns}
use coucal.State.{Name, Item, null_hashes, Pool, World, Coucal, Allocator}
use coucal.Table.Entries.{mass}
use coucal.Table.Remove.{release_name, del_name}
use coucal.Table.Spans.{span}
use coucal.Table.Write.{free_value, del_value}
use coucal.Table.{Slot, item_at, write_at, is_empty_item}
use coucal.Delete.Weights.{
  tally, released_weight, released_key, tally-free_value, free_value-keys, named_key, item_at-world,
  write_at-apart, item_at-written,
}

-- The array that a loop walks over, and what it does not touch.
module _ {A : Type 0} (slot : ℕ → Slot) (K : Coucal → A)
    (later_slot : (c : Coucal) (i j : ℕ) (item : Item)
      → i < j
      → item_at (write_at c (slot i) item) (slot j) ≡ item_at c (slot j))
    (kept_write : (c : Coucal) (i : ℕ) (item : Item) → K (write_at c (slot i) item) ≡ K c)
    (kept_world : (c : Coucal) (w : World) → K (record c { world = w }) ≡ K c) where
  pub record Wiped (c : Coucal) (i n : ℕ) (c' : Coucal) : Type 0 where
    pub custom : c'.custom ≡ c.custom
    pub pool : c'.pool ≡ c.pool
    pub kept : K c' ≡ K c
    pub later : (j : ℕ) → i + n ≤ j → item_at c' (slot j) ≡ item_at c (slot j)
    pub values :
        (g : ℕ → ℕ)
        → tally g c'.world.freed_values
          ≡ tally g c.world.freed_values
            + span (λ k. item_at c (slot k)) (released_weight c.custom.value_free g) n i
    pub keys :
        (g : List ℕ → ℕ)
        → tally g c'.world.freed_keys
          ≡ tally g c.world.freed_keys
            + span (λ k. item_at c (slot k)) (released_key c.custom.key.free c.pool.buffer g) n i

  span-same :
      (xs ys : ℕ → Item) (f : Item → ℕ) (n i : ℕ)
      → ((j : ℕ) → i ≤ j → xs j ≡ ys j)
      → span xs f n i ≡ span ys f n i
  span-same xs ys f zero i h = refl
  span-same xs ys f (suc n) i h = omega (
    arith,
    ap (mass f) (h i (omega arith)),
    span-same xs ys f n (i + 1) (λ j le. h j (omega arith)),
  )

  -- A free slot: nothing happens.
  empty-Wiped : (c : Coucal) (i : ℕ) → is_empty_item (item_at c (slot i)) ≡ true → Wiped c i 1 c
  empty-Wiped c i e = record {
    custom = refl;
    pool = refl;
    kept = refl;
    later = λ j h. refl;
    values = λ g. ground arith;
    keys = λ g. ground arith;
  }

  -- What both ways to wipe a live slot share: writes to the slot, and a new world.
  written-Wiped :
      (c : Coucal) (i : ℕ) (c' : Coucal)
      → c'.custom ≡ c.custom
      → c'.pool ≡ c.pool
      → K c' ≡ K c
      → ((j : ℕ) → i < j → item_at c' (slot j) ≡ item_at c (slot j))
      → is_empty_item (item_at c (slot i)) ≡ false
      → ((g : ℕ → ℕ)
          → tally g c'.world.freed_values
            ≡ tally g c.world.freed_values
              + released_weight c.custom.value_free g (item_at c (slot i)))
      → ((g : List ℕ → ℕ)
          → tally g c'.world.freed_keys
            ≡ tally g c.world.freed_keys
              + released_key c.custom.key.free c.pool.buffer g (item_at c (slot i)))
      → Wiped c i 1 c'
  written-Wiped c i c' custom pool kept later live values keys = record {
    custom = custom;
    pool = pool;
    kept = kept;
    later = λ j h. later j (omega arith);
    values = λ g. ground (arith, values g);
    keys = λ g. ground (arith, keys g);
  }

  module _ (c : Coucal) (i : ℕ) (live : is_empty_item (item_at c (slot i)) ≡ false) where
    abbrev item : Item
    item = item_at c (slot i)

    abbrev freed : Coucal
    freed = record c { world = free_value c.custom.value_free item.value c.world }

    abbrev zeroed : Item
    zeroed = record item { value = 0 }

    abbrev no_value : Coucal
    no_value = write_at freed (slot i) zeroed

    read_back : item_at no_value (slot i) ≡ zeroed
    read_back =
        item_at-written freed (slot i) zeroed
          (ap is_empty_item (item_at-world c freed.world (slot i)) ∙ live)

    no_value-run : ok (del_value c (slot i)) ≡ ok no_value
    unfolding del_value
    no_value-run = refl

    value-Wiped : c.custom.key.free ≡ none → Wiped c i 1 no_value
    value-Wiped e =
        let (custom, world, pool) = write_at-apart freed (slot i) zeroed in
        written-Wiped c i no_value custom pool
          (kept_write freed i zeroed ∙ kept_world c freed.world)
          (λ j h. later_slot freed i j zeroed h ∙ item_at-world c freed.world (slot j)) live
          (λ g.
            ap (λ w. tally g w.freed_values) world
            ∙ tally-free_value c.custom.value_free g item c.world)
          (λ g. omega (
            arith,
            ap (λ w. tally g w.freed_keys) world,
            ap (tally g) (free_value-keys c.custom.value_free item.value c.world),
            ap (λ h. released_key h c.pool.buffer g item) e,
          ))

    stored_name : (stored : Name) × (item.name ≡ some stored)
    stored_name = ground arith

    -- The slot without its name, and the name handed over.
    abbrev unnamed : Coucal
    unnamed =
        write_at no_value (slot i)
          (record (item_at no_value (slot i)) { name = none; hashes = null_hashes })

    abbrev no_name : List ℕ → Coucal
    no_name k =
        let c' = unnamed in
        record c' { world = record (c'.world) { freed_keys = k ∷ c'.world.freed_keys } }

    unnamed-custom : unnamed.custom ≡ c.custom
    unnamed-custom =
        (write_at-apart no_value (slot i) _).0 ∙ (write_at-apart freed (slot i) zeroed).0

    name_run :
        (alloc : Allocator) (stored : Name) (f : ℕ)
        → c.custom.key.free ≡ some f
        → item.name ≡ some stored
        → del_name alloc (del_value c (slot i)) (slot i) ≡ ok (no_name (key_text unnamed stored))
    unfolding del_name del_value
    name_run alloc stored f e named =
        ap (release_name alloc unnamed) (ap (λ x. x.name) read_back ∙ named)
        ∙ release_name-handler alloc unnamed stored f (ap (λ u. u.key.free) unnamed-custom ∙ e)

    unnamed-pool : unnamed.pool ≡ c.pool
    unnamed-pool = (write_at-apart no_value (slot i) _).2 ∙ (write_at-apart freed (slot i) zeroed).2

    -- The key that is handed over is that of the item.
    own_key :
        (g : List ℕ → ℕ) (stored : Name) (f : ℕ)
        → c.custom.key.free ≡ some f
        → item.name ≡ some stored
        → g (key_text unnamed stored) ≡ released_key c.custom.key.free c.pool.buffer g item
    own_key g stored f e named =
        ap (λ (p : Pool). g (text p.buffer stored)) unnamed-pool
        ∙ named_key c.custom.key.free c.pool.buffer g item stored f e named

    name-Wiped :
        (stored : Name) (f : ℕ)
        → c.custom.key.free ≡ some f
        → item.name ≡ some stored
        → Wiped c i 1 (no_name (key_text unnamed stored))
    name-Wiped stored f e named =
        let k = key_text unnamed stored in
        let (custom, world, _) = write_at-apart freed (slot i) zeroed in
        let bare : Item = record (item_at no_value (slot i)) {
          name = none;
          hashes = null_hashes;
        } in
        let (custom', world', _) = write_at-apart no_value (slot i) bare in
        let c' = write_at no_value (slot i) bare in
        written-Wiped c i (no_name k) (custom' ∙ custom) unnamed-pool
          (kept_world c' (no_name k).world
            ∙ kept_write no_value i bare
            ∙ kept_write freed i zeroed
            ∙ kept_world c freed.world)
          (λ j h.
            item_at-world c' (no_name k).world (slot j)
            ∙ later_slot no_value i j bare h
            ∙ later_slot freed i j zeroed h
            ∙ item_at-world c freed.world (slot j))
          live
          (λ g.
            ap (λ w. tally g w.freed_values) (world' ∙ world)
            ∙ tally-free_value c.custom.value_free g item c.world)
          (λ g. omega (
            arith,
            own_key g stored f e named,
            ap (λ w. tally g w.freed_keys) (world' ∙ world),
            ap (tally g) (free_value-keys c.custom.value_free item.value c.world),
          ))

  wipe-Wiped :
      (alloc : Allocator) (c : Coucal) (i : ℕ) (free : Option ℕ)
      → c.custom.key.free ≡ free
      → Returns (wipe alloc (not (is_none free)) c (slot i)) (Wiped c i 1)
  unfolding wipe
  wipe-Wiped alloc c i free e = elim (Bool-cases (is_empty_item (item_at c (slot i)))) [
    | inl vacant ↦ (c, rw vacant, empty-Wiped c i vacant)
    | inr live ↦ go free e live
  ]
    where
      go :
          (free : Option ℕ)
          → c.custom.key.free ≡ free
          → is_empty_item (item_at c (slot i)) ≡ false
          → Returns (wipe alloc (not (is_none free)) c (slot i)) (Wiped c i 1)
      go none e live = (no_value c i live, rw live (no_value-run c i live), value-Wiped c i live e)
      go (some f) e live =
          let (stored, named) = stored_name c i live in
          let run = name_run c i live alloc stored f e named in
          (
            no_name c i live (key_text (unnamed c i live) stored),
            rw live run,
            name-Wiped c i live stored f e named,
          )

  pub wipe_from-Wiped :
      (alloc : Allocator) (n i : ℕ) (c : Coucal) (free : Option ℕ)
      → c.custom.key.free ≡ free
      → Returns (wipe_from alloc (not (is_none free)) slot n i c) (Wiped c i n)
  unfolding wipe_from
  wipe_from-Wiped alloc zero i c free e = (
    c,
    refl,
    record {
      custom = refl;
      pool = refl;
      kept = refl;
      later = λ j h. refl;
      values = λ g. omega arith;
      keys = λ g. omega arith;
    },
  )
  wipe_from-Wiped alloc (suc n) i c free e =
      let (c1, run1, w1) = wipe-Wiped alloc c i free e in
      let (c2, run2, w2) =
        wipe_from-Wiped alloc n (i + 1) c1 free (ap (λ u. u.key.free) w1.custom ∙ e) in
      (
        c2,
        rw (run1, ◌>>=◌) run2,
        record {
          custom = w2.custom ∙ w1.custom;
          pool = w2.pool ∙ w1.pool;
          kept = w2.kept ∙ w1.kept;
          later = λ j h. w2.later j (omega arith) ∙ w1.later j (omega arith);
          values = λ g. omega (
            arith,
            w1.values g,
            w2.values g,
            ap (λ u. span (λ k. item_at c1 (slot k)) (released_weight u.value_free g) n (i + 1))
                w1.custom,
            span-same (λ k. item_at c1 (slot k)) (λ k. item_at c (slot k))
                (released_weight c.custom.value_free g) n (i + 1) w1.later,
          );
          keys = λ g. omega (
            arith,
            w1.keys g,
            w2.keys g,
            ap
                (λ u.
                  span (λ k. item_at c1 (slot k)) (released_key u.key.free c1.pool.buffer g) n
                    (i + 1))
                w1.custom,
            ap
                (λ (p : Pool).
                  span (λ k. item_at c1 (slot k)) (released_key c.custom.key.free p.buffer g) n
                    (i + 1))
                w1.pool,
            span-same (λ k. item_at c1 (slot k)) (λ k. item_at c (slot k))
                (released_key c.custom.key.free c.pool.buffer g) n (i + 1) w1.later,
          );
        },
      )
