-- ===== src/Table/Wiping.antt =====
-- `coucal_del_item` and the slot that a removal leaves, for keys with a handler.
use coucal.Base.{
  ℕ, ◌+◌, ◌<◌, ◌≡◌, refl, ap, ◌∙◌, inl, ◌≢◌, none, some, ◌∷◌, length, get_or-set, length-set, arith,
}
use coucal.Base.Words.{dec_size}
use coucal.Keys.{key_text, free_key}
use coucal.Run.{ok}
use coucal.State.{Item, null_item, Name, World, null_hashes, Coucal, Allocator}
use coucal.Table.Draining.{trim_stash-Shuffled}
use coucal.Table.Entries.{mass, total-set, live-le-length}
use coucal.Table.Finding.{Inside, inside_table, inside_stash}
use coucal.Table.Layout.{Layout, weight, set_item-home}
use coucal.Table.Remove.{release_name, del_name, del_item, leave_hole}
use coucal.Table.Replacing.{freed, freed-Layout, write_at-rest, freed-Inside, with_value}
use coucal.Table.Slots.{write_at-weight, item_at-write_at, write_at-write_at}
use coucal.Table.Write.{free_value, del_value}
use coucal.Table.{Slot, in_table, in_stash, item_at, write_at, get_item}

-- The slot of a removed item: no name, no value, no hashes.
abbrev pub wiped : Coucal → Slot → Coucal
wiped c at = write_at c at null_item

-- The table after a removal from `at`, up to the world.
abbrev pub key_released : Coucal → Name → Coucal
key_released c name = record c {
  world = record (c.world) { freed_keys = key_text c name ∷ c.world.freed_keys };
}

pub release_name-handler :
    (alloc : Allocator) (c : Coucal) (stored : Name) (free : ℕ)
    → c.custom.key.free ≡ some free
    → release_name alloc c (some stored) ≡ ok (key_released c stored)
unfolding free_key
release_name-handler alloc c stored free handler = rw handler

-- `coucal_del_item`: the value is handed over and the slot is wiped, then the key is released.
pub del_item-release_name :
    (alloc : Allocator) (c : Coucal) (at : Slot) (stored : Name)
    → Layout c
    → Inside c at
    → (item_at c at).name ≡ some stored
    → del_item alloc c at
      ≡ release_name alloc (wiped (freed c (item_at c at).value) at) (some stored)
unfolding del_item del_name del_value
del_item-release_name alloc c at stored l inside named =
    let c' = freed c (item_at c at).value in
    let zeroed = with_value (item_at c at) 0 in
    let wipe = λ (item : Item).
      release_name alloc
        (write_at (write_at c' at zeroed) at (record item { name = none; hashes = null_hashes }))
        item.name in
    ap wipe (
      item_at-write_at c' at zeroed (freed-Layout c (item_at c at).value l)
        (freed-Inside c (item_at c at).value at inside))
    ∙ ap (λ t. release_name alloc t (item_at c at).name) (write_at-write_at c' at zeroed null_item)
    ∙ ap (release_name alloc (wiped c' at)) named

-- With a handler for keys, the key is handed over too.
pub del_item-wiped :
    (alloc : Allocator) (c : Coucal) (at : Slot) (stored : Name) (free : ℕ)
    → Layout c
    → Inside c at
    → (item_at c at).name ≡ some stored
    → c.custom.key.free ≡ some free
    → del_item alloc c at ≡ ok (key_released (wiped (freed c (item_at c at).value) at) stored)
del_item-wiped alloc c at stored free l inside named handler =
    let c' = freed c (item_at c at).value in
    let rest = write_at-rest c' at null_item in
    del_item-release_name alloc c at stored l inside named
    ∙ release_name-handler alloc (wiped c' at) stored free (ap (λ u. u.key.free) rest.0 ∙ handler)

-- A wiped slot of the table keeps the layout; a wiped slot of the stash does with the new size, the
-- extent being trimmed.
pub wiped_table-Layout :
    (c : Coucal) (pos : ℕ) → Layout c → pos < length c.items → Layout (wiped c (in_table pos))
wiped_table-Layout c pos l h = record {
  lg_low = l.lg_low;
  lg_high = l.lg_high;
  width = length-set c.items pos null_item ∙ l.width;
  home = set_item-home c pos null_item l.home h (inl refl);
  stash_width = l.stash_width;
  stash_extent = l.stash_extent;
  stash_live = l.stash_live;
  stash_clear = l.stash_clear;
}

abbrev pub one_less : Coucal → Coucal
one_less c = record c { stash = record (c.stash) { size = dec_size c.stash.size } }

pub wiped_stash-Layout :
    (c : Coucal) (i : ℕ)
    → Layout c
    → i < c.stash.extent
    → (item_at c (in_stash i)).name ≢ none
    → Layout (one_less (wiped c (in_stash i)))
wiped_stash-Layout c i l h lv = record {
  lg_low = l.lg_low;
  lg_high = l.lg_high;
  width = l.width;
  home = l.home;
  stash_width = length-set c.stash.items i null_item ∙ l.stash_width;
  stash_extent = l.stash_extent;
  stash_live = ground (
    arith,
    l.stash_live,
    total-set (λ _. 1) c.stash.items i null_item (omega (arith, l.stash_extent, l.stash_width)),
    l.stash_width,
    live-le-length c.stash.items,
  );
  stash_clear = λ j k. ground (
    arith,
    get_or-set c.stash.items i j null_item null_item (omega (arith, l.stash_extent, l.stash_width)),
    l.stash_clear j,
  );
}

pub relayout :
    (c : Coucal) (u : ℕ) (w : World) → Layout c → Layout (record c { used = u; world = w })
relayout c u w l = record {
  lg_low = l.lg_low;
  lg_high = l.lg_high;
  width = l.width;
  home = l.home;
  stash_width = l.stash_width;
  stash_extent = l.stash_extent;
  stash_live = l.stash_live;
  stash_clear = l.stash_clear;
}

-- The table after `coucal_remove_` found the key at a slot.
unfoldable pub after : Coucal → Slot → Name → Coucal
after c (in_table pos) stored =
    key_released (wiped (freed c (get_item c pos).value) (in_table pos)) stored
after c (in_stash i) stored =
    leave_hole (key_released (wiped (freed c (item_at c (in_stash i)).value) (in_stash i)) stored)

-- What `coucal_remove_` does beside the wiped slot.
pub record After (c : Coucal) (at : Slot) (stored : Name) (c' : Coucal) : Type 0 where
  pub layout : Layout c'
  pub custom : c'.custom ≡ c.custom
  pub pool : c'.pool ≡ c.pool
  pub used : c'.used ≡ c.used
  pub freed_values :
      c'.world.freed_values
      ≡ (free_value c.custom.value_free (item_at c at).value c.world).freed_values
  pub freed_keys :
      c'.world.freed_keys
      ≡ key_text c stored ∷ (free_value c.custom.value_free (item_at c at).value c.world).freed_keys
  pub balance : (f : Item → ℕ) → weight f c' + mass f (item_at c at) ≡ weight f c

pub after-After :
    (c : Coucal) (at : Slot) (stored : Name)
    → Layout c
    → Inside c at
    → (item_at c at).name ≡ some stored
    → After c at stored (after c at stored)
unfolding after leave_hole
after-After c (in_table pos) stored l (inside_table _ h) named =
    let c' = freed c (get_item c pos).value in
    record {
      layout =
          relayout (wiped c' (in_table pos)) _ _ (wiped_table-Layout c' pos (freed-Layout c _ l) h);
      custom = refl;
      pool = refl;
      used = refl;
      freed_values = refl;
      freed_keys = refl;
      balance =
          λ f. omega (arith, write_at-weight c (in_table pos) null_item f l (inside_table pos h));
    }
after-After c (in_stash i) stored l (inside_stash _ h) named =
    let old = (item_at c (in_stash i)).value in
    let c' = freed c old in
    let gone = one_less (key_released (wiped c' (in_stash i)) stored) in
    let layout : Layout gone =
      relayout (one_less (wiped c' (in_stash i))) _ _
        (wiped_stash-Layout c' i (freed-Layout c old l) h (λ e. cc)) in
    let t = trim_stash-Shuffled gone layout in
    record {
      layout = t.layout;
      custom = t.rest.custom;
      pool = t.rest.pool;
      used = t.rest.used;
      freed_values = ap (λ w. w.freed_values) t.rest.world;
      freed_keys = ap (λ w. w.freed_keys) t.rest.world;
      balance = λ f.
          omega
            (arith, t.balance f, write_at-weight c (in_stash i) null_item f l (inside_stash i h));
    }
