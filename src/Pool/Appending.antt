-- ===== src/Pool/Appending.antt =====
-- The end of `coucal_dup_name_internal`: the copy of a key behind the last string of the pool.
use coucal.Base.{
  ℕ, ◌+◌, ◌≤◌, ◌<◌, ◌≡◌, refl, ap, ◌∙◌, inl, le→leb, List, [], ◌∷◌, ◌++◌, length, length-append,
  get_or, none, some, arith,
}
use coucal.Base.Words.{size_mod, add_size}
use coucal.Pool.Compacting.{SameItems-trans}
use coucal.Pool.Regions.{Block, by_name, Pooled, used-le-size}
use coucal.Pool.Stable.{
  Spares, Sees, cover-Sees, region-Sees, bad-Sees, stable-SameItems, stable-weight,
}
use coucal.Pool.Text.{IsText, cstr-write_bytes, length-write_bytes, get_or-write_bytes_out}
use coucal.Pool.{text, bytes_of, write_bytes, append_string}
use coucal.Run.{ok, Returns}
use coucal.State.{Name, pooled, Item, Coucal, Allocator}
use coucal.Table.Layout.{weight}
use coucal.Table.Rekeying.{Rekeyed}
use native.Mathlib.Nat.{mod-eq_of_lt}

-- What the duplication of a key promises: the table reads as before, the new key reads `t`, and an
-- item with the new key can join the table.
pub record Duplicated (c : Coucal) (t : List ℕ) (r : Coucal × Name) : Type 0 where
  pub rekeyed : Rekeyed c r.0
  pub reads : text r.0.pool.buffer r.1 ≡ t
  pub pooled : (item : Item) → item.name ≡ some r.1 → Pooled r.0 (some item)
  pub grows : r.0.pool.size ≤ c.pool.size + (length t + 1)

pub Rekeyed-trans : {a b c : Coucal} → Rekeyed a b → Rekeyed b c → Rekeyed a c
Rekeyed-trans r s = record {
  table = SameItems-trans r.table s.table;
  stash = SameItems-trans r.stash s.stash;
  stash_size = s.stash_size ∙ r.stash_size;
  stash_extent = s.stash_extent ∙ r.stash_extent;
  lg_size = s.lg_size ∙ r.lg_size;
  used = s.used ∙ r.used;
  custom = s.custom ∙ r.custom;
  freed_values = s.freed_values ∙ r.freed_values;
  freed_keys = s.freed_keys ∙ r.freed_keys;
}

pub Rekeyed-refl : (c : Coucal) → Rekeyed c c
Rekeyed-refl c = record {
  table = record {
    width = refl;
    slots = λ i. record { reads = refl; value = refl; hashes = refl };
  };
  stash = record {
    width = refl;
    slots = λ i. record { reads = refl; value = refl; hashes = refl };
  };
  stash_size = refl;
  stash_extent = refl;
  lg_size = refl;
  used = refl;
  custom = refl;
  freed_values = refl;
  freed_keys = refl;
}

module _ (c : Coucal) (t : List ℕ) (k : Pooled c none) (string : IsText t) (full : 0 < length t)
    (fits : c.pool.size + (length t + 1) ≤ c.pool.capacity) where
  abbrev old : Block
  old = c.pool.buffer

  abbrev new : Block
  new = some (write_bytes (bytes_of old) c.pool.size (t ++ 0 ∷ []))

  abbrev appended : Coucal
  appended = record c {
    pool = record (c.pool) {
      buffer = new;
      size = c.pool.size + (length t + 1);
      used = c.pool.used + (length t + 1);
    };
  }

  longer : length (t ++ 0 ∷ []) ≡ length t + 1
  longer = length-append t (0 ∷ [])

  below : (p : ℕ) → p < c.pool.size → get_or (bytes_of new) p 0 ≡ get_or (bytes_of old) p 0
  below p h =
      get_or-write_bytes_out (bytes_of old) c.pool.size (t ++ 0 ∷ []) p
        (omega (arith, longer, k.block)) (inl h)

  Spares-table : Spares old new c.items
  Spares-table p h = below p (ground (arith, k.apart p))

  Spares-stash : Spares old new c.stash.items
  Spares-stash p h = below p (ground (arith, k.apart p))

  same_weight : (g g' : Name → ℕ) → Sees old new g g' → weight (by_name g') c ≡ weight (by_name g) c
  same_weight g g' s = stable-weight c old new g g' Spares-table Spares-stash s

  appended-reads : text new (pooled c.pool.size) ≡ t
  unfolding text
  appended-reads = cstr-write_bytes (bytes_of old) c.pool.size t string (omega (arith, k.block))

  appended-Pooled :
      (item : Item) → item.name ≡ some (pooled c.pool.size) → Pooled appended (some item)
  appended-Pooled item named = record {
    no_dup = k.no_dup;
    no_free = k.no_free;
    block = length-write_bytes (bytes_of old) c.pool.size (t ++ 0 ∷ []) ∙ k.block;
    size_fits = omega arith;
    bound = k.bound;
    good =
        rw named
          (ground (arith, k.good, same_weight _ _ (bad-Sees old new), ap length appended-reads));
    apart = λ p. rw named (
        ground
          (arith, k.apart p, same_weight _ _ (cover-Sees old new p), ap length appended-reads));
    counted =
        rw named (
          omega
            (arith, k.counted, same_weight _ _ (region-Sees old new), ap length appended-reads));
  }

  appended-Rekeyed : Rekeyed c appended
  appended-Rekeyed = record {
    table = stable-SameItems old new c.items Spares-table;
    stash = stable-SameItems old new c.stash.items Spares-stash;
    stash_size = refl;
    stash_extent = refl;
    lg_size = refl;
    used = refl;
    custom = refl;
    freed_values = refl;
    freed_keys = refl;
  }

pub add_size-small : (a b : ℕ) → a + b < size_mod → add_size a b ≡ a + b
add_size-small a b h = mod-eq_of_lt h

append_string-run :
    (alloc : Allocator) (c : Coucal) (t : List ℕ) (len size used : ℕ)
    → add_size len c.pool.size ≤ c.pool.capacity
    → add_size c.pool.size len ≡ size
    → add_size c.pool.used len ≡ used
    → append_string alloc c t len
      ≡ ok (
        record c {
          pool = record (c.pool) {
            buffer = some (write_bytes (bytes_of c.pool.buffer) c.pool.size (t ++ 0 ∷ []));
            size = size;
            used = used;
          };
        },
        pooled c.pool.size,
      )
unfolding append_string
append_string-run alloc c t len size used h e1 e2 =
    rw (le→leb (add_size len c.pool.size) c.pool.capacity h, e1, e2)

-- Where the pool has room for the string, the copy fails no assertion.
pub append_string-Duplicated :
    (alloc : Allocator) (c : Coucal) (t : List ℕ)
    → Pooled c none
    → IsText t
    → 0 < length t
    → c.pool.size + (length t + 1) ≤ c.pool.capacity
    → Returns (append_string alloc c t (length t + 1)) (Duplicated c t)
append_string-Duplicated alloc c t k string full fits = (
  (appended c t k string full fits, pooled c.pool.size),
  append_string-run alloc c t (length t + 1) _ _
      (omega (arith, k.bound, add_size-small (length t + 1) c.pool.size (omega (arith, k.bound))))
      (add_size-small c.pool.size (length t + 1) (omega (arith, k.bound)))
      (add_size-small c.pool.used (length t + 1) (omega (arith, k.bound, used-le-size c none k))),
  record {
    rekeyed = appended-Rekeyed c t k string full fits;
    reads = appended-reads c t k string full fits;
    pooled = appended-Pooled c t k string full fits;
    grows = omega arith;
  },
)
