-- ===== src/Pool/Duplicating.antt =====
-- `coucal_dup_name_internal`.
use coucal.Base.{
  ◌⊎◌, ℕ, ◌+◌, ◌-◌, ◌^◌, ◌≤◌, ◌<◌, ◌≡◌, refl, inl, inr, ltb, le→leb, lt→ltb, ◌==◌, ◌&&◌, true, not,
  is_none, List, [], ◌∷◌, length, none, some, if◌then◌else◌, arith, Bool-cases,
}
use coucal.Base.Words.{size_mod, add_size, sub_size, inc_size}
use coucal.Pool.Appending.{
  Duplicated, Rekeyed-refl, Rekeyed-trans, append_string-Duplicated, add_size-small,
}
use coucal.Pool.Compacting.{StashClear}
use coucal.Pool.Capacity.{grow_capacity_lem}
use coucal.Pool.Extending.{realloc_pool-Roomy}
use coucal.Pool.Regions.{Block, Pooled, text-fits}
use coucal.Pool.Text.{IsText}
use coucal.Pool.{
  text, bytes_of, is_pooled, make_room, copy_name, dup_name_internal, request, realloc_pool,
  grow_capacity,
}
use coucal.Run.{ok, ◌>>=◌, Returns}
use coucal.State.{Name, the_empty_string, pooled, outside, Coucal, Allocator, min_pool_capacity}
use coucal.Table.Rekeying.{Rekeyed}

-- Every request for memory is granted.
abbrev pub Generous : Allocator → Type 0
Generous alloc = (n bytes : ℕ) → alloc.succeeds n bytes ≡ true

-- The table after a request for memory.
abbrev requested : Coucal → Coucal
requested c = record c { world = record (c.world) { allocations = c.world.allocations + 1 } }

requested-Pooled : (c : Coucal) → Pooled c none → Pooled (requested c) none
requested-Pooled c k = record {
  no_dup = k.no_dup;
  no_free = k.no_free;
  block = k.block;
  size_fits = k.size_fits;
  bound = k.bound;
  good = k.good;
  apart = k.apart;
  counted = k.counted;
}

requested-Rekeyed : (c c' : Coucal) → Rekeyed (requested c) c' → Rekeyed c c'
requested-Rekeyed c c' r = record {
  table = r.table;
  stash = r.stash;
  stash_size = r.stash_size;
  stash_extent = r.stash_extent;
  lg_size = r.lg_size;
  used = r.used;
  custom = r.custom;
  freed_values = r.freed_values;
  freed_keys = r.freed_keys;
}

-- What the growth of the pool for a string of `len` bytes promises.
record RoomMade (c : Coucal) (t : List ℕ) (len : ℕ) (r : Coucal × List ℕ) : Type 0 where
  pub rekeyed : Rekeyed c r.0
  pub pooled : Pooled r.0 none
  pub fits : r.0.pool.size + len ≤ r.0.pool.capacity
  pub staged : r.1 ≡ t
  pub smaller : r.0.pool.size ≤ c.pool.size

-- The key is copied aside first just where it is memory of the pool; otherwise the growth does not
-- touch it.
staged_or_outside :
    (alloc : Allocator) (c : Coucal) (name : Name)
    → Pooled c none
    → 0 < length (text c.pool.buffer name)
    → (is_pooled alloc c name ≡ true) ⊎ ((bytes : List ℕ) × (name ≡ outside bytes))
unfolding text
staged_or_outside alloc c the_empty_string k h = absurd (omega arith)
staged_or_outside alloc c (outside bytes) k h = inr (bytes, refl)
staged_or_outside alloc c (pooled o) k h = inl (at c.pool.buffer k.block h)
  where
    at :
        (b : Block)
        → length (bytes_of b) ≡ c.pool.capacity
        → 0 < length (text b (pooled o))
        → not (is_none b) && ltb o c.pool.capacity ≡ true
    at none e h = ground (arith, text-fits none o)
    at (some bs) e h = ground (arith, text-fits (some bs) o)

request-granted :
    (alloc : Allocator) (c : Coucal) (bytes : ℕ)
    → alloc.succeeds c.world.allocations bytes ≡ true
    → request alloc c bytes ≡ ok (requested c)
unfolding request
request-granted alloc c bytes given = rw given

make_room-run :
    (alloc : Allocator) (c c1 c2 : Coucal) (name : Name) (len n : ℕ)
    → (if is_pooled alloc c name then request alloc c len else ok c) ≡ ok c1
    → grow_capacity alloc 65 min_pool_capacity (add_size c.pool.size len) ≡ ok n
    → c.pool.size < n
    → realloc_pool alloc c1 n ≡ ok c2
    → make_room alloc c name len
      ≡ ok
          (c2, if is_pooled alloc c name then text c.pool.buffer name else text c2.pool.buffer name)
unfolding make_room
make_room-run alloc c c1 c2 name len n e1 e2 h e3 = rw (e1, ◌>>=◌, e2, lt→ltb c.pool.size n h, e3)

-- The loop ends at a capacity with room for the string.
capacity_found :
    (alloc : Allocator) (c : Coucal) (len : ℕ)
    → c.pool.size + len ≤ 2 ^ 63
    → Returns
        (grow_capacity alloc 65 min_pool_capacity (add_size c.pool.size len))
        λ n. (c.pool.size + len ≤ n) × (n ≤ 2 ^ 63)
capacity_found alloc c len bound =
    let small = add_size-small c.pool.size len (omega arith) in
    let (n, run, (h, h')) =
      grow_capacity_lem alloc 65 8 (add_size c.pool.size len) (omega arith) (omega arith)
        (omega arith) in
    (n, run, (omega arith, h'))

module _ (alloc : Allocator) (c : Coucal) (name : Name) (len : ℕ) (k : Pooled c none)
    (clear : StashClear c) (generous : Generous alloc) (bound : c.pool.size + len ≤ 2 ^ 63)
    (some_len : 0 < len) where
  staged_room :
      is_pooled alloc c name ≡ true
      → Returns (make_room alloc c name len) (RoomMade c (text c.pool.buffer name) len)
  staged_room e =
      let (n, run, (h, h')) = capacity_found alloc c len bound in
      let c1 = requested c in
      let (c2, run', m) =
        realloc_pool-Roomy alloc c1 n (requested-Pooled c k) clear (omega arith) h'
          (generous _ _) in
      (
        _,
        make_room-run alloc c c1 c2 name len n (rw e (request-granted alloc c len (generous _ _)))
            run (omega arith) run',
        record {
          rekeyed = requested-Rekeyed c c2 m.rekeyed;
          pooled = m.pooled;
          fits = omega (arith, m.size, m.capacity);
          staged = rw e refl;
          smaller = m.size;
        },
      )

  outside_room :
      (bytes : List ℕ)
      → name ≡ outside bytes
      → Returns (make_room alloc c name len) (RoomMade c (text c.pool.buffer name) len)
  unfolding text
  outside_room bytes e =
      let (n, run, (h, h')) = capacity_found alloc c len bound in
      let (c2, run', m) = realloc_pool-Roomy alloc c n k clear (omega arith) h' (generous _ _) in
      (
        _,
        make_room-run alloc c c c2 name len n (rw e refl) run (omega arith) run',
        record {
          rekeyed = m.rekeyed;
          pooled = m.pooled;
          fits = omega (arith, m.size, m.capacity);
          staged = rw e refl;
          smaller = m.size;
        },
      )

  make_room-RoomMade :
      0 < length (text c.pool.buffer name)
      → Returns (make_room alloc c name len) (RoomMade c (text c.pool.buffer name) len)
  make_room-RoomMade h = elim (staged_or_outside alloc c name k h) [
    | inl e ↦ staged_room e
    | inr (bytes, e) ↦ outside_room bytes e
  ]

pub sub_size-small : (a b : ℕ) → b ≤ a → a < size_mod → sub_size a b ≡ a - b
sub_size-small a b h h' = omega arith

-- The copy of a string that is not empty, whatever room there is.
copy_name-Duplicated :
    (alloc : Allocator) (c : Coucal) (name : Name)
    → Pooled c none
    → StashClear c
    → Generous alloc
    → IsText (text c.pool.buffer name)
    → 0 < length (text c.pool.buffer name)
    → c.pool.size + (length (text c.pool.buffer name) + 1) ≤ 2 ^ 63
    → Returns
        (copy_name alloc c name (text c.pool.buffer name) (length (text c.pool.buffer name) + 1))
        (Duplicated c (text c.pool.buffer name))
unfolding copy_name
copy_name-Duplicated alloc c name k clear generous string full bound =
    let t = text c.pool.buffer name in
    let len = length t + 1 in
    let free : sub_size c.pool.capacity c.pool.size ≡ c.pool.capacity - c.pool.size =
      sub_size-small c.pool.capacity c.pool.size k.size_fits (omega (arith, k.bound)) in
    elim (Bool-cases (ltb (sub_size c.pool.capacity c.pool.size) len)) [
      | inl short ↦
          let (r, run, m) =
            make_room-RoomMade alloc c name len k clear generous bound (omega arith) full in
          let (r', run', d) = append_string-Duplicated alloc r.0 t m.pooled string full m.fits in
          (
            r',
            rw (le→leb c.pool.size c.pool.capacity k.size_fits, short, run, ◌>>=◌, m.staged) run',
            record {
              rekeyed = Rekeyed-trans m.rekeyed d.rekeyed;
              reads = d.reads;
              pooled = d.pooled;
              grows = omega (arith, d.grows, m.smaller);
            },
          )
      | inr enough ↦
          let (r', run', d) =
            append_string-Duplicated alloc c t k string full (ground (arith, free, k.size_fits)) in
          (r', rw (le→leb c.pool.size c.pool.capacity k.size_fits, enough, ◌>>=◌) run', d)
    ]

-- The empty key takes no memory.
empty-Duplicated :
    (c : Coucal) (t : List ℕ) → Pooled c none → length t ≡ 0 → Duplicated c t (c, the_empty_string)
unfolding text
empty-Duplicated c [] k e = record {
  rekeyed = Rekeyed-refl c;
  reads = refl;
  pooled = λ item named. record {
    no_dup = k.no_dup;
    no_free = k.no_free;
    block = k.block;
    size_fits = k.size_fits;
    bound = k.bound;
    good = rw named k.good;
    apart = λ p. rw named (k.apart p);
    counted = rw named k.counted;
  };
  grows = omega arith;
}
empty-Duplicated c (b ∷ bs) k e = absurd (omega arith)

-- In a pool in order, if the stash holds nothing from its extent on and every request for memory is
-- granted, `coucal_dup_name_internal` fails no assertion, for any key without a NUL byte with which the
-- pool stays within 2^63 bytes, one that points into the pool included. The table reads as before, the
-- duplicate reads what the key did, its bytes are no other key's, and the pool grows by no more than the
-- key and its NUL.
pub dup_name_internal-Duplicated :
    (alloc : Allocator) (c : Coucal) (name : Name)
    → Pooled c none
    → StashClear c
    → Generous alloc
    → IsText (text c.pool.buffer name)
    → c.pool.size + (length (text c.pool.buffer name) + 1) ≤ 2 ^ 63
    → Returns (dup_name_internal alloc c name) (Duplicated c (text c.pool.buffer name))
unfolding dup_name_internal
dup_name_internal-Duplicated alloc c name k clear generous string bound =
    let t = text c.pool.buffer name in
    let len : inc_size (length t) ≡ length t + 1 = add_size-small (length t) 1 (omega arith) in
    elim (Bool-cases (length t + 1 == 1)) [
      | inl e ↦ ((c, the_empty_string), rw (len, e), empty-Duplicated c t k (ground arith))
      | inr e ↦
          rw (len, e)
            (copy_name-Duplicated alloc c name k clear generous string (ground arith) bound)
    ]
