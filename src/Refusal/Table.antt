-- ===== src/Refusal/Table.antt =====
-- Writes, removals and counters, where memory is refused.
use coucal.Api.{write, inc_value}
use coucal.Base.{
  ℕ, ◌+◌, ◌-◌, ◌*◌, ◌%◌, ◌/◌, Bool, true, false, not, ◌||◌, Option, none, some, List, ◌∷◌, ltb, leb,
  if◌then◌else◌,
}
use coucal.Base.Words.{inc_size, size_mod, pow2}
use coucal.Keys.{dup_name, free_key, calc_hashes, matches, key_text}
use coucal.Pool.{dup_name_internal, free_key_internal}
use coucal.Refusal.Pool.{request-Falls, dup_name_internal-Falls, free_key_internal-Falls}
use coucal.Refusal.{granting, Falls, bind-Falls, same-Falls, asserted-Falls}
use coucal.Run.{Run, ok, ◌>>=◌, ◌>>◌, assert}
use coucal.State.{Hashkeys, Name, null_hashes, Coucal, Allocator, outside, stash_size}
use coucal.Table.Grow.{is_acceptable_pow2, double_items, grow, grow_if_full, sizeof_item}
use coucal.Table.Remove.{release_name, del_name, del_item, leave_hole, remove_entry, remove}
use coucal.Table.Write.{
  count_add, count_write, drain_if_used, del_value, replace_value, write_new, store, write_entry,
  write_value,
}
use coucal.Table.{
  Slot, in_table, in_stash, item_at, write_at, get_item, hash_to_pos, search_stash, fetch_value,
}

module _ (alloc : Allocator) where
  dup_name-Falls :
      (c : Coucal) (name : Name)
      → Falls alloc (dup_name alloc c name) (dup_name (granting alloc) c name)
  unfolding dup_name
  dup_name-Falls c name = go c.custom.key.dup
    where
      go :
          (dup : Option (List ℕ → List ℕ))
          → Falls alloc
              (elim dup as (λ _. Run (Coucal × Name)) [
                | none ↦ dup_name_internal alloc c name
                | some f ↦ ok (c, outside (f (key_text c name)))
              ])
              (elim dup as (λ _. Run (Coucal × Name)) [
                | none ↦ dup_name_internal (granting alloc) c name
                | some f ↦ ok (c, outside (f (key_text c name)))
              ])
      go none = dup_name_internal-Falls alloc c name
      go (some f) = same-Falls _

  abbrev key_handed : Coucal → Name → Run Coucal
  key_handed c name =
      ok (record c {
        world = record (c.world) { freed_keys = key_text c name ∷ c.world.freed_keys };
      })

  free_key-Falls :
      (c : Coucal) (name : Name)
      → Falls alloc (free_key alloc c name) (free_key (granting alloc) c name)
  unfolding free_key
  free_key-Falls c name = go c.custom.key.free
    where
      go :
          (free : Option ℕ)
          → Falls alloc
              (elim free as (λ _. Run Coucal) [
                | none ↦ free_key_internal alloc c name
                | some _ ↦ key_handed c name
              ])
              (elim free as (λ _. Run Coucal) [
                | none ↦ free_key_internal (granting alloc) c name
                | some _ ↦ key_handed c name
              ])
      go none = free_key_internal-Falls alloc c name
      go (some f) = same-Falls _

  release_name-Falls :
      (c : Coucal) (o : Option Name)
      → Falls alloc (release_name alloc c o) (release_name (granting alloc) c o)
  release_name-Falls c none = same-Falls _
  release_name-Falls c (some name) = free_key-Falls c name

  del_item-Falls :
      (c : Coucal) (at : Slot) → Falls alloc (del_item alloc c at) (del_item (granting alloc) c at)
  unfolding del_item del_name
  del_item-Falls c at =
      let c' = del_value c at in
      let item = item_at c' at in
      release_name-Falls (write_at c' at (record item { name = none; hashes = null_hashes }))
        item.name

  abbrev take_out : Allocator → Coucal → Slot → (Coucal → Coucal) → Run (Coucal × Bool)
  take_out a c at f = del_item a c at >>= λ c'. ok (f c', true)

  take_out-Falls :
      (c : Coucal) (at : Slot) (f : Coucal → Coucal)
      → Falls alloc (take_out alloc c at f) (take_out (granting alloc) c at f)
  take_out-Falls c at f = bind-Falls _ _ _ _ (del_item-Falls c at) λ c'. same-Falls _

  remove_entry-Falls :
      (c : Coucal) (name : Name) (hashes : Hashkeys)
      → Falls alloc (remove_entry alloc c name hashes) (remove_entry (granting alloc) c name hashes)
  unfolding remove_entry
  remove_entry-Falls c name hashes =
      let pos1 = hash_to_pos c hashes.hash1 in
      let pos2 = hash_to_pos c hashes.hash2 in
      go pos1 pos2 (matches c (get_item c pos1) name hashes)
        (matches c (get_item c pos2) name hashes) (search_stash c name hashes)
    where
      removed_by : Allocator → ℕ → ℕ → Bool → Bool → Option ℕ → Run (Coucal × Bool)
      removed_by a pos1 pos2 m1 m2 found =
          if m1
          then take_out a c (in_table pos1) (λ x. x)
          else if m2
          then take_out a c (in_table pos2) (λ x. x)
          else elim found [ some i ↦ take_out a c (in_stash i) leave_hole | none ↦ ok (c, false) ]

      go :
          (pos1 pos2 : ℕ) (m1 m2 : Bool) (found : Option ℕ)
          → Falls alloc
              (removed_by alloc pos1 pos2 m1 m2 found)
              (removed_by (granting alloc) pos1 pos2 m1 m2 found)
      go pos1 pos2 true m2 found = take_out-Falls c (in_table pos1) (λ x. x)
      go pos1 pos2 false true found = take_out-Falls c (in_table pos2) (λ x. x)
      go pos1 pos2 false false none = same-Falls _
      go pos1 pos2 false false (some i) = take_out-Falls c (in_stash i) leave_hole

  pub remove-Falls :
      (c : Coucal) (name : Name)
      → Falls alloc (remove alloc c name) (remove (granting alloc) c name)
  unfolding remove
  remove-Falls c name =
      bind-Falls _ _ _ _ (remove_entry-Falls c name (calc_hashes c name)) λ r. same-Falls _

  double_items-Falls :
      (c : Coucal) → Falls alloc (double_items alloc c) (double_items (granting alloc) c)
  unfolding double_items
  double_items-Falls c =
      let prev_size = pow2 (c.lg_size - 1) * 2 in
      let c1 : Coucal = record c {
        lg_size = inc_size c.lg_size;
        stats = record (c.stats) { rehash_count = inc_size c.stats.rehash_count };
      } in
      asserted-Falls (is_acceptable_pow2 c1.lg_size) _ _ (
        asserted-Falls (not (ltb ((size_mod - 1) / (2 * sizeof_item)) prev_size)) _ _ (
          bind-Falls _ _ _ _ (request-Falls alloc c1 (prev_size * sizeof_item * 2))
            λ c2. same-Falls _))

  grow-Falls : (c : Coucal) → Falls alloc (grow alloc c) (grow (granting alloc) c)
  unfolding grow
  grow-Falls c = bind-Falls _ _ _ _ (double_items-Falls c) λ c1. same-Falls _

  grow_if_full-Falls :
      (c : Coucal) → Falls alloc (grow_if_full alloc c) (grow_if_full (granting alloc) c)
  unfolding grow_if_full
  grow_if_full-Falls c = go (leb (pow2 (c.lg_size - 1)) c.used || leb (stash_size / 2) c.stash.size)
    where
      go :
          (b : Bool)
          → Falls alloc
              (if b then grow alloc c else ok c)
              (if b then grow (granting alloc) c else ok c)
      go true = grow-Falls c
      go false = same-Falls _

  write_new-Falls :
      (c : Coucal) (name : Name) (value : ℕ) (hashes : Hashkeys)
      → Falls alloc
          (write_new alloc c name value hashes)
          (write_new (granting alloc) c name value hashes)
  unfolding write_new
  write_new-Falls c name value hashes =
      bind-Falls _ _ _ _ (dup_name-Falls (drain_if_used (count_add c)) name) λ r. same-Falls _

  store-Falls :
      (c : Coucal) (name : Name) (value : ℕ) (hashes : Hashkeys)
      → Falls alloc (store alloc c name value hashes) (store (granting alloc) c name value hashes)
  unfolding store
  store-Falls c name value hashes =
      let pos1 = hash_to_pos c hashes.hash1 in
      let pos2 = hash_to_pos c hashes.hash2 in
      go pos1 pos2 (matches c (get_item c pos1) name hashes)
        (matches c (get_item c pos2) name hashes) (search_stash c name hashes)
    where
      stored_by : Allocator → ℕ → ℕ → Bool → Bool → Option ℕ → Run (Coucal × Bool)
      stored_by a pos1 pos2 m1 m2 found =
          if m1
          then ok (replace_value c (in_table pos1) value, false)
          else if m2
          then ok (replace_value c (in_table pos2) value, false)
          else elim found [
            | some i ↦ ok (replace_value c (in_stash i) value, false)
            | none ↦ write_new a c name value hashes
          ]

      go :
          (pos1 pos2 : ℕ) (m1 m2 : Bool) (found : Option ℕ)
          → Falls alloc
              (stored_by alloc pos1 pos2 m1 m2 found)
              (stored_by (granting alloc) pos1 pos2 m1 m2 found)
      go pos1 pos2 true m2 found = same-Falls _
      go pos1 pos2 false true found = same-Falls _
      go pos1 pos2 false false (some i) = same-Falls _
      go pos1 pos2 false false none = write_new-Falls c name value hashes

  abbrev finished_by : Allocator → Coucal × Bool → Run (Coucal × Bool)
  finished_by a r = elim r.1 [
    | false ↦ ok r
    | true ↦ grow_if_full a (record (r.0) { used = inc_size r.0.used }) >>= λ c'. ok (c', true)
  ]

  finished_by-Falls :
      (c : Coucal) (added : Bool)
      → Falls alloc (finished_by alloc (c, added)) (finished_by (granting alloc) (c, added))
  finished_by-Falls c false = same-Falls _
  finished_by-Falls c true = bind-Falls _ _ _ _ (grow_if_full-Falls _) λ c'. same-Falls _

  pub write_value-Falls :
      (c : Coucal) (name : Name) (value : ℕ)
      → Falls alloc (write_value alloc c name value) (write_value (granting alloc) c name value)
  unfolding write_value write_entry
  write_value-Falls c name value =
      bind-Falls _ _ (finished_by alloc) (finished_by (granting alloc))
        (store-Falls (count_write c) name value (calc_hashes c name)) λ r. finished_by-Falls r.0 r.1

  pub inc_value-Falls :
      (c : Coucal) (name : Name) (amount : ℕ)
      → Falls alloc (inc_value alloc c name amount) (inc_value (granting alloc) c name amount)
  unfolding inc_value write
  inc_value-Falls c name amount = go (fetch_value c name)
    where
      counted_by : Allocator → Option Slot → Run (Coucal × ℕ)
      counted_by a (some at) =
          let item = item_at c at in
          let value = (item.value + amount) % size_mod in
          ok (write_at c at (record item { value = value }), value)
      counted_by a none = do
        (c', added) ← write_value a c name amount
        assert added
        ok (c', amount)

      go : (o : Option Slot) → Falls alloc (counted_by alloc o) (counted_by (granting alloc) o)
      go (some at) = same-Falls _
      go none = bind-Falls _ _ _ _ (write_value-Falls c name amount) λ r. same-Falls _
