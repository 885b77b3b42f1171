-- ===== src/Fuzz/Stepping.antt =====
-- One round of the harness.

use coucal.Api.Pooling.{inc_value-Tallied}
use coucal.Api.Reads.{reads_lem, found_or}
use coucal.Api.{write, exists, read, inc, inc_value, read_value}
use coucal.Base.{
  ℕ, ◌+◌, ◌<◌, ◌≤◌, ◌%◌, ◌^◌, ◌≡◌, refl, ap, ◌∙◌, Bool, true, false, not, Option, none, some,
  is_none, ◌==◌, if◌then◌else◌, arith,
}
use coucal.Base.Words.{size_mod, u32_mod, inc_size, dec_size}
use coucal.Fuzz.Agreeing.{Agrees, modelled, put_entries, drop_entries, others_missing}
use coucal.Api.Starting.{laws_of}
use coucal.Fuzz.{
  KeyPrinter, Prints, Harness, at_key, fz_keys, widen, fuzz_write, fuzz_remove, fuzz_lookup,
  fuzz_inc,
}
use coucal.Keys.{equal_texts}
use coucal.Pool.Duplicating.{Generous}
use coucal.Pool.{text}
use coucal.Run.{ok, ◌>>=◌, Returns}
use coucal.State.{outside, Custom, Coucal, Allocator, stash_size}
use coucal.Table.Pooling.Removing.{remove-Dropped}
use coucal.Table.Pooling.Writing.{CanAppend, write_value-Stored}
use coucal.Table.Remove.{remove}
use coucal.Table.View.{view}
use coucal.Table.Writing.{used-lt}

module _ (alloc : Allocator) (print : KeyPrinter) where
  fuzz_write-run :
      (s : Harness) (kid : ℕ) (r : Coucal × Bool)
      → write alloc s.table (outside (print kid)) ((s.model.counter + 1) % size_mod) ≡ ok r
      → (if s.model.present kid then not r.1 else r.1) ≡ true
      → fuzz_write alloc print s kid
        ≡ ok (record {
          table = r.0;
          model = record {
            value = at_key s.model.value kid ((s.model.counter + 1) % size_mod);
            present = at_key s.model.present kid true;
            count = if s.model.present kid then s.model.count else inc_size s.model.count;
            counter = (s.model.counter + 1) % size_mod;
          };
        })
  unfolding fuzz_write
  fuzz_write-run s kid r run e = rw (run, ◌>>=◌, e)

  fuzz_remove-run :
      (s : Harness) (kid : ℕ) (r : Coucal × Bool)
      → remove alloc s.table (outside (print kid)) ≡ ok r
      → (if s.model.present kid then r.1 else not r.1) ≡ true
      → fuzz_remove alloc print s kid
        ≡ ok (record {
          table = r.0;
          model = record (s.model) {
            present = at_key s.model.present kid false;
            count = if s.model.present kid then dec_size s.model.count else s.model.count;
          };
        })
  unfolding fuzz_remove
  fuzz_remove-run s kid r run e = rw (run, ◌>>=◌, e)

  fuzz_lookup-run :
      (s : Harness) (kid : ℕ) (o : Option ℕ)
      → read_value s.table (outside (print kid)) false 0 ≡ (0, not (is_none o))
      → read_value s.table (outside (print kid)) true 0 ≡ (found_or o 0, not (is_none o))
      → o ≡ modelled s.model kid
      → fuzz_lookup alloc print s kid ≡ ok s
  unfolding fuzz_lookup exists read
  fuzz_lookup-run s kid o e1 e2 e3 = rw (fuzz_lookup, exists, e1, read, e2, e3) (ground arith)

  fuzz_inc-run :
      (s : Harness) (kid : ℕ) (r : Coucal × ℕ) (v : ℕ)
      → inc_value alloc s.table (outside (print kid)) 1 ≡ ok r
      → (if s.model.present kid then (s.model.value kid + 1) % size_mod else 1) ≡ v
      → (widen (r.1 % u32_mod) == v) ≡ true
      → fuzz_inc alloc print s kid
        ≡ ok (record {
          table = r.0;
          model = record (s.model) {
            value = at_key s.model.value kid v;
            present = at_key s.model.present kid true;
            count = if s.model.present kid then s.model.count else inc_size s.model.count;
          };
        })
  unfolding fuzz_inc inc
  fuzz_inc-run s kid r v run e1 e2 = rw (run, ◌>>=◌, e1, e2)

module _ (alloc : Allocator) (print : KeyPrinter) (n : ℕ) (s : Harness) (kid : ℕ)
    (generous : Generous alloc) (prints : Prints print) (a : Agrees print n s)
    (short : n + 1 < 2 ^ 31) (small : kid < fz_keys) where
  there : view s.table (print kid) ≡ modelled s.model kid
  there = a.entries kid small

  -- A missing key can be added where the table has room.
  can_append :
      s.table.stash.size < stash_size → s.table.lg_size < 32 → CanAppend s.table (print kid)
  can_append room low = record {
    room = room;
    small = low;
    string = prints.print-IsText kid;
    bound = omega (arith, a.pool, prints.length-print kid);
  }

  -- The count of the model after an addition.
  counted_up :
      (u : ℕ)
      → u ≡ (if is_none (view s.table (print kid)) then s.table.used + 1 else s.table.used)
      → (if s.model.present kid then s.model.count else inc_size s.model.count) ≡ u
  counted_up u e =
      ground (arith, e, there, ap inc_size a.count, a.count, used-lt s.table a.table.valid)

  one_more :
      (u : ℕ)
      → u ≡ (if is_none (view s.table (print kid)) then s.table.used + 1 else s.table.used)
      → u ≤ n + 1
  one_more u e = bounded (is_none (view s.table (print kid))) e
    where
      bounded : (b : Bool) → u ≡ (if b then s.table.used + 1 else s.table.used) → u ≤ n + 1
      bounded b e = ground (arith, a.fuller)

  one_less :
      (u : ℕ) → (if is_none (view s.table (print kid)) then u else u + 1) ≡ s.table.used → u ≤ n + 1
  one_less u e = bounded (is_none (view s.table (print kid))) e
    where
      bounded : (b : Bool) → (if b then u else u + 1) ≡ s.table.used → u ≤ n + 1
      bounded b e = ground (arith, a.fuller)

  below_at : (f : ℕ → ℕ) (v b j : ℕ) → ((j : ℕ) → f j ≤ b) → v ≤ b → at_key f kid v j ≤ b
  below_at f v b j h hv = ground (arith, h j)

  pub write_step :
      s.table.stash.size < stash_size
      → s.table.lg_size < 32
      → Returns (fuzz_write alloc print s kid) (Agrees print (n + 1))
  unfolding write text
  write_step room low =
      let name = outside (print kid) in
      let v = (s.model.counter + 1) % size_mod in
      let (r, run, st) =
        write_value-Stored alloc s.table name v (laws_of s.table a.handlers) a.table generous
          (λ _. can_append room low) in
      let w = st.wrote in
      (
        _,
        fuzz_write-run alloc print s kid r run (ground (arith, w.added, there)),
        record {
          table = st.table;
          handlers = ap (λ (u : Custom). u.key) w.custom ∙ a.handlers;
          entries =
              put_entries print s.table r.0 s.model kid prints a.handlers small a.entries v w.reads;
          others =
              others_missing print s.table r.0 s.model kid prints a.handlers small a.entries
                (some v) a.others w.reads;
          count = counted_up r.0.used w.nitems;
          counter = omega (arith, a.counter);
          values = λ j.
              below_at s.model.value v (n + 1) j (λ j. omega (arith, a.values j))
                (omega (arith, a.counter));
          pool = omega (arith, w.grows, a.pool, prints.length-print kid);
          fuller = one_more r.0.used w.nitems;
          taller = omega (arith, w.taller, a.taller);
        },
      )

  counted_down :
      (u : ℕ)
      → (if is_none (view s.table (print kid)) then u else u + 1) ≡ s.table.used
      → (if s.model.present kid then dec_size s.model.count else s.model.count) ≡ u
  counted_down u e = ground (arith, e, there, a.count, used-lt s.table a.table.valid)

  pub remove_step : Returns (fuzz_remove alloc print s kid) (Agrees print (n + 1))
  unfolding text
  remove_step =
      let name = outside (print kid) in
      let (r, run, d) =
        remove-Dropped alloc s.table name (laws_of s.table a.handlers) a.table generous in
      (
        _,
        fuzz_remove-run alloc print s kid r run (ground (arith, d.removed, there)),
        record {
          table = d.table;
          handlers = ap (λ (u : Custom). u.key) d.custom ∙ a.handlers;
          entries =
              drop_entries print s.table r.0 s.model kid prints a.handlers small a.entries d.reads;
          others =
              others_missing print s.table r.0 s.model kid prints a.handlers small a.entries none
                a.others d.reads;
          count = counted_down r.0.used d.nitems;
          counter = omega (arith, a.counter);
          values = λ j. omega (arith, a.values j);
          pool = omega (arith, d.smaller, a.pool);
          fuller = one_less r.0.used d.nitems;
          taller = omega (arith, d.thins.lg_size, a.taller);
        },
      )

  -- The sum of `coucal_inc` is the one that the model has, `int` and `intptr_t` being wide enough.
  summed :
      (got : ℕ)
      → got ≡ (found_or (view s.table (print kid)) 0 + 1) % size_mod
      → got ≡ (if s.model.present kid then (s.model.value kid + 1) % size_mod else 1)
  summed got e = ground (arith, e, there, a.values kid)

  narrow : (got : ℕ) → got < 2 ^ 31 → widen (got % u32_mod) ≡ got
  narrow got h = ground arith

  pub inc_step :
      s.table.stash.size < stash_size
      → s.table.lg_size < 32
      → Returns (fuzz_inc alloc print s kid) (Agrees print (n + 1))
  unfolding text
  inc_step room low =
      let name = outside (print kid) in
      let m = s.model in
      let v = if m.present kid then (m.value kid + 1) % size_mod else 1 in
      let (r, run, t) =
        inc_value-Tallied alloc s.table name 1 (laws_of s.table a.handlers) a.table generous
          (omega arith) (λ _. can_append room low) in
      let w = t.counted in
      let sum : r.1 ≡ v = summed r.1 w.sum in
      let bound : v ≤ n + 1 = ground (arith, a.values kid) in
      let got : widen (r.1 % u32_mod) ≡ v = narrow r.1 (omega arith) ∙ sum in
      (
        _,
        fuzz_inc-run alloc print s kid r v run refl (ground (arith, got)),
        record {
          table = t.table;
          handlers = ap (λ (u : Custom). u.key) w.custom ∙ a.handlers;
          entries = put_entries print s.table r.0 m kid prints a.handlers small a.entries v (λ k.
              w.reads k
              ∙ ap
                  (λ x.
                    if equal_texts s.table.custom.key k (print kid) then some x else view s.table k)
                  sum);
          others =
              others_missing print s.table r.0 s.model kid prints a.handlers small a.entries
                (some r.1) a.others w.reads;
          count = counted_up r.0.used w.nitems;
          counter = omega (arith, a.counter);
          values = λ j. below_at m.value v (n + 1) j (λ j. omega (arith, a.values j)) bound;
          pool = omega (arith, w.grows, a.pool, prints.length-print kid);
          fuller = one_more r.0.used w.nitems;
          taller = omega (arith, w.taller, a.taller);
        },
      )

  pub lookup_step : Returns (fuzz_lookup alloc print s kid) (Agrees print (n + 1))
  unfolding text
  lookup_step =
      let name = outside (print kid) in
      let reads = reads_lem s.table name (laws_of s.table a.handlers) a.table.valid in
      (
        s,
        fuzz_lookup-run alloc print s kid (modelled s.model kid)
            (reads.value false 0 ∙ ap (λ o. (0, not (is_none o))) there)
            (reads.value true 0 ∙ ap (λ o. (found_or o 0, not (is_none o))) there) refl,
        record {
          table = a.table;
          handlers = a.handlers;
          entries = a.entries;
          others = a.others;
          count = a.count;
          counter = omega (arith, a.counter);
          values = λ j. omega (arith, a.values j);
          pool = omega (arith, a.pool);
          fuller = omega (arith, a.fuller);
          taller = omega (arith, a.taller);
        },
      )
