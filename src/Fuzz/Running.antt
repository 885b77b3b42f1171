-- ===== src/Fuzz/Running.antt =====
-- The rounds of the harness, from a new table on.
use coucal.Api.Starting.{new-granted}
use coucal.Api.Creation.{new_table-view}
use coucal.Api.Pooling.{set_up-PooledTable}
use coucal.Api.{no_key_handlers, nitems, new_table, set_assert_handler}
use coucal.Base.{
  ℕ, ◌+◌, ◌*◌, ◌<◌, ◌≤◌, ◌%◌, ◌^◌, ◌≡◌, refl, ap, subst, sym, ◌∙◌, inl, inr, Bool, true, ◌&&◌, none,
  some, List, [], ◌∷◌, length, ltb, ◌==◌, if◌then◌else◌, Bool-cases, arith,
}
use coucal.Fuzz.Agreeing.{Agrees}
use coucal.Fuzz.Stepping.{write_step, remove_step, inc_step, lookup_step}
use coucal.Fuzz.{
  KeyPrinter, Prints, Harness, fz_keys, fuzz_write, fuzz_remove, fuzz_lookup, fuzz_inc, fuzz_step,
  fuzz_steps, fuzz_start, nothing_modelled, decode, fuzz_rounds,
}
use coucal.Pool.Duplicating.{Generous}
use coucal.Run.{Run, ok, abort, ◌>>=◌, Returns}
use coucal.State.{World, Coucal, Allocator, stash_size}
use coucal.Table.Pooling.Tables.{PooledTable}
use coucal.Table.View.{view}

abbrev pub after_round : (Harness → Bool) → Run Harness → Bool
after_round f abort = true
after_round f (ok s) = f s

-- Does the stash have a free slot, and the table a size below the greatest, before every round?
unfoldable pub has_room : Allocator → KeyPrinter → Harness → List (ℕ × ℕ) → Bool
unfolding fuzz_step
has_room alloc print s [] = true
has_room alloc print s (op ∷ ops) =
    ltb s.table.stash.size stash_size
    && (ltb s.table.lg_size 32
        && after_round (λ s'. has_room alloc print s' ops) (fuzz_step alloc print s op))

module _ (alloc : Allocator) (print : KeyPrinter) (n : ℕ) (s : Harness) (generous : Generous alloc)
    (prints : Prints print) (a : Agrees print n s) (short : n + 1 < 2 ^ 31)
    (room : s.table.stash.size < stash_size) (low : s.table.lg_size < 32) where
  -- The operation of a round.
  abbrev operate : ℕ → ℕ → Run Harness
  operate op kid =
      if op == 0
      then fuzz_write alloc print s kid
      else if op == 1
      then fuzz_remove alloc print s kid
      else if op == 2
      then fuzz_lookup alloc print s kid
      else fuzz_inc alloc print s kid

  operate-Agrees : (op kid : ℕ) → kid < fz_keys → Returns (operate op kid) (Agrees print (n + 1))
  operate-Agrees op kid small = elim (Bool-cases (op == 0)) [
    | inl e ↦ rw e (write_step alloc print n s kid generous prints a short small room low)
    | inr e ↦ elim (Bool-cases (op == 1)) [
      | inl e' ↦ rw (e, e') (remove_step alloc print n s kid generous prints a short small)
      | inr e' ↦ elim (Bool-cases (op == 2)) [
        | inl e'' ↦ rw (e, e', e'') (lookup_step alloc print n s kid generous prints a short small)
        | inr e'' ↦
            rw (e, e', e'') (inc_step alloc print n s kid generous prints a short small room low)
      ]
    ]
  ]

  pub fuzz_step-Agrees : (op : ℕ × ℕ) → Returns (fuzz_step alloc print s op) (Agrees print (n + 1))
  unfolding fuzz_step nitems
  fuzz_step-Agrees (code, byte) =
      let (s', run, b) = operate-Agrees (code % 4) (byte % fz_keys) (omega arith) in
      let counted : (s'.table.used == s'.model.count) ≡ true = ground (arith, b.count) in
      (s', rw (run, ◌>>=◌, counted), b)

-- Sixteen rounds at most always have room, whatever their keys collide on.
few_steps-has_room :
    (alloc : Allocator) (print : KeyPrinter) (n : ℕ) (s : Harness) (ops : List (ℕ × ℕ))
    → Generous alloc
    → Prints print
    → Agrees print n s
    → n + length ops ≤ stash_size
    → has_room alloc print s ops ≡ true
unfolding has_room
few_steps-has_room alloc print n s [] generous prints a few = refl
few_steps-has_room alloc print n s (op ∷ ops) generous prints a few =
    let v = a.table.valid in
    let free : s.table.stash.size < stash_size =
      omega (arith, v.counted, v.layout.stash_live, a.fuller) in
    let low : s.table.lg_size < 32 = omega (arith, a.taller) in
    let free' : ltb s.table.stash.size stash_size ≡ true = ground arith in
    let low' : ltb s.table.lg_size 32 ≡ true = ground arith in
    let (s', run, b) =
      fuzz_step-Agrees alloc print n s generous prints a (omega arith) free low op in
    rw (free', low', run)
      (few_steps-has_room alloc print (n + 1) s' ops generous prints b (omega arith))

-- Along a whole list of rounds.
pub fuzz_steps-Agrees :
    (alloc : Allocator) (print : KeyPrinter) (n : ℕ) (s : Harness) (ops : List (ℕ × ℕ))
    → Generous alloc
    → Prints print
    → Agrees print n s
    → n + length ops < 2 ^ 31
    → has_room alloc print s ops ≡ true
    → Returns (fuzz_steps alloc print s ops) (Agrees print (n + length ops))
unfolding fuzz_steps has_room
fuzz_steps-Agrees alloc print n s [] generous prints a short room =
    (s, refl, subst (λ k. Agrees print k s) same a)
  where
    same : n ≡ n + 0
    same = omega arith
fuzz_steps-Agrees alloc print n s (op ∷ ops) generous prints a short room =
    let (free, low) =
      ready s.table.stash.size s.table.lg_size
        (after_round (λ s'. has_room alloc print s' ops) (fuzz_step alloc print s op)) room in
    let (s', run, b) =
      fuzz_step-Agrees alloc print n s generous prints a (omega arith) free low op in
    let later = after_round (λ s'. has_room alloc print s' ops) (fuzz_step alloc print s op) in
    let room' : has_room alloc print s' ops ≡ true =
      sym (ap (after_round (λ s'. has_room alloc print s' ops)) run)
      ∙ later-true (ltb s.table.stash.size stash_size) (ltb s.table.lg_size 32) later room in
    let (s'', run', d) =
      fuzz_steps-Agrees alloc print (n + 1) s' ops generous prints b (omega arith) room' in
    (s'', rw (run, ◌>>=◌) run', subst (λ k. Agrees print k s'') (omega arith) d)
  where
    ready :
        (stashed lg : ℕ) (later : Bool)
        → ltb stashed stash_size && (ltb lg 32 && later) ≡ true
        → (stashed < stash_size) × (lg < 32)
    ready stashed lg later e = (ground arith, ground arith)

    later-true : (p q r : Bool) → p && (q && r) ≡ true → r ≡ true
    later-true p q r e = ground arith

-- The table of the harness, before the first round.
abbrev pub start_table : World → Coucal
start_table w =
    set_assert_handler (new_table (record w { allocations = w.allocations + 2 }) 4) (some 1) none

start-PooledTable : (w : World) → PooledTable (start_table w)
unfolding set_assert_handler
start-PooledTable w =
    let w' = record w { allocations = w.allocations + 2 } in
    let t =
      set_up-PooledTable w' 4 no_key_handlers none (omega arith) (omega arith)
        (record { no_dup = refl; no_free = refl }) in
    let v = t.valid in
    let k = t.pool in
    let l = v.layout in
    record {
      valid = record {
        layout = record {
          lg_low = l.lg_low;
          lg_high = l.lg_high;
          width = l.width;
          home = l.home;
          stash_width = l.stash_width;
          stash_extent = l.stash_extent;
          stash_live = l.stash_live;
          stash_clear = l.stash_clear;
        };
        counted = v.counted;
        hashed = v.hashed;
        once = v.once;
      };
      pool = record {
        no_dup = k.no_dup;
        no_free = k.no_free;
        block = k.block;
        size_fits = k.size_fits;
        bound = k.bound;
        good = k.good;
        apart = k.apart;
        counted = k.counted;
      };
    }

pub start-Agrees :
    (print : KeyPrinter) (w : World)
    → Agrees print 0 (record { table = start_table w; model = nothing_modelled })
unfolding set_assert_handler view
start-Agrees print w = record {
  table = start-PooledTable w;
  handlers = refl;
  entries = λ kid h. new_table-view (record w { allocations = w.allocations + 2 }) 4 (print kid);
  others = λ k h. new_table-view (record w { allocations = w.allocations + 2 }) 4 k;
  count = refl;
  counter = omega arith;
  values = λ kid. omega arith;
  pool = omega arith;
  fuller = omega arith;
  taller = omega arith;
}

pub fuzz_start-run :
    (alloc : Allocator) (w : World)
    → Generous alloc
    → fuzz_start alloc w ≡ ok (record { table = start_table w; model = nothing_modelled })
unfolding fuzz_start set_assert_handler
fuzz_start-run alloc w generous = rw (fuzz_start, new-granted alloc w generous)

pub length-decode : (bytes : List ℕ) → length (decode bytes) * 2 ≤ length bytes
unfolding decode
length-decode [] = omega arith
length-decode (a ∷ []) = omega arith
length-decode (a ∷ b ∷ bytes) = omega (arith, length-decode bytes)

-- If every request for memory is granted and the printed keys are as they should be, an input of at
-- most 33 bytes has room before every round, however its keys collide.
pub few_rounds-has_room :
    (alloc : Allocator) (print : KeyPrinter) (w : World) (bytes : List ℕ)
    → Generous alloc
    → Prints print
    → length bytes ≤ 33
    → has_room alloc print
        (record { table = start_table w; model = nothing_modelled })
        (decode bytes)
      ≡ true
few_rounds-has_room alloc print w bytes generous prints short =
    few_steps-has_room alloc print 0 (record { table = start_table w; model = nothing_modelled })
      (decode bytes) generous prints (start-Agrees print w) (omega (arith, length-decode bytes))

-- If every request for memory is granted and the printed keys are as they should be, the rounds of the
-- harness on an input of less than 2^31 bytes reach no `abort()` of the harness and fail no assertion of
-- the library, as long as the stash has a free slot and the table is below the greatest size: the table
-- reads what the model says of each key, and has as many items.
pub fuzz_rounds-Agrees :
    (alloc : Allocator) (print : KeyPrinter) (w : World) (bytes : List ℕ)
    → Generous alloc
    → Prints print
    → length bytes < 2 ^ 31
    → has_room alloc print
        (record { table = start_table w; model = nothing_modelled })
        (decode bytes)
      ≡ true
    → Returns (fuzz_rounds alloc print w bytes) (Agrees print (length (decode bytes)))
unfolding fuzz_rounds
fuzz_rounds-Agrees alloc print w bytes generous prints short room =
    let s : Harness = record { table = start_table w; model = nothing_modelled } in
    let (s', run, a) =
      fuzz_steps-Agrees alloc print 0 s (decode bytes) generous prints (start-Agrees print w)
        (omega (arith, length-decode bytes)) room in
    (
      s',
      rw (fuzz_start-run alloc w generous, ◌>>=◌, run),
      subst (λ k. Agrees print k s') (omega arith) a,
    )
