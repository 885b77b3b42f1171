-- ===== src/Fuzz/Filling.antt =====
-- How far the rounds of the harness get when nothing is known of the room in the table.
use coucal.Base.{
  ℕ, ◌+◌, ◌^◌, ◌≤◌, ◌<◌, ◌≡◌, ◌⊎◌, inl, inr, refl, ap, subst, List, [], ◌∷◌, ◌++◌, length, ltb,
  Bool-cases, arith,
}
use coucal.Fuzz.Agreeing.{Agrees}
use coucal.Fuzz.Running.{start_table, fuzz_step-Agrees, start-Agrees, fuzz_start-run, length-decode}
use coucal.Fuzz.{
  KeyPrinter, Prints, Harness, fuzz_step, fuzz_steps, fuzz_start, decode, nothing_modelled,
}
use coucal.Pool.Duplicating.{Generous}
use coucal.Run.{Run, ok, ◌>>=◌, Returns}
use coucal.State.{World, Coucal, Allocator, stash_size}

-- The stash is full, or the table has the greatest size.
abbrev pub Full : Coucal → Type 0
Full c = (stash_size ≤ c.stash.size) ⊎ (32 ≤ c.lg_size)

-- The rounds from a new table on: `fuzz_rounds` before an input is decoded.
abbrev pub rounds_from : Allocator → KeyPrinter → World → List (ℕ × ℕ) → Run Harness
rounds_from alloc print w ops = fuzz_start alloc w >>= λ s. fuzz_steps alloc print s ops

-- All rounds before one of the list ended in agreement, and this one finds the table full. The run of a
-- list of rounds is a parameter, and `n` the number of rounds that were before it.
pub record Filled (print : KeyPrinter) (n : ℕ) (run : List (ℕ × ℕ) → Run Harness)
    (ops : List (ℕ × ℕ)) : Type 0 where
  pub before : List (ℕ × ℕ)
  pub op : ℕ × ℕ
  pub after : List (ℕ × ℕ)
  pub split : ops ≡ before ++ op ∷ after
  pub agreed : Returns (run before) (λ s. Agrees print (n + length before) s × Full s.table)

-- All rounds ended in agreement, or all before one that found the table full.
pub data Headway (print : KeyPrinter) (n : ℕ) (run : List (ℕ × ℕ) → Run Harness)
    (ops : List (ℕ × ℕ)) : Type 0 where
  finished : Returns (run ops) (Agrees print (n + length ops)) → Headway print n run ops
  filled : Filled print n run ops → Headway print n run ops

module _ (alloc : Allocator) (print : KeyPrinter) (generous : Generous alloc)
    (prints : Prints print) where
  -- One round before the others.
  round_first :
      (n : ℕ) (s s' : Harness) (op : ℕ × ℕ) (ops : List (ℕ × ℕ))
      → fuzz_step alloc print s op ≡ ok s'
      → Headway print (n + 1) (fuzz_steps alloc print s') ops
      → Headway print n (fuzz_steps alloc print s) (op ∷ ops)
  unfolding fuzz_steps
  round_first n s s' op ops run (finished (s'', run', a)) =
      finished (s'', rw (run, ◌>>=◌) run', subst (λ k. Agrees print k s'') (omega arith) a)
  round_first n s s' op ops run (filled x) =
      let (s'', run', (a, full)) = x.agreed in
      filled (record {
        before = op ∷ x.before;
        op = x.op;
        after = x.after;
        split = ap (λ l. op ∷ l) x.split;
        agreed =
            (s'', rw (run, ◌>>=◌) run', (subst (λ k. Agrees print k s'') (omega arith) a, full));
      })

  fuzz_steps-Headway :
      (n : ℕ) (s : Harness) (ops : List (ℕ × ℕ))
      → Agrees print n s
      → n + length ops < 2 ^ 31
      → Headway print n (fuzz_steps alloc print s) ops
  unfolding fuzz_steps
  fuzz_steps-Headway n s [] a short =
      finished (s, refl, subst (λ k. Agrees print k s) (omega arith) a)
  fuzz_steps-Headway n s (op ∷ ops) a short =
      elim (Bool-cases (ltb s.table.stash.size stash_size)) [
        | inr full ↦ stopped (inl (ground arith))
        | inl free ↦ elim (Bool-cases (ltb s.table.lg_size 32)) [
          | inr tall ↦ stopped (inr (ground arith))
          | inl low ↦
              let (s', run, b) =
                fuzz_step-Agrees alloc print n s generous prints a (omega arith) (ground arith)
                  (ground arith) op in
              round_first n s s' op ops run (fuzz_steps-Headway (n + 1) s' ops b (omega arith))
        ]
      ]
    where
      stopped : Full s.table → Headway print n (fuzz_steps alloc print s) (op ∷ ops)
      stopped full = filled (record {
        before = [];
        op = op;
        after = ops;
        split = refl;
        agreed = (s, refl, (subst (λ k. Agrees print k s) (omega arith) a, full));
      })

-- If every request for memory is granted and the printed keys are as they should be, then on an input of
-- less than 2^31 bytes the rounds of the harness reach no `abort()` of the harness and fail no assertion
-- of the library, and the table reads what the model says of each key and has as many items; or this
-- holds of the rounds before some round of the input, which finds a full stash or a table of the
-- greatest size.
pub fuzz_rounds-Headway :
    (alloc : Allocator) (print : KeyPrinter) (w : World) (bytes : List ℕ)
    → Generous alloc
    → Prints print
    → length bytes < 2 ^ 31
    → Headway print 0 (rounds_from alloc print w) (decode bytes)
fuzz_rounds-Headway alloc print w bytes generous prints short =
    let s : Harness = record { table = start_table w; model = nothing_modelled } in
    from_start (
      fuzz_steps-Headway alloc print generous prints 0 s (decode bytes) (start-Agrees print w)
        (omega (arith, length-decode bytes)))
  where
    from_start :
        Headway print 0
          (fuzz_steps alloc print (record { table = start_table w; model = nothing_modelled }))
          (decode bytes)
        → Headway print 0 (rounds_from alloc print w) (decode bytes)
    from_start (finished (s, run, a)) =
        finished (s, rw (fuzz_start-run alloc w generous, ◌>>=◌) run, a)
    from_start (filled x) =
        let (s, run, y) = x.agreed in
        filled (record {
          before = x.before;
          op = x.op;
          after = x.after;
          split = x.split;
          agreed = (s, rw (fuzz_start-run alloc w generous, ◌>>=◌) run, y);
        })
