-- ===== src/Session/Performing.antt =====
-- One call of a client against the partial map: what the table does is what the map says.
use coucal.Api.Modes.{inc_value-Increased}
use coucal.Api.Reads.{Reads, found_or, reads_lem}
use coucal.Api.{write, add, inc, dec, inc_value, write_pvoid, add_pvoid, nitems}
use coucal.Base.{
  ℕ, ◌+◌, ◌-◌, ◌%◌, ◌<◌, ◌≤◌, ◌≡◌, refl, ap, sym, subst, ◌∙◌, Bool, not, Option, none, some, List,
  length, if◌then◌else◌, is_none, ◌==◌, arith,
}
use coucal.Base.Words.{size_mod, u32_mod}
use coucal.Keys.Laws.{KeyLaws}
use coucal.Keys.{equal_texts}
use coucal.Pool.Duplicating.{Generous}
use coucal.Pool.{text}
use coucal.Run.{ok, Returns}
use coucal.Session.{
  Call, Answer, done, flag, number, value, perform, Mapping, put, drop, sum, expected, Represents,
  adds, cost, load, call_write, call_write_pvoid, call_add, call_add_pvoid, call_inc, call_dec,
  call_remove, call_read, call_read_pvoid, call_readptr, call_get_intptr, call_get_pvoid,
  call_exists, call_nitems,
}
use coucal.State.{outside, Custom, KeyHandlers, Coucal, Allocator}
use coucal.Table.Modes.{CanTake, Ready-Valid, Deleted, remove-Deleted, Written, write_value-Written}
use coucal.Table.View.{view}
use coucal.Table.Write.{write_value}

-- The table after a call, at the cost of so many entries and bytes.
pub record Advanced (h : KeyHandlers) (c c' : Coucal) (m : Mapping) (entries bytes : ℕ)
    : Type 0 where
  pub represents : Represents h c' m
  pub fuller : c'.used ≤ c.used + entries
  pub taller : c'.lg_size ≤ c.lg_size + entries
  pub grows : c'.pool.size ≤ c.pool.size + bytes

pub record Performed (h : KeyHandlers) (c : Coucal) (m : Mapping) (call : Call)
    (r : Coucal × Answer) : Type 0 where
  pub advanced : Advanced h c r.0 (expected h m call).0 (cost call) (load call)
  pub answer : r.1 ≡ (expected h m call).1

-- Room for the key that a call may add.
abbrev pub Fits : Coucal → Option (List ℕ) → Type 0
Fits c none = Unit
Fits c (some k) = CanTake c k

module _ (alloc : Allocator) (h : KeyHandlers) (c : Coucal) (m : Mapping)
    (generous : Generous alloc) (laws : KeyLaws h) (x : Represents h c m) where
  here : KeyLaws c.custom.key
  here = subst KeyLaws (sym x.handlers) laws

  by_map :
      (k q : List ℕ) (o : Option ℕ)
      → (if equal_texts c.custom.key q k then o else view c q)
        ≡ (if equal_texts h q k then o else m.lookup q)
  by_map k q o i = if equal_texts (x.handlers i) q k then o else x.entries q i

  counted_up :
      (k : List ℕ) (u : ℕ)
      → u ≡ (if is_none (view c k) then c.used + 1 else c.used)
      → u ≡ (if is_none (m.lookup k) then m.count + 1 else m.count)
  counted_up k u e = e ∙ (λ i. if is_none (x.entries k i) then x.count i + 1 else x.count i)

  one_more : (b : Bool) (u n : ℕ) → u ≡ (if b then n + 1 else n) → u ≤ n + 1
  one_more b u n e = ground arith

  stored-Advanced :
      (k : List ℕ) (v : ℕ) (r : Coucal × Bool)
      → Written c (outside k) v r
      → Advanced h c r.0 (put h m k v) 1 (length k + 1)
  unfolding text
  stored-Advanced k v r s = record {
    represents = record {
      table = s.ready;
      handlers = ap (λ (u : Custom). u.key) s.wrote.custom ∙ x.handlers;
      entries = λ q. s.wrote.reads q ∙ by_map k q (some v);
      count = counted_up k r.0.used s.wrote.nitems;
    };
    fuller = one_more (is_none (view c k)) r.0.used c.used s.wrote.nitems;
    taller = omega (arith, s.wrote.taller);
    grows = s.wrote.grows;
  }

  write_value-Advanced :
      (k : List ℕ) (v : ℕ)
      → CanTake c k
      → Returns
          (write_value alloc c (outside k) v)
          λ r. Advanced h c r.0 (put h m k v) 1 (length k + 1) × (r.1 ≡ is_none (m.lookup k))
  unfolding text
  write_value-Advanced k v can =
      let (r, run, s) =
        write_value-Written alloc c (outside k) v here x.table generous (λ _. can) in
      (r, run, (stored-Advanced k v r s, s.wrote.added ∙ ap is_none (x.entries k)))

  inc_value-Advanced :
      (k : List ℕ) (amount : ℕ)
      → amount < size_mod
      → CanTake c k
      → Returns (inc_value alloc c (outside k) amount) λ r.
        Advanced h c r.0 (put h m k (sum h m k amount)) 1 (length k + 1) × (r.1 ≡ sum h m k amount)
  unfolding text
  inc_value-Advanced k amount small can =
      let (r, run, t) =
        inc_value-Increased alloc c (outside k) amount here x.table generous small (λ _. can) in
      let w = t.counted in
      let total : r.1 ≡ sum h m k amount = rw (sym (x.entries k)) w.sum in
      (
        r,
        run,
        (
          record {
            represents = record {
              table = t.ready;
              handlers = ap (λ (u : Custom). u.key) w.custom ∙ x.handlers;
              entries = λ q.
                  w.reads q
                  ∙ by_map k q (some r.1)
                  ∙ ap (λ v. if equal_texts h q k then some v else m.lookup q) total;
              count = counted_up k r.0.used w.nitems;
            };
            fuller = one_more (is_none (view c k)) r.0.used c.used w.nitems;
            taller = omega (arith, w.taller);
            grows = w.grows;
          },
          total,
        ),
      )

  counted_down :
      (o : Option ℕ) (u n : ℕ)
      → (if is_none o then u else u + 1) ≡ n
      → (u ≡ (if is_none o then n else n - 1)) × (u ≤ n + 0)
  counted_down o u n e = (ground arith, ground arith)

  removal-Advanced :
      (k : List ℕ) (r : Coucal × Bool) → Deleted c (outside k) r → Advanced h c r.0 (drop h m k) 0 0
  unfolding text
  removal-Advanced k r d =
      let (count, fuller) = counted_down (view c k) r.0.used c.used d.nitems in
      record {
        represents = record {
          table = d.ready;
          handlers = ap (λ (u : Custom). u.key) d.custom ∙ x.handlers;
          entries = λ q. d.reads q ∙ by_map k q none;
          count = count ∙ (λ i. if is_none (x.entries k i) then x.count i else x.count i - 1);
        };
        fuller = fuller;
        taller = omega (arith, d.thins.lg_size);
        grows = omega (arith, d.smaller);
      }

  same-Advanced : Advanced h c c m 0 0
  same-Advanced = record {
    represents = x;
    fuller = omega arith;
    taller = omega arith;
    grows = omega arith;
  }

  Reads-key : (k : List ℕ) → Reads c (outside k)
  Reads-key k = reads_lem c (outside k) here (Ready-Valid x.table)

  -- A call that only reads.
  answered :
      (call : Call) (a : Answer)
      → perform alloc c call ≡ ok (c, a)
      → a ≡ (expected h m call).1
      → Advanced h c c (expected h m call).0 (cost call) (load call)
      → Returns (perform alloc c call) (Performed h c m call)
  answered call a run e same = ((c, a), run, record { advanced = same; answer = e })

  pub perform-Performed :
      (call : Call) → Fits c (adds call) → Returns (perform alloc c call) (Performed h c m call)
  unfolding perform write write_pvoid add add_pvoid inc dec nitems text
  perform-Performed (call_write k v) can =
      let (r, run, (a, e)) = write_value-Advanced k v can in
      ((r.0, flag r.1), rw run, record { advanced = a; answer = ap flag e })
  perform-Performed (call_write_pvoid k v) can =
      let (r, run, (a, e)) = write_value-Advanced k v can in
      ((r.0, flag r.1), rw run, record { advanced = a; answer = ap flag e })
  perform-Performed (call_add k v) can =
      let (r, run, (a, e)) = write_value-Advanced k v can in
      ((r.0, done), rw run, record { advanced = a; answer = refl })
  perform-Performed (call_add_pvoid k v) can =
      let (r, run, (a, e)) = write_value-Advanced k v can in
      ((r.0, done), rw run, record { advanced = a; answer = refl })
  perform-Performed (call_inc k) can =
      let (r, run, (a, e)) = inc_value-Advanced k 1 (omega arith) can in
      (
        (r.0, number (r.1 % u32_mod)),
        rw run,
        record { advanced = a; answer = ap (λ n. number (n % u32_mod)) e },
      )
  perform-Performed (call_dec k) can =
      let (r, run, (a, e)) = inc_value-Advanced k (size_mod - 1) (omega arith) can in
      (
        (r.0, number (r.1 % u32_mod)),
        rw run,
        record { advanced = a; answer = ap (λ n. number (n % u32_mod)) e },
      )
  perform-Performed (call_remove k) can =
      let (r, run, d) = remove-Deleted alloc c (outside k) here x.table generous in
      (
        (r.0, flag r.1),
        rw run,
        record {
          advanced = removal-Advanced k r d;
          answer = ap flag (d.removed ∙ ap (λ o. not (is_none o)) (x.entries k));
        },
      )
  perform-Performed (call_read k) can =
      answered (call_read k) _ refl (rw ((Reads-key k).zeroed, x.entries k)) same-Advanced
  perform-Performed (call_read_pvoid k) can =
      answered (call_read_pvoid k) _ refl (rw ((Reads-key k).pvoid, x.entries k)) same-Advanced
  perform-Performed (call_readptr k) can =
      answered (call_readptr k) _ refl
        (ap (λ (p : ℕ × Bool). value p.0 p.1) (Reads-key k).pointer
          ∙ ap (λ o. value (found_or o 0) (not (found_or o 0 == 0))) (x.entries k))
        same-Advanced
  perform-Performed (call_get_intptr k) can =
      answered (call_get_intptr k) _ refl (rw ((Reads-key k).intptr, x.entries k)) same-Advanced
  perform-Performed (call_get_pvoid k) can =
      answered (call_get_pvoid k) _ refl (rw ((Reads-key k).get_pointer, x.entries k)) same-Advanced
  perform-Performed (call_exists k) can =
      answered (call_exists k) _ refl (rw ((Reads-key k).existence, x.entries k)) same-Advanced
  perform-Performed call_nitems can = answered call_nitems _ refl (ap number x.count) same-Advanced
