-- ===== src/Refusal/Client.antt =====
-- A session of a client, where memory is refused.
use coucal.Api.{write, add, inc, dec, write_pvoid, add_pvoid}
use coucal.Base.{◌≡◌, refl, ◌∙◌, inl, inr, List, [], ◌∷◌, ◌++◌, ap, ◌⊎◌}
use coucal.Keys.Laws.{KeyLaws}
use coucal.Refusal.Table.{remove-Falls, write_value-Falls, inc_value-Falls}
use coucal.Refusal.{granting, Refused, Falls, bind-Falls, same-Falls}
use coucal.Session.{Answer, with_answer, adds}
use coucal.Run.{Run, ok, ◌>>=◌, abort, Returns}
use coucal.Session.Filling.{Follows, NoRoom, Progress, finished, filled, session-Progress}
use coucal.Session.{
  Call, perform, call_write, call_write_pvoid, call_add, call_add_pvoid, call_inc, call_dec,
  call_remove, call_read, call_read_pvoid, call_readptr, call_get_intptr, call_get_pvoid,
  call_exists, call_nitems, session, Mapping, Represents, AddsTexts,
}
use coucal.State.{outside, KeyHandlers, Coucal, Allocator}

perform-Falls :
    (alloc : Allocator) (c : Coucal) (call : Call)
    → Falls alloc (perform alloc c call) (perform (granting alloc) c call)
unfolding perform write write_pvoid add add_pvoid inc dec
perform-Falls alloc c (call_write k v) =
    bind-Falls _ _ _ _ (write_value-Falls alloc c (outside k) v) λ r. same-Falls _
perform-Falls alloc c (call_write_pvoid k v) =
    bind-Falls _ _ _ _ (write_value-Falls alloc c (outside k) v) λ r. same-Falls _
perform-Falls alloc c (call_add k v) =
    bind-Falls _ _ _ _
      (bind-Falls _ _ _ _ (write_value-Falls alloc c (outside k) v) λ r. same-Falls _)
      λ r. same-Falls _
perform-Falls alloc c (call_add_pvoid k v) =
    bind-Falls _ _ _ _
      (bind-Falls _ _ _ _ (write_value-Falls alloc c (outside k) v) λ r. same-Falls _)
      λ r. same-Falls _
perform-Falls alloc c (call_inc k) =
    bind-Falls _ _ _ _
      (bind-Falls _ _ _ _ (inc_value-Falls alloc c (outside k) _) λ r. same-Falls _)
      λ r. same-Falls _
perform-Falls alloc c (call_dec k) =
    bind-Falls _ _ _ _
      (bind-Falls _ _ _ _ (inc_value-Falls alloc c (outside k) _) λ r. same-Falls _)
      λ r. same-Falls _
perform-Falls alloc c (call_remove k) =
    bind-Falls _ _ _ _ (remove-Falls alloc c (outside k)) λ r. same-Falls _
perform-Falls alloc c (call_read k) = same-Falls _
perform-Falls alloc c (call_read_pvoid k) = same-Falls _
perform-Falls alloc c (call_readptr k) = same-Falls _
perform-Falls alloc c (call_get_intptr k) = same-Falls _
perform-Falls alloc c (call_get_pvoid k) = same-Falls _
perform-Falls alloc c (call_exists k) = same-Falls _
perform-Falls alloc c call_nitems = same-Falls _

session-Falls :
    (alloc : Allocator) (c : Coucal) (calls : List Call)
    → Falls alloc (session alloc c calls) (session (granting alloc) c calls)
unfolding session
session-Falls alloc c [] = same-Falls _
session-Falls alloc c (call ∷ calls) =
    bind-Falls _ _ _ _ (perform-Falls alloc c call)
      λ r. bind-Falls _ _ _ _ (session-Falls alloc r.0 calls) λ s. same-Falls _

-- A session that aborts on its first calls aborts.
session-abort :
    (alloc : Allocator) (c : Coucal) (before after : List Call)
    → session alloc c before ≡ abort
    → session alloc c (before ++ after) ≡ abort
unfolding session
session-abort alloc c [] after e = cc
session-abort alloc c (call ∷ before) after e =
    go (λ r. session-abort alloc r.0 before after) (perform alloc c call) e
  where
    rest :
        (r : Coucal × Answer) (m : Run (Coucal × List Answer))
        → m >>= with_answer r.1 ≡ abort
        → m ≡ abort
    rest r abort e = refl
    rest r (ok s) e = cc

    go :
        ((r : Coucal × Answer)
          → session alloc r.0 before ≡ abort
          → session alloc r.0 (before ++ after) ≡ abort)
        → (m : Run (Coucal × Answer))
        → m >>= (λ r. session alloc r.0 before >>= with_answer r.1) ≡ abort
        → m >>= (λ r. session alloc r.0 (before ++ after) >>= with_answer r.1) ≡ abort
    go later abort e = refl
    go later (ok r) e =
        ap (λ m. m >>= with_answer r.1) (later r (rest r (session alloc r.0 before) e))

-- Whatever requests for memory are refused, a list of calls, on a table in order that reads as a partial
-- map says, with handlers that keep the laws of keys, and whose added keys have no NUL byte, ends in
-- `abort()`, the allocator refusing some request; or it is answered as the map answers, and leaves
-- a table in order that reads as the map says then; or the calls before some call of the list are, and
-- this call may add a key to a table with a full stash, of the greatest size, or whose pool cannot hold
-- the key within 2^63 bytes.
pub session-Refused :
    (alloc : Allocator) (h : KeyHandlers) (c : Coucal) (m : Mapping) (calls : List Call)
    → KeyLaws h
    → Represents h c m
    → AddsTexts calls
    → (Refused alloc × (session alloc c calls ≡ abort)) ⊎ Progress alloc h c m calls
session-Refused alloc h c m calls laws x strings =
    told (session-Progress (granting alloc) h c m calls (λ n bytes. refl) laws x strings)
  where
    all_calls :
        Returns (session (granting alloc) c calls) (Follows h m calls)
        → Falls alloc (session alloc c calls) (session (granting alloc) c calls)
        → (Refused alloc × (session alloc c calls ≡ abort)) ⊎ Progress alloc h c m calls
    all_calls y (inl refused) = inl refused
    all_calls (r, run, y) (inr e) = inr (finished (r, e ∙ run, y))

    some_calls :
        (before : List Call) (call : Call) (after : List Call)
        → calls ≡ before ++ call ∷ after
        → Returns
            (session (granting alloc) c before)
            (λ r. Follows h m before r × NoRoom r.0 (adds call))
        → Falls alloc (session alloc c before) (session (granting alloc) c before)
        → (Refused alloc × (session alloc c calls ≡ abort)) ⊎ Progress alloc h c m calls
    some_calls before call after split y (inl (refused, e)) =
        inl (refused, ap (session alloc c) split ∙ session-abort alloc c before (call ∷ after) e)
    some_calls before call after split (r, run, y) (inr e) =
        inr (filled before call after split (r, e ∙ run, y))

    told :
        Progress (granting alloc) h c m calls
        → (Refused alloc × (session alloc c calls ≡ abort)) ⊎ Progress alloc h c m calls
    told (finished y) = all_calls y (session-Falls alloc c calls)
    told (filled before call after split y) =
        some_calls before call after split y (session-Falls alloc c before)
