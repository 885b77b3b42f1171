-- ===== src/Api/Reads.antt =====
-- `coucal_read_value` and the reads on top of it.
use coucal.Api.{read_value, read, readptr, get_intptr, read_pvoid, get_pvoid, exists}
use coucal.Base.{
  ℕ, ◌≡◌, ap, inl, inr, Bool, true, false, not, Option, none, some, ◌==◌, if◌then◌else◌, is_none,
  arith,
}
use coucal.Keys.Laws.{KeyLaws}
use coucal.Keys.{key_text}
use coucal.State.{Name, Coucal}
use coucal.Table.Reading.{Found-value, fetch_value-cases}
use coucal.Table.Valid.{Valid}
use coucal.Table.View.{view}
use coucal.Table.{item_at}

-- A read as a function of what the key has in the view.
abbrev pub found_or : Option ℕ → ℕ → ℕ
found_or none old = old
found_or (some value) old = value

-- What the reads give, in terms of the view.
pub record Reads (c : Coucal) (name : Name) : Type 0 where
  pub value :
      (wanted : Bool) (old : ℕ)
      → read_value c name wanted old ≡ (
        if wanted then found_or (view c (key_text c name)) old else old,
        not (is_none (view c (key_text c name))),
      )
  pub zeroed :
      read c name true
      ≡ (found_or (view c (key_text c name)) 0, not (is_none (view c (key_text c name))))
  pub pointer :
      readptr c name
      ≡ (found_or (view c (key_text c name)) 0, not (found_or (view c (key_text c name)) 0 == 0))
  pub pvoid :
      read_pvoid c name true
      ≡ (found_or (view c (key_text c name)) 0, not (is_none (view c (key_text c name))))
  pub get_pointer : get_pvoid c name ≡ found_or (view c (key_text c name)) 0
  pub intptr : get_intptr c name ≡ found_or (view c (key_text c name)) 0
  pub existence : exists c name ≡ not (is_none (view c (key_text c name)))

-- In a valid table whose handlers keep the laws of keys, `coucal_read_value`, `coucal_read`,
-- `coucal_readptr`, `coucal_get_intptr` and `coucal_exists` give the value that the key has in the
-- view of the table, and so do `coucal_read_pvoid` and `coucal_get_pvoid`; for a missing key they give 0, or leave the caller's place as it was, and tell
-- so. `coucal_readptr` also denies a value that is 0.
pub reads_lem : (c : Coucal) (name : Name) → KeyLaws c.custom.key → Valid c → Reads c name
unfolding read_value read readptr get_intptr read_pvoid get_pvoid exists
reads_lem c name laws v = elim (fetch_value-cases c name v laws) [
  | inl (at, e, found) ↦
      let there = Found-value c name v at found in
      record {
        value = λ wanted old. rw (there, read_value, e);
        zeroed = rw (there, read, read_value, e);
        pointer =
            rw (there, readptr, read, read_value, e)
              (ap (λ b. ((item_at c at).value, b)) (denied (item_at c at).value));
        pvoid = rw (there, read_pvoid, read_value, e);
        get_pointer = rw (there, get_pvoid, read_pvoid, read_value, e);
        intptr = rw (there, get_intptr, read, read_value, e);
        existence = rw (there, exists, read_value, e);
      }
  | inr (e, there) ↦ record {
    value = λ wanted old. rw (there, read_value, e) (missing wanted old);
    zeroed = rw (there, read, read_value, e);
    pointer = rw (there, readptr, read, read_value, e);
    pvoid = rw (there, read_pvoid, read_value, e);
    get_pointer = rw (there, get_pvoid, read_pvoid, read_value, e);
    intptr = rw (there, get_intptr, read, read_value, e);
    existence = rw (there, exists, read_value, e);
  }
]
  where
    denied : (value : ℕ) → (if value == 0 then false else true) ≡ not (value == 0)
    denied value = ground arith

    missing :
        (wanted : Bool) (old : ℕ)
        → ◌≡◌ {A = ℕ × Bool} (old, false) (if wanted then old else old, false)
    missing wanted old = ground arith
