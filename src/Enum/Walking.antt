-- ===== src/Enum/Walking.antt =====
-- The steps of an enumeration while entries are deleted, and values replaced, between its rounds.
use coucal.Base.{ℕ, ◌+◌, ◌≡◌, Bool, some, List, [], ◌∷◌}
use coucal.Enum.Steps.{at_index}
use coucal.Enum.{Enum, enum_next}
use coucal.Keys.{equal_texts, key_text}
use coucal.Run.{ok}
use coucal.State.{Item, Name, Custom, Coucal, Allocator}
use coucal.Table.Entries.{one_if}
use coucal.Table.Write.{write_value}
use coucal.Table.Remove.{remove}
use coucal.Table.View.{view}

-- An enumeration that is under way: the table, the cursor, and the keys of the items given so far, as
-- they read when they were given.
pub record Walk : Type 0 where
  pub table : Coucal
  pub index : ℕ
  pub given : List (List ℕ)

-- How often a key was given.
unfoldable pub times_of : Custom → List ℕ → List (List ℕ) → ℕ
times_of u k [] = 0
times_of u k (t ∷ ts) = one_if (equal_texts u.key t k) + times_of u k ts

abbrev pub times : Coucal → List ℕ → List (List ℕ) → ℕ
times c k ts = times_of c.custom k ts

-- A call of `coucal_enum_next` that gives an item, or, between two calls, a deletion or the replacement
-- of the value of an entry.
pub data Step (alloc : Allocator) : Walk → Walk → Type 0 where
  round :
      (c : Coucal) (i : ℕ) (given : List (List ℕ)) (item : Item) (name : Name) (e : Enum)
      → enum_next (at_index c i) ≡ (some item, e)
      → item.name ≡ some name
      → Step alloc
          (record { table = c; index = i; given = given })
          (record { table = e.table; index = e.index; given = key_text c name ∷ given })
  deletion :
      (c c' : Coucal) (i : ℕ) (given : List (List ℕ)) (name : Name) (removed : Bool)
      → remove alloc c name ≡ ok (c', removed)
      → Step alloc
          (record { table = c; index = i; given = given })
          (record { table = c'; index = i; given = given })
  replacement :
      (c c' : Coucal) (i : ℕ) (given : List (List ℕ)) (name : Name) (old value : ℕ) (added : Bool)
      → view c (key_text c name) ≡ some old
      → write_value alloc c name value ≡ ok (c', added)
      → Step alloc
          (record { table = c; index = i; given = given })
          (record { table = c'; index = i; given = given })

pub data Steps (alloc : Allocator) : Walk → Walk → Type 0 where
  stop : (w : Walk) → Steps alloc w w
  step : (a b d : Walk) → Step alloc a b → Steps alloc b d → Steps alloc a d
