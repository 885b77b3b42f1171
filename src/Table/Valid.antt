-- ===== src/Table/Valid.antt =====
-- The invariant of a whole table.
use coucal.Base.{ℕ, ◌≤◌, ◌≡◌, inl, inr, Bool, not, List, Option-cases, arith}
use coucal.Keys.Laws.{KeyLaws}
use coucal.Keys.{equals, calc_hashes, matches, key_text}
use coucal.State.{Item, Name, Coucal}
use coucal.Table.Entries.{mass, one_if}
use coucal.Table.Layout.{Layout, weight}
use coucal.Table.View.{keyed, well_hashed}

-- The test of an entry of the key `k`, and of an entry whose hashes are not those of its key.
abbrev pub entry_of : Coucal → List ℕ → Item → Bool
entry_of c k item = keyed c.custom.key c.pool.buffer k item

abbrev pub misfiled : Coucal → Item → ℕ
misfiled c item = one_if (not (well_hashed c.custom.key c.pool.buffer item))

pub record Valid (c : Coucal) : Type 0 where
  pub layout : Layout c
  pub counted : c.used ≡ weight (λ _. 1) c
  pub hashed : weight (misfiled c) c ≡ 0
  pub once : (k : List ℕ) → weight (λ item. one_if (entry_of c k item)) c ≤ 1

-- On an item with the hashes of its key the comparison of hashes before `equals` decides nothing.
pub matches-entry_of :
    (c : Coucal) (name : Name) (item : Item)
    → KeyLaws c.custom.key
    → mass (misfiled c) item ≡ 0
    → matches c item name (calc_hashes c name) ≡ entry_of c (key_text c name) item
unfolding matches equals calc_hashes
matches-entry_of c name item laws filed = elim (Option-cases item.name) [
  | inl free ↦ rw free
  | inr (n, named) ↦
      rw named (ground (arith, laws.hash-equal (key_text c n) (key_text c name), filed))
]
