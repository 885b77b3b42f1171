-- ===== src/Tests/Walks.antt =====
-- Enumerations at concrete tables.
use coucal.Tests.Pooling.{pooling-KeyLaws, generous, table_of, three, three-PooledTable}
use coucal.Table.Modes.{library_keys}
use coucal.Base.{ℕ, ◌≤◌, ◌≡◌, refl, Bool, none, some, List, [], ◌∷◌, arith}
use coucal.Base.{Option, Bool, true, false, suc, length, if◌then◌else◌, is_none}
use coucal.Enum.Deleting.{walk-once}
use coucal.Enum.Walking.{Steps, stop, step, round, deletion, times}
use coucal.Enum.Steps.{at_index}
use coucal.Enum.{Enum, enum_new, enum_next}
use coucal.Enum.Complete.{enumerate}
use coucal.Enum.Draining.{drain, Drained, drain-empties}
use coucal.Enum.Entries.{Entries, enumerate-view}
use coucal.Table.Entries.{total, one_if}
use coucal.Table.Valid.{entry_of}
use coucal.Table.View.{view}
use coucal.Keys.{key_text}
use coucal.Run.{Run, ok, abort, Returns}
use coucal.State.{null_item, Name, the_empty_string, Item, Coucal}
use coucal.Table.Modes.{library_keys}
use coucal.Table.Remove.{remove}
use coucal.Tests.{plenty, key, pool_program}

-- An enumeration of `three` in which the second key is deleted after the first one was given.
abbrev item_of_call : Option Item × Enum → Item
item_of_call r = elim r.0 [ none ↦ null_item | some item ↦ item ]

abbrev name_in : Item → Name
name_in item = elim item.name [ none ↦ the_empty_string | some name ↦ name ]

abbrev first_call : Option Item × Enum
first_call = enum_next (at_index three 0)

abbrev two : Coucal
two = table_of (remove plenty three (key 192))

abbrev flag_of : Run (Coucal × Bool) → Bool
flag_of abort = false
flag_of (ok r) = r.1

abbrev is_ok : Run (Coucal × Bool) → Bool
is_ok abort = false
is_ok (ok r) = true

ok_of : (m : Run (Coucal × Bool)) → is_ok m ≡ true → m ≡ ok (table_of m, flag_of m)
ok_of abort e = cc
ok_of (ok r) e = refl

two_run : is_ok (remove plenty three (key 192)) ≡ true
unfolding pool_program
two_run = refl

abbrev second_call : Option Item × Enum
second_call = enum_next (at_index two first_call.1.index)

abbrev first_text : List ℕ
first_text = key_text three (name_in (item_of_call first_call))

abbrev second_text : List ℕ
second_text = key_text two (name_in (item_of_call second_call))

abbrev given_keys : List (List ℕ)
given_keys = second_text ∷ first_text ∷ []

walked :
    Steps plenty
      (record { table = three; index = 0; given = [] })
      (record { table = two; index = second_call.1.index; given = given_keys })
unfolding pool_program enum_next coucal.Enum.take_table coucal.Enum.skip coucal.Enum.next_in_stash
    coucal.Enum.take_stash
walked =
    step _ _ _
      (round three 0 [] (item_of_call first_call) (name_in (item_of_call first_call)) first_call.1
        refl refl)
      (step _ _ _
        (deletion three two first_call.1.index (first_text ∷ []) (key 192)
          (flag_of (remove plenty three (key 192))) (ok_of (remove plenty three (key 192)) two_run))
        (step _ _ _
          (round two first_call.1.index (first_text ∷ []) (item_of_call second_call)
            (name_in (item_of_call second_call)) second_call.1 refl refl)
          (stop _)))

walk-once_example :
    (times two (64 ∷ 7 ∷ []) given_keys ≤ 1)
    × ((value : ℕ) → view two (64 ∷ 7 ∷ []) ≡ some value → times two (64 ∷ 7 ∷ []) given_keys ≡ 1)
unfolding pool_program enum_next coucal.Enum.take_table coucal.Enum.skip coucal.Enum.next_in_stash
    coucal.Enum.take_stash
walk-once_example =
    walk-once plenty three two second_call.1.index given_keys pooling-KeyLaws
      (library_keys three-PooledTable) generous walked refl (64 ∷ 7 ∷ [])

drain-empties_example : Returns (drain plenty (suc three.used) (enum_new three)) (Drained three)
unfolding pool_program
drain-empties_example =
    drain-empties plenty three pooling-KeyLaws (library_keys three-PooledTable) generous

enumerate-view_example :
    let r = enumerate 40 (enum_new three) in
    (r.1 ≡ true)
    × Entries three r.0
    × (length r.0 ≡ three.used)
    × ((k : List ℕ)
        → total (λ item. one_if (entry_of three k item)) r.0
          ≡ (if is_none (view three k) then 0 else 1))
unfolding pool_program
enumerate-view_example =
    enumerate-view three pooling-KeyLaws three-PooledTable.valid 40 (omega arith)
