-- ===== src/Api/Starting.antt =====
-- New tables with the default settings.
use coucal.Api.Pooling.{set_up-PooledTable}
use coucal.Api.{no_key_handlers, new_table, new, get_pow2, sizeof_coucal}
use coucal.Base.{◌+◌, ◌*◌, ◌≡◌, refl, sym, subst, none, some, arith}
use coucal.Base.Words.{pow2}
use coucal.Keys.Laws.{KeyLaws, strcmp-KeyLaws}
use coucal.Pool.Duplicating.{Generous}
use coucal.State.{World, Coucal, Allocator}
use coucal.Table.Grow.{is_acceptable_pow2, sizeof_item}
use coucal.Table.Pooling.Tables.{PooledTable}

pub default-KeyLaws : KeyLaws no_key_handlers
default-KeyLaws = strcmp-KeyLaws no_key_handlers refl (λ dup a e. cc)

pub laws_of : (c : Coucal) → c.custom.key ≡ no_key_handlers → KeyLaws c.custom.key
laws_of c e = subst KeyLaws (sym e) default-KeyLaws

pub new-granted :
    (alloc : Allocator) (w : World)
    → Generous alloc
    → new alloc w 0 ≡ some (new_table (record w { allocations = w.allocations + 2 }) 4)
unfolding new get_pow2 is_acceptable_pow2
new-granted alloc w generous =
    rw (generous w.allocations sizeof_coucal, generous (w.allocations + 1) (pow2 4 * sizeof_item))

-- The table that `coucal_new(0)` gives.
abbrev pub fresh_table : World → Coucal
fresh_table w = new_table (record w { allocations = w.allocations + 2 }) 4

pub fresh_table-PooledTable : (w : World) → PooledTable (fresh_table w)
fresh_table-PooledTable w =
    set_up-PooledTable (record w { allocations = w.allocations + 2 }) 4 no_key_handlers none
      (omega arith) (omega arith) (record { no_dup = refl; no_free = refl })
