-- ===== src/Table/Pooling/Tables.antt =====
-- Tables whose keys are in the string pool.
use coucal.Base.{none}
use coucal.Pool.Regions.{Pooled}
use coucal.State.{Coucal}
use coucal.Table.Valid.{Valid}

-- A valid table whose pool is in order and holds the keys of its entries.
pub record PooledTable (c : Coucal) : Type 0 where
  pub valid : Valid c
  pub pool : Pooled c none
