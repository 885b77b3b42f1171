-- ===== src/Session/Replaying.antt =====
-- A whole session of a client, against the partial map.
use coucal.Api.Creation.{new_table-view}
use coucal.Api.Starting.{fresh_table, fresh_table-PooledTable}
use coucal.Api.{no_key_handlers}
use coucal.Base.{◌+◌, ◌≡◌, refl, true, List, [], ◌∷◌}
use coucal.Keys.Laws.{KeyLaws}
use coucal.Pool.Duplicating.{Generous}
use coucal.Run.{◌>>=◌, Returns}
use coucal.Session.Performing.{perform-Performed}
use coucal.Session.Room.{has_room, has_room_for-Fits, has_room-head, has_room-tail}
use coucal.Session.{
  Call, empty_mapping, session, Mapping, expected, replay, Represents, adds, AddsTexts,
}
use coucal.Table.Modes.{library_keys}
use coucal.State.{World, KeyHandlers, Coucal, Allocator}

-- A new table is an empty map.
pub fresh-Represents : (w : World) → Represents no_key_handlers (fresh_table w) empty_mapping
fresh-Represents w = record {
  table = library_keys (fresh_table-PooledTable w);
  handlers = refl;
  entries = λ k. new_table-view (record w { allocations = w.allocations + 2 }) 4 k;
  count = refl;
}

-- On a table that keeps its keys in a pool in order, or has them duplicated and released by handlers of
-- the caller, and that reads as a partial map says, with handlers that keep the laws of
-- keys, if every request for memory is granted, any list of calls fails no assertion, as long as the
-- keys that it adds have no NUL byte and there is room for them: every call answers what the map
-- answers, and the table reads in the end as the map says then.
pub session-Replayed :
    (alloc : Allocator) (h : KeyHandlers) (c : Coucal) (m : Mapping) (calls : List Call)
    → Generous alloc
    → KeyLaws h
    → Represents h c m
    → AddsTexts calls
    → has_room alloc c calls ≡ true
    → Returns
        (session alloc c calls)
        λ r. Represents h r.0 (replay h m calls).0 × (r.1 ≡ (replay h m calls).1)
unfolding session replay AddsTexts
session-Replayed alloc h c m [] generous laws x strings room = ((c, []), refl, (x, refl))
session-Replayed alloc h c m (call ∷ calls) generous laws x (string, strings) room =
    let fits = has_room_for-Fits c (adds call) (has_room-head alloc c call calls room) string in
    let (r, run, p) = perform-Performed alloc h c m generous laws x call fits in
    let (s, run', (x', e)) =
      session-Replayed alloc h r.0 (expected h m call).0 calls generous laws p.advanced.represents
        strings (has_room-tail alloc c call calls r run room) in
    ((s.0, r.1 ∷ s.1), rw (run, ◌>>=◌, run'), (x', λ i. p.answer i ∷ e i))
