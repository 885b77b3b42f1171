-- ===== src/Report.antt =====
-- Who is told of a failed assertion, and of a line of the log: `coucal_assert_failed`, `coucal_log`,
-- `coucal_set_global_assert_handler` and `coucal_get_name` of coucal.c. The texts are not modelled; what
-- the summary and the dump of a table print is in Report/Dump.
pub mod Levels
pub mod Dump
pub mod Counting
use coucal.Base.{ℕ, not, Option, none, some, List, [], ◌∷◌, is_none}
use coucal.Run.{Run, ok, ◌>>=◌, ◌>>◌, assert}
use coucal.State.{Name, ErrorHandlers, Coucal}

-- `global_log_handler` and `global_assert_handler`, by the caller's numbers for them.
pub record Globals : Type 0 where
  pub log : Option ℕ
  pub fatal : Option ℕ

-- The handler of the table, the global one, or `stderr`.
pub data Reporter : Type 0 where
  of_table : ℕ → Reporter
  global : ℕ → Reporter
  default_report : Reporter

pub data Event : Type 0 where
  logged : Reporter → Event
  failed : Reporter → Event

abbrev pub no_error_handlers : ErrorHandlers
no_error_handlers = record { log = none; fatal = none; name = none }

-- The handlers of a table that may be NULL.
unfoldable pub errors_of : Option Coucal → ErrorHandlers
errors_of none = no_error_handlers
errors_of (some c) = c.custom.error

unfoldable pub choose_reporter : Option ℕ → Option ℕ → Reporter
choose_reporter (some handler) _ = of_table handler
choose_reporter none (some handler) = global handler
choose_reporter none none = default_report

-- `coucal_log`, with its assertion that the format is not NULL. A format is a number of its own, since
-- texts are not modelled.
unfoldable pub log : Globals → Option Coucal → Option ℕ → Run Event
unfolding errors_of choose_reporter
log globals hashtable format =
    assert (not (is_none format))
    >> ok (logged (choose_reporter (errors_of hashtable).log globals.log))

-- `coucal_assert_failed`: the failure is logged, then handled. `abort()` follows.
unfoldable pub assert_failed : Globals → Option Coucal → Run (List Event)
unfolding log
assert_failed globals hashtable = do
  line ← log globals hashtable (some 0)
  ok (line ∷ failed (choose_reporter (errors_of hashtable).fatal globals.fatal) ∷ [])

-- `coucal_set_global_assert_handler`
unfoldable pub set_global_assert_handler : Option ℕ → Option ℕ → Globals
set_global_assert_handler log fatal = record { log = log; fatal = fatal }

-- `coucal_get_name`
unfoldable pub get_name : Option Coucal → Option Name
unfolding errors_of
get_name hashtable = (errors_of hashtable).name
