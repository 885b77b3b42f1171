-- ===== src/Report/Levels.antt =====
-- The levels of the log (coucal.h), and the calls that the build drops (coucal.c).
use coucal.Base.{ℕ, Bool, true, Option, List, [], ◌∷◌, leb, ◌&&◌, if◌then◌else◌}
use coucal.Report.{Globals, Event, log}
use coucal.Run.{Run, ok, ◌>>=◌}
use coucal.State.{Coucal}

-- `coucal_loglevel`
pub data Level : Type 0 where
  log_critical : Level
  log_warning : Level
  log_info : Level
  log_debug : Level
  log_trace : Level

-- `COUCAL_LOG_CRITICAL` to `COUCAL_LOG_TRACE`
abbrev pub verbosity : Level → ℕ
verbosity log_critical = 1
verbosity log_warning = 2
verbosity log_info = 3
verbosity log_debug = 4
verbosity log_trace = 5

-- `COUCAL_LOG_LEVEL`, if the build does not set it, and what a build may set.
abbrev pub default_log_level : ℕ
default_log_level = verbosity log_info

abbrev pub is_log_level : ℕ → Bool
is_log_level n = leb (verbosity log_critical) n && leb n (verbosity log_trace)

-- Is a call of this level compiled in? "critical carries assertion failures and is never compiled out".
unfoldable pub is_compiled : ℕ → Level → Bool
is_compiled log_level log_critical = true
is_compiled log_level level = leb (verbosity level) log_level

-- `coucal_crit`, `coucal_warning`, `coucal_info`, `coucal_debug`, `coucal_trace`: a line, or `coucal_nolog`.
unfoldable pub log_at : ℕ → Globals → Option Coucal → Level → Option ℕ → Run (List Event)
unfolding log is_compiled
log_at log_level globals hashtable level format =
    if is_compiled log_level level
    then (log globals hashtable format >>= λ line. ok (line ∷ []))
    else ok []
