-- ===== src/Clients/Gorm/Logger.antt =====
-- clients/gorm/logger.go: the logger of gorm over a logger with levels.
use fuck.Base.{Bool, true, false, not, ◌&&◌, List, [], ◌∷◌, Option, none, some, if◌then◌else◌}
use fuck.Base.Int.{ℤ, pos, ltb_ℤ, is_int}

-- the levels of gorm
pub data LogLevel : Type 0 where
  silent error_level warn_level info_level other_level : LogLevel

-- the levels of go-kit/log, and what a filter lets through
pub data Level : Type 0 where
  debug info warn error_ : Level

pub data Filter : Type 0 where
  allow_none allow_error allow_warn allow_info : Filter

-- a logger by the filters in front of it, the outermost first
pub record LogContext : Type 0 where
  pub filters : List Filter
  pub slow_threshold : ℤ

unfoldable pub log_mode : LogLevel → LogContext → LogContext
log_mode silent l = record l { filters = allow_none ∷ l.filters }
log_mode info_level l = record l { filters = allow_info ∷ l.filters }
log_mode warn_level l = record l { filters = allow_warn ∷ l.filters }
log_mode error_level l = record l { filters = allow_error ∷ l.filters }
log_mode other_level l = l

abbrev pub passes : Filter → Level → Bool
passes allow_none lvl = false
passes allow_error error_ = true
passes allow_error _ = false
passes allow_warn error_ = true
passes allow_warn warn = true
passes allow_warn _ = false
passes allow_info debug = false
passes allow_info _ = true

abbrev pub is_logged : List Filter → Level → Bool
is_logged [] lvl = true
is_logged (f ∷ filters) lvl = passes f lvl && is_logged filters lvl

-- the error of a statement: none, `gorm.ErrRecordNotFound`, or another
pub data SqlError : Type 0 where
  no_error record_not_found other : SqlError

abbrev pub is_failure : SqlError → Bool
is_failure no_error = false
is_failure record_not_found = false
is_failure other = true

-- the level at which `Trace` logs, and whether the span is marked as an error
unfoldable pub trace_level : LogContext → ℤ → SqlError → Level × Bool
trace_level l elapsed err =
    if is_failure err
    then (error_, true)
    else if ltb_ℤ l.slow_threshold elapsed && not (is_int l.slow_threshold (pos 0))
    then (warn, false)
    else (debug, false)

-- `Trace`: what is logged
abbrev pub trace : LogContext → ℤ → SqlError → Option Level
trace l elapsed err =
    let lvl = (trace_level l elapsed err).0 in if is_logged l.filters lvl then some lvl else none
