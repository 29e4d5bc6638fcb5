-- ===== src/Log.antt =====
-- The package log, on the loggers of github.com/go-kit/log.
pub mod Ext
pub mod Adapter
pub mod Level
pub mod Writer
pub mod Logger
pub mod Context
pub mod Tee
mod Tests
use fuck.Base.{Bytes}

-- A key or a value that is handed to a logger: the keys `CallerName` and `withPrint{}`, a string, a
-- `fmt.Stringer` by its text, nil, `log.ErrMissingValue`, or something else by its `%#v`.
pub data Item : Type 0 where
  caller_name with_print nil missing_value : Item
  text stringer other : (s : Bytes) → Item
