-- ===== src/Log/Logger.antt =====
-- log/log.go: `New`.
use fuck.Base.{ℕ, List, [], Option, none, some, Bytes, codes}
use fuck.Log.Level.{Allow, get_option, Registry, load}
use fuck.Log.Writer.{Config, Writer, Files, new_writer_from_config}
use fuck.Log.Context.{LoggerOption, set_options}

-- a logger as `New` puts it together: the function of its format, or the fallback to logfmt, for
-- which a warning is logged, then `extLogger` on the writer, and the filter
pub record Made (F : Type 0) : Type 0 where
  pub create : Option F
  pub w : Writer
  pub allow : Allow

abbrev pub or_default : Bytes → Option Bytes → Bytes
or_default d none = d
or_default d (some s) = s

abbrev given_config : Config → Option Config → Config
given_config d none = d
given_config d (some c) = c

abbrev given_writer : Writer → Option Writer → Writer
given_writer d none = d
given_writer d (some w) = w

-- `formats` are the registered formats, and `default_config` is `DefaultLoggerConfig`.
unfoldable pub new :
    {F L : Type 0} → (ℕ → ℕ → ℕ → ℕ) → Files → Registry F → Config → List (LoggerOption L) → Made F
unfolding new_writer_from_config
new scaled files formats default_config opts =
    let o =
      set_options opts (record { trace_id = []; l = none; w = none; kvs = []; config = none }) in
    let c = given_config default_config o.config in
    record {
      create = load (or_default (codes "logfmt") c.format) formats;
      w = given_writer (new_writer_from_config scaled files c) o.w;
      allow = get_option (or_default (codes "info") c.level);
    }
