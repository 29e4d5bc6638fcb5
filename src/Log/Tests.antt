-- ===== src/Log/Tests.antt =====
-- Runs of the package log, and examples of the theorems.
use fuck.Base.{
  ℕ, ◌+◌, ◌≡◌, refl, true, false, List, [], ◌∷◌, ◌++◌, Option, none, some, Bytes, codes,
}
use fuck.Base.Int.{pos}
use fuck.Capacity.Parse.{parse_capacities, parse_term, leading_int}
use fuck.Errors.{Err, nil, fundamental}
use fuck.Log.{Item, caller_name, with_print, missing_value, text}
use fuck.Log.Adapter.{write, new_writer_adapter, with_prefix}
use fuck.Log.Context.{Kit, Root, LoggerOption, with_trace_id}
use fuck.Log.Ext.{log}
use fuck.Log.Ext.Lines.{Writes}
use fuck.Log.Ext.Pairs.{Pairs, flat, tidy, prints}
use fuck.Log.Ext.Laws.{log-tidy}
use fuck.Log.Level.{
  Dynamic, allow_info, allow_warn, set_level_text, set_level, new_dynamic, must_new_config,
  register_log_format,
}
use fuck.Log.Tee.{Logger, run_all}
use fuck.Log.Writer.{Config, Files, absent, rotating, new_writer_from_config}

abbrev key : Bytes → Item
key s = text s

-- two callers and a value to be printed
abbrev line : Pairs
line =
    (caller_name, text (codes "a:1"))
    ∷ (key (codes "msg"), text (codes "hi"))
    ∷ (with_print, text (codes "raw"))
    ∷ (caller_name, text (codes "b:2"))
    ∷ []

log-tidy_example :
    ((out : Bytes) × (log (flat line) ≡ some (flat (tidy line), out)) × Writes (prints line) out)
    × ((out : Bytes) × (log (flat line ++ key (codes "err") ∷ [])
          ≡ some (flat (tidy (line ++ (key (codes "err"), missing_value) ∷ [])), out))
        × Writes (prints (line ++ (key (codes "err"), missing_value) ∷ [])) out)
log-tidy_example = log-tidy line (key (codes "err"))

log_run :
    log (flat line)
    ≡ some (
      caller_name ∷ text (codes "b:2") ∷ key (codes "msg") ∷ text (codes "hi") ∷ [],
      codes "raw\n",
    )
unfolding log
log_run = refl

adapter_run :
    (write (new_writer_adapter (with_prefix (codes "p: ") true ∷ [])) (codes "p: x\n")).0
    ≡ (codes "msg", codes "p: x")
unfolding write
adapter_run = refl

level_runs :
    (set_level_text (codes "info") ≡ some (codes "info"))
    × (set_level_text [] ≡ none)
    × (must_new_config {F = ℕ}
          (register_log_format (codes "logfmt") 0 [])
          (codes "info")
          (codes "logfmt")
        ≡ some (codes "info", codes "logfmt"))
unfolding set_level_text
level_runs = (refl, refl, refl)

-- a change of the level is logged, and a nil level panics
abbrev started : Dynamic
started = record { changes = []; leveled = some allow_info; current_level = some (codes "info") }

dynamic_runs :
    (new_dynamic (some (codes "info")) ≡ some started)
    × (set_level (some (codes "warn")) started
        ≡ some (record {
          changes = (codes "info", codes "warn") ∷ [];
          leveled = some allow_warn;
          current_level = some (codes "warn");
        }))
    × (set_level none started ≡ none)
unfolding new_dynamic set_level
dynamic_runs = (refl, refl, refl)

-- loggers that count their lines; the second one fails
abbrev counting : Err → Logger ℕ
counting answer keyvals n = (n + 1, answer)

abbrev three : List (Logger ℕ)
three = counting nil ∷ counting (fundamental 5 (codes "full")) ∷ counting nil ∷ []

tee_run : (run_all three [] 0) ≡ (3, fundamental 5 (codes "full") ∷ [])
tee_run = refl

-- a logger is the list of its key-value pairs
abbrev kit : Kit (List Item)
kit = record { with_ = joined; default = [] }
  where
    joined : Option (List Item) → List Item → List Item
    joined none keyvals = keyvals
    joined (some l) keyvals = l ++ keyvals

abbrev empty_root : Root (List Item)
empty_root = record { once = false; logger = none }

abbrev options : List (LoggerOption (List Item))
options = with_trace_id (codes "t1") ∷ []

abbrev config : Config
config = record {
  level = none;
  format = none;
  file_path = codes "/var/log/app";
  file_max_age = pos 0;
  file_rotation_size = codes "100k";
  file_rotation_time = pos 0;
}

abbrev files : Files
files = record { stat = λ path. absent; can_open = λ path. true; can_rotate = λ p a s t. true }

writer_run :
    new_writer_from_config (λ v x scale. 0) files config
    ≡ rotating (codes "/var/log/app") (pos 0) (pos 102400) (pos 0)
unfolding new_writer_from_config parse_capacities parse_term leading_int
writer_run = refl
