-- ===== src/Log/Context.antt =====
-- log/log.go: the loggers with a trace id, and those that a context carries. `L` stands for the
-- loggers of go-kit/log; a nil logger is none.
use fuck.Base.{
  ℕ, ◌≡◌, refl, Bool, true, not, List, [], ◌∷◌, Option, none, some, Bytes, codes, length,
  Bool-cases, inl, inr, arith, ◌==◌, if◌then◌else◌,
}
use fuck.Log.{Item, text}
use fuck.Log.Writer.{Writer, Config}

-- `newLoggerOptions`
pub record LoggerOptions (L : Type 0) : Type 0 where
  pub trace_id : Bytes
  pub l : Option L
  pub w : Option Writer
  pub kvs : List Item
  pub config : Option Config

-- `rootLoggerOnce` and `rootLogger`
pub record Root (L : Type 0) : Type 0 where
  pub once : Bool
  pub logger : Option L

-- A context by its values, the innermost first; `fresh` is another value.
pub data Entry (L : Type 0) : Type 0 where
  context_trace_id : (s : Bytes) → Entry L
  context_logger : (l : Option L) → Entry L
  fresh : Entry L

-- `log.With`, and the logger that `New()` makes
pub record Kit (L : Type 0) : Type 0 where
  pub with_ : Option L → List Item → L
  pub default : L

abbrev pub LoggerOption : Type 0 → Type 0
LoggerOption L = LoggerOptions L → LoggerOptions L

abbrev pub Context : Type 0 → Type 0
Context L = List (Entry L)

module _ {L : Type 0} where
  abbrev pub with_trace_id : Bytes → LoggerOption L
  with_trace_id trace_id o = record o { trace_id = trace_id }

  abbrev pub with_logger : Option L → LoggerOption L
  with_logger l o = record o { l = l }

  abbrev pub with_writer : Option Writer → LoggerOption L
  with_writer w o = record o { w = w }

  abbrev pub with_config : Option Config → LoggerOption L
  with_config c o = record o { config = c }

  abbrev pub with_key_values : List Item → LoggerOption L
  with_key_values keyvals o = record o { kvs = keyvals }

  abbrev pub set_options : List (LoggerOption L) → LoggerOption L
  set_options [] o = o
  set_options (option ∷ options) o = set_options options (option o)

  abbrev pub set_default_logger : Option L → Root L → Root L
  set_default_logger logger r = record r { logger = logger }

  -- `ctx.Value(contextTraceId{}).(string)`, empty if there is none
  abbrev pub trace_id_value : Context L → Bytes
  trace_id_value [] = []
  trace_id_value (context_trace_id s ∷ ctx) = s
  trace_id_value (_ ∷ ctx) = trace_id_value ctx

  -- `ctx.Value(contextLogger{}).(log.Logger)`; a nil logger is not one
  abbrev pub logger_value : Context L → Option L
  logger_value [] = none
  logger_value (context_logger l ∷ ctx) = l
  logger_value (_ ∷ ctx) = logger_value ctx

  -- `GetTraceId`, for a new trace id
  abbrev pub get_trace_id : Bytes → Context L → Bytes
  get_trace_id new_id ctx = let s = trace_id_value ctx in if length s == 0 then new_id else s

  abbrev pub apply_all : List (Option L → Option L) → Option L → Option L
  apply_all [] l = l
  apply_all (option ∷ options) l = apply_all options (option l)

module _ {L : Type 0} (kit : Kit L) where
  unfoldable pub get_default_logger : Root L → Option L × Root L
  get_default_logger r =
      if r.once
      then (r.logger, r)
      else let logger : Option L = elim r.logger [ none ↦ some kit.default | some l ↦ some l ] in
        (logger, record { once = true; logger = logger })

  -- the logger with the key-value pairs of the options
  abbrev with_pairs : LoggerOptions L → Option L
  with_pairs o = if not (length o.kvs == 0) then some (kit.with_ o.l o.kvs) else o.l

  -- `NewTraceLogger`, for a new trace id
  unfoldable pub new_trace_logger : Bytes → List (LoggerOption L) → Root L → L × Root L
  unfolding get_default_logger
  new_trace_logger new_id options r =
      let o =
        set_options options
          (record { trace_id = new_id; l = r.logger; w = none; kvs = []; config = none }) in
      let trace = text (codes "traceId") ∷ text o.trace_id ∷ [] in
      elim o.l [
        | none ↦ let (l, r') = get_default_logger r in (kit.with_ l trace, r')
        | some l ↦ (kit.with_ (with_pairs o) trace, r)
      ]

  -- the logger of the options, or a new one with the trace id
  logger_or_new : Bytes → Bytes → Option L → Root L → Option L × Root L
  unfolding new_trace_logger
  logger_or_new new_id trace_id none r =
      let (l, r') = new_trace_logger new_id (with_trace_id trace_id ∷ []) r in (some l, r')
  logger_or_new new_id trace_id (some l) r = (some l, r)

  abbrev trace_id_of : Bytes → LoggerOptions L → Bytes
  trace_id_of new_id o = if length o.trace_id == 0 then new_id else o.trace_id

  -- `NewContextLogger`, for two new trace ids, once the options are set
  context_with :
      Bytes → Bytes → Context L → LoggerOptions L → Root L → (Context L × Option L) × Root L
  unfolding logger_or_new
  context_with new_id new_id' parent o r =
      let trace_id = trace_id_of new_id o in
      let made = logger_or_new new_id' trace_id o.l r in
      let l = with_pairs (record o { l = made.0 }) in
      ((context_logger l ∷ context_trace_id trace_id ∷ parent, l), made.1)

  unfoldable pub new_context_logger :
      Bytes → Bytes → Context L → List (LoggerOption L) → Root L → (Context L × Option L) × Root L
  unfolding context_with
  new_context_logger new_id new_id' parent opts r =
      context_with new_id new_id' parent
        (set_options opts (record { trace_id = []; l = none; w = none; kvs = []; config = none })) r

  -- `GetContextLogger`, for a new trace id
  unfoldable pub get_context_logger :
      Bytes → Context L → List (Option L → Option L) → Root L → Option L × Root L
  unfolding new_trace_logger
  get_context_logger new_id ctx options r =
      let found : Option L × Root L = elim (logger_value ctx) [
        | none ↦ let (l, r') = new_trace_logger new_id [] r in (some l, r')
        | some l ↦ (some l, r)
      ] in
      (apply_all options found.0, found.1)

-- the trace id that the options ask for
abbrev pub asked_trace_id : {L : Type 0} → List (LoggerOption L) → Bytes
asked_trace_id opts =
    (set_options opts
      (record { trace_id = []; l = none; w = none; kvs = []; config = none })).trace_id

module _ {L : Type 0} (kit : Kit L) where
  logger_or_new-some :
      (id trace : Bytes) (l : Option L) (r : Root L)
      → (l' : L) × ((logger_or_new kit id trace l r).0 ≡ some l')
  unfolding logger_or_new
  logger_or_new-some id trace none r = (_, refl)
  logger_or_new-some id trace (some l) r = (l, refl)

  with_pairs-some :
      (o : LoggerOptions L) (l : L) → o.l ≡ some l → (l' : L) × (with_pairs kit o ≡ some l')
  with_pairs-some o l e = elim (Bool-cases (length o.kvs == 0)) [
    | inl empty ↦ (l, rw empty e)
    | inr full ↦ (kit.with_ o.l o.kvs, rw full refl)
  ]

  found_again :
      (c : ℕ) (id id'' : Bytes) (parent : Context L) (o : LoggerOptions L) (l : L) (r : Root L)
      → let ctx =
          context_logger (some l) ∷ context_trace_id (trace_id_of kit (c ∷ id) o) ∷ parent in
        (get_context_logger kit id'' ctx [] r ≡ (some l, r))
        × (get_trace_id id'' ctx ≡ trace_id_of kit (c ∷ id) o)
  unfolding get_context_logger
  found_again c id id'' parent o l r = (
    refl,
    (elim (Bool-cases (length o.trace_id == 0)) [
      | inl empty ↦ rw empty (ground arith)
      | inr full ↦ rw (full, full) refl
    ]),
  )

  context_with_lem :
      (c : ℕ) (id id' id'' : Bytes) (parent : Context L) (o : LoggerOptions L) (r r' : Root L)
      → let made = context_with kit (c ∷ id) id' parent o r in
        let ctx = made.0.0 in
        (l : L) × (made.0.1 ≡ some l)
        × (get_context_logger kit id'' ctx [] r' ≡ (some l, r'))
        × (get_trace_id id'' ctx ≡ trace_id_of kit (c ∷ id) o)
  unfolding context_with
  context_with_lem c id id' id'' parent o r r' =
      let (m, e) = logger_or_new-some id' (trace_id_of kit (c ∷ id) o) o.l r in
      let (l, e') =
        with_pairs-some
          (record o { l = (logger_or_new kit id' (trace_id_of kit (c ∷ id) o) o.l r).0 }) m e in
      let (again, same_id) = found_again c id id'' parent o l r' in (l, e', rw e' again, same_id)

-- `NewContextLogger` always makes a logger; in the context that it returns `GetContextLogger` finds
-- that logger, and `GetTraceId` the trace id that the options ask for, or the new one if they ask
-- for none.
pub new_context_logger_lem :
    {L : Type 0} (kit : Kit L) (c : ℕ) (id id' id'' : Bytes) (parent : Context L)
    (opts : List (LoggerOption L)) (r r' : Root L)
    → let made = new_context_logger kit (c ∷ id) id' parent opts r in
      let ctx = made.0.0 in
      (l : L) × (made.0.1 ≡ some l)
      × (get_context_logger kit id'' ctx [] r' ≡ (some l, r'))
      × (get_trace_id id'' ctx
          ≡ (if length (asked_trace_id opts) == 0 then c ∷ id else asked_trace_id opts))
unfolding new_context_logger get_context_logger
new_context_logger_lem kit c id id' id'' parent opts r r' =
    context_with_lem kit c id id' id'' parent
      (set_options opts (record { trace_id = []; l = none; w = none; kvs = []; config = none })) r
      r'
