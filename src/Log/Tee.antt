-- ===== src/Log/Tee.antt =====
-- log/log.go: `teeLogger`, which hands a line to several loggers and collects their errors.
use fuck.Base.{
  ◌≡◌, refl, ◌∙◌, Bool, true, false, not, List, [], ◌∷◌, ◌++◌, Option, none, some, arith,
  Bool-cases, inl, inr, append-nil, append_assoc, if◌then◌else◌,
}
use fuck.Base.Int.{pos}
use fuck.Errors.{Err, nil, Errors, new_errors, append, is_nil, has_error}
use fuck.Wrapper.Slice.{filter}
use fuck.Log.{Item}

-- A logger acts on a state that all loggers share, and may return an error.
abbrev pub Logger : Type 0 → Type 0
Logger S = List Item → S → S × Err

abbrev pub is_empty : List Err → Bool
is_empty [] = true
is_empty (err ∷ errs) = false

module _ {S : Type 0} where
  -- `nopLogger`
  abbrev pub nop_log : Logger S
  nop_log keyvals s = (s, nil)

  -- `for _, l := range t`
  pub tee_from : Errors → List (Logger S) → List Item → S → S × Errors
  tee_from errs [] keyvals s = (s, errs)
  tee_from errs (l ∷ t) keyvals s =
      let (s', err) = l keyvals s in
      tee_from (if not (is_nil err) then append errs err else errs) t keyvals s'

  -- `(teeLogger) Log`; what is returned if there are errors is the collection
  unfoldable pub tee_log : List (Logger S) → List Item → S → S × Option Errors
  unfolding tee_from
  tee_log t keyvals s =
      let (s', errs) = tee_from (new_errors (pos 500) [] []) t keyvals s in
      (s', if has_error errs then some errs else none)

  -- every logger in its turn: the state that is left, and the errors that are not nil
  abbrev pub run_all : List (Logger S) → List Item → S → S × List Err
  run_all [] keyvals s = (s, [])
  run_all (l ∷ t) keyvals s =
      let (s', err) = l keyvals s in
      let (s'', errs) = run_all t keyvals s' in (s'', if not (is_nil err) then err ∷ errs else errs)

  tee_from_lem :
      (errs : Errors) (t : List (Logger S)) (keyvals : List Item) (s : S)
      → tee_from errs t keyvals s
        ≡ ((run_all t keyvals s).0, record errs { errs = errs.errs ++ (run_all t keyvals s).1 })
  unfolding tee_from
  tee_from_lem errs [] keyvals s = rw (append-nil errs.errs) refl
  tee_from_lem errs (l ∷ t) keyvals s = elim (Bool-cases (is_nil (l keyvals s).1)) [
    | inl ok ↦ rw ok (tee_from_lem errs t keyvals (l keyvals s).0)
    | inr bad ↦
        let (s', err) = l keyvals s in
        rw bad (
          tee_from_lem (record errs { errs = errs.errs ++ (l keyvals s).1 ∷ [] }) t keyvals
            (l keyvals s).0
          ∙ rw (append_assoc errs.errs ((l keyvals s).1 ∷ []) (run_all t keyvals (l keyvals s).0).1)
              refl)
  ]

  has_error-run_all :
      (m : Errors) (t : List (Logger S)) (keyvals : List Item) (s : S)
      → has_error (record m { errs = (run_all t keyvals s).1 })
        ≡ not (is_empty (run_all t keyvals s).1)
  unfolding has_error filter
  has_error-run_all m [] keyvals s = refl
  has_error-run_all m (l ∷ t) keyvals s = elim (Bool-cases (is_nil (l keyvals s).1)) [
    | inl ok ↦ rw ok (has_error-run_all m t keyvals (l keyvals s).0)
    | inr bad ↦ rw (bad, filter, bad) (ground arith)
  ]

  -- `Log` of a `teeLogger` hands the line to every logger in its turn, whatever the ones before
  -- return, and returns nil exactly if each of them returns nil, and all errors otherwise.
  pub tee_log-run_all :
      (t : List (Logger S)) (keyvals : List Item) (s : S)
      → tee_log t keyvals s ≡ (
        (run_all t keyvals s).0,
        if is_empty (run_all t keyvals s).1
            then none
            else some (record (new_errors (pos 500) [] []) { errs = (run_all t keyvals s).1 }),
      )
  unfolding tee_log
  tee_log-run_all t keyvals s =
      rw
        (
          tee_from_lem (new_errors (pos 500) [] []) t keyvals s,
          has_error-run_all (new_errors (pos 500) [] []) t keyvals s,
        )
        (ground arith)
