-- ===== src/Validation.antt =====
-- What pydantic makes of the validators of a request's fields.
use taskpilot_assessment.Prelude.{String, List, [], ◌∷◌, ◌++◌}
use taskpilot_assessment.Errors.{Exception, ErrorItem, Result, ok, err, value_error}

-- pydantic collects the ValueErrors of the fields into one error and passes other exceptions on.
pub data Checked (A : Type 0) : Type 0 where
  valid : A → Checked A
  rejected : List ErrorItem → Checked A
  raised : Exception → Checked A

abbrev pub check : {A : Type 0} → (name : String) → Result A → Checked A
check name (ok a) = valid a
check name (err (value_error message)) =
    rejected (record { loc = "body" ∷ name ∷ []; msg = message } ∷ [])
check name (err e) = raised e

abbrev pub both : {A B : Type 0} → Checked A → Checked B → Checked (A × B)
both (raised e) _ = raised e
both (valid a) (valid b) = valid (a, b)
both (valid a) (rejected es) = rejected es
both (valid a) (raised e) = raised e
both (rejected es) (valid b) = rejected es
both (rejected es) (rejected fs) = rejected (es ++ fs)
both (rejected es) (raised e) = raised e

-- `raise ValueError(message)`
abbrev pub invalid : {A : Type 0} → String → Result A
invalid message = err (value_error message)
