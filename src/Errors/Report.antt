-- ===== src/Errors/Report.antt =====
-- src/error.rs: `ErrorReport`.
use enumc.Prelude.{Bool, true, false, not, List, [], ◌∷◌, ◌++◌, if◌then◌else◌}
use enumc.Types.Span.{Range, le_range}

-- An `Error`, whose texts are of any type.
pub record Error (A : Type 0) : Type 0 where
  pub span : Range
  pub text : A

pub record ErrorReport (A : Type 0) : Type 0 where
  pub errors : List (Error A)
  pub error_in_current_expr_tree : Bool

module _ {A : Type 0} where
  -- `sort_by` of the standard library keeps the order of errors whose spans are equal.
  unfoldable pub place : Error A → List (Error A) → List (Error A)
  place e [] = e ∷ []
  place e (x ∷ list) = if le_range e.span x.span then e ∷ x ∷ list else x ∷ place e list

  unfoldable pub sort_by : List (Error A) → List (Error A)
  sort_by [] = []
  sort_by (e ∷ list) = place e (sort_by list)

  unfoldable pub push_error : ErrorReport A → Error A → ErrorReport A
  push_error r e =
      if not r.error_in_current_expr_tree
      then record r { errors = sort_by (r.errors ++ e ∷ []) }
      else r

  unfoldable pub is_poisoned : ErrorReport A → Bool
  is_poisoned r = r.error_in_current_expr_tree

  unfoldable pub poisoned : ErrorReport A → Bool → ErrorReport A
  poisoned r b = record r { error_in_current_expr_tree = b }

  unfoldable pub is_empty : ErrorReport A → Bool
  is_empty r = elim r.errors [ [] ↦ true | e ∷ list ↦ false ]
