-- ===== src/Errors/Sorted.antt =====
-- The errors of a report stay sorted by their spans, and none is lost.
use enumc.Prelude.{◌≡◌, subst, Bool, true, false, List, [], ◌∷◌, ◌++◌, Bool-cases, inl, inr}
use enumc.Types.Span.{le_range, le_range_total}
use enumc.Errors.Report.{Error, ErrorReport, place, sort_by, push_error, poisoned, is_poisoned}
use mathlib.Core.List.Perm
use mathlib.Core.List.{Perm, perm_middle, append-nil}

-- What happens to a report: an error is pushed, or the mark of the current expression is set.
pub data Event (A : Type 0) : Type 0 where
  push : Error A → Event A
  mark : Bool → Event A

module _ {A : Type 0} where
  abbrev AtMost : Error A → List (Error A) → Type 0
  AtMost x [] = Unit {0}
  AtMost x (y ∷ list) = le_range x.span y.span ≡ true

  -- Each error is at most the one behind it.
  abbrev pub Sorted : List (Error A) → Type 0
  Sorted [] = Unit {0}
  Sorted (x ∷ list) = AtMost x list × Sorted list

  AtMost-place :
      (x e : Error A) (list : List (Error A))
      → le_range x.span e.span ≡ true
      → AtMost x list
      → AtMost x (place e list)
  unfolding place
  AtMost-place x e [] le h = le
  AtMost-place x e (y ∷ list) le h = elim (Bool-cases (le_range e.span y.span)) [
    | inl first ↦ rw first le
    | inr later ↦ rw later h
  ]

  Sorted-place : (e : Error A) (list : List (Error A)) → Sorted list → Sorted (place e list)
  unfolding place
  Sorted-place e [] h = (tt, tt)
  Sorted-place e (x ∷ list) h = elim (Bool-cases (le_range e.span x.span)) [
    | inl first ↦ rw first (first, h)
    | inr later ↦
        rw later
          (AtMost-place x e list (le_range_total e.span x.span later) h.0, Sorted-place e list h.1)
  ]

  Sorted-sort_by : (list : List (Error A)) → Sorted (sort_by list)
  unfolding sort_by
  Sorted-sort_by [] = tt
  Sorted-sort_by (e ∷ list) = Sorted-place e (sort_by list) (Sorted-sort_by list)

  place-perm : (e : Error A) (list : List (Error A)) → Perm (place e list) (e ∷ list)
  unfolding place
  place-perm e [] = Perm.refl (e ∷ [])
  place-perm e (x ∷ list) = elim (Bool-cases (le_range e.span x.span)) [
    | inl first ↦ rw first (Perm.refl (e ∷ x ∷ list))
    | inr later ↦ rw later (Perm.trans (Perm.cons x (place-perm e list)) (Perm.swap e x list))
  ]

  sort_by-perm : (list : List (Error A)) → Perm (sort_by list) list
  unfolding sort_by
  sort_by-perm [] = Perm.refl []
  sort_by-perm (e ∷ list) =
      Perm.trans (place-perm e (sort_by list)) (Perm.cons e (sort_by-perm list))

  -- While no error of the current expression is reported, `push_error` adds the error and loses none,
  -- and then the errors are sorted by their spans.
  pub push_error-Sorted :
      (r : ErrorReport A) (e : Error A)
      → is_poisoned r ≡ false
      → Sorted (push_error r e).errors × Perm (push_error r e).errors (e ∷ r.errors)
  unfolding push_error is_poisoned
  push_error-Sorted r e h = rw h (
    Sorted-sort_by (r.errors ++ e ∷ []),
    Perm.trans (sort_by-perm (r.errors ++ e ∷ [])) (
        subst (λ l. Perm (r.errors ++ e ∷ []) (e ∷ l)) (append-nil r.errors)
          (perm_middle r.errors [])),
  )

  unfoldable pub handle : ErrorReport A → Event A → ErrorReport A
  handle r (push e) = push_error r e
  handle r (mark b) = poisoned r b

  unfoldable pub handle_all : ErrorReport A → List (Event A) → ErrorReport A
  handle_all r [] = r
  handle_all r (event ∷ events) = handle_all (handle r event) events

  handle-Sorted :
      (r : ErrorReport A) (event : Event A) → Sorted r.errors → Sorted (handle r event).errors
  unfolding handle push_error poisoned
  handle-Sorted r (push e) h = elim (Bool-cases r.error_in_current_expr_tree) [
    | inl muted ↦ simp muted h
    | inr heard ↦ simp heard (Sorted-sort_by (r.errors ++ e ∷ []))
  ]
  handle-Sorted r (mark b) h = h

  -- Whatever is pushed and marked, in whatever order, a report that was sorted stays sorted.
  pub handle_all-Sorted :
      (r : ErrorReport A) (events : List (Event A))
      → Sorted r.errors
      → Sorted (handle_all r events).errors
  unfolding handle_all
  handle_all-Sorted r [] h = h
  handle_all-Sorted r (event ∷ events) h =
      handle_all-Sorted (handle r event) events (handle-Sorted r event h)
