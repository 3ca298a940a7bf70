-- ===== src/Errors/Tests.antt =====
-- Runs of the error report and of the positions, and their theorems at concrete inputs.
use enumc.Prelude.{ℕ, ◌+◌, ◌≡◌, refl, true, false, [], ◌∷◌}
use enumc.Types.Span.{le_range}
use enumc.Errors.Report.{Error, ErrorReport, place, sort_by, push_error, poisoned}
use enumc.Errors.Sorted.{Sorted, push, mark, handle_all, handle_all-Sorted}
use enumc.Lexer.Chars.{str_len, len_utf8}
use enumc.Errors.Position.{calc_line_col, calc_line_col-line}

abbrev error_at : ℕ → Error ℕ
error_at start = record { span = record { start = start; end = start + 1; file_id = 0 }; text = 0 }

abbrev two_errors : ErrorReport ℕ
two_errors = record { errors = error_at 3 ∷ error_at 9 ∷ []; error_in_current_expr_tree = false }

pushed_between :
    (push_error two_errors (error_at 5)).errors ≡ error_at 3 ∷ error_at 5 ∷ error_at 9 ∷ []
unfolding push_error sort_by place le_range
pushed_between = refl

-- A second error of one expression is dropped.
pushed_when_poisoned : push_error (poisoned two_errors true) (error_at 5) ≡ poisoned two_errors true
unfolding push_error poisoned
pushed_when_poisoned = refl

handle_all-Sorted_example :
    Sorted (handle_all two_errors (push (error_at 4) ∷ mark true ∷ push (error_at 0) ∷ [])).errors
unfolding le_range
handle_all-Sorted_example =
    handle_all-Sorted two_errors (push (error_at 4) ∷ mark true ∷ push (error_at 0) ∷ [])
      (refl, (tt, tt))

-- `x`, carriage return and newline, `yz` in front of `w`
calc_line_col-line_example :
    calc_line_col 5 (b'x' ∷ b'\r' ∷ b'\n' ∷ b'y' ∷ b'z' ∷ b'w' ∷ []) ≡ (2, 3)
unfolding str_len len_utf8
calc_line_col-line_example =
    calc_line_col-line (b'x' ∷ b'\r' ∷ []) (b'y' ∷ b'z' ∷ []) (b'w' ∷ []) refl refl
