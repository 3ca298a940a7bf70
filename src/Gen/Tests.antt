-- ===== src/Gen/Tests.antt =====
-- Runs of the register allocation and of the frame, and their theorems at concrete inputs.
use enumc.Prelude.{ℕ, ◌≡◌, refl, List, [], ◌∷◌, Option, none, some, arith}
use enumc.Lir.Layout.{
  Ty, array, struct, enum, int, char, float, ptr, nil, cons, variant, none_left, size, sum_sizes,
  max_variants,
}
use enumc.Gen.Inst.{Register, rax, rdx, rbp, numbered_offset}
use enumc.Gen.Registers.{
  usable_regs, contains, use_reg, free_reg, Register-Discrete, yes_clear, clear_regs_except,
  kept_reg,
}
use enumc.Gen.Registers.Free.{AllDistinct, Fresh, free_reg_enough}
use enumc.Gen.Stack.{
  CodeGen, push_stack, alloc_stack, alloc_arg, arg_size, largest_variant, enter_func, alloc_args,
}
use enumc.Gen.Stack.Frame.{lowered, lowered_by, storable, Lowers, push_stack-Lowers}
use enumc.Gen.Stack.Vars.{InFrame, Added, Entered, alloc_stack-InFrame, alloc_args-InFrame}

abbrev in_use : List Register
in_use = rax ∷ rdx ∷ []

usable_regs-distinct : AllDistinct Register-Discrete usable_regs
unfolding AllDistinct contains Register-Discrete
usable_regs-distinct = (
  refl,
  (
    refl,
    (
      refl,
      (refl, (refl, (refl, (refl, (refl, (refl, (refl, (refl, (refl, (refl, (refl, tt))))))))))),
    ),
  ),
)

free_reg_enough_example :
    (r : Register) × (free_reg Register-Discrete usable_regs in_use
      ≡ some (r, use_reg Register-Discrete r in_use))
    × Fresh Register-Discrete usable_regs in_use r (use_reg Register-Discrete r in_use)
free_reg_enough_example =
    free_reg_enough Register-Discrete usable_regs in_use usable_regs-distinct (omega arith)

-- struct { int, enum { a, b(char, int) }, [3, int] }
abbrev pair_ty : Ty
pair_ty = struct 0 nil (
    cons int (
      cons (enum 1 nil (variant nil (variant (cons char (cons int nil)) none_left)))
        (cons (array 3 int) nil)))

push_stack-Lowers_example : Lowers (push_stack pair_ty) 56
unfolding size sum_sizes max_variants storable
push_stack-Lowers_example = push_stack-Lowers pair_ty 56 refl refl

abbrev empty_gen : CodeGen
empty_gen = record { asm_buf = []; current_stack = 0; total_stack = 0; vars = [] }

-- The state in a function 5, called `f`, without parameters
abbrev entered : CodeGen
entered = enter_func empty_gen 5 (b'f' ∷ [])

entered-InFrame : InFrame entered.asm_buf entered.vars entered
unfolding InFrame lowered enter_func
entered-InFrame = ([], [], refl, refl, refl, tt)

alloc_stack-InFrame_example :
    (gen : CodeGen) × (alloc_stack entered 7 pair_ty ≡ some gen)
    × Added entered.asm_buf entered.vars entered 7 56 gen
unfolding size sum_sizes max_variants storable
alloc_stack-InFrame_example =
    alloc_stack-InFrame entered.asm_buf entered.vars entered 7 56 pair_ty refl refl entered-InFrame

-- fn f(p: *int, x: float, n: int)
abbrev three_params : List (ℕ × Ty)
three_params = (7, ptr int) ∷ (8, float) ∷ (9, int) ∷ []

alloc_args-InFrame_example :
    Entered entered.asm_buf entered.vars 0 entered.vars three_params
      (alloc_args entered 0 0 three_params)
unfolding arg_size size
alloc_args-InFrame_example =
    alloc_args-InFrame empty_gen 5 (b'f' ∷ []) three_params refl (omega arith)
      (refl, (refl, (refl, tt)))

abbrev frame_of : Option (CodeGen × ℕ) → Option (ℕ × ℕ)
frame_of none = none
frame_of (some (gen, f_count)) = some (lowered gen.asm_buf, gen.current_stack)

-- A struct of two numbers as an argument: `rsp` is lowered by one push of 8 bytes, the frame by 16.
alloc_arg_struct :
    frame_of (alloc_arg empty_gen 0 0 7 (struct 0 nil (cons int (cons int nil)))) ≡ some (8, 16)
unfolding alloc_arg arg_size size sum_sizes lowered lowered_by
alloc_arg_struct = refl

-- An enum without variants: `size` counts its tag, `push_stack` reserves nothing.
push_stack_empty_enum :
    (push_stack (enum 0 nil none_left) ≡ push_stack (array 0 int))
    × (size (enum 0 nil none_left) ≡ some 8)
unfolding push_stack size max_variants largest_variant
push_stack_empty_enum = (refl, refl)

cleared : clear_regs_except in_use (some (numbered_offset 8 rbp)) yes_clear ≡ []
unfolding clear_regs_except kept_reg
cleared = refl
