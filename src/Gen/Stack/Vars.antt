-- ===== src/Gen/Stack/Vars.antt =====
-- src/gen/asm.rs: the variables of a frame: `alloc_stack` and the loop over the parameters keep `rsp` at the end of the
-- frame and give each variable bytes of its own.
use mathlib.Core.List.{append-nil, append_assoc}
use enumc.Prelude.{
  ℕ, zero, suc, ◌+◌, ◌*◌, ◌≤◌, ◌<◌, ◌≡◌, refl, sym, ap, ap₂, ◌∙◌, true, List, [], ◌∷◌, ◌++◌, Option,
  some, arith, Each, length,
}
use enumc.Lir.Layout.{
  Ty, generic, array, struct, enum, func, ptr, ref, const_str, int, char, float, bool, void, bottom,
  size,
}
use enumc.Gen.Inst.{
  rbp, Location, register, float_reg, numbered_offset, Instruction, push, float_mov,
}
use enumc.Gen.Stack.{
  CodeGen, arg_regs, arg_float_regs, get_elem?, arg_size, push_arg, push_float, with_count, add_var,
  emit_var, alloc_stack, alloc_arg, zero_loc, enter_func, alloc_args,
}
use enumc.Gen.Stack.Frame.{lowered, lowered_by, lowered-append, storable, Lowers, push_stack-Lowers}

-- A variable's location is in the first `n` bytes of the frame below `rbp`.
abbrev pub Within : ℕ → ℕ × Location → Type 0
Within n v = (offset : ℕ) × (v.1 ≡ numbered_offset offset rbp) × (offset ≤ n)

-- Behind `before`, the code up to the parameters of a function, what is emitted has lowered `rsp` to the end
-- of the frame. The variables since are all in the frame; `outside` are the ones before.
unfoldable pub InFrame : List Instruction → List (ℕ × Location) → CodeGen → Type 0
InFrame before outside gen =
    (code : List Instruction) × (inside : List (ℕ × Location)) × (gen.asm_buf ≡ before ++ code)
    × (lowered code ≡ gen.current_stack)
    × (gen.vars ≡ inside ++ outside)
    × Each (Within gen.current_stack) inside

Each-Within :
    (m n : ℕ) (vars : List (ℕ × Location)) → m ≤ n → Each (Within m) vars → Each (Within n) vars
Each-Within m n [] le h = tt
Each-Within m n (v ∷ vars) le ((offset, e, l), rest) =
    ((offset, e, omega arith), Each-Within m n vars le rest)

get_elem?-some :
    {A : Type 0} (xs : List A) (n : ℕ) → n < length xs → (x : A) × (get_elem? xs n ≡ some x)
get_elem?-some [] n h = absurd (omega arith)
get_elem?-some (x ∷ xs) zero h = (x, refl)
get_elem?-some (x ∷ xs) (suc n) h = get_elem?-some xs n (omega arith)

-- A parameter that takes 8 bytes
abbrev pub OfEight : ℕ × Ty → Type 0
OfEight p = arg_size p.1 ≡ some 8

module _ (before : List Instruction) (outside : List (ℕ × Location)) where
  -- The variable is added behind the others.
  unfoldable pub Added : CodeGen → ℕ → ℕ → CodeGen → Type 0
  Added gen name n gen' =
      InFrame before outside gen'
      × (gen'.current_stack ≡ gen.current_stack + n)
      × (gen'.vars ≡ (name, numbered_offset (gen.current_stack + n) rbp) ∷ gen.vars)

  add_var-Added :
      (gen : CodeGen) (code : List Instruction) (n name : ℕ)
      → InFrame before outside gen
      → lowered code ≡ n
      → Added gen name n (add_var gen code n name)
  unfolding InFrame Added
  add_var-Added gen code n name (emitted, inside, buf, at_end, vars, within) h =
      let var : ℕ × Location = (name, numbered_offset (gen.current_stack + n) rbp) in
      (
        (
          emitted ++ code,
          var ∷ inside,
          ap (λ b. b ++ code) buf ∙ append_assoc before emitted code,
          lowered-append emitted code ∙ ap₂ (λ i j. i + j) at_end h,
          ap (◌∷◌ var) vars,
          (
            (gen.current_stack + n, refl, omega arith),
            Each-Within gen.current_stack (gen.current_stack + n) inside (omega arith) within,
          ),
        ),
        refl,
        refl,
      )

  -- `alloc_stack` of a type that may be stored succeeds. It gives the variable the `n` bytes behind those of
  -- all the others of the function, `n` being the type's size, and keeps `rsp` at the end of the frame, if it
  -- was there and the variables of the function were in the frame.
  pub alloc_stack-InFrame :
      (gen : CodeGen) (name n : ℕ) (ty : Ty)
      → storable ty ≡ true
      → size ty ≡ some n
      → InFrame before outside gen
      → (gen' : CodeGen) × (alloc_stack gen name ty ≡ some gen') × Added gen name n gen'
  unfolding alloc_stack Lowers
  alloc_stack-InFrame gen name n ty s h frame =
      let (code, e, l) = push_stack-Lowers ty n s h in
      (add_var gen code n name, rw (e, h) refl, add_var-Added gen code n name frame l)

  -- The state and the count that `alloc_arg` returns, from a count of `f_count`
  unfoldable pub ArgAdded : CodeGen → ℕ → ℕ → Option (CodeGen × ℕ) → Type 0
  ArgAdded gen f_count name result =
      (gen' : CodeGen) × (f : ℕ) × (result ≡ some (gen', f))
      × (f ≤ suc f_count)
      × Added gen name 8 gen'

  push_arg-ArgAdded :
      (gen : CodeGen) (count f_count name : ℕ) (o : Option ℕ)
      → count < 6
      → o ≡ some 8
      → InFrame before outside gen
      → ArgAdded gen f_count name
          (with_count f_count (emit_var gen (push_arg (get_elem? arg_regs count) o) o name))
  unfolding ArgAdded lowered lowered_by
  push_arg-ArgAdded gen count f_count name o less h frame =
      let (reg, e) = get_elem?-some arg_regs count (ground arith) in
      let code = push (register reg) 8 ∷ [] in
      (
        add_var gen code 8 name,
        f_count,
        rw (h, e) refl,
        omega arith,
        add_var-Added gen code 8 name frame (omega arith),
      )

  push_float-ArgAdded :
      (gen : CodeGen) (f_count name : ℕ) (ref_loc : Location)
      → f_count < 7
      → InFrame before outside gen
      → ArgAdded gen f_count name (
          with_count (suc f_count) (
            emit_var gen
              (push_float ref_loc (get_elem? arg_float_regs f_count) (some 8))
              (some 8)
              name))
  unfolding ArgAdded lowered lowered_by
  push_float-ArgAdded gen f_count name ref_loc less frame =
      let (reg, e) = get_elem?-some arg_float_regs f_count (ground arith) in
      let code = push zero_loc 8 ∷ float_mov (float_reg reg) ref_loc ∷ [] in
      (
        add_var gen code 8 name,
        suc f_count,
        rw e refl,
        omega arith,
        add_var-Added gen code 8 name frame (omega arith),
      )

  alloc_arg-InFrame :
      (gen : CodeGen) (count f_count name : ℕ) (ty : Ty)
      → count < 6
      → f_count < 7
      → arg_size ty ≡ some 8
      → InFrame before outside gen
      → ArgAdded gen f_count name (alloc_arg gen count f_count name ty)
  unfolding alloc_arg arg_size
  alloc_arg-InFrame gen count f_count name float less f_less h frame =
      push_float-ArgAdded gen f_count name (numbered_offset (gen.current_stack + 8) rbp) f_less
        frame
  alloc_arg-InFrame gen count f_count name (array n ty) less f_less h frame =
      push_arg-ArgAdded gen count f_count name (arg_size (array n ty)) less h frame
  alloc_arg-InFrame gen count f_count name (struct ident gen' fields) less f_less h frame =
      push_arg-ArgAdded gen count f_count name (arg_size (struct ident gen' fields)) less h frame
  alloc_arg-InFrame gen count f_count name (enum ident gen' variants) less f_less h frame =
      push_arg-ArgAdded gen count f_count name (arg_size (enum ident gen' variants)) less h frame
  alloc_arg-InFrame gen count f_count name (func ident params ret) less f_less h frame =
      push_arg-ArgAdded gen count f_count name (arg_size (func ident params ret)) less h frame
  alloc_arg-InFrame gen count f_count name (ptr ty) less f_less h frame =
      push_arg-ArgAdded gen count f_count name (arg_size (ptr ty)) less h frame
  alloc_arg-InFrame gen count f_count name (ref ty) less f_less h frame =
      push_arg-ArgAdded gen count f_count name (arg_size (ref ty)) less h frame
  alloc_arg-InFrame gen count f_count name (const_str n) less f_less h frame =
      push_arg-ArgAdded gen count f_count name (arg_size (const_str n)) less h frame
  alloc_arg-InFrame gen count f_count name int less f_less h frame =
      push_arg-ArgAdded gen count f_count name (arg_size int) less h frame
  alloc_arg-InFrame gen count f_count name char less f_less h frame =
      push_arg-ArgAdded gen count f_count name (arg_size char) less h frame
  alloc_arg-InFrame gen count f_count name bool less f_less h frame =
      push_arg-ArgAdded gen count f_count name (arg_size bool) less h frame
  alloc_arg-InFrame gen count f_count name void less f_less h frame =
      push_arg-ArgAdded gen count f_count name (arg_size void) less h frame
  alloc_arg-InFrame gen count f_count name (generic ident bound) less f_less h frame =
      push_arg-ArgAdded gen count f_count name (arg_size (generic ident bound)) less h frame
  alloc_arg-InFrame gen count f_count name bottom less f_less h frame =
      push_arg-ArgAdded gen count f_count name (arg_size bottom) less h frame

  -- The variables once the parameters are added, each in the 8 bytes behind the last
  abbrev pub placed : ℕ → List (ℕ × Ty) → List (ℕ × Location) → List (ℕ × Location)
  placed n [] vars = vars
  placed n ((name, ty) ∷ params) vars =
      placed (n + 8) params ((name, numbered_offset (n + 8) rbp) ∷ vars)

  -- What the loop over the parameters gives
  unfoldable pub Entered : ℕ → List (ℕ × Location) → List (ℕ × Ty) → Option (CodeGen × ℕ) → Type 0
  Entered n vars params result =
      (gen : CodeGen) × (f : ℕ) × (result ≡ some (gen, f))
      × InFrame before outside gen
      × (gen.current_stack ≡ n + 8 * length params)
      × (gen.vars ≡ placed n params vars)

  alloc_args-Entered :
      (gen : CodeGen) (count f_count n : ℕ) (vars : List (ℕ × Location)) (params : List (ℕ × Ty))
      → count + length params ≤ 6
      → f_count ≤ count
      → gen.current_stack ≡ n
      → gen.vars ≡ vars
      → Each OfEight params
      → InFrame before outside gen
      → Entered n vars params (alloc_args gen count f_count params)
  unfolding alloc_args Entered ArgAdded Added
  alloc_args-Entered gen count f_count n vars [] le less e v h frame =
      (gen, f_count, refl, frame, omega arith, v)
  alloc_args-Entered gen count f_count n vars ((name, ty) ∷ params) le less e v (h, rest) frame =
      let (gen', f, returned, f_le, (frame', e', v')) =
        alloc_arg-InFrame gen count f_count name ty (omega arith) (omega arith) h frame in
      let vars' : List (ℕ × Location) = (name, numbered_offset (n + 8) rbp) ∷ vars in
      let v'' : gen'.vars ≡ vars' = v' ∙ ap₂ (λ m l. (name, numbered_offset (m + 8) rbp) ∷ l) e v in
      let (last, f', returned', frame'', e'', v''') =
        alloc_args-Entered gen' (suc count) f (n + 8) vars' params (omega arith) (omega arith)
          (omega arith) v'' rest frame' in
      (last, f', rw (alloc_args, returned) returned', frame'', omega arith, v''')

-- With an empty frame, as between two functions, the start of `visit_func` allocates up to 6 parameters of 8 bytes
-- each: the code behind `mov rbp, rsp` lowers `rsp` to the end of the frame, and each parameter has the 8 bytes
-- behind those of the one before.
pub alloc_args-InFrame :
    (gen : CodeGen) (ident : ℕ) (name : List ℕ) (params : List (ℕ × Ty))
    → gen.current_stack ≡ 0
    → length params ≤ 6
    → Each OfEight params
    → Entered
        (enter_func gen ident name).asm_buf
        (enter_func gen ident name).vars
        0
        (enter_func gen ident name).vars
        params
        (alloc_args (enter_func gen ident name) 0 0 params)
unfolding enter_func InFrame lowered
alloc_args-InFrame gen ident name params e le h =
    alloc_args-Entered (enter_func gen ident name).asm_buf (enter_func gen ident name).vars
      (enter_func gen ident name) 0 0 0 (enter_func gen ident name).vars params (omega arith)
      (omega arith) e refl h ([], [], sym (append-nil _), sym e, refl, tt)
