-- ===== src/Gen/Registers.antt =====
-- src/gen/asm.rs: the registers in use: `free_reg`, `use_reg`, `clear_regs_except` and the same for
-- floats. A set is a list; `usable` is the set that may be used, in the order in which it iterates.
pub mod Free
use enumc.Prelude.{
  ℕ, ◌≡◌, Bool, true, false, not, ◌||◌, List, [], ◌∷◌, Option, none, some, if◌then◌else◌,
}
use enumc.Gen.Inst.{
  Register, rax, rcx, rdx, rbx, rsi, rdi, r8, r9, r10, r11, r12, r13, r14, r15, FloatRegister, xmm0,
  xmm1, xmm2, xmm3, xmm4, xmm5, xmm6, xmm7, Location, reg_addr, register, float_reg,
}

pub data CanClearRegs : Type 0 where
  yes_clear no_clear : CanClearRegs

abbrev pub usable_regs : List Register
usable_regs = rax ∷ rcx ∷ rdx ∷ rbx ∷ rsi ∷ rdi ∷ r8 ∷ r9 ∷ r10 ∷ r11 ∷ r12 ∷ r13 ∷ r14 ∷ r15 ∷ []

abbrev pub usable_float_regs : List FloatRegister
usable_float_regs = xmm0 ∷ xmm1 ∷ xmm2 ∷ xmm3 ∷ xmm4 ∷ xmm5 ∷ xmm6 ∷ xmm7 ∷ []

module _ {R : Type 0} (eq : Discrete R) where
  abbrev pub same : R → R → Bool
  same a b = elim (eq a b) [ yes e ↦ true | no n ↦ false ]

  unfoldable pub contains : List R → R → Bool
  contains [] r = false
  contains (x ∷ set) r = if same x r then true else contains set r

  -- `insert` of a set
  unfoldable pub use_reg : R → List R → List R
  use_reg r used = if contains used r then used else r ∷ used

  -- The first of `difference(..)` that passes a test
  unfoldable pub first_free : (R → Bool) → List R → List R → Option R
  first_free test [] used = none
  first_free test (r ∷ usable) used =
      if contains used r || not (test r) then first_free test usable used else some r

  abbrev pub taken : List R → Option R → Option (R × List R)
  taken used none = none
  taken used (some r) = some (r, use_reg r used)

  -- `none` is the panic of `expect`.
  unfoldable pub free_reg : List R → List R → Option (R × List R)
  free_reg usable used = taken used (first_free (λ r. true) usable used)

  unfoldable pub free_reg_except : List R → List R → R → Option (R × List R)
  free_reg_except usable used reg = taken used (first_free (λ r. not (same reg r)) usable used)

unfoldable pub Register-Discrete : Discrete Register
Register-Discrete = hlevel

unfoldable pub FloatRegister-Discrete : Discrete FloatRegister
FloatRegister-Discrete = hlevel

-- The register of a location that must be kept, for `clear_regs_except`
unfoldable pub kept_reg : Option Location → List Register
kept_reg (some (reg_addr reg offset size)) = reg ∷ []
kept_reg (some (register reg)) = reg ∷ []
kept_reg _ = []

unfoldable pub clear_regs_except : List Register → Option Location → CanClearRegs → List Register
clear_regs_except used loc no_clear = used
clear_regs_except used loc yes_clear = kept_reg loc

unfoldable pub kept_float_reg : Option Location → List FloatRegister
kept_float_reg (some (float_reg reg)) = reg ∷ []
kept_float_reg _ = []

unfoldable pub clear_float_regs_except :
    List FloatRegister → Option Location → CanClearRegs → List FloatRegister
clear_float_regs_except used loc no_clear = used
clear_float_regs_except used loc yes_clear = kept_float_reg loc
