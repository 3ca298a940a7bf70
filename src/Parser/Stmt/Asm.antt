-- ===== src/Parser/Stmt/Asm.antt =====
-- src/ast/parse.rs: `make_asm_stmt`, `make_assembly_inst` and `make_location`, of inline assembly.
use Prim.Native.String.{String}
use text.Mathlib.Text.{◌==◌}
use enumc.Prelude.{ℕ, zero, suc, Bool, true, false, List, [], ◌∷◌, ◌++◌, Option, none, some}
use enumc.Lexer.Token.{TokenKind}
use enumc.Lexer.Match.{TokenMatch, matches}
use enumc.Gen.Inst.{
  rax, rcx, rdx, rbx, rsp, rbp, rsi, rdi, r8, r9, r10, r11, r12, r13, r14, r15, xmm0, xmm1, xmm2,
  xmm3, xmm4, xmm5, xmm6, xmm7,
}
use enumc.Parser.Stream.{
  expected, Parse, done, failed, panic, out_of_fuel, pure, fail, then_at, ◌>>=◌, ◌>>◌, curr_kind,
  input_curr, eat_if, eat_whitespace, make_ident,
}
use enumc.Parser.Literal.{make_literal}
use enumc.Parser.Stmt.{Operand, register, float_reg, inline_var, constant, Instruction}

-- The registers by their names
abbrev pub registers : List (String × Operand)
registers =
    ("rax", register rax)
    ∷ ("rcx", register rcx)
    ∷ ("rdx", register rdx)
    ∷ ("rbx", register rbx)
    ∷ ("rsp", register rsp)
    ∷ ("rbp", register rbp)
    ∷ ("rsi", register rsi)
    ∷ ("rdi", register rdi)
    ∷ ("r8", register r8)
    ∷ ("r9", register r9)
    ∷ ("r10", register r10)
    ∷ ("r11", register r11)
    ∷ ("r12", register r12)
    ∷ ("r13", register r13)
    ∷ ("r14", register r14)
    ∷ ("r15", register r15)
    ∷ ("xmm0", float_reg xmm0)
    ∷ ("xmm1", float_reg xmm1)
    ∷ ("xmm2", float_reg xmm2)
    ∷ ("xmm3", float_reg xmm3)
    ∷ ("xmm4", float_reg xmm4)
    ∷ ("xmm5", float_reg xmm5)
    ∷ ("xmm6", float_reg xmm6)
    ∷ ("xmm7", float_reg xmm7)
    ∷ []

unfoldable pub named : String → List (String × Operand) → Option Operand
named text [] = none
named text ((reg, location) ∷ regs) = elim (text == reg) [
  | true ↦ some location
  | false ↦ named text regs
]

abbrev pub known_register : Option Operand → Parse (Option Operand)
known_register none = fail expected
known_register (some location) = eat_if TokenMatch.ident >> pure (some location)

module _ (number : String → ℕ) (parse_f64 : Bool → String → Option ℕ) where
  unfoldable pub location_at : TokenKind → Parse (Option Operand)
  location_at TokenKind.open_paren =
      eat_if TokenMatch.open_paren
      >> (make_ident
          >>= (λ text. eat_if TokenMatch.close_paren >> pure (some (inline_var (number text)))))
  location_at TokenKind.minus =
      make_literal number parse_f64 >>= (λ val. pure (some (constant val)))
  location_at (TokenKind.literal kind suffix_start) =
      make_literal number parse_f64 >>= (λ val. pure (some (constant val)))
  location_at TokenKind.percent =
      eat_if TokenMatch.percent >> (λ toks. known_register (named (input_curr toks) registers) toks)
  location_at kind = λ toks. panic

  unfoldable pub make_location : Parse (Option Operand)
  make_location toks = location_at (curr_kind toks) toks

  -- The second operand, if there is a comma
  unfoldable pub make_dst : Parse (Option Operand)
  make_dst =
      eat_if TokenMatch.comma
      >>= (λ more. elim more [ true ↦ eat_whitespace >> make_location | false ↦ pure none ])

  -- The operands of an instruction, up to its semicolon
  unfoldable pub make_operands : ℕ → Parse Instruction
  make_operands inst = make_location >>= (λ src.
      eat_whitespace
      >> (make_dst >>= (λ dst. eat_if TokenMatch.semi >>= (λ ended. elim ended [
        | true ↦ pure (record { inst = inst; src = src; dst = dst })
        | false ↦ fail expected
      ]))))

  unfoldable pub make_assembly_inst : Parse Instruction
  make_assembly_inst toks = elim (matches TokenMatch.ident (curr_kind toks)) [
    | false ↦ failed expected
    | true ↦ then_at (make_ident toks) (λ text. eat_if TokenMatch.semi >>= (λ ended. elim ended [
      | true ↦ pure (record { inst = number text; src = none; dst = none })
      | false ↦ make_operands (number text)
    ]))
  ]

  unfoldable pub assembly_loop : ℕ → List Instruction → Parse (List Instruction)
  assembly_loop zero assembly toks = out_of_fuel
  assembly_loop (suc fuel) assembly toks = elim (matches TokenMatch.close_brace (curr_kind toks)) [
    | true ↦ done assembly toks
    | false ↦
        then_at (make_assembly_inst toks)
          (λ inst. eat_whitespace >> assembly_loop fuel (assembly ++ inst ∷ []))
  ]

  unfoldable pub make_asm_stmt : ℕ → Parse (List Instruction)
  make_asm_stmt fuel =
      eat_whitespace
      >> (eat_if TokenMatch.open_brace >>= (λ opened. elim opened [
        | true ↦
            eat_whitespace
            >> (assembly_loop fuel [] >>= (λ assembly.
                eat_if TokenMatch.close_brace
                >> (eat_whitespace >> (eat_if TokenMatch.semi >> pure assembly))))
        | false ↦ fail expected
      ]))
