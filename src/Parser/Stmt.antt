-- ===== src/Parser/Stmt.antt =====
-- src/ast/types.rs: `Stmt`, `Block`, `MatchArm`, `Pat`, `Binding`, and the instructions of an `AsmBlock`, without
-- their spans.
pub mod State
pub mod Asm
pub mod Pattern
pub mod Block
pub mod Keeps
pub mod Flag
pub mod Print
pub mod Starts
pub mod Steps
pub mod Bodies
pub mod RoundTrip
mod Tests
use enumc.Prelude.{ℕ, Bool, List, [], ◌∷◌, Option}
use enumc.Types.Ty.{Ty}
use enumc.Gen.Inst.{Register, FloatRegister}
use enumc.Parser.Ops.{BinOp}
use enumc.Parser.Literal.{Value}
use enumc.Parser.Expr.{Expr, Builtin}

pub data Binding : Type 0 where
  wild : ℕ → Binding
  value : Value → Binding

mutual
  pub data Pat : Type 0 where
    enum_pat : List ℕ → ℕ → Pats → Pat
    array_pat : ℕ → Pats → Pat
    bind : Binding → Pat

  pub data Pats : Type 0 where
    no_pats : Pats
    pat : Pat → Pats → Pats

abbrev pub to_pats : List Pat → Pats
to_pats [] = no_pats
to_pats (p ∷ ps) = pat p (to_pats ps)

-- `Location`
pub data Operand : Type 0 where
  register : Register → Operand
  float_reg : FloatRegister → Operand
  named_offset : ℕ → Operand
  offset : ℕ → Operand → Operand
  inline_var : ℕ → Operand
  constant : Value → Operand

pub record Instruction : Type 0 where
  pub inst : ℕ
  pub src : Option Operand
  pub dst : Option Operand

pub record Const : Type 0 where
  pub ident : ℕ
  pub ty : Ty
  pub init : Expr
  pub mutable : Bool

-- `assign` has the left and the right side, the type and whether it is a `let`.
mutual
  pub data Stmt : Type 0 where
    const_stmt : Const → Stmt
    assign : Expr → Expr → Option Ty → Bool → Stmt
    assign_op : Expr → Expr → BinOp → Stmt
    call : Expr → Stmt
    trait_meth : Expr → Stmt
    if_else : Expr → Stmts → Else → Stmt
    while : Expr → Stmts → Stmt
    match_on : Expr → Arms → Stmt
    inline_asm : List Instruction → Stmt
    ret : Expr → Stmt
    exit : Stmt
    builtin : Builtin → Stmt
    block : Stmts → Stmt

  -- `ast::Block`
  pub data Stmts : Type 0 where
    no_stmts : Stmts
    stmt : Stmt → Stmts → Stmts

  pub data Else : Type 0 where
    no_else : Else
    els : Stmts → Else

  -- `MatchArm`s
  pub data Arms : Type 0 where
    no_arms : Arms
    arm : Pat → Stmts → Arms → Arms

abbrev pub to_stmts : List Stmt → Stmts
to_stmts [] = no_stmts
to_stmts (s ∷ ss) = stmt s (to_stmts ss)

abbrev pub to_arms : List (Pat × Stmts) → Arms
to_arms [] = no_arms
to_arms ((p, blk) ∷ arms) = arm p blk (to_arms arms)
