-- ===== src/Parser/Expr.antt =====
-- src/ast/types.rs: `Expr`, `UnOp`, `FieldInit` and `Builtin`, without their spans. An identifier is the
-- number of its name, a path the numbers of its names.
pub mod Lists
pub mod Left
pub mod Tree
pub mod Loop
pub mod Chain
pub mod Steps
pub mod Terms
pub mod RoundTrip
pub mod Unary
pub mod NoArgs
mod Tests
use enumc.Prelude.{ℕ, zero, suc, List, [], ◌∷◌}
use enumc.Types.Ty.{Ty}
use enumc.Parser.Ops.{BinOp}
use enumc.Parser.Literal.{Value}

pub data UnOp : Type 0 where
  not ones_comp : UnOp

pub data Builtin : Type 0 where
  bottom : Builtin
  size_of : Ty → Builtin

-- `binary` has the operator, the left and the right operand; `call` and `trait_meth` have the path, the
-- arguments and the type arguments.
mutual
  pub data Expr : Type 0 where
    ident : ℕ → Expr
    deref : ℕ → Expr → Expr
    addr_of : Expr → Expr
    array : ℕ → Exprs → Expr
    urnary : UnOp → Expr → Expr
    binary : BinOp → Expr → Expr → Expr
    parens : Expr → Expr
    call : List ℕ → Exprs → List Ty → Expr
    trait_meth : List ℕ → Exprs → List Ty → Expr
    field_access : Expr → Expr → Expr
    struct_init : List ℕ → FieldInits → Expr
    enum_init : List ℕ → ℕ → Exprs → Expr
    array_init : Exprs → Expr
    value : Value → Expr
    builtin : Builtin → Expr

  pub data Exprs : Type 0 where
    nil : Exprs
    cons : Expr → Exprs → Exprs

  pub data FieldInits : Type 0 where
    none : FieldInits
    init : ℕ → Expr → FieldInits → FieldInits

-- `Vec<Expression>`
abbrev pub to_exprs : List Expr → Exprs
to_exprs [] = Exprs.nil
to_exprs (e ∷ es) = Exprs.cons e (to_exprs es)

-- `Vec<FieldInit>`
abbrev pub to_inits : List (ℕ × Expr) → FieldInits
to_inits [] = FieldInits.none
to_inits ((name, e) ∷ inits) = FieldInits.init name e (to_inits inits)

-- `std::iter::repeat(e).take(count)`
abbrev pub repeated : ℕ → Expr → Exprs
repeated zero e = Exprs.nil
repeated (suc count) e = Exprs.cons e (repeated count e)
