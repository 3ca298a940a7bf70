-- ===== src/Parser/Yard/Order.antt =====
-- The tree that the shunting yard builds has the operands and operators of the source, in order, and
-- spans them all.
use mathlib.Core.List.{append_assoc}
use enumc.Prelude.{ℕ, ◌≡◌, refl, ◌∙◌, List, [], ◌∷◌, ◌++◌, leb, Bool-cases, inl, inr}
use enumc.Parser.Ops.{BinOp, AssocOp, precedence}
use enumc.Parser.Yard.{Range, Expression, operand, binary, ok, span, make_expr}
use enumc.Parser.Yard.Stack.{
  Pending, AllBinary, node, joined, collapse, push, items, run, make_expr-run,
}

-- The symbols of an expression's text.
pub data Symbol (A : Type 0) : Type 0 where
  term : A → Range → Symbol A
  op : BinOp → Symbol A

module _ {A : Type 0} where
  abbrev pub inorder : Expression A → List (Symbol A)
  inorder (operand a r) = term a r ∷ []
  inorder (binary bin lhs rhs r) = inorder lhs ++ op bin ∷ inorder rhs

  -- The symbols of a chain of operands and operators, with the last operand.
  abbrev pub line : List (Expression A × AssocOp) → Expression A → List (Symbol A)
  line [] last = inorder last
  line ((ex, next) ∷ chain) last = inorder ex ++ op (node next) ∷ line chain last

  abbrev before : Pending A → List (Symbol A)
  before [] = []
  before ((lhs, next) ∷ pending) = before pending ++ (inorder lhs ++ op (node next) ∷ [])

  inorder-collapse :
      (pending : Pending A) (rhs : Expression A)
      → inorder (collapse pending rhs) ≡ before pending ++ inorder rhs
  unfolding collapse
  inorder-collapse [] rhs = refl
  inorder-collapse ((lhs, next) ∷ pending) rhs =
      inorder-collapse pending (joined next lhs rhs) ∙ simp append_assoc

  before-push :
      (pending : Pending A) (ex : Expression A) (next : AssocOp)
      → before (push pending ex next) ≡ before pending ++ (inorder ex ++ op (node next) ∷ [])
  before-push [] ex next = refl
  before-push ((lhs, prev) ∷ pending) ex next =
      elim (Bool-cases (leb (precedence next) (precedence prev))) [
        | inl e ↦
            rw (e, push) (rw (inorder-collapse ((lhs, prev) ∷ pending) ex) (simp append_assoc))
        | inr e ↦ rw (e, push)
      ]

  inorder-run :
      (chain : List (Expression A × AssocOp)) (pending : Pending A) (last : Expression A)
      → inorder (run chain pending last) ≡ before pending ++ line chain last
  inorder-run [] pending last = inorder-collapse pending last
  inorder-run ((ex, next) ∷ chain) pending last =
      inorder-run chain (push pending ex next) last
      ∙ rw (before-push pending ex next) (simp append_assoc)

  abbrev begin : Pending A → Expression A → ℕ
  begin [] ex = (span ex).start
  begin ((lhs, next) ∷ pending) ex = begin pending lhs

  -- The first operand of a chain.
  abbrev pub head : List (Expression A × AssocOp) → Expression A → Expression A
  head [] last = last
  head ((ex, next) ∷ chain) last = ex

  span-collapse :
      (pending : Pending A) (rhs : Expression A)
      → ((span (collapse pending rhs)).start ≡ begin pending rhs)
        × ((span (collapse pending rhs)).stop ≡ (span rhs).stop)
  unfolding collapse
  span-collapse [] rhs = (refl, refl)
  span-collapse ((lhs, next) ∷ []) rhs = (refl, refl)
  span-collapse ((lhs, next) ∷ (lhs', next') ∷ pending) rhs =
      span-collapse ((lhs', next') ∷ pending) (joined next lhs rhs)

  begin-push :
      (pending : Pending A) (ex last : Expression A) (next : AssocOp)
      → begin (push pending ex next) last ≡ begin pending ex
  begin-push [] ex last next = refl
  begin-push ((lhs, prev) ∷ pending) ex last next =
      elim (Bool-cases (leb (precedence next) (precedence prev))) [
        | inl e ↦ rw (e, push) ((span-collapse ((lhs, prev) ∷ pending) ex).0)
        | inr e ↦ rw (e, push)
      ]

  span-run :
      (chain : List (Expression A × AssocOp)) (pending : Pending A) (last : Expression A)
      → ((span (run chain pending last)).start ≡ begin pending (head chain last))
        × ((span (run chain pending last)).stop ≡ (span last).stop)
  span-run [] pending last = span-collapse pending last
  span-run ((ex, next) ∷ chain) pending last =
      let (b, e) = span-run chain (push pending ex next) last in
      (b ∙ begin-push pending ex (head chain last) next, e)

  -- `make_expr` returns a tree for every chain of operands and binary operators, without an error or
  -- a panic. The tree, read from left to right, is the chain, and its span runs from the start of
  -- the first operand to the end of the last.
  pub make_expr-inorder :
      (chain : List (Expression A × AssocOp)) (last : Expression A)
      → AllBinary chain
      → (t : Expression A) × (make_expr (items chain last) ≡ ok t)
        × (inorder t ≡ line chain last)
        × ((span t).start ≡ (span (head chain last)).start)
        × ((span t).stop ≡ (span last).stop)
  make_expr-inorder chain last h =
      let s = span-run chain [] last in
      (run chain [] last, make_expr-run chain last h, inorder-run chain [] last, s.0, s.1)
