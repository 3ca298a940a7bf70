-- ===== src/Parser/Yard/Precedence.antt =====
-- When the tree that the shunting yard builds respects the precedence of the operators.
use enumc.Prelude.{
  ℕ, ◌≤◌, ◌<◌, ◌≡◌, refl, sym, ◌∙◌, ap, Bool, true, false, ◌&&◌, List, [], ◌∷◌, leb, ltb,
  Bool-cases, inl, inr, arith,
}
use enumc.Parser.Ops.{BinOp, AssocOp, precedence, is_assign_like, to_ast_binop}
use enumc.Parser.Yard.{Expression, operand, binary, ok, make_expr}
use enumc.Parser.Yard.Stack.{
  Pending, IsBinary, AllBinary, node, joined, collapse, push, items, run, make_expr-run,
}

-- The precedence of a node's operator, higher where it binds tighter.
abbrev pub node_precedence : BinOp → ℕ
node_precedence BinOp.mul = 13
node_precedence BinOp.div = 13
node_precedence BinOp.rem = 13
node_precedence BinOp.add = 12
node_precedence BinOp.sub = 12
node_precedence BinOp.left_shift = 11
node_precedence BinOp.right_shift = 11
node_precedence BinOp.bit_and = 10
node_precedence BinOp.bit_xor = 9
node_precedence BinOp.bit_or = 8
node_precedence BinOp.lt = 7
node_precedence BinOp.le = 7
node_precedence BinOp.ge = 7
node_precedence BinOp.gt = 7
node_precedence BinOp.eq = 7
node_precedence BinOp.ne = 7
node_precedence BinOp.and = 6
node_precedence BinOp.or = 5
node_precedence BinOp.add_assign = 2
node_precedence BinOp.sub_assign = 2

node_precedence-node : (op : AssocOp) → IsBinary op → node_precedence (node op) ≡ precedence op
unfolding precedence is_assign_like to_ast_binop
node_precedence-node op h = ground arith

&&_assoc : (a b c : Bool) → ((a && b) && c) ≡ (a && (b && c))
&&_assoc true b c = refl
&&_assoc false b c = refl

&&-true : (b : Bool) → (b && true) ≡ b
&&-true true = refl
&&-true false = refl

module _ {A : Type 0} where
  abbrev pub IsOperand : Expression A → Type 0
  IsOperand (operand a r) = Unit
  IsOperand (binary op lhs rhs r) = ⊥

  abbrev pub AllOperands : List (Expression A × AssocOp) → Type 0
  AllOperands [] = Unit
  AllOperands ((ex, op) ∷ chain) = IsOperand ex × AllOperands chain

  -- A left operand's own operator binds at least as tight as `n`, a right operand's tighter.
  abbrev pub fits_left : ℕ → Expression A → Bool
  fits_left n (operand a r) = true
  fits_left n (binary op lhs rhs r) = leb n (node_precedence op)

  abbrev pub fits_right : ℕ → Expression A → Bool
  fits_right n (operand a r) = true
  fits_right n (binary op lhs rhs r) = ltb n (node_precedence op)

  -- All operators associate to the left, and tighter ones stand below looser ones.
  abbrev pub respects : Expression A → Bool
  respects (operand a r) = true
  respects (binary op lhs rhs r) =
      (respects lhs && fits_left (node_precedence op) lhs)
      && (respects rhs && fits_right (node_precedence op) rhs)

-- Along the chain, an operator that does not bind tighter than the one before it does not bind
-- tighter than any since the last such operator: `low` and `top` are the loosest and the tightest
-- of these.
module _ {A : Type 0} where
  abbrev pub agrees_from : ℕ → ℕ → List (Expression A × AssocOp) → Bool
  agrees_from low top [] = true
  agrees_from low top ((ex, next) ∷ chain) = elim (leb (precedence next) top) [
    | true ↦ leb (precedence next) low && agrees_from (precedence next) (precedence next) chain
    | false ↦ agrees_from low (precedence next) chain
  ]

  abbrev pub agrees : List (Expression A × AssocOp) → Bool
  agrees [] = true
  agrees ((ex, op) ∷ chain) = agrees_from (precedence op) (precedence op) chain

  -- The pending operators bind ever tighter, and only the outermost left operand is a tree.
  abbrev Rising : Expression A → AssocOp → Pending A → Type 0
  Rising lhs op [] = Unit
  Rising lhs op ((lhs', op') ∷ pending) =
      IsOperand lhs × (precedence op' < precedence op) × Rising lhs' op' pending

  abbrev low : AssocOp → Pending A → ℕ
  low op [] = precedence op
  low op ((lhs', op') ∷ pending) = low op' pending

  abbrev outer_respects : Expression A → AssocOp → Pending A → Bool
  outer_respects lhs op [] = respects lhs && fits_left (precedence op) lhs
  outer_respects lhs op ((lhs', op') ∷ pending) = outer_respects lhs' op' pending

  IsOperand-respects :
      (ex : Expression A) (n : ℕ)
      → IsOperand ex
      → (respects ex ≡ true) × (fits_left n ex ≡ true) × (fits_right n ex ≡ true)
  IsOperand-respects (operand a r) n h = (refl, refl, refl)
  IsOperand-respects (binary op lhs rhs r) n h = absurd h

  collapse-respects :
      (lhs : Expression A) (op : AssocOp) (pending : Pending A) (rhs : Expression A)
      → AllBinary ((lhs, op) ∷ pending)
      → Rising lhs op pending
      → respects rhs ≡ true
      → fits_right (precedence op) rhs ≡ true
      → respects (collapse ((lhs, op) ∷ pending) rhs) ≡ outer_respects lhs op pending
  unfolding collapse
  collapse-respects lhs op [] rhs b r h k = simp (node_precedence-node op b.0, h, k, &&-true)
  collapse-respects lhs op ((lhs', op') ∷ pending) rhs b r h k =
      let e = node_precedence-node op b.0 in
      let l = IsOperand-respects lhs (precedence op) r.0 in
      let e' : ltb (precedence op') (precedence op) ≡ true = ground arith in
      collapse-respects lhs' op' pending (joined op lhs rhs) b.1 r.2 (rw (e, l.0, l.1, h, k))
        (rw (e, e'))

  fits_left-collapse :
      (n : ℕ) (lhs : Expression A) (op : AssocOp) (pending : Pending A) (rhs : Expression A)
      → AllBinary ((lhs, op) ∷ pending)
      → fits_left n (collapse ((lhs, op) ∷ pending) rhs) ≡ leb n (low op pending)
  unfolding collapse
  fits_left-collapse n lhs op [] rhs b = rw (node_precedence-node op b.0)
  fits_left-collapse n lhs op ((lhs', op') ∷ pending) rhs b =
      fits_left-collapse n lhs' op' pending (joined op lhs rhs) b.1

  run-respects :
      (chain : List (Expression A × AssocOp)) (lhs : Expression A) (op : AssocOp)
      (pending : Pending A) (last : Expression A)
      → AllBinary chain
      → AllOperands chain
      → IsOperand last
      → AllBinary ((lhs, op) ∷ pending)
      → Rising lhs op pending
      → respects (run chain ((lhs, op) ∷ pending) last)
        ≡ (outer_respects lhs op pending && agrees_from (low op pending) (precedence op) chain)
  run-respects [] lhs op pending last bc oc ol b r =
      let l = IsOperand-respects last (precedence op) ol in
      collapse-respects lhs op pending last b r l.0 l.2 ∙ sym (&&-true _)
  run-respects ((ex, next) ∷ chain) lhs op pending last bc oc ol b r =
      let x = IsOperand-respects ex (precedence op) oc.0 in
      elim (Bool-cases (leb (precedence next) (precedence op))) [
        | inl e ↦
            rw (e, push, agrees_from)
              (run-respects chain (collapse ((lhs, op) ∷ pending) ex) next [] last bc.1 oc.1 ol
                  (bc.0, tt) tt
                ∙ rw
                    (
                      collapse-respects lhs op pending ex b r x.0 x.2,
                      fits_left-collapse (precedence next) lhs op pending ex b,
                    )
                    (&&_assoc (outer_respects lhs op pending) _ _))
        | inr e ↦
            let tighter : precedence op < precedence next = ground arith in
            rw (e, push, agrees_from)
              (run-respects chain ex next ((lhs, op) ∷ pending) last bc.1 oc.1 ol (bc.0, b)
                (oc.0, tighter, r))
      ]

  -- Of a chain of operands and binary operators `make_expr` builds a tree that respects the
  -- precedence of the operators exactly if the chain `agrees`.
  pub make_expr-respects :
      (chain : List (Expression A × AssocOp)) (last : Expression A)
      → AllBinary chain
      → AllOperands chain
      → IsOperand last
      → (t : Expression A) × (make_expr (items chain last) ≡ ok t) × (respects t ≡ agrees chain)
  make_expr-respects chain last b o l =
      (run chain [] last, make_expr-run chain last b, run-agrees chain b o)
    where
      run-agrees :
          (chain : List (Expression A × AssocOp))
          → AllBinary chain
          → AllOperands chain
          → respects (run chain [] last) ≡ agrees chain
      run-agrees [] b o = unfold collapse in (IsOperand-respects last 0 l).0
      run-agrees ((ex, op) ∷ chain) b o =
          let x = IsOperand-respects ex (precedence op) o.0 in
          run-respects chain ex op [] last b.1 o.1 l (b.0, tt) tt ∙ rw (x.0, x.1)

  push_tighter :
      (lhs ex : Expression A) (op next : AssocOp)
      → leb (precedence next) (precedence op) ≡ false
      → push ((lhs, op) ∷ []) ex next ≡ (ex, next) ∷ (lhs, op) ∷ []
  push_tighter lhs ex op next e = rw (e, push)

  push_looser :
      (lhs ex : Expression A) (op next : AssocOp) (pending : Pending A)
      → leb (precedence next) (precedence op) ≡ true
      → push ((lhs, op) ∷ pending) ex next ≡ (collapse ((lhs, op) ∷ pending) ex, next) ∷ []
  push_looser lhs ex op next pending e = rw (e, push)

  -- A looser operator, a tighter one and a third that binds tighter than the first and not tighter
  -- than the second: `make_expr` makes the first, not the third, the operator that stands below.
  pub make_expr-misgroups :
      (a b c d : Expression A) (o₁ o₂ o₃ : AssocOp)
      → AllBinary ((a, o₁) ∷ (b, o₂) ∷ (c, o₃) ∷ [])
      → precedence o₁ < precedence o₃
      → precedence o₃ ≤ precedence o₂
      → make_expr (items ((a, o₁) ∷ (b, o₂) ∷ (c, o₃) ∷ []) d)
        ≡ ok (joined o₃ (joined o₁ a (joined o₂ b c)) d)
  make_expr-misgroups a b c d o₁ o₂ o₃ h p q =
      let pushed : leb (precedence o₂) (precedence o₁) ≡ false = ground arith in
      let taken : leb (precedence o₃) (precedence o₂) ≡ true = ground arith in
      make_expr-run ((a, o₁) ∷ (b, o₂) ∷ (c, o₃) ∷ []) d h
      ∙ ap (λ (pending : Pending A). ok (run ((c, o₃) ∷ []) pending d))
          (push_tighter a b o₁ o₂ pushed)
      ∙ ap (λ (pending : Pending A). ok (run [] pending d))
          (push_looser b c o₂ o₃ ((a, o₁) ∷ []) taken)
      ∙ unfold collapse in refl
