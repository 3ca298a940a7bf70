-- ===== src/Scopes/Traits.antt =====
-- src/typeck/trait_solver.rs: `TraitSolve`: the traits, and the implementation of each for each list of
-- type arguments. A path `P`, a list of type arguments `T`, the declaration `R` of a trait, the rest `I` of
-- an implementation and a node `N` are parameters; equality of the keys is decided.
use enumc.Prelude.{
  ℕ, ◌≡◌, refl, List, [], ◌∷◌, ◌++◌, Option, none, some, arith, lookup, insert, ℕ_discrete,
}

pub record Impl (P T I : Type 0) : Type 0 where
  pub path : P
  pub type_arguments : T
  pub method : I

-- What has to be unified, and the chain of the nodes that use it
pub record ToUnify (T N : Type 0) : Type 0 where
  pub solution_stack : T
  pub chain : List N

pub record TraitSolve (P T R I N : Type 0) : Type 0 where
  pub traits : List (P × R)
  pub impls : List (P × List (T × Impl P T I))
  pub proof_stack : List (ℕ × List (ToUnify T N))

-- `Ok(())`, or the two errors
pub data Outcome : Type 0 where
  added no_trait duplicate : Outcome

-- `or_default`, of a map or of a list
abbrev pub or_default {ℓ} : {A : Type ℓ} → Option (List A) → List A
or_default none = []
or_default (some list) = list

-- Whether something stood where an implementation is inserted
abbrev pub outcome_of {ℓ} : {A : Type ℓ} → Option A → Outcome
outcome_of none = added
outcome_of (some a) = duplicate

module _ {P T R I N : Type 0} (eq_p : Discrete P) (eq_t : Discrete T) where
  -- The implementations of a trait
  abbrev pub impls_of : P → TraitSolve P T R I N → List (T × Impl P T I)
  impls_of path s = or_default (lookup eq_p path s.impls)

  -- The implementation of a trait for some type arguments
  unfoldable pub find_impl : P → T → TraitSolve P T R I N → Option (Impl P T I)
  find_impl path set s = lookup eq_t set (impls_of path s)

  -- `add_trait`, with the trait that stood there
  unfoldable pub add_trait : P → R → TraitSolve P T R I N → TraitSolve P T R I N × Option R
  add_trait path t s = (
    record { traits = insert eq_p path t s.traits; impls = s.impls; proof_stack = s.proof_stack },
    lookup eq_p path s.traits,
  )

  abbrev pub with_impl : Impl P T I → TraitSolve P T R I N → TraitSolve P T R I N
  with_impl t s = record {
    traits = s.traits;
    impls = insert eq_p t.path (insert eq_t t.type_arguments t (impls_of t.path s)) s.impls;
    proof_stack = s.proof_stack;
  }

  abbrev pub add_known :
      Impl P T I → TraitSolve P T R I N → Option R → TraitSolve P T R I N × Outcome
  add_known t s none = (s, no_trait)
  add_known t s (some trait_) =
      (with_impl t s, outcome_of (lookup eq_t t.type_arguments (impls_of t.path s)))

  unfoldable pub add_impl : Impl P T I → TraitSolve P T R I N → TraitSolve P T R I N × Outcome
  add_impl t s = add_known t s (lookup eq_p t.path s.traits)

  -- The chain is empty if there is none.
  unfoldable pub to_solve : ℕ → T → Option (List N) → TraitSolve P T R I N → TraitSolve P T R I N
  to_solve trait_ solution_stack chain s = record {
    traits = s.traits;
    impls = s.impls;
    proof_stack =
        insert ℕ_discrete trait_
          (or_default (lookup ℕ_discrete trait_ s.proof_stack)
            ++ record { solution_stack = solution_stack; chain = or_default chain } ∷ [])
          s.proof_stack;
  }

  -- The implementations are those of before, but for the one of `t`'s trait and type arguments, which is `t`.
  unfoldable pub Overrides : Impl P T I → TraitSolve P T R I N → TraitSolve P T R I N → Type 0
  Overrides t s s' =
      (path : P) (set : T)
      → find_impl path set s' ≡ elim (eq_p path t.path) [
        | yes e ↦ elim (eq_t set t.type_arguments) [ yes f ↦ some t | no n ↦ find_impl path set s ]
        | no n ↦ find_impl path set s
      ]

  with_impl-Overrides : (t : Impl P T I) (s : TraitSolve P T R I N) → Overrides t s (with_impl t s)
  unfolding Overrides find_impl
  with_impl-Overrides t s path set = ground (arith, eq_p path t.path, eq_t set t.type_arguments)

  -- What `add_impl` is to do, given the trait it finds: without one, report that and change nothing; else
  -- report whether there is an implementation of that trait for those arguments, and in any case set it.
  unfoldable pub Adds :
      Impl P T I → TraitSolve P T R I N → Option R → TraitSolve P T R I N × Outcome → Type 0
  Adds t s none result = (result.1 ≡ no_trait) × (result.0 ≡ s)
  Adds t s (some trait_) result =
      (result.1 ≡ outcome_of (find_impl t.path t.type_arguments s)) × Overrides t s result.0

  add_known-Adds :
      (t : Impl P T I) (s : TraitSolve P T R I N) (o : Option R) → Adds t s o (add_known t s o)
  unfolding Adds find_impl
  add_known-Adds t s none = (refl, refl)
  add_known-Adds t s (some trait_) = (refl, with_impl-Overrides t s)

  -- `add_impl` of an implementation whose trait is not declared fails with an error and changes nothing. Of
  -- a declared one it always sets the implementation and keeps all others, and it fails exactly if there
  -- was one already, which it has then replaced.
  pub add_impl-Adds :
      (t : Impl P T I) (s : TraitSolve P T R I N)
      → Adds t s (lookup eq_p t.path s.traits) (add_impl t s)
  unfolding add_impl
  add_impl-Adds t s = add_known-Adds t s (lookup eq_p t.path s.traits)
