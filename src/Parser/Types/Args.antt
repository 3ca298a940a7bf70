-- ===== src/Parser/Types/Args.antt =====
-- src/ast/parse.rs: `make_type_args`, the type arguments behind `::` of a call.
use enumc.Prelude.{ℕ, zero, suc, true, false, List, [], ◌∷◌, ◌++◌}
use enumc.Types.Ty.{Ty}
use enumc.Lexer.Match.{TokenMatch, matches}
use enumc.Parser.Stream.{
  Parse, done, out_of_fuel, pure, then_at, ◌>>=◌, ◌>>◌, curr_kind, eat_if, eat_whitespace, colons,
}
use enumc.Parser.Eat.{eat_seq_ignore_ws}

-- The loop, where `rec` is `make_ty`
unfoldable pub args_loop : ℕ → Parse Ty → List Ty → Parse (List Ty)
args_loop zero rec gen_args toks = out_of_fuel
args_loop (suc fuel) rec gen_args toks = then_at (eat_whitespace toks) (λ u. rec >>= (λ ty.
    eat_whitespace
    >> (eat_if TokenMatch.comma >>= (λ more. elim more [
      | true ↦ eat_whitespace >> args_loop fuel rec (gen_args ++ ty ∷ [])
      | false ↦ pure (gen_args ++ ty ∷ [])
    ]))))

-- The arguments, if there is a `<`
abbrev pub args_at : ℕ → Parse Ty → Parse (List Ty)
args_at fuel rec toks = elim (matches TokenMatch.lt (curr_kind toks)) [
  | true ↦
      (eat_if TokenMatch.lt
          >> (args_loop fuel rec [] >>= (λ gen_args. eat_if TokenMatch.gt >> pure gen_args)))
        toks
  | false ↦ done [] toks
]

unfoldable pub make_type_args : ℕ → Parse Ty → Parse (List Ty)
make_type_args fuel rec = eat_seq_ignore_ws colons >> args_at fuel rec
