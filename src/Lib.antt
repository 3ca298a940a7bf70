-- ===== src/Lib.antt =====
-- enumc: the compiler of a small language with structs, enums, generics and traits, for
-- assembly or LLVM. A source text goes through these parts, of which this library models the
-- ones with a file:
--
--   the lexer cuts the text into tokens          src/ast/lex.rs, src/ast/lex/eater.rs      Lexer
--   the parser makes declarations of the tokens  src/ast/parse.rs, src/ast/parse/ops.rs    Parser
--   the data of the syntax tree                  src/ast/types.rs                          Types
--   the checker declares names and finds the     src/typeck/scope.rs,                      Scopes
--   types they stand for                         src/typeck/trait_solver.rs,
--                                                src/typeck/generic.rs
--   the checker infers and compares types        src/typeck.rs, src/typeck/check.rs        Types
--   its errors are collected and placed          src/error.rs                              Errors
--   lowering makes the low level IR and folds    src/lir/lower.rs, src/lir/const_fold.rs   Lir
--   its constants
--   collections that the parts share             src/data_struc/rawvec.rs                  Data
--   the texts of literals lose their escapes     src/data_struc/str_help.rs                Parser
--   a back end makes assembly of the IR          src/gen/asm.rs, src/gen/asm/inst.rs       Gen
--   another back end calls LLVM                  src/gen/llvm.rs                           -
--
-- Lexer. A text is the list of its characters, a character the number of its code point, and an
-- offset counts bytes of UTF-8 (Lexer/Chars). `Cursor` is Lexer/Cursor: a method that takes
-- `&mut self` is a function of the state monad `Lex`. Lexer/Token has `Token` and its kinds,
-- and Lexer/Match the parser's `TokenMatch`. The methods of `Cursor` are in Lexer/Scan
-- (comments, white space, identifiers, digits, quoted strings), Lexer/RawString (raw strings),
-- Lexer/Number (`number`) and Lexer/Advance (`advance_token`, `first_token`, `tokenize`). A
-- loop of the source is recursion on the characters that are left, under the name of the method
-- with `_in` or `_loop` behind it; the loop of a raw string and the iterator of `tokenize` are
-- recursion on fuel. One more than the characters left is given to a raw string, of which each
-- round takes a quote at least, or ends it. The tables of Unicode's XID properties are a
-- parameter, `UnicodeXid`. The `debug_assert!`s are left out, and the field `prev` serves them
-- alone. Of the proofs, Lexer/Forward and its children show that each method moves the cursor
-- forward, Lexer/Slices and Lexer/Cover go on to the iterator, Lexer/RawFuel is about the fuel
-- of a raw string, and Lexer/Exact, Comments, BlockComments, Strings and RawStrings say where a
-- token ends.
--
-- Parser. Parser/Ops has `AssocOp` with its tables and the operators of src/ast/types.rs,
-- Parser/Yard the shunting yard of `make_expr`: its two stacks are lists with the top in
-- front, and the results of the calls of `advance_to_op` a list. An operand is of any type.
-- `Outcome` keeps an error apart from a panic. Parser/Yard/Stack describes the stacks by
-- what they stand for, Parser/Yard/Order and Parser/Yard/Precedence the tree.
-- Parser/Interner has the `Interner` of src/ast/parse/symbol.rs, whose hash map is a list of
-- entries. Its numbers are cut to 32 bits, as the source does; the buffers of its texts are
-- left out.
--
-- The recursive descent works on the tokens in front of the parser (Parser/Stream,
-- Parser/Eat): the first is `curr`, and each carries the text it covers, in place of the
-- index into the input. A method is a function to `Parsed`, which keeps a result with the
-- tokens left, an error, a panic and the end of the fuel apart; `eat_tkn` panics without a
-- next token. Parser/Types has the parser of types with src/ast/parse/kw.rs,
-- Parser/Types/Args type arguments, Parser/Decls those of structs, enums and parameters, and
-- Parser/MakeOp `make_op`. Their loops and the nesting of types are recursion on fuel;
-- `fuel_of` and its kin bound what a written type or struct takes (Parser/Types/Print,
-- Parser/Decls/Print), where a tree of what is written has its tokens and what it means. The
-- interner is there a function from names to numbers. Parser/Types/Segs is about paths;
-- Parser/Types/Steps, Parser/Decls/Fields and the two RoundTrip modules lead from the tokens
-- back.
--
-- Parser/Literal is `make_literal`, with `StripEscape` of src/data_struc/str_help.rs; the
-- value of a float's text is a parameter. Parser/Expr has the expressions with the methods
-- that read them: Parser/Expr/Lists the lists of expressions, Parser/Expr/Left
-- `make_lh_expr`, and Parser/Expr/Tree `advance_to_op` and the whole of `make_expr`, whose
-- loop does the steps of Parser/Yard on the operands and operators that it reads off the
-- tokens. The expressions there have no spans, so those of the yard are empty.
-- Parser/Expr/Chain has what is written, operands joined by operators, with its tokens, its
-- meaning and `fuel_of_chain`, the fuel that is enough for it; Parser/Expr/Steps, Terms,
-- Loop and RoundTrip lead from the tokens back, and Parser/Expr/Unary is about the operators
-- in front of an operand, Parser/Expr/NoArgs about calls without arguments.
--
-- Parser/Stmt has statements, patterns and inline assembly. The flag `in_match_stmt` of the
-- parser, which statements change, is a state that is passed on (Parser/Stmt/State). The
-- methods are in Parser/Stmt/Asm, Parser/Stmt/Pattern and Parser/Stmt/Block.
-- Parser/Stmt/Keeps and Parser/Stmt/Flag are about the flag; Parser/Stmt/Print has written
-- statements with their tokens and `fuel_of_body`, and Parser/Stmt/Starts, Steps, Bodies and
-- RoundTrip lead from the tokens back. Parser/Items has constants, functions, impls, traits,
-- imports and `parse`, the loop over a file, with Parser/Items/Loop about the loop and
-- Parser/Items/Methods about the methods of traits. What an import starts, the thread that
-- parses the other file, is not modelled. Their loops and their nesting are recursion on
-- fuel too.
--
-- Types. Types/Ty has `Ty` and its methods; `none` or `panic` stands for a `todo!` of the
-- source. Types/Generics, Types/Indirection and Types/Equality are about them. Types/Fold has
-- `fold_ty` of src/typeck/check.rs, on fuel, since it calls itself with what `resolve` returns.
-- Types/FoldFuel bounds the fuel by the pointers, references and arrays of the types;
-- Types/FoldSound compares it with the folding of constants. Spans, and the texts of the
-- errors, are not kept. The other methods of the checker, which read its tables, are not
-- modelled. Types/Span is `Range` with its order, which the errors use.
--
-- Scopes. Scopes/Walker has `ScopeWalker`, its tables as lists of entries with the last
-- insertion first (Prelude/Maps). Scopes/Resolve is `resolve_name` and `type_from_path`; a
-- `todo!` is `panic`, and all the paths of a type stand in one file, since a path's span is not
-- kept. Of the checker's tables it reads the names and generic parameters of structs and enums
-- and the types of globals. Scopes/Resolve/Total and Scopes/Resolve/Stable are about the types
-- that it makes, Scopes/Items and Scopes/Adts about what a declaration changes. Scopes/Traits
-- is `TraitSolve`. Scopes/Generic has the tree of generic parameters of src/typeck/generic.rs
-- with its walk, on fuel, and Scopes/Generic/Walk what the walk yields.
--
-- Errors. Errors/Report is `ErrorReport`; of an error its span is kept, and the rest is of
-- any type. Sorting is the standard library's stable sort, by insertion. Errors/Sorted is
-- about the order of the errors, Errors/Position is `calc_line_col`, which counts characters
-- although a span counts bytes. The printing is not modelled.
--
-- Lir. Lir/Isize is the arithmetic of `isize` on a 64-bit target with overflow checks, where
-- `none` is a panic. Lir/Op and Lir/Val have the operators and constants with `Val::evaluate`,
-- where `f64` is its bits and its arithmetic and order are a parameter, `Float64`. Lir/Expr has
-- `Expr` and `const_fold`; what folding does not read of an expression is of any type.
-- Lir/Meaning and Lir/Stable are about it. Lir/Layout has the types of the IR with their sizes
-- and null values, and Lir/Lower `Ty::lower`, on fuel, since it recurses into the definitions
-- it meets; Lir/Lower/Recursive and Lir/Lower/Ranked (with Lir/Lower/Settles) are about where
-- that ends. The lowering of statements and expressions and the monomorphisation are not
-- modelled.
--
-- Gen. Gen/Inst has registers, locations and the instructions that reserve stack space or
-- start a function. Gen/Registers is the sets of registers in use, as lists; the order in
-- which the set of usable registers iterates is a parameter. Gen/Registers/Free is about
-- what is handed out. Gen/Stack is `push_stack`, `alloc_stack`, `alloc_arg` and the start of
-- `visit_func` with the part of `CodeGen` they change; `none` is a panic, and sizes do not
-- overflow. Gen/Stack/Frame and Gen/Stack/Vars compare the emitted code with the sizes of
-- the variables. The code of statements and expressions is not modelled.
--
-- Data. Data/RawVec has `RawVec`: its block is a list of slots, which are empty until they are
-- written, and reading an empty slot or going out of the block is `undefined`. The allocator is
-- the parameter `fits`. Types of size 0 have no block and are left out, like iterators, slices
-- and `drop`. Data/Block is about blocks, and Data/Refines about the list that a vector stands
-- for.
--
-- Prelude has the names and tests that the others share. In each part, Tests has runs and
-- examples.
pub mod Prelude
pub mod Data
pub mod Errors
pub mod Gen
pub mod Lexer
pub mod Lir
pub mod Parser
pub mod Scopes
pub mod Types
