-- ===== src/Lib.antt =====
-- hlang: the lexer, the preprocessor and the parser of a HolyC compiler, with parts of its code
-- generator and of the runtime of compiled programs.
--
-- The program. src/lexer.cpp reads source files and gives tokens: `rawNext` skips blanks and
-- comments, hands `#` to `handleDirective` and lexemes to `lexToken`, and `next` expands macros by
-- `expandOrReturn`, from the queue `pending_` first. The directives keep the stack of open
-- conditionals, the macros and the stack of sources, and evaluate constant expressions by
-- `struct CondEval`. src/parser.cpp takes the tokens, builds the tree of src/ast.hpp, folds constants
-- by `evalConstI64`, and lays out classes in `parseClassDef`. src/codegen.cpp folds constants by
-- `evalConst`, types expressions by `typeOf`, and emits code that calls runtime/hcrt.c: the frames of
-- `try`, the formats of `Print`, and the library.
--
-- The files.
--   Base      names of the libraries, `int64_t` (Base/Int), association lists (Base/Dict), bytes
--   Run       outcomes: a value, undefined behaviour of C++, or no outcome within the fuel
--   Token     src/lexer.hpp: Tok, P, SrcLoc, Token; punctStr of src/lexer.cpp (Token/Spelling)
--   Scan      src/lexer.cpp, the character level: peekc, getc, comments; Literal is lexCharsInto,
--             Number is lexNumber, Symbol the punctuators of lexToken, and Lexeme is lexToken. Proofs
--             are in Literal/Quoting, Number/Digits, Number/Decimal, Number/Hexadecimal,
--             Symbol/Spelling, Lexeme/Characters, Consumption and Progress
--   Lexer     src/lexer.hpp and src/lexer.cpp: the state, error, openInclude, the constructors. Conds
--             is the stack of conditionals, CondOps and CondEval are CondEval, Expand is
--             builtinMacro and expandOrReturn, Regions and Blocks are skipped regions and #exe,
--             Directives is handleDirective on one line, Raw is rawNext, lexLineTokens and next.
--             Proofs are in their child modules
--   Ast       src/ast.hpp and src/ast.cpp: Type, ClassInfo, Expr, findMember, size; Print is str,
--             Layout the placing of members in parseClassDef of src/parser.cpp, Statement and Program are
--             Stmt, FuncDecl, GlobalVar and TopItem. Proofs are in Members, Print,
--             Layout/Packing and Layout/Overlay
--   Parser    src/parser.cpp: the token buffer and the names of types; Constant is evalConstI64, and
--             Constant/Exact the integers that it is compared with. Levels and Expression are
--             parseAssign down to parsePrimary, Declarator is parseDeclarator and parseParams, Skip the loops that pass over tokens behind an error,
--             Keyword, Leaf, Control and Statement are parseStmt, TopLevel is parseQuals,
--             parseTopLevel and parseFunc, ClassDef is parseClassDef, and Program ties them together
--             and is run. Budget and its namesakes in the child modules are what each does to the
--             tokens that are left; Termination has what follows. Precedence writes expressions with
--             the parentheses that they need, and its RoundTrip reads them back
--   Codegen   src/codegen.cpp: Constant is evalConst, Types is lookupVar, declareLocal and typeOf, Try
--             is what the code does that genTry emits, and Try/Structured what it should do. Proofs
--             are in Constant/Agreement, Constant/Casts, Types/Constants, Types/Locals,
--             Try/Refinement and Try/Frames
--   Runtime   runtime/hcrt.c: Exceptions is HC_TryPush to HC_PutExcept, Output the buffer and the
--             fields, Format is hc_format (Format/Pieces writes formats from their parts), Date the
--             calendar of fmt_date, Bits is HC_Bt to HC_Btc, Arithmetic is HC_PowI64 to HC_SqrI64. Proofs are in the child modules
--   Examples  the theorems at concrete inputs
--
-- State. A `Lexer` is a record of the fields of the class. The source on top of the stack is its
-- unread bytes and a position, so `peekc` looks at the front of a list, and the `int` that is -1 at
-- the end is an option. A `shared_ptr<ClassInfo>` is a place in a list of classes, by which a class
-- that is completed later is the same class. An error is a message added to a list, and the code goes
-- on behind it as the source does. A double is the spelling that strtod is given. Where parseStmt
-- reads a token through a reference that `take` has made stale, the model has the token.
--
-- A frame of `try` is an address, which its `try` has for its own; the state of a program is its task,
-- the innermost frame, what each frame points to and what is printed. `setjmp` and `longjmp` are the
-- outcome `jumped`, which goes up to the `try` of the frame. An output buffer is its text and the
-- capacity that is allocated; an allocation that is asked for is made. A format is the bytes before
-- its zero byte, and the arguments are a list of 64-bit patterns, behind which NEXT_ARG gives 0.
--
-- The host. The files, the date and time, the hook that runs a #exe block and the conversion of a
-- floating spelling to an integer are fields of the record `Host`, and not defined here.
-- The text at an address, and what `snprintf` makes of a double or pads with zeros, are parameters of
-- `hc_format`, and the instructions between two calls of the frames are any function on the task.
--
-- Numbers. An `int64_t` is an integer, and an operation that leaves its range is the outcome
-- `undefined` where C++ leaves it undefined; the parser's masked shifts wrap modulo 2 ^ 64.
--
-- Fuel. A loop is given the bytes or tokens at hand, each round takes one, and none is left where the
-- fuel ends. What calls itself through macros, includes, classes or parentheses ends in
-- `out_of_fuel` where the fuel does not do: `CondEval` spends it on a parenthesis or a macro, `expand`
-- on entering a macro, `findMember` on a base class, `rawNext` on a round of its loop. In the parser
-- `parseAssign`, `parseParams` and `parseStmt` spend a unit where they are entered.
--
-- The digits of a number are found on the fuel 64, the length of the buffer `digits`, `hc_format`
-- has a round for each byte of the format and one more, and HC_PowI64 64 rounds, one more than an
-- exponent has bits.
--
-- Not modelled: the dumper of src/parser.cpp; the rest of src/codegen.cpp, which builds
-- instructions through LLVM's libraries; src/jit.cpp, src/aot.cpp, src/driver.cpp and
-- src/main.cpp, which drive LLVM and the operating system; the memory, the strings, the input, the
-- floating point and the clock of the runtime, which the C library does; the HolyC library, and
-- the tests.
pub mod Base
pub mod Run
pub mod Token
pub mod Scan
pub mod Lexer
pub mod Ast
pub mod Parser
pub mod Runtime
pub mod Codegen
pub mod Examples
