-- ===== src/Lib.antt =====
-- A verification library for the developer tools of the Ikemen engine: command-line and language-server
-- tools that read the DEF, CNS, CMD and AIR files of a character, evaluate their trigger expressions,
-- and change the files through guarded patches.
--
-- The parts and their code.
--   Expr (internal/expr/expr.go). `Parse` cuts a source into tokens (`lex`) and reads them by recursive
--   descent, gathering errors; `Evaluate` folds the tree to a value, or to "dynamic" where an input is
--   missing, or to "unsupported". Expr/Ast has the nodes, operators and values; Expr/Word the int64
--   arithmetic with its wrap-around; Expr/Eval is `Evaluate` with `evalUnary`, `evalBinary` and
--   `evalVar`; Expr/Lexer is `lex` with the positions; Expr/Unquote is `strconv.Unquote` and
--   `strings.ToLower`; Expr/Parser has the parser's state and its moves, Expr/Parser/Levels the levels of
--   the binary and unary operators, Expr/Parser/Primary the primary expressions and `Parse`.
--   Patch (internal/patch/patch.go). `prepare` groups the edits of a patch by their canonical paths, checks
--   every edit against the file's bytes and their hash, sorts the edits of a file, refuses overlaps, and
--   splices the new texts in from the last to the first. Patch/Edits has the edits of one file with
--   `validateSpan` and `lineByteOffsets`; Patch/Paths has `canonicalRelative` and `resolvePath`;
--   Patch/Prepare the loops over a whole patch; Patch/Apply `ApplyPatch`, which writes the previews, and
--   `PatchPlan.Validate`; there the files are those of the real paths, reading and writing follow the symbolic
--   links, and a write that fails leaves any bytes or none. Patch/Transaction is `ApplyAtomic`, which journals and backs up before it
--   swaps files and rolls back on an error, and `Recover`, over a disk of files, a journal and a clock
--   that counts the system calls; its children have the steps, the rollback, the rounds over the files,
--   the outcome, and what a recovery restores. FilePath models what they use of path/filepath.
--   Syntax (internal/syntax/syntax.go). `parseSyntaxLines` cuts a file into lines, takes the comment off each
--   line, and makes tokens and sections of it. Syntax/Lines is `splitLines` (internal/document/document.go has
--   the same function), Syntax/Split has `splitLine`, `splitKeyValue` and `parseSectionHeader`,
--   Syntax/Tokens the tokens with their spans and the loop over the lines; Syntax/Tokens/Readings says what the
--   tokens of a line must be.
--   Adapter (internal/parser/adapter/adapter.go). `FromSyntax` goes over the tokens and builds the document
--   of internal/ir: its sections with their lines, the symbols of states and commands, the references to
--   them and the diagnostics. The loop's variables are the record `Builder`. Adapter/Texts reads headers, keys and values,
--   Adapter/Names makes identities, Adapter/Commands finds the commands of a trigger, Adapter/Controllers
--   is the context of a state's controller; Adapter/Sections, Adapter/Sources, Adapter/Rounds, Adapter/Whole and
--   Adapter/Transitions hold the proofs.
--   Document (internal/document/document.go). The snapshot of a parsed file, and `Equal` of two of them. Its
--   lines are those of Syntax/Lines. Document/Creation is `NewSnapshot`, with `Parse` of internal/parser/parser.go
--   and of internal/syntax/syntax.go, which put Syntax and Adapter together.
--   Provenance (internal/provenance/provenance.go). The classes of a result, the policies over them (`Allows`,
--   `ActionSafe`), and `Chain`, which keeps the different steps of a derivation up to a limit.
--   Oracle (internal/oracle/oracle.go). `Compare` runs a command and compares its JSON with the expected
--   one: `normalizeJSON` makes numbers of the literals, `diffJSON` lists the mismatches with their paths. Oracle/Values has the
--   values, Oracle/Equal and Oracle/Sorted when scalars and objects are the same (floats by the equality of float64, a parameter), Oracle/Decides what an
--   empty list means, Oracle/Matches the whole comparison; Oracle/Guard is `RunGuarded` of internal/oracle/policy.go. A map of the decoder is a list of fields
--   in the order of its keys.
--   Ir has the positions of internal/ir/types.go and Ir/Documents its documents, Prelude the helpers that the parts share.
--
-- How the code is read. A text is a list of bytes. An int64 of the evaluator is an integer that
-- every operation wraps into range. The parser's fields pass from call to call as a state; a nil
-- node is `none`. The lexer's loop has the source's length as fuel; the parser has one more than the
-- number of its tokens, for the rounds of a loop and for the depth of nested expressions: each round
-- of the lexer takes a byte, each round of a loop and each nesting of the parser takes a token, so
-- neither runs out. The search for commands in a trigger has the trigger's length, each round takes a byte.
-- Maps whose keys are sorted afterwards are sorted lists from the start. The path
-- separator is a slash.
--
-- Parameters. Lower case outside ASCII; the operating system's files, absolute paths and symbolic
-- links; the hash function; how each write of `ApplyPatch` ends; which system calls of a transaction fail,
-- which of its failed writes of the journal spare the previous one, and the names of its temporary files; the decoder and encoder of JSON, floats, the printing of package fmt, and the runs of processes.
--
-- Not modelled. The JSON forms and the diff of a plan; two paths of one file in a transaction, and a path there that is itself a link;
-- the panic of `lineByteOffsets` on a column so large that its sum with the line's offset leaves int64, where
-- the model refuses the edit; the journal's
-- own bytes, which are kept apart from the files; the index and its SQLite tables; the servers and
-- the commands, which pass requests on.
pub mod Prelude
pub mod Ir
pub mod Expr
pub mod Patch
pub mod FilePath
pub mod Syntax
pub mod Provenance
pub mod Document
pub mod Adapter
pub mod Oracle
