-- ===== src/Lib.antt =====
-- A verification library of servicekit-go, a Go toolkit for services.
--
-- The filter language (rsql/). A request carries a filter as a string. `parse` (rsql/parse.go) turns
-- it into a tree over the tokens of the lexer (rsql/lex.go), `Bind` (rsql/schema.go) checks the tree
-- against a schema and limits and coerces its values, `All`, `Any` and `Rewrite` (rsql/tree.go)
-- change the bound filter, `Canonical` (rsql/canonical.go) writes it back as a string, and `ToFilter`
-- (rsql/mongox/mongox.go) turns it into a query document of MongoDB.
--
-- * Rsql/Lex models the lexer: `next`, `readOp`, `readQuoted` and `readBare` on the runes that are
--   left. Rsql/Lex/Progress, Rsql/Lex/Words and Rsql/Lex/Offsets are about single tokens.
-- * Rsql/Ast and Rsql/Parse model the syntax tree and the parser. A method of the parser is a function
--   of the parser's state (Rsql/Method) that ends with a result or an error (Rsql/Result). Rsql/Reports
--   has the rules by which Rsql/Parse/Offsets and Rsql/Schema/Errors say what an error means.
-- * Rsql/Bound, Rsql/Coerce and Rsql/Schema model the binder. Rsql/Schema/Spec says what a bound
--   filter is, without the binder, and Rsql/Schema/Blame and Rsql/Schema/Unfit what the errors say.
-- * Rsql/Tree models joining and rewriting. Rsql/Tree/Eval gives filters a meaning.
-- * Rsql/Canonical models the canonical form. Rsql/Print is the text of a syntax tree, by which the
--   canonical form is read back: Rsql/Print/Reread and Rsql/Print/Rebound bind it, Rsql/Print/Key is
--   about its use as a cache key, and Rsql/Print/Empty about the empty string.
-- * Mongox models the translation, and Mongox/Translate MongoDB as far as it relies on it.
-- * Strings models what the code uses of Go's packages strings and path.
--
-- HTTP (httpx/). The middlewares wrap handlers, `Chain` composes them, and the response goes through
-- writers that wrap each other.
--
-- * Httpx/Ip models the client's address (httpx/ip.go), with its proofs in Httpx/Ip/Client,
--   Httpx/Ip/Spoof and Httpx/Ip/Trusted.
-- * Httpx/Redact, Httpx/Body, Httpx/Recorder and Httpx/Record model httpx/record.go: redaction, bodies
--   that are read and put back, the recorder of a response and the middleware `Record`. A writer is a
--   state with its operations, a handler the list of the calls that it makes on its writer, and how it
--   ends. Httpx/Record/Recovered is about `Record` around `Recover`.
-- * Httpx/Transports models the round trippers of httpx/caller.go and httpx/correlation.go, on the
--   headers of Httpx/Header and the contexts of Caller (caller/caller.go). `Get` and `Set` of a header
--   bring its key into canonical form first, which Httpx/Header writes out.
-- * Httpx/Logger models the logging transport of httpx/logger.go.
-- * Httpx/Envelope models httpx/httpx.go, Httpx/Recover and Httpx/Middleware httpx/middleware.go.
--
-- Fiberx models fiberx/fiberx.go for Fiber: its handlers (Fiberx/Handlers), the redaction of JSON
-- bodies (Fiberx/Body), `Record` (Fiberx/Record) and the responses (Fiberx/Responses). Log models the
-- logger of log/log.go, over the package log/slog.
-- Emberx models emberx/: the caller on events (Emberx/Metadata) and the codecs (Emberx/Codec). Money
-- and Errorsx model money/money.go and errorsx/errorsx.go.
--
-- Services is about services that call each other: the handlers of fiberx/ in front of calls through
-- the transports of httpx/.
--
-- Base holds what they share: texts as lists of code points, sorting, integers.
--
-- Numbers. Positions, depths and counts are natural numbers: they are bounded by the length of the
-- input. A 64-bit integer of a filter is a `ℤ` that `parse_int` has checked to be in range.
--
-- Fuel. `parse` runs on one more unit of fuel than the input has runes: each level of the grammar and
-- each round of its loops consumes a token, and each token but the last consumes a rune.
--
-- What is not under the repository's control is a parameter: `Std` (letters above ASCII, the
-- formats of floats and times and the errors of reading them), `Net` (addresses), `Web` (queries,
-- cases beyond ASCII, JSON), `Json` (envelopes), `Decimals`, `Fiber` with a JSON codec, and
-- ember's `Marshaler` with `encoding/json` on its blobs. A text of an error is its data, not its
-- words. The package uuid, one call of a library, and the nil loggers, which log nothing, are not
-- modelled.
pub mod Base
pub mod Rsql
pub mod Mongox
pub mod Services
pub mod Strings
pub mod Httpx
pub mod Log
pub mod Fiberx
pub mod Errorsx
pub mod Caller
pub mod Emberx
pub mod Money
