-- ===== src/Lib.antt =====
-- A verification library for the MCP server for Db2 for i: the parts that decide who may use the
-- server, for how long, and what they may see.
--
-- Tokens (src/auth/tokenManager.ts): the bearer tokens and their sessions. A method is a function
--   of the manager and the clock; the cleanup callback is the list `notified` of its calls. The sweep
--   and the shutdown wait for the callback after each report: they are what they collect and one
--   function for a turn, and any other call may run between two turns.
-- RateLimit (src/utils/rateLimiter.ts): the fixed window limiter of each client.
-- Oauth (src/auth/oauth.ts, and the grants of src/auth/grantStore.ts): the authorization server.
--   Oauth.Signed has sign and verifySigned, Oauth.Clients authenticateClient, Oauth.Issue revokeGrant and
--   issueTokens, Oauth.Token the branches of POST /oauth/token, Oauth.Revoke POST /oauth/revoke and
--   the end of the sign-in, Oauth.Register POST /oauth/register, and Oauth.Authorize GET
--   /oauth/authorize and the request that its form brings back. Oauth.Targets says what an allowed redirect
--   URI looks like. Oauth.Events composes them: an event is a stretch that runs without
--   waiting, and a refresh, which waits for the credential check, is the two events `begins` and
--   `finishes` with any others between. It uses the token manager for access tokens and grants.
-- Exports (src/export/store.ts): the registry of export files, its limits and the download links. An
--   export completes and is released in two steps, and its file may be larger than EXPORT_MAX_BYTES.
-- Sessions (src/transports/sessionManager.ts): the MCP sessions. closeSession, which waits while
--   the transport closes, is `begin_close` and `end_close`. The sweep, the closing of a token's sessions
--   and the shutdown are what they collect, and then these two for one session after the other.
-- Masking (src/customTools/masking.ts): the masking of columns. Masking.Scan is tokenizeSql,
--   Masking.Check checkMaskedColumns, Masking.Tables the finding of masked tables. Masking.Words,
--   Masking.Order, Masking.Items and Masking.Named describe keywords, sort keys, select items and named
--   tables apart from that code.
-- Csv (src/export/csv.ts): the text that the CSV writer appends, and Csv.Reading a reader by RFC 4180.
-- Pools (src/db/connection.ts): the connection pools of the callers. Pools.Events composes the operations:
--   an event is a call, or a statement that starts or ends, or a pool that could not be created. The
--   pool that a cancel runs on may be opened ahead. A pool that is handed over to be closed counts as closed:
--   closeOwner closes them one after the other, behind slots that no owner registers any more.
-- SqlSecurity (src/utils/security/sqlSecurityValidator.ts): SqlSecurity has normalizeForScan,
--   SqlSecurity.Automaton its reference, SqlSecurity.Pieces queries by their pieces, SqlSecurity.Engine the
--   words, patterns and text tests, and SqlSecurity.Validator validateQuery, for any parser and any
--   engine of regular expressions.
-- Lifecycle (src/lifecycle.ts): the shutdown of the process; a step is what runs without waiting.
-- HttpAuth (src/auth/authMiddleware.ts, src/transports/sessionAuth.ts, and handleStatefulLegacyRequest of
--   src/transports/http.ts): who may pass, under which key, and which MCP session a request reaches. It
--   puts the token manager and the session manager together.
-- Prelude: the library's names, Boolean tests, lists, and `Table`, which is JavaScript's Map with
--   text keys as an association list in the order of insertion.
--
-- Clocks, random texts, and the answers of connections and credential checks are arguments. What
-- node:crypto computes is the record Oauth.Crypto. The clock is read once for each stretch. Numbers
-- are natural numbers, where the source's numbers stay far below 2^53; the counters of the export
-- store are signed, as `release` subtracts without a check. Names that are compared in upper case
-- are in ASCII.
-- Masking.Scan.scan and SqlSecurity.scan run on fuel, which is the length of the text and at most one
-- more. Each turn takes at least one character, so it is enough.
-- Not modelled: logging, audit events, timers as such, the HTML pages, the encrypted state file of the
-- grants, the file system below
-- the export store, the statements that the database drivers run, the MCP server, the rest of the
-- HTTP transport and the configuration.
pub mod Prelude
pub mod Tokens
pub mod RateLimit
pub mod Exports
pub mod Oauth
pub mod Sessions
pub mod Masking
pub mod Csv
pub mod Pools
pub mod SqlSecurity
pub mod Lifecycle
pub mod HttpAuth
