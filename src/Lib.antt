-- ===== src/Lib.antt =====
-- slack-mcp-extender: a proxy between an agent, which speaks MCP over standard input and output, and
-- Slack's MCP server, which adds tools of its own that move files between the local disk and Slack.
-- Names of functions below are those of the Go code, paths are from the root of the repository.
--
-- How the parts interact. The pipe (internal/proxy/proxy.go) reads the agent's lines, forwards
-- requests upstream, and keeps the calls of its own tools local. Those (internal/proxy/tools.go) ask
-- internal/workdir for the directory that a call may work in, build a containment policy whose only
-- root it is (internal/containment), have the policy judge the path, ask internal/transfer to move
-- the file, and write an entry to the audit log. The results and the tools/list answers pass through
-- internal/jsonrpc. internal/config gives the settings.
--
-- Which file models which part, each with its proofs in the modules below it:
--   Filepath      the lexical functions of Go's path/filepath that the code calls, on a Unix system
--   Json          decoded JSON values; `Codec` stands for encoding/json and the two verbs of fmt
--   Workdir       internal/workdir/workdir.go; the record `Pathguard` stands for the module
--                 nlink-jp/pathguard
--   Containment   internal/containment/containment.go: `Policy` and `Violation` (Types), `new_policy`
--                 and the stages that both directions share (Policy), `resolve` (Upload),
--                 `sanitize_filename` and `resolve_new_file` (Download). The record `Os` stands for
--                 what the policy's own calls of os and filepath.EvalSymlinks answer; what pathguard
--                 reads of the disk is in the answers of `Pathguard`. The disk does not change during
--                 a call
--   Transfer      internal/transfer: requests, results and errors (Types), the reading of bodies
--                 (Http), the monad of the client's calls, which keeps the requests sent (Io), what the
--                 client uses of other packages (Web), apiCall with its one retry and Info (Client),
--                 the three steps of Upload (Upload), AuditLog.Append over the lines of the file, with what a failed write or close leaves
--                 (Audit), and both as the services of the tools (Service). `fetch_to` (Fetch) is
--                 Client.FetchTo with its result and the list of its calls that change files; `fetch`
--                 (Service) is the same on the network
--   Tools         internal/proxy/tools.go: results and their texts (Replies), policy_for, path_denied
--                 and audit (Handlers), handle_upload, handle_download, Handles and Handle (Dispatch),
--                 and the texts of the tools (Definitions). The state is the outside world, the log's
--                 file, the entries handed to the log, and the lines logged. `Services` is the
--                 interface FileTransfer with AuditLog.Append
--   Jsonrpc       internal/jsonrpc/jsonrpc.go: messages and the merge of tools/list results, which may
--                 succeed, fail, or panic. `RawCodec` stands for encoding/json on raw text
--   Proxy         internal/proxy/proxy.go: the state (Pipe), what each goroutine does with a line
--                 (Routing), and their steps in every order (Steps). Between the call of Send and its
--                 return, and while a request waits, the other goroutine may take any number of steps;
--                 the response and the timer may come in either order. A response is taken out of the
--                 table in one step of the upstream's side (`dispatch`) and put into its channel in a
--                 later one (`hand_over`). What the agent's side does from the firing of the timer, or
--                 the receipt of the response, to the written answer is one step. The pipe takes the tools as the
--                 interface `LocalTools`, which Injected fills
--   Transport     internal/transport/sse.go: Send, its posts and Close (Session), consumeSSEStream
--                 and dispatchSSEData over the lines that the scanner gives (Stream), and the channel,
--                 with its capacity, under every order of enqueue, ReadLine and Close (Channel).
--                 internal/transport/clientauth.go and the requests that use it (Credentials, with
--                 url.Values in Forms). internal/transport/tokens.go: SaveTokens and LoadTokens on the
--                 two files of the state directory (Tokenfile), Token, Invalidate, the refresh and
--                 ParseTokenResponse (Tokens). `Server`, `Endpoint` and `Disk` stand for the network,
--                 encoding/json and the file system
--   Oauth         internal/oauth/login.go: the callback's handler, the two channels and the select
--                 (Callback), and Login in its order of steps (Login). `Browser` stands for the
--                 listener, the random tokens, the hash and whatever reaches the callback
--   App           internal/app: the dispatch, --config, config and login (Commands), the questions of
--                 init and the reading back of what it wrote (Init), buildProxy and mcp up to the run of
--                 the pipe (Mcp), an upload call on the client that the server runs with (Uploads),
--                 and the transport with the stored tokens (Renewal)
--   Config        internal/config/config.go: `Config` (Types), Validate, Warnings and Redacted
--                 (Validate), Load, the defaults and ServerOwnedDirs (Load), ResolveConfigArg and
--                 DefaultScopes (Lookup). `System` stands for the environment, the file, its strict
--                 decoding and url.Parse
--   Tests         runs of the model on concrete inputs, and each theorem at one
--
-- Base.Action is the monad of functions that change a state and may fail; Base.Yields has a rule for
-- what holds of each value that such a chain returns.
--
-- Fuel stands for rounds in two loops. That of apiCall (`api_loop`) needs two, and has a function
-- without fuel beside it (`api_call`), which the other parts use. The loop of init that asks again
-- (`ask_until`) needs a round more than there are blank lines before an answer; without an answer no
-- number of rounds is enough, as in the code. All else is structural. Integers of the code are integers
-- (Base.Int), with the sum of a download's cap and one, which can overflow, wrapped around. Error
-- values are data types where callers tell errors apart, and texts elsewhere.
--
-- Not modelled: of internal/transport calls of Close during Send, the options of the transport, and
-- times that leave the range of time.Duration; of internal/oauth the certificate, which is
-- cryptography of the Go library, the start of the browser and the progress messages; of internal/app
-- the texts printed for the user and the end of a run of the pipe; in the pipe failing writes to the
-- agent, the limit on the length of a line, and the end of input. The bytes of texts are not modelled:
-- a text is a sequence of characters.
pub mod Base
pub mod Filepath
pub mod Json
pub mod Workdir
pub mod Containment
pub mod Transfer
pub mod Tools
pub mod Config
pub mod Transport
pub mod Jsonrpc
pub mod Proxy
pub mod Oauth
pub mod App
mod Tests
