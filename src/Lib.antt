-- ===== src/Lib.antt =====
-- BastionDeck: the web client, as functions and steps, and what makes it correct.
--
-- The program is an operations console: a Go server with agents on the managed hosts, and a web
-- client (web/src) through which people choose hosts, run commands on them, watch the output, edit
-- files, open tunnels and manage credentials, users and backups. This library models the client's
-- logic, and of the server only the rules that the client repeats. The client's parts, and the files
-- that model them:
--
--   Prelude    what the others share: names of the libraries, tests on numbers and texts, lists as
--              sets, integers, JSON values, objects with a prototype, maps, decimal digits,
--              sorting.
--   Api        web/src/api/types.ts: the records that the server sends.
--   RunMath    web/src/lib/runmath.ts: aggregateStatus is aggregate_status, summarize, rollupRuns is
--              rollup_runs, progressPct and fmtDuration (RunMath/Measures).
--   Server     internal/jobs/statemachine.go (Aggregate, Summarise), internal/jobs/engine.go (the
--              hosts of RetryFailed) and internal/auth/model.go (CanAssignRole); in Server/Routes
--              the routes of internal/httpx/routes.go with the permissions that they require, Can
--              of internal/auth/model.go, permsFor of internal/httpx/h_system.go and requirePerm of
--              internal/httpx/middleware.go. Server/Routes/Mux has the table itself, and which
--              route a request meets; Server/Csrf is csrfGuard of that file.
--   Selection  web/src/lib/selection.ts: selectHosts, collectTags, collectGroupIds, dedupeIds.
--   Template   web/src/lib/selection.ts: requiredVariables and renderTemplate; the regular expression
--              is a scanner that cuts a body into pieces.
--   Format     web/src/lib/format.ts and web/src/components/Badge.tsx.
--   Hooks      web/src/lib/hooks.ts: useAsync (Hooks/Async) and useDebouncedValue (Hooks/Debounce)
--              as states and steps; which promise settles next is the environment's choice.
--   Toast      web/src/lib/toast.tsx: messages and their timers.
--   Feed       web/src/components/EventFeed.tsx: the live feed.
--   Fields     the fields of tags of web/src/pages/Snippets.tsx and web/src/pages/Hosts.tsx.
--   Client     web/src/api/client.ts: the request that is built, and what becomes of a response.
--   Endpoints  web/src/api/endpoints.ts: one constructor for each call, and the call it makes.
--   Auth       web/src/store/auth.tsx, and in Auth/Guard web/src/components/Guard.tsx, the routes of
--              web/src/App.tsx and the menu of web/src/components/Layout.tsx.
--   Terminal   web/src/components/Terminal.tsx: the messages of an interactive terminal.
--   Confirm    web/src/components/Confirm.tsx: the dialog that asks before an action.
--   Pages      web/src/pages: the handlers of ExecWizard.tsx (Pages/Wizard), RunDetail.tsx (Pages/Tail
--              for the output, Pages/Runs for the buttons), Runs.tsx, Files.tsx, Snippets.tsx,
--              Jobs.tsx, Tunnels.tsx, Credentials.tsx, Backup.tsx, Users.tsx (Pages/Users for roles
--              and new users, Pages/Account for the rest), Login.tsx and Setup.tsx (Pages/Entry),
--              Hosts.tsx and HostDetail.tsx (Pages/Hosts), Agents.tsx,
--              Settings.tsx and Audit.tsx (Pages/Operations), and of
--              web/src/components/GroupsPanel.tsx (Pages/Groups). Pages/Forms is what the forms
--              promise, a record of laws that their handlers fill.
--   Views      what the components of web/src/pages, web/src/components/Common.tsx,
--              web/src/components/Badge.tsx and web/src/components/GroupsPanel.tsx render, as a list
--              of parts (Node): a module for each page, named after it, but Views/Runs for Runs.tsx
--              and RunDetail.tsx, Views/Wizard for ExecWizard.tsx, and Views/Vault for
--              Credentials.tsx and Backup.tsx. Views/Offered puts together what each page reads and
--              shows; Views/Served holds it against the routes of the server.
--   Tests      runs at concrete values, and uses of the theorems.
--
-- How they interact: a page keeps its state with React's hooks, reads through useAsync, and its
-- handlers call the endpoints, which build a request of the client; what fails is shown as a message.
-- A handler is therefore a function from the state and the outcome of the call that it awaits to the
-- next state and a list of effects (Pages: calls, messages, reloads, navigation, downloads). State
-- that anything may change between two answers is a step function on a record (Hooks, Toast, Feed,
-- Terminal, Confirm, Pages/Tail), with sequences of steps or reachability where a result is about all
-- runs.
--
-- A page's view is a function from its state and the session to the parts that it shows, in the order
-- of the document. A part that calls the server carries its operations, those of the handlers in
-- Pages; so the calls that a page offers can be compared with what the server's routes let through. The
-- state that a page starts with is not fixed: a theorem about a view holds for every state, or says
-- for which.
--
-- Texts are lists of UTF-16 code units. Undefined and null fields are options. An integer that the
-- source keeps in a double is a natural number or an integer; ports, timeouts and concurrency are
-- taken as whole numbers.
--
-- Parameters, with what is relied on: floating point division, multiplication by 100 and rounding
-- (the record Double: percentages grow with the part, and the whole is 100, up to 2 ^ 53); toFixed;
-- Date parsing, locale strings and the clock; JSON.parse, JSON.stringify, URLSearchParams; base64; the file that an upload chooses
-- (the record Browser, Views/Offered, gathers what the pages need); the texts of a
-- stream between two offsets, which fit together where they meet between two characters
-- (Pages/Tail/Faithful). The server's mux takes the route whose pattern fits; only ids without
-- characters that a URL treats apart are followed through it.
--
-- Bounds and fuel: the loop of fmtBytes takes at most four rounds, one for each larger unit, and
-- that of modeString nine, one for each bit, as in the source; the digits of a number are taken with
-- one more round of fuel than the number, which has no more digits. All other loops follow their
-- lists.
--
-- Not modelled: of the markup, boxes, styles, table heads and placeholders; what the pages Login.tsx
-- and Setup.tsx, the menu and the messages look like; the router's matching, EventSource, the socket
-- and the terminal emulator, the browser's downloads, the flag that disables a button during a login,
-- and the server and agent beyond the rules above.
pub mod Prelude
pub mod Api
pub mod RunMath
pub mod Server
pub mod Selection
pub mod Template
pub mod Format
pub mod Hooks
pub mod Toast
pub mod Feed
pub mod Confirm
pub mod Fields
pub mod Client
pub mod Endpoints
pub mod Terminal
pub mod Auth
pub mod Pages
pub mod Views
mod Tests
