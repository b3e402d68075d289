-- ===== src/Lib.antt =====
-- The web client of OGS-SWG (frontend/src): a panel by which an administrator manages the users and the
-- inbounds of a sing-box proxy, the peers of a WireGuard interface and their logs over an HTTP
-- interface.
--
-- The parts and the files about them:
-- - Prelude: Boolean tests, lists over the native numbers, texts, sets of texts, integers, `sort`.
-- - Wire, Runtime: what is sent and received, and what runs around the source. A handler is a
--   function from the server and the world (the state of its page, the session, the requests sent, the
--   messages shown) to an outcome, a value or a thrown error, and the world after it. A server is any
--   function from the requests that it has seen to its answer, so it stands for every state and every
--   failure of the real one.
-- - Encoding: `encodeURIComponent` and `URLSearchParams`, with decimal numbers.
-- - Session, Login: frontend/src/context/AuthContext.tsx, frontend/src/components/ProtectedRoute.tsx
--   and frontend/src/components/Login.tsx. `Session` holds the token of the state and of the storage.
-- - Api and its children: frontend/src/api.ts. `build_headers`, `handle_response` and one function for
--   each call of the object `api`, under its name in snake case; Api/Endpoint has a value for each of
--   them, Api/Results, Api/Settled and Api/Accepted what is said of one call and of a handler that makes
--   several, Api/Decoded the answers that are used as JSON values.
-- - Toast: frontend/src/context/ToastContext.tsx.
-- - Users and its children: frontend/src/components/UserManagement.tsx. `Page` holds the states of the
--   component. Save is `handleSaveUser`, Edit `handleEditClick`, Removal the dialogs that delete, Bulk
--   `handleBulkCreate`, Rows the rows of inbounds and the checks of the form, Links the dialog with the
--   code of a link, Quota the text of a quota, Inputs and Uuid the inputs of the
--   forms, Usage `fetchUsage`, Selection, Sort and Status the list.
-- - Peers and its children: frontend/src/components/WireGuard.tsx. Edit, Removal, Inputs and Sort
--   have its handlers, Key the search for the private key, Address `ipToNum`.
-- - LogViewer: frontend/src/components/LogViewer.tsx. Events has the order of events while a refresh is on
--   its way.
-- - Editor: `performFind` and `diffLines` of frontend/src/components/RawConfig.tsx.
-- - Json: `JSON.stringify` and `JSON.parse`, character by character, by which the pages below read and
--   write configurations. Json/Lexer has one pass over the text in a mode, Json/Parser one over the
--   tokens with the arrays and objects that are open, so neither needs fuel.
-- - Singbox: frontend/src/components/SingboxConfigEditor.tsx. Singbox/Rules has the rules of the route,
--   Singbox/Store a server that keeps the configuration.
-- - Raw: the rest of frontend/src/components/RawConfig.tsx.
-- - Inbounds: frontend/src/components/singbox/InboundModal.tsx, its form as a JSON object; Inputs
--   has the inputs of the form and which of them are there, Submit is `handleSubmit`, Listing
--   frontend/src/components/singbox/InboundList.tsx and InboundUserModal.tsx.
-- - Settings: frontend/src/components/Settings.tsx. Prefs are the stored preferences of the dashboard,
--   Account the password and the user name, Controls the sampler and the services,
--   Inputs the fields and the effect that loads the page.
-- - Dashboard: frontend/src/components/Dashboard.tsx, which reads the preferences that Settings stores.
--
-- How the code is read:
-- - A handler gets the state that it was made with, as the closure of a React component does, and acts
--   on the current one through the setters.
-- - A call that the source does not await runs to its end where it is made; the theorems about such
--   handlers hold for that interleaving. Where an order of events matters (timers of toasts, events of
--   the session, runs of an effect) it is an explicit list or number.
-- - Random values, the clock, the answer of `confirm`, `localeCompare`, and `toLowerCase` on any text are
--   arguments.
-- - A number in JSON is a natural number below 2 ^ 53, no object has a key twice, and an escape of a surrogate is
--   refused. The message of a failed `JSON.parse` is always the same one. A response body is a value of a type that api.ts
--   declares, another JSON value or no JSON; a body of another type than the declared one counts as one
--   that does not parse.
-- - The one fuel is the number of runs of the effect that loads a link: one run asks for it, and the
--   next one takes it from the cache, so two are enough for a link that is not empty.
-- - Loops are recursion on the list that they go through.
--
-- Not modelled: markup and styles, a text in a field for a number that stands for none, the
-- clipboard itself, scrolling, the timers of the log and of the dashboard, charts, the floating-point
-- `parseGbToBytes` and `formatBytes`, frontend/src/components/Layout.tsx and ConfigViewer.tsx, and the server, which is written in
-- Go.
pub mod Prelude
pub mod Wire
pub mod Runtime
pub mod Encoding
pub mod Session
pub mod Api
pub mod Toast
pub mod Dashboard
pub mod Editor
pub mod Inbounds
pub mod Json
pub mod LogViewer
pub mod Login
pub mod Peers
pub mod Raw
pub mod Settings
pub mod Singbox
pub mod Users
