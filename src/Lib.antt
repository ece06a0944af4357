-- ===== src/Lib.antt =====
-- The runner multiplexer. Its web dashboard, web/src, is pages in React on which runners are listed,
-- added, changed and removed through the REST interface of the backend. The backend, in Go, keeps
-- the runners in a database, keeps their listeners running, and hands the jobs to a pool of worker
-- containers.
--
-- The parts and their files:
--   Api         web/src/lib/api.ts: the types of the interface (Api/Types), and one function for
--               each endpoint (Api/Client), named as in the source: add_runner is api.addRunner.
--   Browser     what the pages use of the browser: the result of `new URL`, Set and Map by strings
--               (Browser/Sets), notifications.
--   AddRunner   web/src/pages/AddRunner.tsx: the name helpers (Name), the state and the handlers of
--               the inputs (Form), the modes and scopes (Modes), the proposed name (Naming), the
--               token inputs (Pats), handleSubmit (Submit) and what the form shows (View).
--   Selector    web/src/components/repo-selector-dialog.tsx: the two panels, their events and the
--               confirmation. AddRunner takes over what the dialog confirms.
--   Theme       web/src/components/theme-provider.tsx and theme-toggle.tsx.
--   Overview    web/src/pages/Overview.tsx: filtering, grouping, sorting, and the cards (Shown).
--   Detail      web/src/pages/RunnerDetail.tsx and, in Detail/Shown, the variable part of
--               web/src/components/pat-guide-dialog.tsx. Detail/Labels follows the labels to the
--               backend's store, pkg/dashboard/service.go, and back.
--   Session     web/src/App.tsx and web/src/pages/Callback.tsx: sign-in, guard and callback.
--   Capacity    web/src/pages/Settings.tsx.
--   Pool        orchestrator/: the state of the orchestrator and its functions, named as in the
--               source; System has the goroutines and Docker as steps, Recovery and Names the start
--               among the containers of an earlier run; the other files prove.
--   Mux         pkg/mux/state.go and base_manager.go: the states of a runner and the operations on
--               its process; Standalone is pkg/standalone/pauser.go, which Pool tells to freeze;
--               Life has the operations of the standalone manager as events, Jobs the starts
--               and ends of jobs, and Moves proves.
--   Server      pkg/dashboard: the tables and their queries, Service for service.go, Handlers for
--               handlers_runner.go, Access for the middleware, checkCanManage and config/auth.go,
--               Limits for handlers_settings.go and for what NewApp of app.go reads. Cleared
--               follows the update form of Detail to the stored row.
--   Prelude     shared names, Boolean tests, lists, integers, maps as lists of pairs (Dict), and
--               the string functions of the JavaScript library.
--
-- A component's state is a record, what the user and the browser do to it a data type of events, and
-- its handlers one function from state and event to state. A handler that calls the network takes
-- the answers as a function from requests, and gives back what it does: notifications, places
-- navigated to, requests sent, and the state afterwards. Each call of `Math.random` takes the next
-- identifier of a given sequence.
--
-- Parameters, since their code is not part of the repository: `parse_url` for `new URL`, `lower` for
-- Unicode's lower-case table beyond ASCII, `locale_le` for `localeCompare`, `answer` or `fetch` for
-- the network, and what SWR has loaded; of the backend GitHub's answers (in `Github`), the signals of
-- the system, and `itoa` and `atoi` for Go's strconv. Two more are parameters although their code is
-- in the repository, since it is not modelled: in `Github` the function ParseRepoURL of pkg/github,
-- and `World` for the multiplexer's processes and what their managers do with the file system. Texts
-- are lists of code points, numbers are whole numbers. Nothing runs on fuel but the printing of a
-- number, whose fuel is the number's successor, more than its digits.
--
-- In the orchestrator a step is what one goroutine does while it holds the mutex, and a run is any
-- list of steps that are possible one after the other; the counters are natural numbers, and that
-- none is lowered below 0 follows from what is shown of them.
--
-- Not modelled: of the backend the scale set listeners (pkg/scaleset), the start of a standalone
-- listener (pkg/standalone/listener.go), the multiplexer's dispatch by modes, the sign-in handlers,
-- the calls of GitHub, and a database that fails; of the dashboard the component library under
-- web/src/components/ui, layout and fixed texts, the matching of routes, the progress between the
-- start and the end of a call, and two calls of one handler that overlap.
pub mod Prelude
pub mod Api
pub mod Browser
pub mod AddRunner
pub mod Selector
pub mod Theme
pub mod Overview
pub mod Detail
pub mod Session
pub mod Capacity
pub mod Pool
pub mod Mux
pub mod Server
