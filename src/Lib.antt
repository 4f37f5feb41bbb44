-- ===== src/Lib.antt =====
-- The frontend of Clever Gateway's admin panel (frontend/), as functions and step relations, with
-- the theorems that make it correct.
--
-- The panel is a set of pages over one API client. The client (frontend/lib/api.ts) keeps two
-- tokens in the browser's storage, sends requests, and refreshes the tokens once where a reply is
-- 401. The session (frontend/lib/auth.tsx) stands on the client; the panel's layout shows its
-- pages only to a session's user. Each page loads its lists by the client and writes them by
-- forms. The log console keeps a connection of its own beside the client's requests.
--
-- Which file models what:
--   Prelude, Json, Show: JavaScript's strings, dictionaries, JSON values and decimal numbers, as far
--     as the code uses them, with the lemmas on lists and texts that the other files share.
--   Api, Api/Client: frontend/lib/api.ts. `World` is the storage and the requests sent so far; a
--     `Net` answers each request, knowing all earlier ones. `api_fetch` is `apiFetch`. Api/Refresh and
--     Api/Protocol describe the exchanges with the server as relations.
--   Api/Concurrent: calls of `apiFetch` that run at the same time, as a machine whose events are the
--     replies, the logins and the logouts.
--   Runs: what the machines share: runs, invariants along them, and machines that match each other.
--   Auth: frontend/lib/auth.tsx, `AuthProvider` with `mount` for its effect, `login` and `logout`;
--     Auth/Interleaved: the same calls when they run into each other.
--   Types: the interfaces of frontend/lib/types.ts as records.
--   Streams/Polling, Streams/Events: `createPollingClient` and `createSSEClient` of
--     frontend/lib/sse.ts.
--   Logs/Levels: in frontend/app/(dashboard)/logs/page.tsx, `toggleLevel`, `toggleLevelGroup`, the
--     filter and the counts; Logs/Page: the page's state, `onmessage`, `runQuery` and the handlers;
--     Logs/Socket: `connect`, `onclose` and the clean-up of the live effect; Logs/Socket/Refresh:
--     `refreshToken`; Logs/Query: addresses, export and context search; Logs/Row: `LogRow`;
--     Logs/Console: the page together with its connections, which the effect of `mode` starts and
--     ends; Logs/Follow: `handleScroll` and the effect that scrolls; Logs/View and Logs/Inspector:
--     what the page shows around its rows, and the drawer of one log.
--   Providers/Clone, Forms, Page and Rows: in frontend/app/(dashboard)/providers/page.tsx, the names
--     of duplicates, the drawers' `handleSave`, the page with its loads, and the tables' rows;
--     Providers/Tables and Drawers: columns, buttons and inputs; Providers/Info and Info/View:
--     `ProviderInfoDrawer` with its requests and helpers.
--   Keys, Users, Settings, Models, Monitoring, Spend, Cache: the pages of those names under
--     frontend/app/(dashboard)/; Keys/Inputs and Users/Inputs: their drawers' inputs;
--     Keys/Saving and Users/Saving: what is sent after them;
--     Settings/Preferences: the card of the appearance.
--   Dashboard, Dashboard/Live, Dashboard/View: frontend/app/(dashboard)/page.tsx, its state, its effect
--     with the two polling clients, and its cards.
--   Table: frontend/components/cg/Table.tsx.
--   Widgets, Widgets/Motion: Toast.tsx, Confirm.tsx, Stat.tsx and Drawer.tsx of
--     frontend/components/cg/, frontend/components/States.tsx and frontend/components/anim.tsx.
--   Background: frontend/components/PlexusBackground.tsx.
--   Shell: frontend/app/(dashboard)/layout.tsx, frontend/components/layout/Sidebar.tsx and
--     Topbar.tsx, and the submit of frontend/app/(auth)/login/page.tsx; Shell/Frame and Shell/Login:
--     what these show, and the fields of the login page; Shell/Visit: the session with its
--     calls cut at their `await`s, the layout and the login page together.
--   Theme, Theme/Palettes, Theme/Active: frontend/theme/ThemeRegistry.tsx and frontend/theme/theme.ts.
--   Schemas: in backend/app/schemas/admin.py, the shapes of the bodies that the forms send.
--   The Laws and the other files beside a part hold its theorems; a file Refinement states what the
--     part promises as a machine of its own, which the code's state implements. Tests applies the
--     theorems to inputs.
--
-- Asynchronous code is cut at its `await`s. What the browser or the user may do next is an event,
-- a `step` handles one event, and a theorem over `run` is one over every order of events. An
-- event that cannot happen, such as a timer that is not set, changes nothing.
--
-- Recursion is structural everywhere but in `count_up` of Providers/Clone, the loop for the first
-- free counter. Its fuel is one more than the number of counters in use, which is enough since
-- the counters it passes are different ones, all of them in use. Numbers are not bounded:
-- counters, ids and pauses of the code stay far below what JavaScript's numbers hold exactly, but
-- for the digits of a name, which are read here without rounding.
--
-- Parameters stand for what the browser and the libraries give: `JSON.parse` and
-- `JSON.stringify`, `crypto.randomUUID`, `URL`, `URLSearchParams`, `encodeURIComponent`,
-- `toLowerCase`, `toFixed`, the arithmetic of fractions, and the server. A theorem about a text
-- that was written and is read back assumes that `JSON.parse` reads it back.
--
-- Not modelled: layout, motions and vector drawings (frontend/components/cg/AnimatedIcons.tsx,
-- Card.tsx and frontend/components/layout/PageTransition.tsx), which draw what the models
-- compute; the charts and the canvas, which libraries and the browser draw; and the backend but
-- for its request schemas, another program, which the models meet as the `Net`.
pub mod Prelude
pub mod Runs
pub mod Json
pub mod Show
pub mod Api
pub mod Types
pub mod Auth
pub mod Shell
pub mod Theme
pub mod Streams
pub mod Logs
pub mod Providers
pub mod Models
pub mod Keys
pub mod Users
pub mod Widgets
pub mod Spend
pub mod Cache
pub mod Settings
pub mod Dashboard
pub mod Monitoring
pub mod Table
pub mod Background
pub mod Schemas
pub mod Tests
