-- ===== src/Lib.antt =====
-- The library specifyr models the core of the Specifyr server: the stores that keep orgs, their
-- members, invites and permissions, the users and the platform settings with the sign-in, the
-- allocator of bridge subnets, the drafts of spec files with their publication, the credentials of
-- LLM providers with the session tokens that stand for them, the projects with their access rules
-- and the extensions of an org; of the agent core, the run of a task graph, the states of the
-- workflow steps, and the capabilities of agents with their approvals; of the web client, the store
-- of the draft that is edited and the reader of event streams.
--
-- Parts and files:
-- - Prelude (Tests, Lists, Texts, Result): Boolean tests on native numbers, lists, texts as
--   lists of character codes, results with errors and actions on a state.
-- - Database: the SQL statements the stores issue (select, limit 1, update, delete, count,
--   insert with on-conflict-update) as functions on lists of rows.
-- - Network: server/shared/utils/bridge-subnet-allocator.ts. Cidr is parseCidr and intToIp,
--   Allocator is allocateBridgeSubnet.
-- - Orgs: server/shared/utils/org-store.ts, org-permissions-store.ts and org-auth.ts, with the
--   tables of server/shared/database/schema.ts. Rows is the tables, Slug is slugify, Create,
--   Members, Invites, Permissions and Auth are the operations, Ops is a history of them. The
--   rest is proofs: Roles and Lookups on queries, Owner, Grants and History on the invariant,
--   Redeemed and Removed on what stays of a redemption and of a removal, Effects, Redeem and
--   Access on single operations.
-- - Drafts: server/shared/utils/spec-draft-store.ts and spec-public-state.ts. Store is the
--   operations on drafts, Publish is publishDraft, Disk is the directory of published files,
--   Ops is a history of all of them.
-- - Credentials: server/shared/utils/llm-credentials-store.ts and runner-sessions-store.ts.
--   Rows is the two tables, Cipher the encryption as an interface, Store and Keys the
--   operations on credentials, Resolve the choice of one for a request, Sessions the session
--   tokens, Ops a history of all of them; Flow is server/shared/utils/oauth-flow.ts with its proof
--   in Login.
-- - Projects: server/shared/utils/project-store.ts, server/shared/middleware/project-access.ts
--   and the member handlers under server/projects/api. Store is the operations, Gate the
--   middleware with the regular expression on the path, Handlers adding and removing members.
--   Listing, Leaving and Joining are proofs.
-- - Accounts: server/shared/middleware/auth.ts, platform-settings.ts, platform-admin-auth.ts and
--   the handlers under server/admin/api. Rows is the tables, Settings and Admin the operations,
--   SignIn the middleware that signs a request in. Ops is a history of
--   them. Registration and Histories are proofs.
-- - Runs: src/core/run-store.js and src/core/run-scheduler.js. Rows and Store are the state of a
--   run, Scheduler is execute as a machine of events, Blocking is propagateBlock. Tables, Flights,
--   Slots, Held, Stalled, Passes, Visits and Fallout are proofs.
-- - Steps: src/core/step-state.js and isStepUnlocked of app/utils/steps.ts, in Store; Stale is
--   proofs.
-- - Capabilities: src/core/capability-gate.js in Gate, capability-approval-service.js in
--   Approvals; Grants and Answers are proofs.
-- - Extensions: server/shared/utils/org-extensions-store.ts. Rows is the table with the
--   directories, Store and Adding the operations, Installing, Refusals and Outcomes
--   proofs.
-- - Editor: app/stores/active-session.ts, in Store; Saved is its histories, with
--   proofs, as is Attempts.
-- - Sse: app/utils/sse-client.ts. Blocks is the buffer and the parser, Client is openSse,
--   Chunks and Calls are proofs.
--
-- How they interact: creating an org asks the allocator for a subnet in the same transaction;
-- the route guards read the tables of the org store; publishing writes the files of a draft to
-- disk inside its transaction; minting a session token reads the credential that it is bound
-- to, and deleting a credential unbinds its sessions; the gate in front of project routes reads
-- the tables of the org store and of the projects.
--
-- Conventions. The code's names are kept, in snake case for functions and fields. Ids are
-- natural numbers, times are milliseconds. A table is a list of its rows; primary and unique
-- keys and cascades of schema.ts are written out in the inserts and deletes. `is_configured`
-- says whether `getDb()` gives a database. One transaction is one function: a throw gives no
-- new tables. Two transactions never overlap in the model: the drafts are locked by
-- `for("update")` and the allocator by an advisory lock; the org store takes no locks, so its
-- results hold for histories whose transactions run one after the other. Generated ids and
-- tokens, the clock, the environment and the success of the DDL are arguments. The order of
-- names (`localeCompare`, the collation) is a parameter, and so is the cipher, whose laws are
-- hypotheses where they are needed. The 32-bit operators of JavaScript keep their wrap-around
-- modulo 2 ^ 32. The loops are structural recursion on lists or on the number of slots left, 2
-- ^ (24 - prefix) of them; the loop over the blocks of an event stream has the length of the
-- buffer as fuel, and each block takes two characters. `toLowerCase` is a parameter, but for
-- slugs, where it is modelled as far as a slug can see it.
--
-- The run of a task graph, a save in the client and the approvals are machines of events: each
-- `await` ends an event, but for the last ones of execute, which are one, and the histories are
-- lists of events in any order. A turn of the
-- scheduler launches at most as many tasks as it has slots, and propagateBlock makes at most one
-- pass more than the table has entries; both bounds are shown to be enough.
--
-- Not modelled: the pages and components of the web client, the HTTP parsing of the handlers; of
-- the agent core, the runners over processes and containers, the event log, the turn broker and the
-- extraction of tasks from Markdown; agent profiles, the OAuth login, git access, the catalog of
-- extensions and workflow discovery. Files are what the last write left: torn or failed writes are
-- modelled only where a component's file says so, and a symbolic link among the published files is
-- taken to point out of their directory. Foreign keys to the users table are left out,
-- except in Accounts.
pub mod Prelude
pub mod Database
pub mod Network
pub mod Orgs
pub mod Drafts
pub mod Credentials
pub mod Projects
pub mod Sse
pub mod Accounts
pub mod Runs
pub mod Steps
pub mod Capabilities
pub mod Extensions
pub mod Editor
