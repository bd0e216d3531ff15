-- ===== src/Lib.antt =====
-- The server side of the tasks platform: an HTTP API (apps/api) over PostgreSQL, through Prisma, with a
-- worker for mail and webhooks (apps/worker). A request is authenticated, resolves the caller's
-- membership of an organization, is checked against the permission matrix, and runs a service, which
-- queries the database through repositories. The services throw; the error handler answers.
--
-- Errors           apps/api/src/shared/errors: the thrown values and the responses made of them
-- Authorization    apps/api/src/shared/authorization: the matrix (Permissions), actors (Actor)
-- Database         the tables as an interface with laws (Table), their rows (Schema), services as
--                  functions from a state to a result and a state, and transactions (Client), rules for
--                  proofs along a service's steps (Steps, Outcomes), the labels (Labels), and a database in
--                  memory that fills the interface (Memory, Instance)
-- Members          apps/api/src/modules/members with the middlewares in front of it (Gate, Controller)
-- Activity         apps/api/src/modules/activity and outbox: the log and its mirror
-- Projects         apps/api/src/modules/projects: the gate, the operations, the keys
-- Tasks            apps/api/src/modules/tasks: create, update, remove, assign, unassign and their routes
--                  (Service, Controller), the labels of a task (Labels), the lists (Lists)
-- Labels           apps/api/src/modules/labels: the operations (Service), the routes (Controller), what setting
--                  a task's labels writes (Replaced), and whose labels a task has (Agreement, Invariant)
-- Comments         apps/api/src/modules/comments: the operations and routes (Service, Controller), what their
--                  middlewares find out (Entry), and who changes a comment (Changes, Authors)
-- Accounts         apps/api/src/modules/auth (Sessions, Rotation, Families), account tokens of
--                  packages/shared/src/account-tokens (Tokens), password-reset and email-verification
--                  (Recovery, Verification), users and login (Users)
-- Organizations    apps/api/src/modules/organizations, and `register` of apps/api/src/modules/auth: the
--                  operations (Service), the loop for a slug (Slugs), the owners (Ownership), and the lists
--                  of a user's organizations and of an organization's members (Lists)
-- Invitations      apps/api/src/modules/invitations: the operations (Repository, Service, Controller), the
--                  state machine that they follow (Machine, Lifecycle)
-- ApiKeys          apps/api/src/modules/api-keys (Service, Controller) and the middleware requireAuth of
--                  apps/api/src/modules/auth (Authentication)
-- Webhooks         apps/api/src/modules/webhooks: the endpoints (Service), all that the API and the worker
--                  do with them (Operations, Health), the check of a URL (Url), the blocks of addresses
--                  that it refuses (Blocks), and what passes it (Allowed)
-- Worker           apps/worker/src: the delivery of webhooks with its bookkeeping (Delivery), the dispatcher
--                  of the outbox (Dispatcher), a request to reset a password (ResetRequest)
-- Pagination       apps/api/src/shared/pagination: a page of rows (Page), a list's method (Listing), the orders
--                  of the lists (Orders), and what following the cursors gives (Walk, Feeds)
-- Http             apps/api/src/shared/http: the rate limiter (RateLimit, Attempt, Window) over the commands
--                  of Redis (Redis, Memory), and the paths that are masked in the log (Redact)
-- Security         packages/shared/src/security: the signature of webhooks (Signature, Verified), with
--                  JavaScript's split of a text (Split)
-- Examples         the theorems at concrete inputs
--
-- A service `f(args)` is a definition of the same name in snake case that takes `prisma`, the client
-- with its tables, and returns an action: what was written before a throw stays written unless a
-- transaction rolls it back. The client is a parameter: only the laws of Database/Table and the
-- roll-back of a transaction that throws are used of it, and of a table only what its primary key
-- finds is observed. The text functions of JavaScript, the URL class and node:net are a parameter of
-- the check of a URL. Keys, times and hashes that the database, the clock and node:crypto give are
-- arguments. One action runs to its end before the next; what overlaps is written out as such where a
-- theorem is about it. Redis is a parameter in the same way, and so are Node's HMAC, its encoding of
-- cursors and of hexadecimal digits, and the numbers of JavaScript where a text is one. Of a cursor the
-- tables have a law only where rows are in order of a column that is never null, so nothing is shown of
-- lists in order of the due date. The counter of a project has 32 bits with a sign, and the statement
-- that would make it greater throws. The order of names and the search of a text with no regard to case are the database's, and parameters. Loops run
-- over a list, except two: a client that follows cursors takes as fuel one request more than there are
-- rows, which is enough, and the loop that looks for a free slug takes fuel, and as each candidate
-- that is taken belongs to another organization, more fuel than there are organizations is enough. The
-- text functions of JavaScript that make a slug of a name, and the printing of a number, are
-- arguments.
--
-- Not modelled: the mapping of rows to responses; the text of emails; request ids, access logs, the
-- documents of OpenAPI, configuration and start-up; the texts that name permissions or scopes in a
-- refusal; foreign keys, except that a create may throw for them, and that a label's links to tasks
-- and a webhook's deliveries go with it; the unique index on the key of a token's replacement, which
-- is one that was just created; what libraries do (Express, zod, Prisma, argon2, jose, BullMQ).
pub mod Common
pub mod Errors
pub mod Authorization
pub mod Database
pub mod Members
pub mod Activity
pub mod Projects
pub mod Tasks
pub mod Comments
pub mod Accounts
pub mod Organizations
pub mod Invitations
pub mod Labels
pub mod ApiKeys
pub mod Http
pub mod Webhooks
pub mod Security
pub mod Worker
pub mod Pagination
pub mod Examples
