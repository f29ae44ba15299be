-- ===== src/Lib.antt =====
-- The back end of a project management service: accounts of admins and of the users whom they
-- create, sessions by JSON web tokens, requests of users for a change of their data, and projects
-- in which roles and policies say what a member may do.
--
-- Parts and how they interact. Every service of the program works on the tables of a database
-- through the Prisma client. A handler is modelled as an action, a function from the state to a
-- result and the state after it (Prelude/Monad): the result is what the handler answers or the
-- exception that it throws, and the state keeps what was written before the exception, since the
-- handlers of the program open no transaction.
--
-- - Prelude: tests on numbers, lists, results and actions that the parts share.
-- - Prisma: the database as an interface of tables with keys (Prisma/Interface), the calls of a
--   model delegate over it (Prisma/Delegate), unique columns (Prisma/Unique), and tables in memory
--   that meet the interface (Prisma/Memory).
-- - Text: trimming, case and equality of texts as lists of character codes.
-- - Schema: the models of src/prisma/schema.prisma, column by column, without `createdAt` and
--   `updatedAt`; their unique constraints.
-- - World: the state of all tables, the cache of revoked tokens and the mails that were sent, and
--   the `onDelete` rules of the schema (World/Cascade).
-- - Services, Tokens: bcrypt, the mail provider, the JSON web token library and SHA-256, as
--   parameters with what the program relies on.
-- - Common: src/common/services, the mails (Common/Email) and the random passwords
--   (Common/Password).
-- - Request: src/request/services/request.service.ts (`createRequest`, `forgotPassword`,
--   `generatePassword`, `approveRequest`, `rejectRequest`, `findAllByUser`, `findAllByAdmin`,
--   `findOne`); Request/Passwords goes on from a password that is handed out to the login.
-- - User, Admin: src/user/services/user.service.ts and src/admin/services/admin.service.ts; User/Emails
--   is about the addresses of users.
-- - Auth: src/auth/services/auth.service.ts and src/auth/strategies/jwt.strategy.ts. Auth/Expiry is
--   `parseExpiry`; Auth/Session is `generateTokens`, `refreshTokens` (its `try` block is `redeem`),
--   `logout`, `signup`, `login`, `loginUser`, `validateUser`, `validateAdmin` and the strategy's
--   `validate`; Auth/Reset is `forgotPassword` and `resetPassword`, and the same two handlers in
--   src/common/services/password-reset.service.ts, which differ in their exceptions; Auth/Reset/Renewal
--   is about a second link for an address.
-- - Auth/Ledger: an abstract view of the sessions, the standing of each hash of a refresh token (of
--   which the table of refresh tokens is one representation, Auth/Ledger/Table), the moves that it may
--   make, and the calls of the service as such moves, one by one (Auth/Ledger/Calls) and in sequence
--   (Auth/Ledger/Sequence, Auth/Ledger/Spent).
-- - Auth/Race: `refreshTokens` up to the subject of the new tokens, cut at its `await`s into `look`,
--   `spend` and `owner`, for any number of calls whose steps take turns by a schedule: what holds of
--   each (Auth/Race/Together), one alone (Auth/Race/Alone), the steps that are left to a call
--   (Auth/Race/Ends), and two with one token (Auth/Race/Double, with Auth/Race/Parts).
-- - Auth/Guard: src/auth/guards/project-permission.guard.ts, `canActivate` from the token on;
--   the project that the arguments lead to (Auth/Guard/Context), and the reasons for which a member may
--   do an action (Auth/Guard/Grounds), are said apart from the code.
-- - Access: the access map at the head of src/project/services/project.service.ts, from
--   `normalizeResource` to `getAccessMapForProjectUser`.
-- - Project: the handlers of the same file on members (Project/Members), roles and permissions
--   (Project/Roles), and departments, their roles and policies (Project/Departments); a policy from
--   the call that sets it to the access of the members (Project/Policies, and under the whole
--   interface Api/Projects/Policies); the
--   place of a member (Project/Placement), and sequences of calls (Project/Calls); projects
--   and their fields (Project/Crud); what a caller sees of a project (Project/View,
--   `applyViewerPolicyOnProject`, `findOne`, `getUserProjects`); work orders (Project/WorkOrders),
--   with the names of their files (Project/WorkOrders/Names) and the steps over tables and bucket
--   (Project/WorkOrders/Backing, with Project/WorkOrders/Bucket), and the ways to look at one (Project/WorkOrders/Viewing); and
--   tasks: the resource, the creator and the printed form of a task (Project/Tasks/Resource), the
--   handlers of tasks (Project/Tasks/Handlers) and of subtasks (Project/Tasks/Subtasks).
--   Project/Rights is about the tables that handlers do not write.
-- - Json: `parseJsonLike` and `serializeJsonForGraphql`; `JSON.parse`, `JSON.stringify`, `String` and
--   `Number` are a parameter.
-- - Storage: src/storage/storage.service.ts; what the object store does at a
--   call, its time included, is a parameter, and another call may come with another.
-- - Environment: src/config/env.validation.ts; what an accepted environment holds, variable by variable
--   (Environment/Contract), and what it means for the client of the storage (Environment/Credentials).
-- - Health: src/app.service.ts, whose checks src/app.controller.ts answers with, and
--   src/app.resolver.ts; what the database and the cache answer is an argument.
-- - Logging: src/logger/logger.service.ts, and src/logger/http-logger.interceptor.ts (Logging/Http); what
--   goes to the console is a list of lines. The services are modelled without the lines that they
--   write.
-- - Api: the guards in src/auth/guards (Api/Guards), the resolver and the controller of projects
--   (Api/Projects), those of users, admins and change requests (Api/Accounts), and those of sessions
--   and of the reset by mail (Api/Sessions), which read the refresh token from a cookie
--   (Api/Cookies). A call is a value
--   of an indexed type, with its arguments and by what it answers; `serve` is its handler behind its
--   guard. A caller is a token and a time: passport verifies the token and hands its claims to
--   `validate`.
-- - Tests: the theorems applied to concrete data.
--
-- The state. Numbers are natural numbers; keys and times in milliseconds are never negative in the
-- program. What a handler draws at random, or reads from the clock, is an argument: the salt of a
-- hash, a random password, the identifier of a token, the time. The loops of the code run over lists
-- and need no fuel; the decimal digits of a number, which the language prints, are made on fuel one
-- above the number (Logging/Digits).
--
-- Not modelled: the attributes of the cookie; modules and the entry point; the connection to the
-- cache; the HTML of mails; the validation of input classes and the
-- 50 MB limit of an upload, which the framework does. Of an answer, the names of people that are read
-- along with a row, and an order by `createdAt` or `sortOrder`, are left out.
--
-- A handler that calls `findOne` only to see that a project is there is modelled by that test; the
-- addresses that `findOne` signs on the way are left out there.
--
-- A call of the database throws only for a row that is missing or a constraint that is broken. That
-- the database itself fails is modelled where a work order is deleted and its file is gone already
-- (Project/WorkOrders, Project/WorkOrders/Backing), and nowhere else.
--
-- A foreign key is checked where a handler of a project writes an identifier that it was given; the
-- keys that the handlers of accounts write come from the session or from a stored row.
pub mod Prelude
pub mod Prisma
pub mod Text
pub mod Schema
pub mod World
pub mod Services
pub mod Common
pub mod Request
pub mod User
pub mod Admin
pub mod Tokens
pub mod Auth
pub mod Json
pub mod Storage
pub mod Health
pub mod Logging
pub mod Environment
pub mod Api
pub mod Access
pub mod Project
pub mod Tests
