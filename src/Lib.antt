-- ===== src/Lib.antt =====
-- SQ Hub (apps/api, TypeScript): the parts that decide who may do what, and what is sent.
--
-- PlatformAdmin: apps/api/src/modules/platform-admin. Store is repository.ts (memberships, grant,
-- revoke, audit entries), Proposals is proposals.ts (propose, confirm, cancel with their
-- transactions), Service is service.ts (authorize and the operations of a session). The theorems stand
-- in Invariant (what well formed tables are), Inversion (what a successful transaction did),
-- Preserved, Keys, FourEyes, Sessions, Explains and Traces.
--
-- ApplicationAccess: apps/api/src/modules/application-access, the applications and the access of
-- people to them: upsertApplication, setAccess, getAccess and checkAccess of repository.ts, grant and
-- revoke of service.ts. Its theorems stand in Decisions and Grants.
--
-- HubAuth: apps/api/src/modules/hub-auth. Store is repository.ts (login transactions and sessions),
-- Service is service.ts (beginLogin, completeLogin, getRequiredSession, logout). Creation says what
-- createSession does; Logins, Issuers, Replacements and Entries say what a login uses up, whom it lets
-- in and which session it replaces, Sessions which sessions a token opens. Cookies is readCookie and
-- buildCookie of service.ts, and its child Jars what a browser does between them.
-- PlatformAdmin.Service reads the person and the beginning of such a session.
--
-- OrganizationDirectory: apps/api/src/modules/organization-directory, the directory taken over from
-- the personnel system. The root holds the data of contract.ts; Tree is validateTree and Validation
-- the rest of validation.ts, Sync is repository.ts (a synchronisation with its tombstones), Reading
-- the ancestry and the search by identity of routes.ts. The theorems stand in Tree.Forest,
-- Validation.Facts, Sync.Failures, Sync.Orders, Sync.Histories, Reading.Lineages and Reading.Owners.
--
-- OrganMembership: apps/api/src/modules/organ-membership, who sits in an organ of the foundation.
-- Store is repository.ts; Seats is the abstract view of it, a seat for each person, with the theorems in
-- its children. Service is completeMembership and the choice of applications of
-- service.ts, over this store and ApplicationAccess; its child Staff is addExistingStaff.
--
-- Kirim: apps/api/src/modules/kirim, the WhatsApp gateway. Policy is policy.ts, Reactions is
-- nextReactions of message-state.ts, Outbox is the part of repository.ts that moves an outbox row with
-- its message and queues webhooks, Worker is worker.ts (its child Rounds is runOnce), Queue is retry
-- and cancel of admin.ts with the receipts of ingest.ts. The worker asks the policy, and worker,
-- administration and receipts share transitionOutbox of Outbox. Webhooks is webhooks.ts, the delivery
-- of events, with its child Requests; its rows have what the loop reads of kirim_webhook_deliveries.
--
-- Common holds what the parts share: tests, lists, tables, results and transactions, identities.
--
-- How the code is modelled. A table is a list of rows, and an SQL statement is a function on that
-- list: UPDATE … WHERE is update_where, INSERT … ON CONFLICT DO UPDATE is upsert, SELECT is find? or
-- keep; a row's order in its list stands for the order in which the database returns rows where no
-- ORDER BY fixes it. A transaction is a function from the tables to a result with new tables, and a
-- failure leaves the tables as they were. One request runs alone: the locks that the code takes (FOR
-- UPDATE) are what makes that so. Times are numbers of milliseconds; a request sees one time of the
-- process and one of the database, and randomUUID answers by position (the record Env). Parsing of
-- input by zod has happened before. SHA-256 is a parameter, as are the answers of the WhatsApp
-- provider, of the OIDC provider and of the token vault. Encrypted columns are
-- kept open, but Webhooks takes the opening of its secret and payload as a call that may fail. The
-- random source gives any finite number, as a fraction; NaN is left out. The Keycloak client is a parameter, too: what it answers is an input of the calls. Texts
-- that JavaScript compares by order are compared by code points, which is the same for dates and
-- UUIDs. The loops that climb from a unit to its parent (validateTree, the ancestry of routes.ts) run
-- on fuel, one more than there are rows, which is enough as each turn sees a new id of a row; all
-- others follow lists. The limits of the code (20 candidates per number, 20 deliveries per round, 200
-- expired rows, 1024 reactions, 4 attempts to send, 8 to deliver) are constants of the model.
--
-- Not modelled: HTTP, the database itself and its failures, reading queries that only feed screens,
-- Keycloak and mail, the web application.
pub mod Common
pub mod PlatformAdmin
pub mod Kirim
pub mod HubAuth
pub mod ApplicationAccess
pub mod OrganizationDirectory
pub mod OrganMembership
