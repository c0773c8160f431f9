-- ===== src/Lib.antt =====
-- The PDC client: a Python web application in which people upload data or connect databases, ask
-- questions about them in a chat, and keep and share the answers as dashboards. Its own server keeps
-- the accounts, the roles, the data sources and the chats as files; a remote service (the Brain) plans
-- the analyses, and a sandboxed executor runs them.
--
-- What decides who gets in and who may see what is modelled here.
--   AuthLimiter  auth_limiter.py: the limiter of sign-in attempts. `begin`, `success` and the steps
--                inside them stand under the names of the source; View, Eviction, Sound, Reachable,
--                Runs, Trace, Schedule and Attempts hold the proofs.
--   Accounts     local_store.py, class AuthStore: one folder for an account with profile.json and
--                auth.json, and the three caches beside it. Passwords, Profiles, Sessions, Resets and
--                Sso are its operations and Calls their sequences; Links, Spent, SpentCalls, SingleUse,
--                Writers, Identities and HeldRoles the proofs.
--   Roles        roles_store.py: the registry of roles and what it opens. Grants and Access are
--                definitions (Access takes the accounts' data roles and permission from Accounts, and
--                the connections and tables of db_sources.py as a value); Reconcile, Startup,
--                Created, Updated, Coverage, Isolation and Refusals the proofs.
--   Cache        local_store.py, class LRUTTLCache: the cache of loaded tables; Bounds, Reads,
--                Recency and Distinct are the proofs.
--   Dashboards   local_store.py, class DashboardStore: the index and the documents in each account's
--                folder. Boards, Tiles, Sharing, Grants and Revoked are its operations; Laws, Access,
--                Guests, Placement, Handover, Kept and Deliberate the proofs. It names folders as
--                Accounts does.
--   Schedules    schedule_utils.py: the schedules of the database refreshes. Values, Validate, Crons
--                and Fires are definitions; Sorted, Clock, Days, MonthDays, MonthStored, Canonical,
--                Presets and Firing the proofs. croniter is two functions that the proofs take, with
--                what Firing's record `Croniter` says of them. On them Loop is one turn of the
--                loop of db_scheduler.py, and Repeats its proofs.
--   DataSources  db_sources.py, class DataSourceStore and `expand_with_connectors`: the registered
--                tables with the tables recommended for registration, and the connector tables that
--                come with a choice of tables. Recommended, Registry, Merge, Modes and Closure are
--                definitions; Settled, Merged, Runs, Restored, Removal, Reach, Explored, Pulled and
--                Expansion the proofs. A table's schedule is one of Schedules.
--   SigninDomains  signin_domains.py: the domains from which one may sign in; Saved has the proofs.
--   Base         lists, texts, dictionaries and tests that the parts share.
-- The scheduler's loop asks Schedules what is due. The parts meet in Access: the roles that an account
-- holds are the ones that AuthStore wrote, and the routes ask Access what the account may read and
-- manage.
--
-- State is passed explicitly, and every operation returns the new state; the locks of the source make
-- each operation one step. A Python string is the list of its characters' codes, and lower case is that
-- of ASCII. A dictionary is an association list in insertion order. Times are ticks of a clock that the
-- caller passes. Hashes, random tokens and ids are arguments.
--
-- Loops are recursion on the list they walk through. The `while` loops of the evictions take fuel, the
-- number of entries: it is enough because each round removes one entry. The walk of
-- `expand_with_connectors` takes the length of its queue and the cap on connectors as fuel: each round
-- takes a table from the queue, and each table that joins it counts against the cap.
--
-- Not modelled: files that fail to be written, log lines and time stamps that no decision reads, the
-- connections' secrets and the refresh bookkeeping of db_sources.py, the chats, the database
-- connectors, the executor and the report writers.
pub mod Base
pub mod AuthLimiter
pub mod Accounts
pub mod Roles
pub mod Cache
pub mod SigninDomains
pub mod Dashboards
pub mod Schedules
pub mod DataSources
