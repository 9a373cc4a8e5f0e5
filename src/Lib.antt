-- ===== src/Lib.antt =====
-- A model of the material gate pass system, with the theorems about it.
--
-- The program is a web server on PostgreSQL. A keeper of inventory drafts a gate pass; an issuing
-- authority approves or rejects it; a security officer releases the material and takes it back.
-- Every step is checked by a policy, runs in one transaction and writes an audit event.
--
-- Files and what they model:
--   Base.antt and below: the shared types, tests, lists, texts (Base/Text.antt: packages strings
--     and unicode), decimal numbers and dates (Base/Decimal.antt), and rows with keys.
--   Rbac.antt: internal/rbac/policy.go (`Allows`). Rbac/Policy.antt: the policy in words.
--   Database.antt: calls of database/sql as actions on the tables; Database/Tables.antt: the tables
--     of db/migrations.
--   Gatepass/Domain.antt: internal/gatepass/domain.go (`ValidateDraft`, `Transition`).
--   Gatepass/Numbering.antt: `next_pass_number` of db/migrations/001_foundation.sql.
--   Gatepass/Rows.antt and Gatepass/Store.antt: internal/gatepass/store.go, the statements and the
--     operations (`CreateDraft`, `CreateRevision`, `UpdateDraft`, `Transition`, `TransitionByID`).
--   Gatepass/Calls.antt: these operations as values, for sequences of calls.
--   Gatepass/Detail.antt: internal/gatepass/store.go, the detail of a pass (`findDetail`).
--   Gatepass/Register.antt: internal/gatepass/store.go, `ListRowsFiltered` and `Counts`.
--   Gatepass/Invariant.antt and below: what holds of the tables after any calls.
--   Auth/Pin.antt, Auth/Users.antt, Auth/Limiter.antt: internal/auth (`HashPIN`, `VerifyPIN`,
--     `UserStore`, `LoginAllowed`, `RecordLoginFailure`); Base/Base64.antt: encoding/base64.
--   Masterdata.antt: internal/masterdata/store.go. Audit.antt: internal/audit/store.go.
--   Settings.antt: internal/config/organization.go. Config.antt: internal/config/config.go.
--   Sessions.antt: internal/platform/sessions/store.go.
--   Migrations.antt: `Migrate` of internal/platform/database/database.go, over any tables, with what
--     a script does to them as a parameter.
--   Admin.antt: cmd/mgp-admin/main.go, the command that makes an account or sets its PIN.
--   Pdf.antt: the calls of fpdf as values. Documents.antt and below: internal/documents/service.go,
--     what is drawn (Documents/Drawing.antt), the names of files (Documents/Names.antt), and the
--     file and the row of a document.
--   View.antt: internal/view/model.go. Base/Calendar.antt: `time.Parse` of a date, `strconv.Atoi`.
--   Http.antt: internal/http/server.go, who a request is from, and its response. A handler is an
--     action that gives a response; an error of a call inside it is a value, caught by `attempt`.
--   Http/Login.antt, Http/Workflow.antt, Http/Accounts.antt, Http/NewAccount.antt: signing in and
--     out, the steps of a pass, and accounts. Http/Pages.antt, Http/Listings.antt: what only shows.
--   Http/Forms.antt, Http/NewPass.antt, Http/Passes.antt: the form of a pass, and the handlers that
--     make, change and print a pass.
--   Http/Master.antt, Http/Master/Import.antt, Http/Export.antt, Http/Organization.antt: master data
--     and settings, with files of comma-separated values. Http/Csv.antt: encoding/csv.
--   Http/Router.antt: the routes of the server, which hands a request to its handler behind the
--     middleware of internal/http/middleware/security.go.
--
-- State: `World` has the tables, the files of documents, the clock, the number of calls of the
-- driver and of the operating system so far, and the faults of both, any functions of that number.
-- An operation is a function from a world to a result and a world; a transaction that fails puts
-- the tables back, but not the files. Transactions on one pass run one after the other, which `FOR
-- UPDATE` gives, so a run of the system is a sequence of calls or of requests.
-- What is not in the repository is a field of `Platform`: the keys and digests of PostgreSQL, its
-- reading of numbers, its order of texts, its `ILIKE` and `lower`, its JSON, what fpdf draws, the
-- tables of Unicode beyond ASCII, numbers with a point, texts of times, Argon2id, SHA-256,
-- HMAC-SHA-256 and the random bytes. Numbers are natural numbers with their bounds written out
-- where a column is an `integer`. Every loop of the source is structural recursion on a list; the
-- digits of a number are computed on fuel, one more than the number, which has no more digits.
--
-- Not modelled: the templates that templ generates, of which a page's data is kept; logging;
-- `database.Open`; the start of the server (cmd/mgp-server); which pattern fits a request and the
-- parsing of its form, which net/http does; the files under static; and the directories of
-- documents.
pub mod Base
pub mod Rbac
pub mod Pdf
pub mod Database
pub mod Gatepass
pub mod Auth
pub mod Sessions
pub mod View
pub mod Audit
pub mod Documents
pub mod Migrations
pub mod Http
pub mod Masterdata
pub mod Settings
pub mod Config
pub mod Admin
mod Tests
