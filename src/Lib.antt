-- ===== src/Lib.antt =====
-- target-service: the service that owns scan targets, proves who owns them, and answers whether a
-- scan may touch a host or an address. Other services ask it before every intrusive phase.
--
-- Parts and files
--   Prelude, Text, Net: lists, tests on numbers, and the functions of the Go packages strings,
--     strconv, encoding/hex and net that the service calls. A string is the list of its bytes.
--     Letters and spaces are those of ASCII.
--   Model: the rows and requests of internal/model/target.go and internal/model/program.go.
--   Store: internal/repository. The tables are lists of rows in the order of insertion (Db). An
--     action is a function from a world to a result and a world; a statement takes the next fault
--     of the world, if there is one, and then fails and writes nothing (query). What an operation
--     wrote before it fails stays written. Store.Targets, Store.Authorizations and Store.Programs
--     are target_repository.go, authorization_repository.go and program_repository.go; Store.Search
--     holds the filters, escapeLike and Count of the first, Store.Listing its List and its grouped
--     counts. Store.Assets is asset_repository.go, and Store.Assets.Inventory the map that its rows
--     stand for. Store.Rules, Store.Reads, Store.Writes, Store.Keeps and Store.Keys hold the rules
--     that proofs about actions use; Store.Kept is the interface between an invariant of the tables
--     and the operations that must keep it.
--   Scope: internal/service/scope_service.go. Scope.Gate is CheckScope, with the vetting of the
--     queried address and host (vet), the loop over the active authorizations (evaluate) and the
--     program mode (Scope.Program); Scope.AuthScan is authScanVerdict, Scope.SharedInfra the ranges
--     of shared infrastructure, Scope.Technique the tables of prohibited techniques, Scope.Domain
--     isSubdomainOf, Scope.Verified CheckVerified.
--   Service: Service.Target and Service.Admin are target_service.go and target_admin_service.go of
--     internal/service, Service.Verification and Service.Token are verification_service.go,
--     Service.Dto the projections that leave the service. Service.Assets is asset_service.go,
--     Service.Listing the listings and statistics of the first two. Service.System serves requests
--     one after another, in any order, with time passing and faults between them. Service.Programs is
--     program_service.go; its transaction is Store.Programs.Sync. Service.Cap is target_cap.go.
--   Client: internal/client, the clients that tell plans and limits, with their caches. Service.Cap
--     takes what they tell as functions.
--   Ingest: internal/ingest/hackerone.go, the connector that reads a program's policy.
--   Handler: paging, the administrator test and the identity of a user, from
--     internal/handler/helpers.go and internal/middleware/user_uid.go. Handler.Http has what a
--     handler gets (Call: headers, path and query parameters) and answers, and the checks that
--     handlers share; Handler.Targets is target_handler.go and asset_handler.go, Handler.Admin
--     admin_handler.go and program_handler.go, Handler.Internal internal_handler.go. Handler.Routes
--     puts them together as cmd/target-service/main.go does, with RequireAdmin before /v1/admin. Calls
--     come one after another, with time passing and faults between them (Handler.Routes.Keys).
--   Tools: the graders of the free tools: header_grader.go, the grading of tls_checker.go, and
--     email_auth.go of internal/service; Tools.Checker is header_checker.go, which fetches what is
--     graded, Tools.Tls.Check the handshakes of tls_checker.go, Tools.Website tools_service.go, and
--     Tools.Hostname is hostname.go. Handler.Tools is tools_handler.go: the budgets of
--     visitors, the semaphore and the janitor, as steps of a state that all requests share.
--   Samples, and the modules named Tests: sample data, and runs on it.
--
-- What the model takes as a parameter (Service.Env): the public suffix list, DNS, HTTP, the guard
-- of the library go-safedial (ResolveStrict and IsDeniedIP), and the switch IPTargetsEnabled.
-- ILIKE of the database, its order of texts, and the sources of plans and limits (Service.Cap)
-- are parameters too. The random source and the faults of the database are part of the world. A
-- result about pinned addresses asks of ResolveStrict what its library documents: no denied
-- answer comes through.
--
-- Choices. Times are nanoseconds since Go's zero time, as natural numbers. Every loop is
-- recursion on a list or on a number that the source bounds it by (eight groups of an IPv6
-- address, ten pages of a HackerOne program), so none needs fuel. A reason, an advice or a
-- warning is one constructor for each message, with the values it prints. An audit event is
-- emitted at once: the callers ignore its error. The rows of the active authorizations come in
-- the order of insertion, where the query leaves the order open, and so do listed rows that
-- ORDER BY does not tell apart.
--
-- A body is what echo and the validator made of it (Body). A path parameter is the number that
-- stands for the uid, or nothing; the text of an error in an answer is the error itself.
--
-- An error is the one that fmt.Errorf wraps with %w, without the texts put before it: callers tell
-- errors apart with errors.Is. The column keycloak_uid is not in the rows, since no statement reads it;
-- its value is Handler.keycloak_uid.
--
-- The clients' other services answer as functions of time, and a call ends within the timeout of its
-- HTTP client. The network of the tools (HTTP, URLs, TLS, DNS, the rate library's buckets) is a
-- parameter of each.
--
-- Not modelled: a COMMIT that is kept although its answer is lost, the decoding of requests by echo, the publishing of audit events, migrations,
-- start-up and the generated API documentation.
pub mod Prelude
pub mod Text
pub mod Net
pub mod Model
pub mod Scope
pub mod Store
pub mod Samples
pub mod Service
pub mod Tools
pub mod Client
pub mod Handler
pub mod Ingest
