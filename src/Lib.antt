-- ===== src/Lib.antt =====
-- cresora sends mailings through Telegram accounts that operators sign in. An operator signs an
-- account in by a code (and a password), mailings are queued as runs of deliveries, workers send the
-- deliveries through the account, and an account is disconnected by a remote logout. This library
-- models the rules that keep those steps consistent.
--
-- Parts, files and their code:
--   Account: the account value and its lifecycle, internal/domain/operatoraccount. `Account` has the
--     fields of the struct; `new`, `restore`, `validate`, `begin_authentication`, `activate`,
--     `require_reauthentication`, `begin_disconnect` and `mark_disconnected` are the methods, and
--     return the account left behind with the error. Account/Invariant is about `validate`,
--     Account/Graph about the documented lifecycle graph.
--   Delivery/Failures: the error taxonomy of deliveries, internal/application/commands/delivery/
--     failures.go; an error is the tree that `errors.Is` and `errors.As` walk.
--   Delivery/Reconcile: the terminal status of a run, commands/delivery/reconcile.go.
--   Auth/Phone: `normalizePhone`, internal/application/operatoraccountauth/validation.go; the proofs
--     are in its children.
--   Auth/Errors, Auth/Challenge, Auth/Registry, Auth/Methods, Auth/Operation: the registry of
--     sign-in challenges that live in memory, operatoraccountauth/challenge_registry.go,
--     challenge_record.go, challenge_operation.go. Registry has `Prepare` and the removal of records,
--     Methods has `commit`, `rollback`, `Status`, `Remove` and the shutdown, Operation has
--     `Operation` and the methods of a challenge operation. Auth/History runs any sequence of them.
--   Auth/Diagnosis: the provider's errors and their classification, operatoraccountauth/errors.go and
--     provider_failure.go.
--   Auth/Ports, Auth/Lifecycle: the durable side of a sign-in, operatoraccountauth/lifecycle.go: the
--     abort in its three steps, and the recovery of what a restart left behind.
--   Auth/Submission, Auth/Requests: a code, a password or a cancellation for a challenge,
--     operatoraccountauth/submission.go and cancel.go. Submission is what happens while the record is
--     locked, as an action of `operation`; Requests has the guards, and the expiry that follows.
--   Auth/Start: the start of a sign-in, operatoraccountauth/start.go, from the durable admission over
--     the reservation of a challenge to the sending of the code.
--   Disconnect/Outcome, Disconnect/Ports, Disconnect/Service, Disconnect/Recovery: the disconnect
--     command and the recovery of interrupted ones at the start of the program,
--     internal/application/operatoraccounts. The command uses the operations of Account.
--   Owner/Fences: the memory of the versions that were stopped, internal/transport/telegram/
--     accountowner/fence.go, over any type of keys. It is the state of `fenceSet` only.
--   Worker: the delivery worker, internal/entrypoint/background/deliveryworker/worker.go.
--     Worker/Config is the configuration, Worker/Tracker the counter of active executions,
--     Worker/Faults the errors and what collects them, Worker/State the variables that are shared,
--     Worker/Coordinator the loop that claims tasks, Worker/Run the executions, `Run` and its
--     shutdown. Worker/Lives follows one task, Worker/Slots the four slots, Worker/Shutdown what has
--     ended when `Run` returns.
--   Console: the mailing console, internal/application/services/mailingconsole/service.go and types.go.
--     Console/Input is the validation of a draft, Console the operations, Console/Drafts says which
--     drafts are valid, and Console/Operations what the operations change and how they end. It uses
--     `trim_space` of Auth/Phone.
--   Sync: the synchronization of dialogs, internal/application/dialogsync/service.go, and the
--     execution of one with the delays of its retries in internal/entrypoint/background/dialogsync/
--     worker.go. Sync/Config is the configuration, Sync/Backoff is about the delays, Sync/Settles
--     about what becomes of the task.
--   Encoding: what the sources use of Go's strings, strconv, unicode/utf8 and encoding/base64.
--   Password: stored passwords, internal/application/operatorcredentials/password/password.go.
--   Sessions: logins and bearer tokens, internal/application/operatorsessions/service.go. It uses the
--     limits of Password and the base64 of Encoding.
--   Prelude: Boolean tests, lists, signed integers, maps and results that the others share.
--   Examples: the theorems at concrete inputs, and tests that compute.
--
-- How the code is rendered:
--   A UUID is a number whose zero is `uuid.Nil`; a time is a number whose zero is `time.Time{}`; a
--   text is the list of its code points, or, where only equality with constants counts, one of the
--   constants or an unlisted one; the texts of a draft are what a range loop reads in them; a password
--   is the list of its bytes. A version is a number, with the guard of the code at 2 ^ 64 - 1.
--   A pointer to a record is an address in the registry's heap, so that two operations on one record
--   see each other's writes; a nil pointer is `none`. A method runs as one step under the locks it
--   takes. A method takes what it reads from the clock as arguments, one for each reading, and
--   `newRequest` as the list of the identities that it draws.
--   An error is the list of the sentinels that `errors.Is` finds in it; message texts are left out.
--   The persistence, the provider and the runtime that the two services call are interfaces. They are
--   parameters of the model: functions of all the calls made so far, so that they may answer
--   anything, and differently each time. `Call` and `AuthCall` record a call with its answer.
--
--   The delivery worker runs as steps, in any order, of its coordinator, its executions, `Run` and the
--   parent context. A step of the coordinator or of an execution goes from the answer of one call to
--   the next call; the answers are chosen by the environment, panics included. A task is known by its
--   number in the order of the claims; a value that comes with `ErrEmpty` is dropped as the code does,
--   and has no number. Timers are choices, and the cancellation of a context is a flag that the ports
--   may heed or not.
--   A stored password is the list of its bytes; Argon2id, SHA-256 and the random source are
--   parameters, and the clearing of secrets is left out.
--
-- Bounds and fuel: `format` prints a number with one unit of fuel more than the number, and `digits`
--   needs no more, since each turn divides by ten. `trim_turns` counts the turns of the loop of `trimFenceRecords`, which
--   deletes a record in each; it is given as many turns as there are records. Every other loop of the
--   code runs over a list;
--   `next_request_id`, which draws identities until one is unused, ends with `none` on a list that
--   has no usable one, where the code draws on.
--
-- Not modelled: SQL statements and the tables (internal/infrastracture/storage/pg), the HTTP, command
--   line and template layers (internal/entrypoint), code that ogen generates, the Telegram client
--   library, logging, telemetry, the configuration of the program and the wiring in cmd. They are
--   input and output around the rules, or code that is not in the repository. The rest of the runtime
--   owner (internal/transport/telegram/accountowner), the reaper, the reconciler, and of the worker
--   that synchronizes dialogs the claims, the lease renewal and the shutdown are not modelled. Of the
--   sessions the semaphore of the verifications is only read. Of the authentication service the
--   status and the shutdown are left out, and of the challenge registry
--   the snapshot for the shutdown and the cancel function of a running operation.
pub mod Account
pub mod Auth
pub mod Console
pub mod Delivery
pub mod Disconnect
pub mod Encoding
pub mod Examples
pub mod Owner
pub mod Password
pub mod Prelude
pub mod Sessions
pub mod Sync
pub mod Worker
