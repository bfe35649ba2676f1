-- ===== src/Lib.antt =====
-- Velvet: the rules of the store and of the job queue behind a tracker of issues, sprints and
-- milestones.
-- The service is written in Go. Its handlers (api/internal/api) decode requests and call the store
-- (api/internal/store), which runs each operation as one transaction of a database. Rows that a user
-- orders by hand carry an order key (api/internal/fracdex).
-- - Common: names and lemmas that the other files share; Common.Text is text as bytes.
-- - Fracdex, of api/internal/fracdex/fracdex.go: `between` is `Between`. Its loop runs for at most
--   `max_len`, that is 64, rounds in the source as well, and the rounds that are left are an argument.
-- - Store.Db: the tables as lists of rows in the order of insertion, one field for each column that is
--   used. Store.Tx, of store.go: a transaction is a function from the tables to an error, or a value
--   and new tables; `in_tx` is `InTx`, which undoes the changes of a transaction that fails.
-- - Store.Access, of workspace.go: the locks on a workspace, leaving, and removing a member.
-- - Store.Members, of workspace.go and user.go: making, renaming and deleting a workspace, and the
--   roles of its members.
-- - Store.Issue, of issue.go: `CreateIssue` and `UpdateIssue` with the checks they call, and the
--   trigger `issue_depth_guard` of api/internal/db/migrations/0001_init.sql.
-- - Store.Milestone, of milestone.go: `CreateMilestone` and `UpdateMilestone`.
-- - Store.Sprint, of sprint.go and snapshot.go: the life of a sprint, its frozen report
--   (`captureSnapshot`), and the rollover of open issues (`rollIncompleteIssuesForward`).
-- - Store.Project, of project.go: `CreateProject` and `UpdateProject`.
-- - Store.ApiToken, of api_token.go: the keys of the interface and their limit for each user.
-- - Store.Cli, of cli_session.go: signing in from the command line. Store.Cli.Machine is the machine on
--   the status of a device. The loop that looks for a free code makes 5 attempts, as in the source.
-- - Store.Invite, of invite.go: making, replacing, revoking and accepting an invitation.
-- - Store.Login, of login_token.go, login_confirmation.go, session.go and user.go: the links that are
--   sent by mail, their limits, confirming one, and the sessions of the browser.
-- - Store.Comment, of comment.go: writing, editing, deleting, promoting and listing comments, with the
--   trigger `comment_depth_guard`. Store.Comment.Mentions, of mention.go: who is named in a comment.
--   Store.Comment.Inbox, of mention.go: the comments that name a user, and which of them are read.
-- - Store.PullRequest, of pull_request.go and evidence.go: pull requests, reviews and commits as GitHub
--   reported them, and the issues that they are attached to.
-- - Store.Suggestion, of suggestion.go: suggested links, which a person accepts or dismisses.
-- - Store.Installation, of installation.go: the installations of the GitHub App, their bindings and the
--   generation that fences a sync. Apply: a listing of repositories. Events: what GitHub reports. Active:
--   the status, and WithActiveRepo.
-- - Store.GithubSetup, of github_setup.go: the states of an authorization at GitHub, each bound to a
--   session; Authorize has the steps. Link, of membership_identity.go as well: the accounts at GitHub
--   under which members are known.
-- - Store.Library: the functions of Go's standard library that these call (hashes, hexadecimal text,
--   trimming, upper case), which are parameters.
-- - Jobs, of job.go and api/internal/worker/worker.go: the queue of background jobs and `ProcessOnce`,
--   which claims a job, runs its handler (a parameter) and completes or fails the job; and the cleanup of
--   dead jobs, of session.go. Jobs.History has
--   the histories: several workers act in any order, each with a clock of its own.
-- - Image, of api/internal/imageupload/image.go: `SanitizeContext` and the filters `stripPNG`, `stripJPEG`
--   and `stripWebP`. A loop over the bytes that are left has them as its argument, and a number of
--   rounds, one more than there are bytes. The decoders and the checksum of Go's library are parameters.
-- - Linker, of api/internal/linker/linker.go: which issues a pull request names.
-- An operation of the store has the name of its Go function in snake_case; a helper ...Tx of the
-- source keeps its name. Each SQL statement is a function on the rows it names, with the condition of
-- its WHERE clause. A query whose order is not fixed takes the rows in the order of insertion.
-- A transaction is one step: the source locks the row of the workspace first, so the transactions of
-- one workspace run one after the other. Failures of the connection are not modelled.
-- The times and the fresh identifiers of the database are fields of the tables' record, and the
-- theorems hold for all values of these.
-- Not modelled: pages and filters of the lists, the metadata of activities, the totals per person in a
-- report, the daily cleanup but for jobs, the hourly schedule of syncs, onboarding, the
-- handlers of jobs, the clients, and all I/O.
pub mod Common
pub mod Fracdex
pub mod Store
pub mod Jobs
pub mod Linker
pub mod Image
