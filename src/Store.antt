-- ===== src/Store.antt =====
-- api/internal/store: the tables, the transactions, and the operations on them.
pub mod Db
pub mod Tx
pub mod Access
pub mod Members
pub mod Library
pub mod PullRequest
pub mod GithubSetup
pub mod Installation
pub mod Suggestion
pub mod ApiToken
pub mod Cli
pub mod Invite
pub mod Login
pub mod Comment
pub mod Issue
pub mod Milestone
pub mod Sprint
pub mod Project
mod Tests
