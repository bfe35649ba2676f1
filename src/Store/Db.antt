-- ===== src/Store/Db.antt =====
-- The tables of the database that api/internal/store reads and writes, as lists of rows in the order
-- of insertion, with the columns that the modelled operations use.
-- A uuid is a number. A date is the text YYYY-MM-DD, whose byte order is the order of the dates.
-- An issue key, "%s-%d" in the source, is kept as its prefix and its number.
use velvet.Common.{ℕ, Bool, Option, List}
use velvet.Common.Text.{Bytes}
use Prim.Native.String.{String}

pub data Role : Type 0 where
  admin member viewer : Role

pub data IssueStatus : Type 0 where
  backlog todo in_progress in_review done cancelled : IssueStatus

pub data SprintState : Type 0 where
  upcoming active completed : SprintState

pub data MilestoneStatus : Type 0 where
  planned in_progress completed cancelled : MilestoneStatus

pub data ProjectStatus : Type 0 where
  active archived : ProjectStatus

pub data Verb : Type 0 where
  created_issue changed_status assigned moved_issue_project : Verb
  created_sprint updated_sprint activated_sprint closed_sprint : Verb
  created_milestone completed_milestone created_project updated_project : Verb
  left_organisation removed_member changed_member_role renamed_organisation : Verb
  invited_member revoked_invite accepted_invite commented promoted_entry : Verb
  attached_pr attached_commit filed_entry : Verb
  linked_github_identity unlinked_github_identity : Verb

pub data TargetType : Type 0 where
  issue sprint milestone project membership workspace invite comment : TargetType

pub record Workspace : Type 0 where
  pub id : ℕ
  pub name : String
  pub slug : String
  pub issue_prefix : String
  pub issue_counter : ℕ
  pub jev_suggestions : Bool

pub record Membership : Type 0 where
  pub id : ℕ
  pub workspace_id : ℕ
  pub user_id : ℕ
  pub role : Role

pub record Project : Type 0 where
  pub id : ℕ
  pub workspace_id : ℕ
  pub key : String
  pub name : String
  pub description : String
  pub status : ProjectStatus
  pub created_by : Option ℕ
  pub updated_at : ℕ
  pub archived_at : Option ℕ

pub record Sprint : Type 0 where
  pub id : ℕ
  pub workspace_id : ℕ
  pub project_id : ℕ
  pub name : String
  pub starts_on : Bytes
  pub ends_on : Bytes
  pub state : SprintState
  pub completed_at : Option ℕ

pub record Milestone : Type 0 where
  pub id : ℕ
  pub workspace_id : ℕ
  pub sprint_id : ℕ
  pub name : String
  pub description : String
  pub owner_id : Option ℕ
  pub target_date : Option Bytes
  pub status : MilestoneStatus
  pub position : Bytes
  pub updated_at : ℕ

pub record IssueKey : Type 0 where
  pub prefix : String
  pub number : ℕ

pub record Issue : Type 0 where
  pub id : ℕ
  pub workspace_id : ℕ
  pub key : IssueKey
  pub number : ℕ
  pub title : String
  pub description : String
  pub status : IssueStatus
  pub priority : ℕ
  pub assignee_id : Option ℕ
  pub milestone_id : Option ℕ
  pub project_id : Option ℕ
  pub parent_id : Option ℕ
  pub position : Bytes
  pub created_by : Option ℕ
  pub updated_at : ℕ

pub record Activity : Type 0 where
  pub workspace_id : ℕ
  pub actor_id : Option ℕ
  pub verb : Verb
  pub target_type : TargetType
  pub target_id : ℕ

pub record Snapshot : Type 0 where
  pub sprint_id : ℕ
  pub workspace_id : ℕ
  pub milestones_planned : ℕ
  pub milestones_completed : ℕ
  pub issue_counts : List (IssueStatus × ℕ)
  pub captured_at : ℕ

pub record User : Type 0 where
  pub id : ℕ
  pub email : String
  pub github_id : Option ℕ
  pub github_login : Option String

-- membership_github_identity
pub record Identity : Type 0 where
  pub membership_id : ℕ
  pub workspace_id : ℕ
  pub user_id : ℕ
  pub github_id : ℕ
  pub github_login : String

pub record Invite : Type 0 where
  pub id : ℕ
  pub workspace_id : ℕ
  pub email : String
  pub role : Role
  pub token_hash : String
  pub invited_by : ℕ
  pub expires_at : ℕ
  pub accepted_at : Option ℕ
  pub revoked_at : Option ℕ

pub record LoginToken : Type 0 where
  pub token_hash : String
  pub email : String
  pub invite_id : Option ℕ
  pub request_ip : String
  pub return_to : String
  pub expires_at : ℕ
  pub consumed_at : Option ℕ
  pub created_at : ℕ

pub record Session : Type 0 where
  pub id : String
  pub user_id : ℕ
  pub last_workspace_id : Option ℕ
  pub expires_at : ℕ

pub data TokenKind : Type 0 where
  personal setup desktop project : TokenKind

pub record ApiToken : Type 0 where
  pub id : ℕ
  pub user_id : ℕ
  pub name : String
  pub token_hash : String
  pub workspace_id : Option ℕ
  pub project_id : Option ℕ
  pub kind : TokenKind
  pub parent_id : Option ℕ
  pub last_used_at : Option ℕ

pub data CliStatus : Type 0 where
  pending approved denied collected : CliStatus

pub data CliFlow : Type 0 where
  init login manage desktop : CliFlow

pub record CliSession : Type 0 where
  pub id : ℕ
  pub device_hash : String
  pub user_code : Bytes
  pub client_name : String
  pub status : CliStatus
  pub flow : CliFlow
  pub approved_by : Option ℕ
  pub workspace_id : Option ℕ
  pub project_id : Option ℕ
  pub api_token_id : Option ℕ
  pub expires_at : ℕ

pub data CommentTarget : Type 0 where
  issue milestone project : CommentTarget

pub data CommentKind : Type 0 where
  progress decision blocker note : CommentKind

pub data CommentSource : Type 0 where
  human agent : CommentSource

pub record Comment : Type 0 where
  pub id : ℕ
  pub workspace_id : ℕ
  pub target_type : CommentTarget
  pub target_id : ℕ
  pub parent_id : Option ℕ
  pub author_id : ℕ
  pub body : String
  pub source : CommentSource
  pub kind : Option CommentKind
  pub api_token_id : Option ℕ
  pub created_at : ℕ
  pub edited_at : Option ℕ
  pub deleted_at : Option ℕ

pub record Mention : Type 0 where
  pub comment_id : ℕ
  pub user_id : ℕ
  pub read_at : Option ℕ

pub data PrState : Type 0 where
  open_pr closed merged : PrState

pub record PullRequest : Type 0 where
  pub id : ℕ
  pub workspace_id : ℕ
  pub repo_id : ℕ
  pub number : ℕ
  pub title : Bytes
  pub state : PrState
  pub draft : Bool
  pub author_login : String
  pub author_id : Option ℕ
  pub head_ref : Bytes
  pub body : Bytes
  pub additions : ℕ
  pub deletions : ℕ
  pub html_url : String
  pub merged_at : Option ℕ
  pub closed_at : Option ℕ
  pub gh_created_at : Option ℕ
  pub gh_updated_at : Option ℕ

pub data LinkSource : Type 0 where
  branch body manual suggested : LinkSource

pub record PrLink : Type 0 where
  pub workspace_id : ℕ
  pub pull_request_id : ℕ
  pub issue_id : ℕ
  pub link_source : LinkSource
  pub closing : Bool

pub record Review : Type 0 where
  pub workspace_id : ℕ
  pub pull_request_id : ℕ
  pub github_id : ℕ
  pub reviewer_login : String
  pub reviewer_id : Option ℕ
  pub state : String
  pub submitted_at : ℕ

pub record Commit : Type 0 where
  pub sha : String
  pub workspace_id : ℕ
  pub repo_id : ℕ
  pub issue_id : Option ℕ
  pub branch : String
  pub message : String
  pub author_login : String
  pub html_url : String
  pub committed_at : ℕ

-- link_suggestion. The probability is left out.
pub record Suggestion : Type 0 where
  pub id : ℕ
  pub workspace_id : ℕ
  pub pull_request_id : Option ℕ
  pub comment_id : Option ℕ
  pub issue_id : Option ℕ
  pub model : String
  pub fingerprint : String
  pub dismissed_at : Option ℕ
  pub dismissed_by : Option ℕ
  pub accepted_at : Option ℕ
  pub accepted_by : Option ℕ
  pub updated_at : ℕ

pub record Repo : Type 0 where
  pub id : ℕ
  pub workspace_id : ℕ
  pub installation_id : ℕ
  pub github_id : ℕ
  pub owner : String
  pub name : String
  pub default_branch : String
  pub disconnected_at : Option ℕ

-- github_installation
pub record Installation : Type 0 where
  pub id : ℕ
  pub account_login : String
  pub workspace_id : Option ℕ
  pub ownership_verified_at : Option ℕ
  pub repos_synced_at : Option ℕ
  pub suspended_at : Option ℕ
  pub deleted_at : Option ℕ
  pub sync_error : Option String
  pub sync_generation : ℕ

pub data SyncKind : Type 0 where
  sync_installation_repos sync_installation_state : SyncKind

pub data Phase : Type 0 where
  installation authorization completed : Phase

-- github_setup_state. `session_id` is NULL in rows from before that column only, which have expired;
-- the empty text stands for it.
pub record SetupState : Type 0 where
  pub token_hash : String
  pub session_id : String
  pub user_id : ℕ
  pub workspace_id : ℕ
  pub candidate_installation_id : Option ℕ
  pub phase : Phase
  pub claimed_at : Option ℕ
  pub completed_at : Option ℕ
  pub expires_at : ℕ

pub data Purpose : Type 0 where
  link installation : Purpose

-- github_authorization_state
pub record AuthorizationState : Type 0 where
  pub token_hash : String
  pub session_id : String
  pub user_id : ℕ
  pub purpose : Purpose
  pub setup_token_hash : Option String
  pub verifier : String
  pub link_workspace_id : Option ℕ
  pub claimed_at : Option ℕ
  pub completed_at : Option ℕ
  pub expires_at : ℕ

-- A job of the queue that asks for a sync, with its payload.
pub record SyncJob : Type 0 where
  pub kind : SyncKind
  pub installation_id : ℕ
  pub workspace_id : ℕ
  pub generation : ℕ

-- `now` is the time at which the transaction began, which is what `now()` returns; `uuid_at n` is the
-- n-th value that `gen_random_uuid()` returns, and `drawn` counts the values used so far. `clock` is
-- the one reading of `clock_timestamp()` in the transaction. `random_at n size` are the bytes that the
-- n-th call of `rand.Read` fills in, and `randoms` counts the calls. Times are in seconds.
pub record Db : Type 0 where
  pub workspaces : List Workspace
  pub memberships : List Membership
  pub projects : List Project
  pub sprints : List Sprint
  pub milestones : List Milestone
  pub issues : List Issue
  pub activities : List Activity
  pub snapshots : List Snapshot
  pub users : List User
  pub identities : List Identity
  pub invites : List Invite
  pub login_tokens : List LoginToken
  pub sessions : List Session
  pub api_tokens : List ApiToken
  pub cli_sessions : List CliSession
  pub comments : List Comment
  pub mentions : List Mention
  pub pull_requests : List PullRequest
  pub pr_links : List PrLink
  pub reviews : List Review
  pub commits : List Commit
  pub suggestions : List Suggestion
  pub repos : List Repo
  pub installations : List Installation
  pub sync_jobs : List SyncJob
  pub setup_states : List SetupState
  pub authorization_states : List AuthorizationState
  pub now : ℕ
  pub uuid_at : ℕ → ℕ
  pub drawn : ℕ
  pub clock : ℕ
  pub random_at : ℕ → ℕ → Bytes
  pub randoms : ℕ
