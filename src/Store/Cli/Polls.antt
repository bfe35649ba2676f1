-- ===== src/Store/Cli/Polls.antt =====
-- A poll is a step of the machine.
use Prim.Native.String.{String}
use velvet.Common.{
  inl, inr, ◌⊎◌, ℕ, ◌≡◌, refl, sym, ap, subst, ◌∙◌, Option, none, some, true, false, List, ◌==◌,
  arith, find, update,
}
use velvet.Common.In.{find-In}
use velvet.Store.Db.{
  Db, Workspace, Project, Role, CliSession, CliStatus, pending, approved, denied, collected,
}
use velvet.Store.Tx.Steps.{modify_ok}
use velvet.Store.Tx.Ensures.{
  Ensures, Ensures-any, Ensures-if, Ensures-bind, Ensures-pure, Ensures-throw, Ensures-reads,
  Ensures-require,
}
use velvet.Store.Library.{Library}
use velvet.Store.ApiToken.{TokenScope, hash_token, create_api_token_tx}
use velvet.Store.Tx.{pure, ◌>>=◌}
use velvet.Store.ApiToken.Limit.{create_api_token_tx-ensures}
use velvet.Store.Cli.{is_pending}
use velvet.Store.Cli.Collect
use velvet.Store.Cli.Collect.{CliGrant, Outcome, granted, refused, is_collected}
use velvet.Store.Cli.Keys.{Keyed}
use velvet.Store.Cli.Machine.{may_follow, Changed, same_id-row}

abbrev pub with_status : CliStatus → Option ℕ → CliSession → CliSession
with_status status token s = record s { status = status; api_token_id = token }

-- What a poll that is answered did to the table: the row is collected, or the poll is refused.
pub record Settled (row : CliSession) (rows : List CliSession) (out : Outcome) (db' : Db)
    : Type 0 where
  pub status : CliStatus
  pub token : Option ℕ
  pub left : is_pending status ≡ false
  pub outcome : (status ≡ collected) ⊎ (out ≡ refused)
  pub state : db'.cli_sessions ≡ update (λ s. s.id == row.id) (with_status status token) rows

set_status-ensures :
    (id : ℕ) (status : CliStatus) (token : Option ℕ) (db : Db)
    → Ensures (Collect.set_status id status token) db (λ _ db'.
      db'.cli_sessions ≡ update (λ s. s.id == id) (with_status status token) db.cli_sessions)
unfolding Collect.set_status
set_status-ensures id status token db =
    Ensures-any _ db λ _ db' h. ap (λ (d : Db). d.cli_sessions) (modify_ok _ db h)

module _ (lib : Library) (row : CliSession) (db : Db) where
  -- A key is minted, and the row is collected.
  collected_with :
      (approver : ℕ) (name : String) (scope : TokenScope) (grant : String × ℕ → CliGrant)
      → Ensures
          (create_api_token_tx lib approver name scope >>= λ created.
            Collect.set_status row.id collected (some created.1) >>= λ _.
            pure (granted (grant created)))
          db
          (Settled row db.cli_sessions)
  collected_with approver name scope grant =
      Ensures-bind _ _ _ db (create_api_token_tx-ensures lib approver _ _ db) λ created mid minted.
        Ensures-bind _ _ _ mid (set_status-ensures row.id collected (some created.1) mid)
          λ _ after e. Ensures-pure _ after (record {
            status = collected;
            token = some created.1;
            left = refl;
            outcome = inl refl;
            state =
                e
                ∙ ap
                    (λ (d : Db).
                      update (λ s. s.id == row.id) (with_status collected (some created.1))
                        d.cli_sessions)
                    minted.state;
          })

  mint_unscoped-Settled :
      (approver : ℕ)
      → Ensures (Collect.mint_unscoped lib row approver) db (Settled row db.cli_sessions)
  unfolding Collect.mint_unscoped
  mint_unscoped-Settled approver = collected_with approver _ _ _

  mint_project-Settled :
      (approver : ℕ) (rows : Option (Workspace × Project × Role))
      → Ensures (Collect.mint_project lib row approver rows) db (Settled row db.cli_sessions)
  unfolding Collect.mint_project
  mint_project-Settled approver none =
      Ensures-bind _ _ _ db (set_status-ensures row.id denied row.api_token_id db) λ _ after e.
        Ensures-pure _ after (record {
          status = denied;
          token = row.api_token_id;
          left = refl;
          outcome = inr refl;
          state = e;
        })
  mint_project-Settled approver (some (w, p, r)) = collected_with approver _ _ _

  mint-Settled :
      (approver : Option ℕ)
      → Ensures (Collect.mint lib row approver) db (Settled row db.cli_sessions)
  unfolding Collect.mint
  mint-Settled none = Ensures-throw _ db
  mint-Settled (some approver) = Ensures-reads _ _ db (
      Ensures-if (Collect.is_init row.flow)
        (Collect.mint_project lib row approver (Collect.named_rows row approver db)) _ db
        (λ _. mint_project-Settled approver _) (λ _. mint_unscoped-Settled approver))

-- A poll that is answered found an approved row of the device.
pub record Answered (device_hash : String) (rows : List CliSession) (out : Outcome) (db' : Db)
    : Type 0 where
  pub row : CliSession
  pub found : find (Collect.is_device device_hash) rows ≡ some row
  pub approval : row.status ≡ approved
  pub settled : Settled row rows out db'

is_approved :
    (s : CliStatus)
    → is_pending s ≡ false
    → Collect.is_denied s ≡ false
    → is_collected s ≡ false
    → s ≡ approved
is_approved approved _ _ _ = refl
is_approved pending h _ _ = cc
is_approved denied _ h _ = cc
is_approved collected _ _ h = cc

module _ (lib : Library) (device : String) (db : Db) where
  collect_found-Answered :
      (found : Option CliSession)
      → find (Collect.is_device (hash_token lib device)) db.cli_sessions ≡ found
      → Ensures
          (Collect.collect_found lib found)
          db
          (Answered (hash_token lib device) db.cli_sessions)
  unfolding Collect.collect_found
  collect_found-Answered none e = Ensures-throw _ db
  collect_found-Answered (some row) e = Ensures-reads _ _ db (
      Ensures-require _ _ _ db λ d. Ensures-require _ _ _ db λ c. Ensures-require _ _ _ db λ p.
        Ensures-any _ db λ out db' h. record {
          row = row;
          found = e;
          approval = is_approved row.status (ground arith) (ground arith) (ground arith);
          settled = (mint-Settled lib row db row.approved_by).at out db' h;
        })

  pub collect_tx-Answered :
      Ensures (Collect.collect_tx lib device) db (Answered (hash_token lib device) db.cli_sessions)
  unfolding Collect.collect_tx
  collect_tx-Answered = Ensures-reads _ _ db (collect_found-Answered _ refl)

from_approved : (t : CliStatus) → is_pending t ≡ false → may_follow (some approved) (some t) ≡ true
from_approved approved h = refl
from_approved denied h = refl
from_approved collected h = refl
from_approved pending h = cc

-- An answer changes the table by a step of the machine.
Answered-Changed :
    {device_hash : String} {rows : List CliSession} {out : Outcome} {db' : Db}
    → Answered device_hash rows out db'
    → Keyed rows
    → Changed rows db'.cli_sessions
Answered-Changed {rows = rows} a keyed = record {
  p = λ s. s.id == a.row.id;
  f = with_status a.settled.status a.settled.token;
  keeps = record { id = λ _. refl; device = λ _. refl; code = λ _. refl };
  step = λ s i e.
      let same = same_id-row rows a.row s keyed (find-In _ rows a.found) i e in
      let approval : s.status ≡ approved = ap (λ (r : CliSession). r.status) same ∙ a.approval in
      subst (λ t. may_follow (some t) (some a.settled.status) ≡ true) (sym approval)
        (from_approved a.settled.status a.settled.left);
  state = a.settled.state;
}

pub collect_tx-Changed :
    (lib : Library) (device : String) (db : Db)
    → Keyed db.cli_sessions
    → Ensures (Collect.collect_tx lib device) db (λ _ db'. Changed db.cli_sessions db'.cli_sessions)
collect_tx-Changed lib device db keyed =
    Ensures-any _ db
      λ out db' h. Answered-Changed ((collect_tx-Answered lib device db).at out db' h) keyed
