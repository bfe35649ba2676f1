-- ===== src/Store/ApiToken/Limit.antt =====
-- Nobody has more than twenty tokens.
use Prim.Native.String.{String}
use velvet.Common.{
  length-select-append, ℕ, suc, ◌≤◌, ◌<◌, ◌≡◌, refl, sym, subst, ==_iff, arith, [], ◌∷◌, ◌++◌, ◌==◌,
  ltb→lt, Bool-cases, inl, inr, ◌∙◌,
}
use velvet.Store.Db.{Db, ApiToken}
use velvet.Store.Tx.{ok}
use velvet.Store.Tx.Steps.{modify_ok}
use velvet.Store.Tx.Ensures.{
  Ensures, Ensures-any, Ensures-bind, Ensures-pure, Ensures-reads, Ensures-require,
  Ensures-draw_uuid, Ensures-draw_random,
}
use velvet.Store.Library.{Library}
use velvet.Store.ApiToken.{
  TokenScope, tokens_of, insert_api_token, api_token_limit_count, create_api_token_tx,
}

abbrev pub AtMostTwenty : Db → Type 0
AtMostTwenty db = (user : ℕ) → tokens_of user db.api_tokens ≤ api_token_limit_count

insert_api_token-ensures :
    (row : ApiToken) (db : Db)
    → Ensures
        (insert_api_token row)
        db
        (λ _ db'. db' ≡ record db { api_tokens = db.api_tokens ++ row ∷ [] })
unfolding insert_api_token
insert_api_token-ensures row db = Ensures-require _ _ _ db λ _.
    Ensures-reads _ _ db
      (Ensures-require _ _ _ db λ _. Ensures-any _ db λ _ db' e. modify_ok _ db e)

-- What `create_api_token_tx` did: one row for the user was added, below the limit; no other table changed.
pub record Minted (user : ℕ) (db : Db) (id : ℕ) (db' : Db) : Type 0 where
  pub row : ApiToken
  pub owner : row.user_id ≡ user
  pub below : tokens_of user db.api_tokens < api_token_limit_count
  pub minted : row.id ≡ id
  pub state : db' ≡ record db {
    api_tokens = db.api_tokens ++ row ∷ [];
    drawn = suc db.drawn;
    randoms = suc db.randoms;
  }

pub create_api_token_tx-ensures :
    (lib : Library) (user : ℕ) (name : String) (scope : TokenScope) (db : Db)
    → Ensures (create_api_token_tx lib user name scope) db (λ out db'. Minted user db out.1 db')
unfolding create_api_token_tx
create_api_token_tx-ensures lib user name scope db = Ensures-require _ _ _ db λ _.
    Ensures-draw_random _ _ db (
      Ensures-reads _ _ _ (
        Ensures-require _ _ _ _ λ below. Ensures-draw_uuid _ _ (
          Ensures-bind _ _ _ _ (insert_api_token-ensures _ _) λ _ after same.
            Ensures-pure _ after (record {
              row = _;
              owner = refl;
              below = ltb→lt _ _ below;
              minted = refl;
              state = same;
            }))))

-- A successful `create_api_token_tx` keeps the rule that no user has more than twenty tokens.
pub create_api_token_tx-AtMostTwenty :
    (lib : Library) (user : ℕ) (name : String) (scope : TokenScope) (db : Db) {out : String × ℕ}
    {db' : Db}
    → create_api_token_tx lib user name scope db ≡ ok (out, db')
    → AtMostTwenty db
    → AtMostTwenty db'
create_api_token_tx-AtMostTwenty lib user name scope db {out} {db'} h most other =
    let m = (create_api_token_tx-ensures lib user name scope db).at out db' h in
    let added = length-select-append (λ (t : ApiToken). t.user_id == other) db.api_tokens m.row in
    let before = most other in
    let below = m.below in
    let owner = m.owner in
    let room : tokens_of other (db.api_tokens ++ m.row ∷ []) ≤ api_token_limit_count =
      elim (Bool-cases (m.row.user_id == other)) [
        | inl y ↦
            let mine : tokens_of other db.api_tokens < api_token_limit_count =
              subst (λ u. tokens_of u db.api_tokens < api_token_limit_count)
                (sym owner ∙ (==_iff m.row.user_id other).0 y) below in
            ground (arith, added, mine)
        | inr n ↦ ground (arith, added, before)
      ] in
    subst (λ d. tokens_of other d.api_tokens ≤ api_token_limit_count) (sym m.state) room
