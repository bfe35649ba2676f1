-- ===== src/Store/Login/Limits.antt =====
-- The limits on the login links that are sent in a quarter of an hour.
use Prim.Native.String.{String}
use text.Mathlib.Text.{◌==◌ as str_eq}
use text.Mathlib.TextEquality.{eq_iff}
use velvet.Common.{
  ℕ, ◌≤◌, ◌<◌, ◌≡◌, sym, ap, subst, ◌∙◌, Option, List, [], ◌∷◌, ◌++◌, arith, length, select,
  length-select-append, ltb→lt, Bool-cases, inl, inr,
}
use velvet.Store.Db.{Db, LoginToken}
use velvet.Store.Tx.{ok, ◌>>=◌}
use velvet.Store.Tx.Steps.{IsRead, modify_ok}
use velvet.Store.Tx.Ensures.{
  Ensures, Ensures-any, Ensures-bind, Ensures-pure, Ensures-read, Ensures-reads, Ensures-require,
  Ensures-draw_random,
}
use velvet.Store.Library.{Library}
use velvet.Store.Invite.{mailbox_of}
use velvet.Store.Invite.Accept.{IsRead-normalize_email, normalize_email-mailbox}
use velvet.Store.Login
use velvet.Store.Login.{for_email, from_ip, login_email_limit, login_ip_limit}

abbrev pub ip_count : String → ℕ → List LoginToken → ℕ
ip_count ip now tokens = length (select (from_ip ip now) tokens)

module _ (lib : Library) where
  abbrev pub email_count : String → ℕ → List LoginToken → ℕ
  email_count email now tokens = length (select (for_email lib email now) tokens)

  -- No address was sent more than five links, and no client asked for more than twenty.
  pub record WithinLimits (db : Db) : Type 0 where
    pub emails : (email : String) → email_count email db.now db.login_tokens ≤ login_email_limit
    pub ips : (ip : String) → ip_count ip db.now db.login_tokens ≤ login_ip_limit

  record Issued (email : String) (db db' : Db) : Type 0 where
    row : LoginToken
    address : row.email ≡ mailbox_of lib email
    few_emails : email_count (mailbox_of lib email) db.now db.login_tokens < login_email_limit
    few_ips : ip_count row.request_ip db.now db.login_tokens < login_ip_limit
    tokens : db'.login_tokens ≡ db.login_tokens ++ row ∷ []
    time : db'.now ≡ db.now

  IsRead-normalize_ip : (ip : String) → IsRead (Login.normalize_ip lib ip)
  unfolding Login.normalize_ip ◌>>=◌
  IsRead-normalize_ip ip = record { same = λ db a db' h. ground arith }

  insert_login_token-ensures :
      (row : LoginToken) (db : Db)
      → Ensures
          (Login.insert_login_token row)
          db
          (λ _ db'. db' ≡ record db { login_tokens = db.login_tokens ++ row ∷ [] })
  unfolding Login.insert_login_token
  insert_login_token-ensures row db =
      Ensures-reads _ _ db
        (Ensures-require _ _ _ db λ _. Ensures-any _ db λ _ db' e. modify_ok _ db e)

  issue-Issued :
      (email ip : String) (invite : Option ℕ) (return_to : String) (db : Db)
      → Ensures
          (Login.issue_login_token_with_return_to lib email ip invite return_to)
          db
          (λ _ db'. Issued email db db')
  unfolding Login.issue_login_token_with_return_to
  issue-Issued email ip invite return_to db = Ensures-require _ _ _ db λ _.
      Ensures-read _ _ db (IsRead-normalize_email lib email) λ address e.
        Ensures-read _ _ db (IsRead-normalize_ip ip) λ source _. Ensures-draw_random _ _ db (
          Ensures-reads _ _ _ (
            Ensures-reads _ _ _ (
              Ensures-require _ _ _ _ λ few. Ensures-reads _ _ _ (
                Ensures-require _ _ _ _ λ few'.
                  Ensures-bind _ _ _ _ (insert_login_token-ensures _ _) λ _ after same.
                    let written = (normalize_email-mailbox lib email db).at address db e in
                    Ensures-pure _ after (record {
                      row = _;
                      address = written;
                      few_emails =
                          subst (λ a. email_count a db.now db.login_tokens < login_email_limit)
                            written (ltb→lt _ _ few);
                      few_ips = ltb→lt _ _ few';
                      tokens = ap (λ (d : Db). d.login_tokens) same;
                      time = ap (λ (d : Db). d.now) same;
                    })))))

  -- If the lower case of the address is the address itself for the database too, a successful
  -- `IssueLoginTokenWithReturnTo` keeps the limits.
  pub issue_login_token_with_return_to-WithinLimits :
      (email ip : String) (invite : Option ℕ) (return_to : String) (db : Db) {token : String}
      {db' : Db}
      → lib.sql_lower (mailbox_of lib email) ≡ mailbox_of lib email
      → Login.issue_login_token_with_return_to lib email ip invite return_to db ≡ ok (token, db')
      → WithinLimits db
      → WithinLimits db'
  issue_login_token_with_return_to-WithinLimits email ip invite return_to db {token} {db'} lower h
        w =
      let i = (issue-Issued email ip invite return_to db).at token db' h in
      record {
        emails = λ a.
            let added = length-select-append (for_email lib a db.now) db.login_tokens i.row in
            let before = w.emails a in
            let room : email_count a db.now (db.login_tokens ++ i.row ∷ []) ≤ login_email_limit =
              elim (Bool-cases (str_eq (lib.sql_lower i.row.email) a)) [
                | inl y ↦
                    let is_a : mailbox_of lib email ≡ a =
                      sym lower
                      ∙ ap lib.sql_lower (sym i.address)
                      ∙ (eq_iff (lib.sql_lower i.row.email) a).0 y in
                    let mine : email_count a db.now db.login_tokens < login_email_limit =
                      subst (λ x. email_count x db.now db.login_tokens < login_email_limit) is_a
                        i.few_emails in
                    ground (arith, added, mine)
                | inr n ↦ ground (arith, added, before)
              ] in
            subst (λ ts. email_count a db'.now ts ≤ login_email_limit) (sym i.tokens)
              (subst (λ now. email_count a now (db.login_tokens ++ i.row ∷ []) ≤ login_email_limit)
                (sym i.time) room);
        ips = λ s.
            let added = length-select-append (from_ip s db.now) db.login_tokens i.row in
            let before = w.ips s in
            let room : ip_count s db.now (db.login_tokens ++ i.row ∷ []) ≤ login_ip_limit =
              elim (Bool-cases (str_eq i.row.request_ip s)) [
                | inl y ↦
                    let mine : ip_count s db.now db.login_tokens < login_ip_limit =
                      subst (λ x. ip_count x db.now db.login_tokens < login_ip_limit)
                        ((eq_iff i.row.request_ip s).0 y) i.few_ips in
                    ground (arith, added, mine)
                | inr n ↦ ground (arith, added, before)
              ] in
            subst (λ ts. ip_count s db'.now ts ≤ login_ip_limit) (sym i.tokens)
              (subst (λ now. ip_count s now (db.login_tokens ++ i.row ∷ []) ≤ login_ip_limit)
                (sym i.time) room);
      }
