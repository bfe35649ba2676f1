-- ===== src/Store/Tests/Tokens.antt =====
-- Runs of the sign-ins and of the tokens, and the theorems about them at these runs.
use Prim.Native.String.{String}
use velvet.Common.{◌≡◌, refl, none, some, true, [], ◌∷◌, arith}
use velvet.Common.In.{All-each}
use velvet.Common.Text.{codes}
use velvet.Store.Db.{Db, TokenKind, CliSession, CliFlow, CliStatus}
use velvet.Store.Tx.{Result, ok, err, in_tx, cli_session_expired}
use velvet.Store.Library.{Library}
use velvet.Store.ApiToken.{
  no_scope, insert_api_token, hash_token, api_token_hash, stored_kind, create_api_token_tx,
}
use velvet.Store.ApiToken.Limit.{AtMostTwenty, create_api_token_tx-AtMostTwenty}
use velvet.Store.Cli
use velvet.Store.Cli.Collect
use velvet.Store.Cli.Collect.{CliGrant}
use velvet.Store.Cli.Code.{KeepsLetters, create_cli_session_for_flow-cli_session_by_code}
use velvet.Store.Cli.Keys.{Keyed}
use velvet.Store.Cli.Moves.{Call, run, starts, Refines, run-Refines}
use velvet.Store.Cli.Once.{here, next, call, collect_cli_session-once}
use velvet.Store.Tests.{office, state_of, value_of, store}

-- Hashes and random texts are all alike here.
abbrev pub plain : Library
plain = record {
  sha256 = λ s. codes s;
  hex = λ bytes. "ab";
  base64 = λ bytes. "ab";
  trim = λ s. s;
  to_lower = λ s. s;
  upper_rune = λ c. c;
  is_mailbox = λ s. true;
  canonical_ip = λ s. some s;
  byte_length = λ s. 3;
  short_id = λ id. "00000000";
  sql_lower = λ s. s;
  btrim = λ s. s;
  decimal = λ n. "1";
  logins_in = λ body. "ada" ∷ [];
}

plain-KeepsLetters : KeepsLetters plain
plain-KeepsLetters = record {
  letters = All-each (λ c. plain.upper_rune c ≡ c) Cli.cli_user_code_alphabet (λ _ _. refl);
  hyphen = refl;
}

create_api_token_tx-AtMostTwenty_example :
    AtMostTwenty (state_of (create_api_token_tx plain 7 "laptop" no_scope office) office)
unfolding store create_api_token_tx insert_api_token hash_token api_token_hash stored_kind
create_api_token_tx-AtMostTwenty_example =
    create_api_token_tx-AtMostTwenty plain 7 "laptop" no_scope office
      {out = value_of (create_api_token_tx plain 7 "laptop" no_scope office) ("", 0)} refl
      (λ user. omega arith)

abbrev sign_in : CliSession
sign_in = record {
  id = 40;
  device_hash = "ab";
  user_code = codes "ABCDEFGH";
  client_name = "cli";
  status = CliStatus.approved;
  flow = CliFlow.login;
  approved_by = some 7;
  workspace_id = none;
  project_id = none;
  api_token_id = none;
  expires_at = 600;
}

abbrev signing_in : Db
signing_in = record office { cli_sessions = sign_in ∷ [] }

signing_in-Keyed : Keyed signing_in.cli_sessions
signing_in-Keyed = (((λ _. refl), tt), tt)

run-Refines_example :
    Refines plain
      (starts plain (Call.collect "velvetdev_ab") signing_in)
      signing_in.cli_sessions
      (run plain (Call.collect "velvetdev_ab") signing_in).cli_sessions
run-Refines_example = run-Refines plain (Call.collect "velvetdev_ab") signing_in signing_in-Keyed

abbrev started : Result (String × CliSession) × Db
started = Cli.create_cli_session_for_flow plain "cli" "login" office

abbrev value : {A : Type 0} → Result A → A → A
value (ok a) d = a
value (err e) d = d

create_cli_session_for_flow-cli_session_by_code_example :
    Cli.cli_session_by_code plain
      (Cli.format_user_code (value started.0 ("", sign_in)).1.user_code)
      started.1
    ≡ ok ((value started.0 ("", sign_in)).1, started.1)
unfolding store Cli.create_cli_session_for_flow Cli.allocate Cli.new_user_code Cli.new_session
    Cli.insert_cli_session Cli.purge_expired hash_token
create_cli_session_for_flow-cli_session_by_code_example =
    create_cli_session_for_flow-cli_session_by_code plain plain-KeepsLetters "cli" "login" office
      {out = value started.0 ("", sign_in)} {db' = started.1} refl

abbrev polled : Result CliGrant × Db
polled = Collect.collect_cli_session plain "velvetdev_ab" signing_in

abbrev no_grant : CliGrant
no_grant = record { kind = TokenKind.setup; token = ""; place = none; role = none }

abbrev later : Db
later = run plain (Call.deny (codes "ABCDEFGH")) polled.1

collect_cli_session-once_example :
    Collect.collect_cli_session plain "velvetdev_ab" later ≡ (err cli_session_expired, later)
unfolding store Collect.collect_cli_session Collect.collect_tx Collect.collect_found Collect.mint
    Collect.mint_unscoped Collect.set_status create_api_token_tx insert_api_token hash_token
    api_token_hash stored_kind in_tx
collect_cli_session-once_example =
    collect_cli_session-once plain "velvetdev_ab" signing_in {g = value polled.0 no_grant}
      {db' = polled.1} signing_in-Keyed refl (next here (call (Call.deny (codes "ABCDEFGH")) refl))
