-- ===== src/Examples/SignIn.antt =====
-- The theorems on sign-in and sessions, on a control plane with one user.
use spectro.Prelude.{
  ℕ, false, ◌≡◌, refl, ◌<◌, true, none, some, [], ◌∷◌, arith, Text, text, text_eq, is_token, Either,
  ok, err,
}
use spectro.Api.Members.{Person, Database, is_active}
use spectro.Api.Tables.{Tables, root}
use spectro.Api.Auth.Steps.{Steps, next, revokes}
use spectro.Api.Auth.{
  OidcIdentity, LoginInput, create_login_attempt, consume_login_attempt, find_or_create_user,
  create_session, resolve_session, revoke_session, session_row,
}
use spectro.Api.Auth.Steps.{here}
use spectro.Api.Auth.Sessions.{create-resolve}
use spectro.Api.Hosted.Provider.{OidcFailure}
use spectro.Api.Hosted.{
  CallbackUrl, Query, HostedOptions, WebRequest, CallbackQuery, missing, given, logged_in,
  login_callback_schema, unauthorized,
}
use spectro.Api.Hosted.SignIn.{callback}
use spectro.Api.Hosted.Guard.{session, logout, require_console_session, require_same_origin_csrf}
use spectro.Api.Hosted.Callback.{IsSignedIn, callback_lem}
use spectro.Api.Hosted.Console.{IsVerified, require_console_session_lem}
use spectro.Api.Hosted.Plane.{Draw, postgres_plane, logout-final}
use spectro.Api.Hosted.Replay.{callback_once}

abbrev same : Text → Text
same t = t

abbrev token_a : Text
token_a = text "0123456789012345678901234567890123456789abc"

abbrev state_b : Text
state_b = text "0123456789012345678901234567890123456789xyz"

abbrev no_members : Database
no_members = record {
  organizations = [];
  people = [];
  memberships = [];
  invitations = [];
  audit_log = [];
}

abbrev blank : Tables
blank = record {
  members = no_members;
  login_attempts = [];
  identities = [];
  sessions = [];
  projects = [];
  environments = [];
  write_keys = [];
  workspace_log = [];
}

abbrev ada : Person
ada = record { id = text "usr_1"; email = none; email_verified = false; disabled = false }

abbrev with_ada : Tables
with_ada = record blank { members = record no_members { people = ada ∷ [] } }

abbrev in_session : Tables
in_session = record with_ada { sessions = session_row same (text "usr_1") token_a 900 ∷ [] }

in_session_made :
    create_session same token_a (text "usr_1") 900 100 with_ada ≡ (ok token_a, in_session)
unfolding create_session text_eq
in_session_made = refl

token_a-IsToken : is_token token_a ≡ true
unfolding is_token
token_a-IsToken = refl

in_session_resolves : resolve_session same token_a 200 in_session ≡ some (text "usr_1")
unfolding resolve_session text_eq is_token
in_session_resolves = refl

create-resolve_example :
    (text "usr_1" ≡ text "usr_1")
    × (200 < 900)
    × (is_active (text "usr_1") in_session.members.people ≡ true)
create-resolve_example =
    create-resolve same same same token_a (text "usr_1") token_a (text "usr_1") 900 100 200 with_ada
      in_session in_session in_session_made here in_session_resolves

abbrev login_input : LoginInput
login_input = record {
  state = state_b;
  code_verifier = text "v";
  nonce = text "n";
  return_path = root;
}

abbrev logging_in : Tables
logging_in = (create_login_attempt same login_input 50 blank).1

abbrev options : HostedOptions
options = record { public_origin = text "https://s.io"; csrf_secret = text "k" }

-- A digest that is the credential itself.
abbrev hmac : Text → Text → Text
hmac secret credential = credential

abbrev from_console : WebRequest
from_console = record {
  session_cookie = some token_a;
  login_cookie = some state_b;
  origin = some (text "https://s.io");
  csrf_header = some token_a;
}

abbrev draw : ℕ → Draw
draw now = record { now = now; fresh_user = text "usr_2"; fresh_token = token_a }

require_console_session_run :
    require_console_session
      (postgres_plane same same same (draw 200))
      hmac
      options
      from_console
      true
      in_session
    ≡ ok (text "usr_1")
unfolding require_console_session require_same_origin_csrf resolve_session text_eq is_token
require_console_session_run = refl

require_console_session_lem_example :
    (token : Text) × (from_console.session_cookie ≡ some token)
    × ((postgres_plane same same same (draw 200)).resolve_session token in_session
        ≡ ok (some (text "usr_1")))
    × (true ≡ true
        → IsVerified (postgres_plane same same same (draw 200)) hmac options from_console token)
require_console_session_lem_example =
    require_console_session_lem (postgres_plane same same same (draw 200)) hmac options from_console
      true (text "usr_1") in_session require_console_session_run

session_run :
    session (postgres_plane same same same (draw 200)) hmac options from_console in_session
    ≡ ok (text "usr_1", token_a)
unfolding session resolve_session text_eq is_token
session_run = refl

abbrev signed_out : Tables
signed_out =
    (logout (postgres_plane same same same (draw 250)) hmac options from_console in_session).1

signed_out_run :
    logout (postgres_plane same same same (draw 250)) hmac options from_console in_session
    ≡ (ok tt, signed_out)
unfolding logout require_same_origin_csrf revoke_session text_eq is_token
signed_out_run = refl

logout-final_example :
    require_console_session
      (postgres_plane same same same (draw 300))
      hmac
      options
      from_console
      true
      signed_out
    ≡ err unauthorized
logout-final_example =
    logout-final same same same hmac options (draw 100) (draw 250) (draw 300) from_console
      from_console true token_a (text "usr_1") token_a 900 with_ada in_session in_session signed_out
      signed_out token_a-IsToken in_session_made here refl signed_out_run here refl

abbrev exchange : CallbackUrl → Text → Text → Text → Either OidcFailure OidcIdentity
exchange url state nonce code_verifier =
    ok (record {
      issuer = text "https://i";
      subject = text "s";
      email = none;
      email_verified = false;
    })

abbrev parse_query : Text → Query
parse_query search = record { state = given state_b; code = given search; error = missing }

abbrev anonymous : WebRequest
anonymous = record from_console { session_cookie = none }

abbrev signed_in : Tables
signed_in =
    (callback (postgres_plane same same same (draw 100)) exchange parse_query (text "o") (text "c")
      anonymous 100 logging_in).1

signed_in_run :
    callback
      (postgres_plane same same same (draw 100))
      exchange
      parse_query
      (text "o")
      (text "c")
      anonymous
      100
      logging_in
    ≡ (logged_in token_a root, signed_in)
unfolding callback login_callback_schema consume_login_attempt create_login_attempt
    find_or_create_user create_session text_eq is_token
signed_in_run = refl

callback_lem_example :
    (q : CallbackQuery) × (login_callback_schema (given state_b) (given (text "c")) missing ≡ ok q)
    × IsSignedIn
        (postgres_plane same same same (draw 100))
        (exchange
          (record { origin = text "o"; path = text "/v1/auth/callback"; search = text "c" }))
        q
        anonymous
        100
        token_a
        root
        logging_in
        signed_in
callback_lem_example =
    callback_lem (postgres_plane same same same (draw 100)) exchange parse_query (text "o")
      (text "c") anonymous 100 token_a root logging_in signed_in signed_in_run

-- Somebody revokes a session between the two callbacks.
abbrev later_on : Tables
later_on = revoke_session same token_a 150 signed_in

abbrev between : Steps same same same signed_in later_on
between = next here (revokes token_a 150 signed_in)

callback_once_example : ¬ (
    callback
      (postgres_plane same same same (draw 200))
      exchange
      parse_query
      (text "o")
      (text "d")
      anonymous
      200
      later_on
    ≡ (logged_in token_a root, signed_in))
callback_once_example =
    callback_once same same same exchange parse_query (text "o") (draw 100) (draw 200) (text "c")
      (text "d") anonymous anonymous token_a token_a root root logging_in signed_in later_on
      signed_in between state_b refl refl signed_in_run (tt, tt) (omega arith)
