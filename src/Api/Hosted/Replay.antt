-- ===== src/Api/Hosted/Replay.antt =====
-- A state of apps/api/src/hosted-auth.ts signs a user in at most once.
use spectro.Prelude.{
  All, Either, ℕ, ◌+◌, ◌≤◌, ◌≡◌, sym, ap, ◌∙◌, subst, true, false, Option, none, some, Bool-cases,
  inl, inr, Text, is_token, ok, required-then, ok_injective,
}
use mathlib.Core.Option.{some-injective}
use spectro.Api.Auth.Attempts.{
  Keeps, create_session-Keeps, find_or_create_user-Keeps, revoke_session-Keeps,
  consume_login_attempt-IsSpent, spent_consumes, Steps-IsSpent, IsSpent, NeverCreates,
}
use spectro.Api.Auth.Steps.{Steps}
use spectro.Api.Tables.{ReturnPath, Tables}
use spectro.Api.Auth.{Attempt, OidcIdentity, is_attempt, consume_login_attempt}
use spectro.Api.Hosted.Provider.{OidcFailure}
use spectro.Api.Hosted.{
  given, CallbackUrl, callback_url, Query, WebRequest, Param, CallbackQuery, logged_in,
  login_callback_schema, state_text, optional_text, callback_state_invalid, session_ttl_ms,
}
use spectro.Api.Hosted.SignIn.{callback}
use spectro.Api.Hosted.Callback.{callback_lem, IsSignedIn, IsIssued}
use spectro.Api.Hosted.Plane.{Draw, postgres_plane}

state_text-given :
    (p : Param) (state x : Text)
    → p ≡ given state
    → state_text p ≡ some x
    → (x ≡ state) × (is_token x ≡ true)
state_text-given p state x same h = elim (Bool-cases (is_token state)) [
  | inl e ↦
      let equal : state ≡ x = some-injective state x (rw (same, e) at h) in
      (sym equal, subst (λ y. is_token y ≡ true) equal e)
  | inr e ↦ cc (rw (same, e) at h)
]

none_is_not_some : (a : Attempt) → ¬ (none ≡ some a)
none_is_not_some a h = cc

schema-state :
    (state code error : Param) (q : CallbackQuery)
    → login_callback_schema state code error ≡ ok q
    → state_text state ≡ some q.state
unfolding login_callback_schema
schema-state state code error q h =
    let (s, read, h1) = required-then (state_text state) callback_state_invalid _ h in
    let (c, _, h2) = required-then (optional_text code) callback_state_invalid _ h1 in
    let (e, _, h3) = required-then (optional_text error) callback_state_invalid _ h2 in
    read ∙ ap some (ap (λ x. x.state) (ok_injective _ q h3))

module _ (hash lower trim : Text → Text)
    (exchange : (state nonce code_verifier : Text) → Either OidcFailure OidcIdentity) where
  IsIssued-Keeps :
      (d : Draw) (previous : Option Text) (token user : Text) (expires_at : ℕ) (t u : Tables)
      → IsIssued (postgres_plane hash lower trim d) previous token user expires_at t u
      → Keeps t u
  IsIssued-Keeps d none token user expires_at t u h =
      sym (ap (λ r. r.1.login_attempts) h)
      ∙ create_session-Keeps hash lower trim d.fresh_token user expires_at d.now t
  IsIssued-Keeps d (some p) token user expires_at t u (s, made, revoked) =
      sym (ap (λ r. r.1.login_attempts) revoked)
      ∙ revoke_session-Keeps hash lower trim p d.now s
      ∙ sym (ap (λ r. r.1.login_attempts) made)
      ∙ create_session-Keeps hash lower trim d.fresh_token user expires_at d.now t

  -- What is left after a sign-in.
  IsSignedIn-IsSpent :
      (d : Draw) (q : CallbackQuery) (request : WebRequest) (token : Text) (path : ReturnPath)
      (later : ℕ) (t u : Tables)
      → IsSignedIn (postgres_plane hash lower trim d) exchange q request d.now token path t u
      → is_token q.state ≡ true
      → d.now ≤ later
      → IsSpent hash lower trim q.state later u
  IsSignedIn-IsSpent d q request token path later t u
        (_, a, s, taken, (_, _, identity, _, (user, x, found, issued)), _) formed h =
      let kept : u.login_attempts ≡ s.login_attempts =
        IsIssued-Keeps d request.session_cookie token user (d.now + session_ttl_ms) x u issued
        ∙ sym (ap (λ r. r.1.login_attempts) found)
        ∙ find_or_create_user-Keeps hash lower trim d.fresh_user identity s in
      let left : s.login_attempts ≡ (consume_login_attempt hash q.state d.now t).1.login_attempts =
        sym (ap (λ r. r.1.login_attempts) taken) in
      subst (All (λ a. is_attempt hash q.state later a ≡ false)) (sym (kept ∙ left))
        (consume_login_attempt-IsSpent hash q.state d.now later t formed h)

module _ (hash lower trim : Text → Text) where
  -- After a callback that signed a user in, and after any calls of the control plane that do not store
  -- this state as a new attempt, no later callback with the same state signs a user in, whatever else it
  -- carries and whoever sends it.
  pub callback_once :
      (exchange : CallbackUrl
        → (state nonce code_verifier : Text) → Either OidcFailure OidcIdentity)
      (parse_query : Text → Query) (public_origin : Text) (d e : Draw) (search search2 : Text)
      (request request2 : WebRequest) (token token2 : Text) (path path2 : ReturnPath)
      (t u v w : Tables) (between : Steps hash lower trim u v) (state : Text)
      → (parse_query search).state ≡ given state
      → (parse_query search2).state ≡ given state
      → callback
          (postgres_plane hash lower trim d)
          exchange
          parse_query
          public_origin
          search
          request
          d.now
          t
        ≡ (logged_in token path, u)
      → NeverCreates hash lower trim state between
      → d.now ≤ e.now
      → ¬ (
          callback
            (postgres_plane hash lower trim e)
            exchange
            parse_query
            public_origin
            search2
            request2
            e.now
            v
          ≡ (logged_in token2 path2, w))
  callback_once exchange parse_query public_origin d e search search2 request request2 token token2
        path path2 t u v w between state is is2 first new later second =
      let (q, good, signed) =
        callback_lem (postgres_plane hash lower trim d) exchange parse_query public_origin search
          request d.now token path t u first in
      let (q2, good2, (_, a, s, taken, _, _)) =
        callback_lem (postgres_plane hash lower trim e) exchange parse_query public_origin search2
          request2 e.now token2 path2 v w second in
      let (same, formed) =
        state_text-given (parse_query search).state state q.state is (schema-state _ _ _ q good) in
      let (same2, _) =
        state_text-given (parse_query search2).state state q2.state is2
          (schema-state _ _ _ q2 good2) in
      let spent =
        IsSignedIn-IsSpent hash lower trim (exchange (callback_url public_origin search)) d q
          request token path e.now t u signed formed later in
      let still : IsSpent hash lower trim q2.state e.now v =
        subst (λ x. IsSpent hash lower trim x e.now v) (sym same2)
          (Steps-IsSpent hash lower trim state e.now between new
            (subst (λ x. IsSpent hash lower trim x e.now u) same spent)) in
      none_is_not_some a (
        sym (spent_consumes hash q2.state e.now v still)
        ∙ ok_injective _ (some a) (ap (λ r. r.0) taken))
