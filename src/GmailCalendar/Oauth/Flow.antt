-- ===== src/GmailCalendar/Oauth/Flow.antt =====
-- The requests of oauth.c: the PKCE pair, the token endpoint, the authorization flow and the
-- refresh of an access token. `junk` is what an uninitialised buffer of 64 bytes holds; `fuel`
-- bounds the rounds of the write loop; `early` and `wakeups` are the schedule of loopback.c.
use code_samples.Base.{
  ℕ, ◌+◌, ◌/◌, Bool, true, false, not, Option, none, some, List, [], ◌++◌, ◌==◌, leb, if◌then◌else◌,
  Bytes, codes, length,
}
use code_samples.Base.Int.{ℤ, pos, negsuc}
use code_samples.GmailCalendar.Json.{Json}
use code_samples.GmailCalendar.Platform.{
  Platform, browser, random, Command, pure, emit, ask, ◌>>=◌, ◌>>◌,
}
use code_samples.GmailCalendar.Util.{Encoded, b64url_encode, url_encode, c_string}
use code_samples.GmailCalendar.Http.{HttpRequest, HttpResponse, http_helper_do}
use code_samples.GmailCalendar.Loopback.{Query, Wakeup, loopback_wait_for_code}
use code_samples.GmailCalendar.Oauth.Config.{
  Config, json_root_get_string, oauth_save_config, copy_string, token_max, is_empty,
}

-- What follows a value, if there is one, and the result if there is none.
abbrev pub given : {A B : Type 0} → B → Option A → (A → Command B) → Command B
given failure none k = pure failure
given failure (some a) k = k a

-- The string that an encoder leaves, unless it returns a negative number.
unfoldable pub text_of : Encoded → Option Bytes
unfolding c_string
text_of e = elim e.ret [ pos n ↦ some (c_string e.out) | negsuc n ↦ none ]

abbrev pub url_text : Bytes → (cap : ℕ) → Option Bytes
url_text s cap = text_of (url_encode s cap)

-- `status / 100 == 2`
abbrev pub is_success : ℤ → Bool
is_success (pos n) = n / 100 == 2
is_success (negsuc n) = false

abbrev pub scope : Bytes
scope = codes "https://www.googleapis.com/auth/calendar.readonly"

module _ (p : Platform) where
  -- The second half of `make_pkce`, with the random bytes.
  unfoldable pub pkce_pair : (junk : Bytes) → Bytes → Option (Bytes × Bytes)
  unfolding text_of b64url_encode
  pkce_pair junk raw = elim (text_of (b64url_encode p.encode_block raw junk 64)) [
    | none ↦ none
    | some verifier ↦ elim (text_of (b64url_encode p.encode_block (p.sha256 verifier) junk 64)) [
      | none ↦ none
      | some challenge ↦ some (verifier, challenge)
    ]
  ]

  unfoldable pub make_pkce : (junk : Bytes) → Command (Option (Bytes × Bytes))
  make_pkce junk = do
    raw ← ask (λ h. p.random_bytes h 32)
    emit (random 32)
    given none raw (λ bytes. pure (pkce_pair junk bytes))

  unfoldable pub redirect_uri : Config → Bytes
  redirect_uri cfg = copy_string 64 (codes "http://127.0.0.1:" ++ p.decimal cfg.loopback_port)

  abbrev pub token_request : Config → Bytes → HttpRequest
  token_request cfg body = record {
    host = codes "oauth2.googleapis.com";
    port = 443;
    ca_bundle_path = cfg.ca_bundle_path;
    method = codes "POST";
    path = codes "/token";
    bearer_token = none;
    body = body;
    content_type = codes "application/x-www-form-urlencoded";
  }

-- The texts of the requests, from their encoded parts.
unfoldable pub auth_url : (cid_enc redirect_enc scope_enc challenge : Bytes) → Bytes
auth_url cid_enc redirect_enc scope_enc challenge =
    codes "https://accounts.google.com/o/oauth2/v2/auth?client_id="
    ++ cid_enc
    ++ codes "&redirect_uri="
    ++ redirect_enc
    ++ codes "&response_type=code&scope="
    ++ scope_enc
    ++ codes "&code_challenge="
    ++ challenge
    ++ codes "&code_challenge_method=S256&access_type=offline&prompt=consent"

unfoldable pub code_body : (cid_enc cs_enc code_enc verifier redirect_enc : Bytes) → Bytes
code_body cid_enc cs_enc code_enc verifier redirect_enc =
    codes "grant_type=authorization_code&client_id="
    ++ cid_enc
    ++ codes "&client_secret="
    ++ cs_enc
    ++ codes "&code="
    ++ code_enc
    ++ codes "&code_verifier="
    ++ verifier
    ++ codes "&redirect_uri="
    ++ redirect_enc

unfoldable pub refresh_body : (cid_enc cs_enc rt_enc : Bytes) → Bytes
refresh_body cid_enc cs_enc rt_enc =
    codes "grant_type=refresh_token&client_id="
    ++ cid_enc
    ++ codes "&client_secret="
    ++ cs_enc
    ++ codes "&refresh_token="
    ++ rt_enc

module _ (p : Platform) (j : Json) where
  unfoldable pub second_field : j.Reader → Option (Bytes × ℕ) → Bytes
  second_field r none = []
  second_field r (some (field, room)) = (json_root_get_string j r field room []).2

  -- The fields of a response: the first one is required, the second one is "" if it is missing.
  unfoldable pub response_fields :
      HttpResponse → (Bytes × ℕ) → Option (Bytes × ℕ) → Option (Bytes × Bytes)
  unfolding json_root_get_string second_field
  response_fields resp (field, room) second = elim (j.reader_init resp.body) [
    | none ↦ none
    | some r ↦
        let (has, r1, first) = json_root_get_string j r field room [] in
        if has then some (first, second_field r1 second) else none
  ]

  unfoldable pub token_endpoint_post :
      Config → Bytes → (Bytes × ℕ) → Option (Bytes × ℕ) → Command (Option (Bytes × Bytes))
  unfolding response_fields
  token_endpoint_post cfg body first second = do
    (code, response) ← http_helper_do p (token_request p cfg body) 16384
    given none response (λ resp.
        if is_success resp.status then pure (response_fields resp first second) else pure none)

  unfoldable pub oauth_get_access_token : Config → (room : ℕ) → Command (Option Bytes)
  oauth_get_access_token cfg room =
      if not cfg.have_refresh_token
      then pure none
      else given none (url_text cfg.client_id 512) (λ cid_enc.
        given none (url_text cfg.client_secret 256) (λ cs_enc.
          given none (url_text cfg.refresh_token (token_max + 64)) (λ rt_enc.
            let body = refresh_body cid_enc cs_enc rt_enc in
            if leb (token_max + 1024) (length body) then pure none else do
              tokens ← token_endpoint_post cfg body (codes "access_token", room) none
              given none tokens (λ t. pure (some t.0)))))

  -- Behind the token request: the refresh token goes into the configuration, which is saved.
  unfoldable pub keep_token : (fuel : ℕ) → Config → Bytes → Command (Option (Bool × Config))
  keep_token fuel cfg token = if is_empty token then pure (some (false, cfg)) else do
    let cfg' = record cfg { refresh_token = copy_string token_max token; have_refresh_token = true }
    saved ← oauth_save_config p fuel cfg'
    given none saved (λ s. pure (some (s, cfg')))

  -- The request for the tokens, and what is kept of them.
  unfoldable pub fetch_token : (fuel : ℕ) → Config → Bytes → Command (Option (Bool × Config))
  fetch_token fuel cfg body = do
    tokens ←
        token_endpoint_post cfg body (codes "access_token", token_max)
          (some (codes "refresh_token", token_max))
    given (some (false, cfg)) tokens (λ t. keep_token fuel cfg t.1)

  -- Behind the redirect: the code is exchanged for tokens.
  unfoldable pub redeem :
      (fuel : ℕ)
      → Config
      → (cid_enc redirect_enc verifier code : Bytes) → Command (Option (Bool × Config))
  redeem fuel cfg cid_enc redirect_enc verifier code =
      let stop = some (false, cfg) in
      given stop (url_text code 1024) (λ code_enc.
        given stop (url_text cfg.client_secret 256) (λ cs_enc.
          let body = code_body cid_enc cs_enc code_enc verifier redirect_enc in
          if leb 2048 (length body) then pure stop else fetch_token fuel cfg body))

  -- Behind the URL: the browser is sent there, and the redirect is awaited.
  unfoldable pub authorize :
      (fuel : ℕ)
      → List Query
      → List Wakeup
      → Config
      → (url cid_enc redirect_enc verifier : Bytes) → Command (Option (Bool × Config))
  authorize fuel early wakeups cfg url cid_enc redirect_enc verifier = do
    emit (browser url)
    waited ← loopback_wait_for_code p cfg.loopback_port early wakeups true 1024
    given none waited (λ got.
        given (some (false, cfg)) got (λ code. redeem fuel cfg cid_enc redirect_enc verifier code))

  -- With the PKCE pair: the URL of the authorization page.
  unfoldable pub with_pair :
      (fuel : ℕ)
      → List Query
      → List Wakeup
      → Config
      → (verifier challenge : Bytes) → Command (Option (Bool × Config))
  with_pair fuel early wakeups cfg verifier challenge =
      let stop = some (false, cfg) in
      given stop (url_text (redirect_uri p cfg) 256) (λ redirect_enc.
        given stop (url_text scope 256) (λ scope_enc.
          given stop (url_text cfg.client_id 512) (λ cid_enc.
            let url = auth_url cid_enc redirect_enc scope_enc challenge in
            if leb 1024 (length url)
            then pure stop
            else authorize fuel early wakeups cfg url cid_enc redirect_enc verifier)))

  -- Whether the flow succeeds, and the configuration after it; `none` while it waits for the
  -- redirect, or for lack of fuel.
  unfoldable pub oauth_run_auth_flow :
      (fuel : ℕ)
      → (junk : Bytes) → List Query
      → List Wakeup
      → Config
      → Command (Option (Bool × Config))
  oauth_run_auth_flow fuel junk early wakeups cfg = do
    pair ← make_pkce p junk
    given (some (false, cfg)) pair
        (λ (verifier, challenge). with_pair fuel early wakeups cfg verifier challenge)
