-- ===== src/GmailCalendar/Oauth/Resources.antt =====
-- The operations of oauth.c give back the files, connections and servers that they use.
use code_samples.Base.{
  true, ℕ, ◌≤◌, ◌≡◌, ◌≢◌, false, Option, none, some, List, ◌∷◌, arith, Bytes, length, leb, codes,
  Bool-cases, inl, inr,
}
use code_samples.GmailCalendar.Json.{Json}
use code_samples.GmailCalendar.Platform.{
  Platform, History, Resource, held, held, Balanced, Resource, browser, random, pure,
}
use code_samples.GmailCalendar.Files.Room.{read_file-Balanced}
use code_samples.GmailCalendar.Files.Atomic.{write_file_secure-Balanced}
use code_samples.GmailCalendar.Http.Resources.{http_helper_do-Balanced}
use code_samples.GmailCalendar.Loopback.{
  Query, Wakeup, wait_loop, handle_all, start, loopback_wait_for_code,
}
use code_samples.GmailCalendar.Loopback.Resources.{loopback-Balanced}
use code_samples.GmailCalendar.Oauth.Config.{
  Config, oauth_load_config, oauth_save_config, config_text, token_max,
}
use code_samples.GmailCalendar.Oauth.Flow.{
  given, token_request, token_endpoint_post, oauth_get_access_token, keep_token, redeem,
  oauth_run_auth_flow, make_pkce, pkce_pair, with_pair, authorize, fetch_token,
}

make_pkce-Balanced : (p : Platform) (junk : Bytes) → Balanced (make_pkce p junk)
unfolding make_pkce held
make_pkce-Balanced p junk h rs at = cased (p.random_bytes h 32)
  where
    cased :
        (raw : Option Bytes)
        → held (given none raw (λ bytes. pure (pkce_pair p junk bytes)) (random 32 ∷ h)).1 ≡ some rs
    cased none = ground arith
    cased (some bytes) = ground arith

module _ (p : Platform) (j : Json) where
  -- `oauth_load_config` closes the file that it opens.
  pub oauth_load_config-Balanced :
      (path : Bytes)
      → (h : History) (rs : List Resource) → held h ≡ some rs
      → held (oauth_load_config j p path h).1 ≡ some rs
  unfolding oauth_load_config
  oauth_load_config-Balanced path h rs at = read_file-Balanced p path 8192 h rs at

  -- `oauth_save_config` closes its temporary file, if the write loop has 8192 rounds.
  oauth_save_config-Balanced :
      (fuel : ℕ) (cfg : Config)
      → 8192 ≤ fuel
      → (h : History) (rs : List Resource) → held h ≡ some rs
      → held (oauth_save_config p fuel cfg h).1 ≡ some rs
  unfolding oauth_save_config
  oauth_save_config-Balanced fuel cfg enough =
      let text = config_text p cfg in
      elim (Bool-cases (leb 8192 (length text))) [
        | inl long ↦ rw long (λ h rs at. at)
        | inr fits ↦ rw fits (write_file_secure-Balanced p fuel cfg.config_path text (ground arith))
      ]

  token_endpoint_post-Balanced :
      (cfg : Config) (body : Bytes) (first : Bytes × ℕ) (second : Option (Bytes × ℕ))
      → Balanced (token_endpoint_post p j cfg body first second)
  unfolding token_endpoint_post
  token_endpoint_post-Balanced cfg body first second h rs at =
      ground (arith, http_helper_do-Balanced p (token_request p cfg body) 16384 h rs)

  -- `oauth_get_access_token` gives back its connection, whatever the platform and the response.
  pub oauth_get_access_token-Balanced :
      (cfg : Config) (room : ℕ)
      → (h : History) (rs : List Resource) → held h ≡ some rs
      → held (oauth_get_access_token p j cfg room h).1 ≡ some rs
  unfolding oauth_get_access_token
  oauth_get_access_token-Balanced cfg room h rs at = grind (arith, token_endpoint_post-Balanced)

  keep_token-Balanced :
      (fuel : ℕ) (cfg : Config) (token : Bytes)
      → 8192 ≤ fuel
      → Balanced (keep_token p j fuel cfg token)
  unfolding keep_token
  keep_token-Balanced fuel cfg token enough h rs at = grind (arith, oauth_save_config-Balanced)

  fetch_token-Balanced :
      (fuel : ℕ) (cfg : Config) (body : Bytes)
      → 8192 ≤ fuel
      → Balanced (fetch_token p j fuel cfg body)
  unfolding fetch_token
  fetch_token-Balanced fuel cfg body enough h rs at =
      let first : Bytes × ℕ = (codes "access_token", token_max) in
      let second : Option (Bytes × ℕ) = some (codes "refresh_token", token_max) in
      let run = token_endpoint_post p j cfg body first second h in
      kept run.0 run.1 (token_endpoint_post-Balanced cfg body first second h rs at)
    where
      kept :
          (tokens : Option (Bytes × Bytes)) (g : History)
          → held g ≡ some rs
          → held (given (some (false, cfg)) tokens (λ t. keep_token p j fuel cfg t.1) g).1 ≡ some rs
      kept none g at' = at'
      kept (some t) g at' = keep_token-Balanced fuel cfg t.1 enough g rs at'

  redeem-Balanced :
      (fuel : ℕ) (cfg : Config) (cid_enc redirect_enc verifier code : Bytes)
      → 8192 ≤ fuel
      → Balanced (redeem p j fuel cfg cid_enc redirect_enc verifier code)
  unfolding redeem
  redeem-Balanced fuel cfg cid_enc redirect_enc verifier code enough h rs at =
      grind (arith, fetch_token-Balanced)

  module _ (fuel : ℕ) (junk : Bytes) (early : List Query) (wakeups : List Wakeup)
      (enough : 8192 ≤ fuel) (ends : wait_loop wakeups false (handle_all early start) ≢ none) where
    authorize-Balanced :
        (cfg : Config) (url cid_enc redirect_enc verifier : Bytes)
        → Balanced (authorize p j fuel early wakeups cfg url cid_enc redirect_enc verifier)
    unfolding authorize held
    authorize-Balanced cfg url cid_enc redirect_enc verifier h rs at =
        let run =
          loopback_wait_for_code p cfg.loopback_port early wakeups true 1024 (browser url ∷ h) in
        redeemed run.0 run.1 (
          loopback-Balanced p cfg.loopback_port early wakeups 1024 true ends (browser url ∷ h) rs
            (ground arith))
      where
        redeemed :
            (waited : Option (Option Bytes)) (g : History)
            → held g ≡ some rs
            → held
                (given none waited
                  (λ got.
                    given
                      (some (false, cfg))
                      got
                      (λ code. redeem p j fuel cfg cid_enc redirect_enc verifier code))
                  g).1
              ≡ some rs
        redeemed none g at' = at'
        redeemed (some none) g at' = at'
        redeemed (some (some code)) g at' =
            redeem-Balanced fuel cfg cid_enc redirect_enc verifier code enough g rs at'

    with_pair-Balanced :
        (cfg : Config) (verifier challenge : Bytes)
        → Balanced (with_pair p j fuel early wakeups cfg verifier challenge)
    unfolding with_pair
    with_pair-Balanced cfg verifier challenge h rs at = grind (arith, authorize-Balanced)

    -- `oauth_run_auth_flow` gives back every server, thread object, connection and file that it
    -- used, if the wait for the redirect ends and the write loop has 8192 rounds.
    pub oauth_run_auth_flow-Balanced :
        (cfg : Config)
        → (h : History) (rs : List Resource) → held h ≡ some rs
        → held (oauth_run_auth_flow p j fuel junk early wakeups cfg h).1 ≡ some rs
    unfolding oauth_run_auth_flow
    oauth_run_auth_flow-Balanced cfg h rs at =
        let run = make_pkce p junk h in started run.0 run.1 (make_pkce-Balanced p junk h rs at)
      where
        started :
            (pair : Option (Bytes × Bytes)) (g : History)
            → held g ≡ some rs
            → held
                (given
                  (some (false, cfg))
                  pair
                  (λ (verifier, challenge). with_pair p j fuel early wakeups cfg verifier challenge)
                  g).1
              ≡ some rs
        started none g at' = at'
        started (some (verifier, challenge)) g at' =
            with_pair-Balanced cfg verifier challenge g rs at'
