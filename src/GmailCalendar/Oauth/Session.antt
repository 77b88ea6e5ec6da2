-- ===== src/GmailCalendar/Oauth/Session.antt =====
-- What the authorization flow of oauth.c leaves in the configuration.
use code_samples.Base.{
  ℕ, suc, ◌≡◌, refl, Bool, true, false, not, ◌||◌, ◌&&◌, Option, none, some, List, [], ◌∷◌, length,
  take, arith, Bytes, Bool-cases, inl, inr, if◌then◌else◌, leb,
}
use code_samples.GmailCalendar.Json.{Json}
use code_samples.GmailCalendar.Platform.{Platform, History, Command, pure, browser, ◌>>=◌}
use code_samples.GmailCalendar.Loopback.{Query, Wakeup, loopback_wait_for_code}
use code_samples.GmailCalendar.Oauth.Config.{
  Config, token_max, copy_string, is_empty, oauth_save_config,
}
use code_samples.GmailCalendar.Oauth.Flow.{
  given, url_text, make_pkce, keep_token, fetch_token, redeem, authorize, with_pair,
  oauth_run_auth_flow, redirect_uri, scope, auth_url, code_body,
}
use code_samples.GmailCalendar.Oauth.Invariant.{IsConfig, length-take}

-- A result whose configuration satisfies the invariant, and has a refresh token if it is a success.
abbrev pub Keeps : Option (Bool × Config) → Type 0
Keeps none = Unit
Keeps (some (done, cfg)) = IsConfig cfg × (done ≡ true → cfg.have_refresh_token ≡ true)

-- A command all of whose results do.
abbrev KeepsAll : Command (Option (Bool × Config)) → Type 0
KeepsAll m = (h : History) → Keeps (m h).0

stopped : (cfg : Config) → IsConfig cfg → Keeps (some (false, cfg))
stopped cfg ok = (ok, λ e. ground arith)

given-KeepsAll :
    {A : Type 0} (stop : Option (Bool × Config)) (o : Option A)
    (k : A → Command (Option (Bool × Config)))
    → Keeps stop
    → ((a : A) → KeepsAll (k a))
    → KeepsAll (given stop o k)
given-KeepsAll stop none k good each h = good
given-KeepsAll stop (some a) k good each h = each a h

-- The same behind a command that comes first.
after-KeepsAll :
    {A : Type 0} (stop : Option (Bool × Config)) (m : Command (Option A))
    (k : A → Command (Option (Bool × Config)))
    → Keeps stop
    → ((a : A) → KeepsAll (k a))
    → KeepsAll (m >>= (λ o. given stop o k))
after-KeepsAll stop m k good each h = given-KeepsAll stop (m h).0 k good each (m h).1

-- The same behind a test.
unless-KeepsAll :
    (b : Bool) (m k : Command (Option (Bool × Config)))
    → KeepsAll m
    → KeepsAll k
    → KeepsAll (if b then m else k)
unless-KeepsAll true m k good each h = good h
unless-KeepsAll false m k good each h = each h

take-nonempty : (n : ℕ) (s : Bytes) → is_empty s ≡ false → is_empty (take (suc n) s) ≡ false
take-nonempty n [] e = ground arith
take-nonempty n (c ∷ s) e = refl

with_token :
    (cfg : Config) (token : Bytes)
    → IsConfig cfg
    → is_empty token ≡ false
    → IsConfig
        (record cfg { refresh_token = copy_string token_max token; have_refresh_token = true })
with_token cfg token ok full = record {
  id_fits = ok.id_fits;
  secret_fits = ok.secret_fits;
  token_fits = omega (arith, length-take 2047 token);
  bundle_fits = ok.bundle_fits;
  path_fits = ok.path_fits;
  port_ok = ok.port_ok;
  has_token = rw (take-nonempty 2046 token full) refl;
}

module _ (p : Platform) (j : Json) (fuel : ℕ) (cfg : Config) (ok : IsConfig cfg) where
  keep_token-KeepsAll : (token : Bytes) → KeepsAll (keep_token p j fuel cfg token)
  unfolding keep_token
  keep_token-KeepsAll token = elim (Bool-cases (is_empty token)) [
    | inl empty ↦ rw empty (λ h. stopped cfg ok)
    | inr full ↦
        let cfg' = record cfg {
          refresh_token = copy_string token_max token;
          have_refresh_token = true;
        } in
        rw full (
          after-KeepsAll none (oauth_save_config p fuel cfg') (λ s. pure (some (s, cfg'))) tt
            (λ s h. (with_token cfg token ok full, λ e. refl)))
  ]

  fetch_token-KeepsAll : (body : Bytes) → KeepsAll (fetch_token p j fuel cfg body)
  unfolding fetch_token
  fetch_token-KeepsAll body =
      after-KeepsAll (some (false, cfg)) _ _ (stopped cfg ok) (λ t. keep_token-KeepsAll t.1)

  redeem-KeepsAll :
      (cid_enc redirect_enc verifier code : Bytes)
      → KeepsAll (redeem p j fuel cfg cid_enc redirect_enc verifier code)
  unfolding redeem
  redeem-KeepsAll cid_enc redirect_enc verifier code =
      let stay = stopped cfg ok in
      given-KeepsAll (some (false, cfg)) (url_text code 1024) _ stay (λ code_enc.
        given-KeepsAll (some (false, cfg)) (url_text cfg.client_secret 256) _ stay (λ cs_enc.
          unless-KeepsAll
            (leb 2048 (length (code_body cid_enc cs_enc code_enc verifier redirect_enc))) _ _
            (λ h. stay) (fetch_token-KeepsAll _)))

  module _ (early : List Query) (wakeups : List Wakeup) where
    authorize-KeepsAll :
        (url cid_enc redirect_enc verifier : Bytes)
        → KeepsAll (authorize p j fuel early wakeups cfg url cid_enc redirect_enc verifier)
    unfolding authorize
    authorize-KeepsAll url cid_enc redirect_enc verifier h =
        after-KeepsAll none (loopback_wait_for_code p cfg.loopback_port early wakeups true 1024) _
          tt
          (λ got.
            given-KeepsAll (some (false, cfg)) got _ (stopped cfg ok)
              (λ code. redeem-KeepsAll cid_enc redirect_enc verifier code))
          (browser url ∷ h)

    with_pair-KeepsAll :
        (verifier challenge : Bytes)
        → KeepsAll (with_pair p j fuel early wakeups cfg verifier challenge)
    unfolding with_pair
    with_pair-KeepsAll verifier challenge =
        let stay = stopped cfg ok in
        given-KeepsAll (some (false, cfg)) (url_text (redirect_uri p cfg) 256) _ stay
          (λ redirect_enc.
            given-KeepsAll (some (false, cfg)) (url_text scope 256) _ stay (λ scope_enc.
              given-KeepsAll (some (false, cfg)) (url_text cfg.client_id 512) _ stay (λ cid_enc.
                unless-KeepsAll
                  (leb 1024 (length (auth_url cid_enc redirect_enc scope_enc challenge))) _ _
                  (λ h. stay) (authorize-KeepsAll _ cid_enc redirect_enc verifier))))

    -- The flow keeps the invariant of the configuration, whatever fails on its way; and if it
    -- succeeds, the configuration has a refresh token, which is not empty.
    pub oauth_run_auth_flow-IsConfig :
        (junk : Bytes) (h : History) (done : Bool) (out : Config)
        → (oauth_run_auth_flow p j fuel junk early wakeups cfg h).0 ≡ some (done, out)
        → IsConfig out
          × ((not done || (out.have_refresh_token && not (is_empty out.refresh_token))) ≡ true)
    unfolding oauth_run_auth_flow
    oauth_run_auth_flow-IsConfig junk h done out e =
        finished _
          (after-KeepsAll (some (false, cfg)) (make_pkce p junk) _ (stopped cfg ok)
            (λ (verifier, challenge). with_pair-KeepsAll verifier challenge) h)
          e
      where
        finished :
            (result : Option (Bool × Config))
            → Keeps result
            → result ≡ some (done, out)
            → IsConfig out
              × ((not done || (out.have_refresh_token && not (is_empty out.refresh_token))) ≡ true)
        finished none keeps same = ground arith
        finished (some (done', out')) (good, has) same =
            let token = good.has_token in (ground arith, ground arith)
