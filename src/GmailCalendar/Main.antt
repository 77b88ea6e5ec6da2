-- ===== src/GmailCalendar/Main.antt =====
-- c/gmail-calendar/src/main.c: the command line, and the exit code of the program. `args` is argv
-- behind the program's name.
mod Examples
pub mod Exit
use code_samples.Base.{
  ℕ, zero, suc, ◌==◌, Bool, true, false, not, ◌||◌, ◌&&◌, Option, none, some, List, [], ◌∷◌,
  if◌then◌else◌, Bytes, codes,
}
use code_samples.Base.Int.{pos}
use code_samples.GmailCalendar.Json.{Json, Status}
use code_samples.GmailCalendar.Platform.{Platform, Command, pure, ◌>>=◌, ◌>>◌}
use code_samples.GmailCalendar.Loopback.{Query, Wakeup}
use code_samples.GmailCalendar.Oauth.Config.{Config, token_max, oauth_load_config}
use code_samples.GmailCalendar.Oauth.Flow.{given, oauth_get_access_token, oauth_run_auth_flow}
use code_samples.GmailCalendar.Calendar.{calendar_list_events}

-- `strcmp(s, t) == 0`
unfoldable pub same_text : Bytes → Bytes → Bool
same_text [] [] = true
same_text [] (c ∷ t) = false
same_text (c ∷ s) [] = false
same_text (c ∷ s) (d ∷ t) = c == d && same_text s t

-- What the command line asks for: whether to authorize, or nothing for the usage.
unfoldable pub parse_args : List Bytes → Option Bool
unfolding same_text
parse_args [] = some false
parse_args (arg ∷ []) =
    if same_text arg (codes "--auth")
    then some true
    else if same_text arg (codes "--list")
    then some false
    else none
parse_args (arg ∷ other ∷ more) = none

abbrev pub max_events : ℕ
max_events = 10

module _ (p : Platform) (j : Json)
    (for_each : j.Reader
      → (j.Reader → ℕ → Command (Option (Status × j.Reader)))
      → Command (Option (Status × j.Reader)))
    (fuel : ℕ) (junk : Bytes) (early : List Query) (wakeups : List Wakeup) where
  -- The exit code behind the listing; `none` if it does not end.
  abbrev pub listed : Option Bool → Option ℕ
  listed none = none
  listed (some true) = some 0
  listed (some false) = some 4

  -- The access token is fetched, and the events are listed.
  unfoldable pub list_events : Config → Command (Option ℕ)
  list_events cfg = do
    token ← oauth_get_access_token p j cfg token_max
    given (some 3) token (λ access_token. do
      result ← calendar_list_events p j for_each fuel cfg access_token (pos max_events)
      pure (listed result))

  -- Behind the authorization flow.
  unfoldable pub after_flow : (do_auth : Bool) → Option (Bool × Config) → Command (Option ℕ)
  after_flow do_auth none = pure none
  after_flow do_auth (some (false, cfg)) = pure (some 2)
  after_flow do_auth (some (true, cfg)) = if do_auth then pure (some 0) else list_events cfg

  -- With a configuration.
  unfoldable pub with_config : (do_auth : Bool) → Config → Command (Option ℕ)
  with_config do_auth cfg =
      if do_auth || not cfg.have_refresh_token
      then (do
        result ← oauth_run_auth_flow p j fuel junk early wakeups cfg
        after_flow do_auth result)
      else list_events cfg

  -- The exit code; `none` if the program does not end.
  unfoldable pub main : (args : List Bytes) → Command (Option ℕ)
  unfolding parse_args
  main args = given (some 1) (parse_args args) (λ do_auth. do
    loaded ← oauth_load_config j p (codes "config.json")
    given (some 1) loaded (λ cfg. with_config do_auth cfg))
