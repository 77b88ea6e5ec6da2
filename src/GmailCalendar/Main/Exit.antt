-- ===== src/GmailCalendar/Main/Exit.antt =====
-- The exit codes of main.c, and what the program gives back before it exits.
use code_samples.Base.{
  ℕ, ◌≡◌, ◌≢◌, ◌≤◌, Bool, true, false, not, ◌||◌, Option, none, some, List, Bytes, codes,
  Bool-cases, inl, inr,
}
use code_samples.Base.Int.{pos}
use code_samples.GmailCalendar.Json.{Json, Status}
use code_samples.GmailCalendar.Platform.{
  Platform, History, Resource, held, Balanced, Command, pure, ◌>>=◌,
}
use code_samples.GmailCalendar.Loopback.{Query, Wakeup, wait_loop, handle_all, start}
use code_samples.GmailCalendar.Oauth.Config.{Config, token_max, oauth_load_config}
use code_samples.GmailCalendar.Oauth.Flow.{given, oauth_get_access_token, oauth_run_auth_flow}
use code_samples.GmailCalendar.Oauth.Resources.{
  oauth_load_config-Balanced, oauth_get_access_token-Balanced, oauth_run_auth_flow-Balanced,
}
use code_samples.GmailCalendar.Calendar.{calendar_list_events}
use code_samples.GmailCalendar.Calendar.Listing.{calendar_list_events-Balanced}
use code_samples.GmailCalendar.Main.{
  parse_args, max_events, listed, list_events, after_flow, with_config, main,
}

module _ (p : Platform) (j : Json)
    (for_each : j.Reader
      → (j.Reader → ℕ → Command (Option (Status × j.Reader)))
      → Command (Option (Status × j.Reader)))
    (only_visits : (r : j.Reader) (visit : j.Reader → ℕ → Command (Option (Status × j.Reader)))
      → ((q : j.Reader) (i : ℕ) → Balanced (visit q i))
      → Balanced (for_each r visit))
    (fuel : ℕ) (junk : Bytes) (early : List Query) (wakeups : List Wakeup) (enough : 8192 ≤ fuel)
    (ends : wait_loop wakeups false (handle_all early start) ≢ none) where
  list_events-Balanced :
      (cfg : Config) → Balanced (list_events p j for_each fuel junk early wakeups cfg)
  unfolding list_events
  list_events-Balanced cfg h rs at =
      let run = oauth_get_access_token p j cfg token_max h in
      fetched run.0 run.1 (oauth_get_access_token-Balanced p j cfg token_max h rs at)
    where
      fetched :
          (token : Option Bytes) (g : History)
          → held g ≡ some rs
          → held
              (given
                (some 3)
                token
                (λ access_token.
                  calendar_list_events p j for_each fuel cfg access_token (pos max_events)
                  >>= (λ result. pure (listed p j for_each fuel junk early wakeups result)))
                g).1
            ≡ some rs
      fetched none g at' = at'
      fetched (some token) g at' =
          calendar_list_events-Balanced p j for_each only_visits fuel cfg token (pos max_events) g
            rs at'

  after_flow-Balanced :
      (do_auth : Bool) (result : Option (Bool × Config))
      → Balanced (after_flow p j for_each fuel junk early wakeups do_auth result)
  unfolding after_flow
  after_flow-Balanced do_auth none h rs at = at
  after_flow-Balanced do_auth (some (false, cfg)) h rs at = at
  after_flow-Balanced true (some (true, cfg)) h rs at = at
  after_flow-Balanced false (some (true, cfg)) h rs at = list_events-Balanced cfg h rs at

  with_config-Balanced :
      (do_auth : Bool) (cfg : Config)
      → Balanced (with_config p j for_each fuel junk early wakeups do_auth cfg)
  unfolding with_config
  with_config-Balanced do_auth cfg h rs at =
      elim (Bool-cases (do_auth || not cfg.have_refresh_token)) [
        | inl flow ↦
            let run = oauth_run_auth_flow p j fuel junk early wakeups cfg h in
            rw flow (
              after_flow-Balanced do_auth run.0 run.1 rs
                (oauth_run_auth_flow-Balanced p j fuel junk early wakeups enough ends cfg h rs at))
        | inr saved ↦ rw saved (list_events-Balanced cfg h rs at)
      ]

  -- Whatever the command line, the files and the servers' answers, the program gives back every
  -- file, connection, server and thread object before it exits, provided that the wait for the
  -- redirect ends, that the write loop has 8192 rounds, and that the walk over an array gives back
  -- all it acquires where the visitor does.
  pub main-Balanced :
      (args : List Bytes) (h : History) (rs : List Resource)
      → held h ≡ some rs
      → held (main p j for_each fuel junk early wakeups args h).1 ≡ some rs
  unfolding main
  main-Balanced args h rs at = parsed (parse_args args)
    where
      loaded :
          (do_auth : Bool) (cfg : Option Config) (g : History)
          → held g ≡ some rs
          → held
              (given
                (some 1)
                cfg
                (λ c. with_config p j for_each fuel junk early wakeups do_auth c)
                g).1
            ≡ some rs
      loaded do_auth none g at' = at'
      loaded do_auth (some cfg) g at' = with_config-Balanced do_auth cfg g rs at'

      parsed :
          (asked : Option Bool)
          → held
              (given
                (some 1)
                asked
                (λ do_auth. oauth_load_config j p (codes "config.json") >>= (λ l.
                  given
                    (some 1)
                    l
                    (λ cfg. with_config p j for_each fuel junk early wakeups do_auth cfg)))
                h).1
            ≡ some rs
      parsed none = at
      parsed (some do_auth) =
          let run = oauth_load_config j p (codes "config.json") h in
          loaded do_auth run.0 run.1 (oauth_load_config-Balanced p j (codes "config.json") h rs at)
