-- ===== src/GmailCalendar/Calendar/Listing.antt =====
-- The listing of events: what it prints, and what it gives back.
use code_samples.Base.{
  ℕ, ◌≡◌, refl, Bool, true, false, not, Option, none, some, List, arith, Bytes, Bool-cases,
  Option-cases, inl, inr, if◌then◌else◌,
}
use code_samples.Base.Int.{ℤ}
use code_samples.GmailCalendar.Json.{Json, Status, ok, error, is_begin_object}
use code_samples.GmailCalendar.Platform.{Platform, History, Resource, held, Balanced, Command, pure}
use code_samples.GmailCalendar.Http.{HttpResponse, http_helper_do}
use code_samples.GmailCalendar.Http.Resources.{http_helper_do-Balanced}
use code_samples.GmailCalendar.Oauth.Config.{Config}
use code_samples.GmailCalendar.Oauth.Flow.{given, is_success}
use code_samples.GmailCalendar.Calendar.{
  CalendarEvent, no_event, visit_loop, print_event, show, visit_event, events_request, events_path,
  find_items, list_items, calendar_list_events,
}

module _ (p : Platform) (j : Json) where
  print_event-Balanced : (index : ℕ) (e : CalendarEvent) → Balanced (print_event p j index e)
  unfolding print_event held
  print_event-Balanced index e h rs at = ground arith

  show-Balanced :
      (index : ℕ) (o : Option (Status × j.Reader × CalendarEvent)) → Balanced (show p j index o)
  unfolding show
  show-Balanced index none h rs at = at
  show-Balanced index (some (ok, r, e)) h rs at = print_event-Balanced index e h rs at
  show-Balanced index (some (error code, r, e)) h rs at = at

  visit_event-Balanced :
      (fuel : ℕ) (r : j.Reader) (index : ℕ) → Balanced (visit_event p j fuel r index)
  unfolding visit_event
  visit_event-Balanced fuel r index h rs at =
      elim (Bool-cases (is_begin_object (j.kind (j.current r)))) [
        | inl object ↦ rw object (show-Balanced index (visit_loop j fuel r no_event) h rs at)
        | inr other ↦ rw other at
      ]

  -- An event that cannot be read to its end is not printed: where `visit_event` fails, it
  -- has printed nothing.
  visit_event-silent :
      (fuel : ℕ) (r : j.Reader) (index : ℕ) (h : History) (code : ℕ) (r' : j.Reader)
      → (visit_event p j fuel r index h).0 ≡ some (error code, r')
      → (visit_event p j fuel r index h).1 ≡ h
  unfolding visit_event show
  visit_event-silent fuel r index h code r' =
      tested (is_begin_object (j.kind (j.current r))) (visit_loop j fuel r no_event)
    where
      -- An answer with a failure is one that `show` got.
      tested :
          (b : Bool) (o : Option (Status × j.Reader × CalendarEvent))
          → ((if not b then pure (some (ok, r)) else show p j index o) h).0 ≡ some (error code, r')
          → ((if not b then pure (some (ok, r)) else show p j index o) h).1 ≡ h
      tested false o e = refl
      tested true none e = refl
      tested true (some (ok, q, event)) e = ground arith
      tested true (some (error other, q, event)) e = refl

  module _
      (for_each : j.Reader
        → (j.Reader → ℕ → Command (Option (Status × j.Reader)))
        → Command (Option (Status × j.Reader)))
      (only_visits : (r : j.Reader) (visit : j.Reader → ℕ → Command (Option (Status × j.Reader)))
        → ((q : j.Reader) (i : ℕ) → Balanced (visit q i))
        → Balanced (for_each r visit)) where
    list_items-Balanced :
        (fuel : ℕ) (now : Bytes) (resp : HttpResponse)
        → Balanced (list_items p j for_each fuel now resp)
    unfolding list_items held
    list_items-Balanced fuel now resp h rs at = elim (Bool-cases (is_success resp.status)) [
      | inr bad ↦ rw bad at
      | inl good ↦ elim (Option-cases (find_items p j resp.body)) [
        | inl missing ↦ rw (good, missing) at
        | inr (r, found) ↦
            rw (good, found)
              (only_visits r (visit_event p j fuel) (visit_event-Balanced fuel) _ rs (ground arith))
      ]
    ]

    -- `calendar_list_events` gives back its connection, whatever the platform and the response,
    -- provided that the walk over an array gives back all it acquires where the visitor does.
    pub calendar_list_events-Balanced :
        (fuel : ℕ) (cfg : Config) (access_token : Bytes) (max_events : ℤ) (h : History)
        (rs : List Resource)
        → held h ≡ some rs
        → held (calendar_list_events p j for_each fuel cfg access_token max_events h).1 ≡ some rs
    unfolding calendar_list_events
    calendar_list_events-Balanced fuel cfg access_token max_events h rs at =
        let now = p.utc_now h in
        let req = events_request p j cfg access_token (events_path p j now max_events) in
        let run = http_helper_do p req 65536 h in
        listed run.0.1 run.1 (http_helper_do-Balanced p req 65536 h rs at)
      where
        listed :
            (response : Option HttpResponse) (g : History)
            → held g ≡ some rs
            → held
                (given
                  (some false)
                  response
                  (λ resp. list_items p j for_each fuel (p.utc_now h) resp)
                  g).1
              ≡ some rs
        listed none g at' = at'
        listed (some resp) g at' = list_items-Balanced fuel (p.utc_now h) resp g rs at'
