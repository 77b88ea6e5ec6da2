-- ===== src/GmailCalendar/Calendar.antt =====
-- c/gmail-calendar/src/calendar.c: the listing of the upcoming events. The loops over the tokens
-- run on fuel; `for_each` is json_reader_for_each_array_element of common_lib_c.
pub mod Fits
pub mod Listing
mod Examples
use code_samples.Base.{
  ℕ, zero, suc, ◌+◌, ◌-◌, Bool, true, false, not, ◌||◌, ◌&&◌, Option, none, some, [], ◌∷◌, ◌++◌,
  if◌then◌else◌, Bytes, codes, take,
}
use code_samples.Base.Int.{ℤ, pos, negsuc}
use code_samples.GmailCalendar.Json.{
  Json, Status, ok, error, failed, is_begin_object, is_end_object, is_begin_array, is_property_name,
  is_text,
}
use code_samples.GmailCalendar.Platform.{Platform, printed, Command, pure, emit, ask, ◌>>=◌, ◌>>◌}
use code_samples.GmailCalendar.Util.{c_string}
use code_samples.GmailCalendar.Http.{HttpRequest, HttpResponse, http_helper_do}
use code_samples.GmailCalendar.Oauth.Config.{Config, is_empty}
use code_samples.GmailCalendar.Oauth.Flow.{given, is_success}

-- `event_t`, its character arrays as the strings in them.
pub record CalendarEvent : Type 0 where
  pub summary : Bytes
  pub start : Bytes
  pub end : Bytes
  pub location : Bytes

-- `event_t e = {0}`
abbrev pub no_event : CalendarEvent
no_event = record { summary = []; start = []; end = []; location = [] }

abbrev pub summary_max : ℕ
summary_max = 256

abbrev pub time_max : ℕ
time_max = 64

abbrev pub location_max : ℕ
location_max = 256

module _ (j : Json) where
  open j use {Reader, Token}

  unfoldable pub copy_string_token : Token → Bytes → (cap : ℕ) → Bytes
  unfolding c_string
  copy_string_token tok dest cap =
      let (good, out) = j.get_string tok (cap - 1) dest in if good then c_string out else out

  -- What follows a call of the reader, which returns at once if the call fails.
  abbrev pub attempt :
      {A : Type 0}
      → A
      → Status × Reader
      → (Reader → Option (Status × Reader × A))
      → Option (Status × Reader × A)
  attempt a (ok, r) k = k r
  attempt a (error code, r) k = some (error code, r, a)

  -- The rest of a start or end object is skipped.
  unfoldable pub skip_rest : {A : Type 0} (fuel : ℕ) → A → Reader → Option (Status × Reader × A)
  skip_rest zero a r = none
  skip_rest (suc k) a r = attempt a (j.next_token r) (λ r1.
      elim (is_end_object (j.kind (j.current r1))) [
        | true ↦ some (ok, r1, a)
        | false ↦ elim (is_property_name (j.kind (j.current r1))) [
          | true ↦
              attempt a (j.next_token r1)
                (λ r2. attempt a (j.skip_children r2) (λ r3. skip_rest k a r3))
          | false ↦ skip_rest k a r1
        ]
      ])

  -- `dest` is `start` or `end`.
  abbrev pub put_time : Bool → Bytes → CalendarEvent → CalendarEvent
  put_time is_start text e = if is_start then record e { start = text } else record e { end = text }

  abbrev pub time_of : Bool → CalendarEvent → Bytes
  time_of is_start e = if is_start then e.start else e.end

  -- The object of a start or an end: its dateTime, or "(all-day)" if it has none.
  unfoldable pub read_time :
      (fuel : ℕ) → Bool → Reader → CalendarEvent → Option (Status × Reader × CalendarEvent)
  unfolding skip_rest copy_string_token
  read_time fuel is_start r e =
      let (found, r1, tok) = j.find_property r (codes "dateTime") in
      if failed found
      then some (ok, r1, put_time is_start (codes "(all-day)") e)
      else skip_rest fuel
          (put_time is_start (copy_string_token tok (time_of is_start e) time_max) e) r1

  -- The value of a property, at which the reader stands.
  unfoldable pub read_value :
      (fuel : ℕ) → Token → Reader → CalendarEvent → Option (Status × Reader × CalendarEvent)
  unfolding read_time copy_string_token
  read_value fuel name r e =
      let is_summary = j.is_text_equal name (codes "summary") in
      let is_location = j.is_text_equal name (codes "location") in
      let is_start = j.is_text_equal name (codes "start") in
      let is_end = j.is_text_equal name (codes "end") in
      let token = j.current r in
      if is_summary && is_text (j.kind token)
      then some (ok, r, record e { summary = copy_string_token token e.summary summary_max })
      else if is_location && is_text (j.kind token)
      then some (ok, r, record e { location = copy_string_token token e.location location_max })
      else if (is_start || is_end) && is_begin_object (j.kind token)
      then read_time fuel is_start r e
      else attempt e (j.skip_children r) (λ r1. some (ok, r1, e))

  -- What follows the value of a property.
  abbrev pub and_then :
      Option (Status × Reader × CalendarEvent)
      → (Reader → CalendarEvent → Option (Status × Reader × CalendarEvent))
      → Option (Status × Reader × CalendarEvent)
  and_then none k = none
  and_then (some (ok, r, e)) k = k r e
  and_then (some (error code, r, e)) k = some (error code, r, e)

  -- Every property of the event object; `none` for lack of fuel.
  unfoldable pub visit_loop :
      (fuel : ℕ) → Reader → CalendarEvent → Option (Status × Reader × CalendarEvent)
  visit_loop zero r e = none
  visit_loop (suc k) r e = attempt e (j.next_token r) (λ r1.
      let name = j.current r1 in
      elim (is_end_object (j.kind name)) [
        | true ↦ some (ok, r1, e)
        | false ↦ elim (is_property_name (j.kind name)) [
          | false ↦ some (error j.unexpected_char, r1, e)
          | true ↦
              attempt e (j.next_token r1)
                (λ r2. and_then (read_value k name r2 e) (λ r3 e'. visit_loop k r3 e'))
        ]
      ])

module _ (p : Platform) (j : Json) where
  -- A line is printed where the string is not empty.
  unfoldable pub print_if : Bytes → Bytes → Command (Unit {0})
  print_if label s = if is_empty s then pure tt else emit (printed (label ++ s ++ codes "\n"))

  unfoldable pub print_event : (index : ℕ) → CalendarEvent → Command (Unit {0})
  unfolding print_if
  print_event index e = do
    let title = if is_empty e.summary then codes "(no title)" else e.summary
    emit (printed (codes "  [" ++ p.decimal (pos (index + 1)) ++ codes "] " ++ title ++ codes "\n"))
    print_if (codes "       start: ") e.start
    print_if (codes "       end:   ") e.end
    print_if (codes "       at:    ") e.location

  -- The event is printed if its object was read to the end.
  unfoldable pub show :
      (index : ℕ)
      → Option (Status × j.Reader × CalendarEvent)
      → Command (Option (Status × j.Reader))
  unfolding print_event
  show index none = pure none
  show index (some (ok, r, e)) = do print_event index e; pure (some (ok, r))
  show index (some (error code, r, e)) = pure (some (error code, r))

  unfoldable pub visit_event :
      (fuel : ℕ) → j.Reader → (index : ℕ) → Command (Option (Status × j.Reader))
  unfolding visit_loop show
  visit_event fuel r index =
      if not (is_begin_object (j.kind (j.current r)))
      then pure (some (ok, r))
      else show index (visit_loop j fuel r no_event)

  unfoldable pub events_path : (now : Bytes) → (max_events : ℤ) → Bytes
  events_path now max_events = take 511 (
      codes "/calendar/v3/calendars/primary/events?timeMin="
      ++ now
      ++ codes "&singleEvents=true&orderBy=startTime&maxResults="
      ++ p.decimal max_events)

  abbrev pub events_request : Config → (token path : Bytes) → HttpRequest
  events_request cfg token path = record {
    host = codes "www.googleapis.com";
    port = 443;
    ca_bundle_path = cfg.ca_bundle_path;
    method = codes "GET";
    path = path;
    bearer_token = some token;
    body = [];
    content_type = [];
  }

  -- The reader at the array of the events, if the response has one.
  unfoldable pub find_items : Bytes → Option j.Reader
  find_items body = elim (j.reader_init body) [
    | none ↦ none
    | some r ↦
        let (moved, r1) = j.next_token r in
        let (found, r2, items) = j.find_property r1 (codes "items") in
        if failed moved || not (is_begin_object (j.kind (j.current r1)))
        then none
        else if failed found || not (is_begin_array (j.kind (j.current r2)))
        then none
        else some r2
  ]

  -- Whether the walk over the array ended well; `none` if it did not end.
  abbrev pub walked : Option (Status × j.Reader) → Option Bool
  walked none = none
  walked (some (status, r)) = some (not (failed status))

  module _
      (for_each : j.Reader
        → (j.Reader → ℕ → Command (Option (Status × j.Reader)))
        → Command (Option (Status × j.Reader))) where
    -- The events of a response are printed.
    unfoldable pub list_items : (fuel : ℕ) → (now : Bytes) → HttpResponse → Command (Option Bool)
    list_items fuel now resp =
        if not (is_success resp.status)
        then pure (some false)
        else given (some false) (find_items resp.body) (λ r. do
          emit (
              printed
                (codes "\nUpcoming events from primary calendar (" ++ now ++ codes " onward):\n"))
          result ← for_each r (visit_event fuel)
          pure (walked result))

    unfoldable pub calendar_list_events :
        (fuel : ℕ) → Config → (access_token : Bytes) → (max_events : ℤ) → Command (Option Bool)
    calendar_list_events fuel cfg access_token max_events = do
      now ← ask p.utc_now
      (code, response) ←
          http_helper_do p (events_request cfg access_token (events_path now max_events)) 65536
      given (some false) response (λ resp. list_items fuel now resp)
