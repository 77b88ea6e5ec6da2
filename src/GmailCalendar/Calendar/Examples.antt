-- ===== src/GmailCalendar/Calendar/Examples.antt =====
-- The theorems on calendar.c at a reader that walks over a list of tokens.
use code_samples.Base.{
  ℕ, ◌==◌, ◌≡◌, refl, Bool, true, false, ◌&&◌, Option, none, some, List, [], ◌∷◌, take, Bytes,
  codes,
}
use code_samples.Base.Int.{pos}
use code_samples.GmailCalendar.Json.{
  Json, Status, ok, error, Kind, begin_object, end_object, begin_array, property_name, text, other,
}
use code_samples.GmailCalendar.Platform.{Command}
use code_samples.GmailCalendar.Platform.Willing.{willing}
use code_samples.GmailCalendar.Oauth.Config.{Config}
use code_samples.GmailCalendar.Oauth.Invariant.{FitsRoom, length-take}
use code_samples.GmailCalendar.Calendar.{
  CalendarEvent, no_event, visit_loop, visit_event, calendar_list_events,
}
use code_samples.GmailCalendar.Calendar.Fits.{Fits, visit_loop-Fits}

abbrev same : Bytes → Bytes → Bool
same [] [] = true
same [] (c ∷ t) = false
same (c ∷ s) [] = false
same (c ∷ s) (d ∷ t) = c == d && same s t

abbrev Tape : Type 0
Tape = List (Kind × Bytes)

abbrev head : Tape → Kind × Bytes
head [] = (other, [])
head (t ∷ r) = t

abbrev tail : Tape → Status × Tape
tail [] = (error 1, [])
tail (t ∷ r) = (ok, r)

-- A document is always this one; no object has a dateTime.
abbrev walker : Json
walker = record {
  Reader = Tape;
  Token = Kind × Bytes;
  unexpected_char = 9;
  reader_init = λ s. some ((other, []) ∷ (begin_object, []) ∷ (begin_array, []) ∷ []);
  rewind = λ r. (ok, r);
  next_token = tail;
  skip_children = λ r. (ok, r);
  current = head;
  kind = λ t. t.0;
  find_property = λ r name. ((tail r).0, (tail r).1, head (tail r).1);
  get_string = λ t room dest. (true, take room t.1);
  get_int32 = λ t. none;
  is_text_equal = λ t s. same t.1 s;
}

walker-FitsRoom : FitsRoom walker
walker-FitsRoom t room dest fits = length-take room t.1

-- An event with a title, and one that breaks off.
abbrev lunch : Tape
lunch =
    (begin_object, [])
    ∷ (property_name, codes "summary")
    ∷ (text, codes "Lunch")
    ∷ (end_object, [])
    ∷ []

abbrev broken : Tape
broken = (begin_object, []) ∷ (property_name, codes "summary") ∷ (text, codes "Lunch") ∷ []

visit_loop-Fits_example : Fits (record no_event { summary = codes "Lunch" })
unfolding visit_loop code_samples.GmailCalendar.Calendar.read_value
visit_loop-Fits_example =
    visit_loop-Fits walker walker-FitsRoom 5 lunch ((end_object, []) ∷ []) ok
      (record no_event { summary = codes "Lunch" }) refl

-- The walk over an array with one element.
abbrev visit_one :
    Tape → (Tape → ℕ → Command (Option (Status × Tape))) → Command (Option (Status × Tape))
visit_one r visit h = visit lunch 0 h

abbrev config : Config
config = record {
  client_id = codes "id";
  client_secret = codes "secret";
  refresh_token = [];
  have_refresh_token = false;
  ca_bundle_path = codes "/ca";
  config_path = codes "config.json";
  loopback_port = pos 8765;
}

-- The event is listed.
lists :
    (calendar_list_events willing walker visit_one 5 config (codes "token") (pos 10) []).0
    ≡ some true
unfolding calendar_list_events code_samples.GmailCalendar.Http.http_helper_do
    code_samples.GmailCalendar.Calendar.list_items code_samples.GmailCalendar.Calendar.find_items
    visit_event code_samples.GmailCalendar.Calendar.read_value
lists = refl
