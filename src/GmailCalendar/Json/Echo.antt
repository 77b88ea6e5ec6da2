-- ===== src/GmailCalendar/Json/Echo.antt =====
-- A reader for tests: in every object, the value of each property is the property's own name.
use code_samples.Base.{true, false, some, Bytes, take}
use code_samples.Base.Int.{pos}
use code_samples.GmailCalendar.Json.{Json, Kind, begin_object, number, ok}

abbrev pub echo : Json
echo = record {
  Reader = Bytes;
  Token = Kind × Bytes;
  unexpected_char = 9;
  reader_init = λ s. some s;
  rewind = λ r. (ok, r);
  next_token = λ r. (ok, r);
  skip_children = λ r. (ok, r);
  current = λ r. (begin_object, r);
  kind = λ t. t.0;
  find_property = λ r name. (ok, r, (number, name));
  get_string = λ t room dest. (true, take room t.1);
  get_int32 = λ t. some (pos 8080);
  is_text_equal = λ t s. false;
}
