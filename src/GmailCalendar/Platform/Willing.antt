-- ===== src/GmailCalendar/Platform/Willing.antt =====
-- A platform on which every call succeeds, for tests.
use code_samples.Base.{true, false, some, [], codes, replicate, length}
use code_samples.Base.Int.{pos}
use code_samples.GmailCalendar.Platform.{Platform}

-- Every call succeeds, and the server answers 200 with an empty object.
abbrev pub willing : Platform
willing = record {
  acquires = λ h r. true;
  closes = λ h. true;
  writes = λ h bytes. pos (length bytes);
  renames = λ h from to. true;
  reads = λ h n. ([], false);
  random_bytes = λ h n. some (replicate n 7);
  headers_init = λ h. true;
  adds_header = λ h name value. true;
  request_initialize = λ h. true;
  sends = λ h body. true;
  receives = λ h n. some (codes "200", codes "{}");
  adds_route = λ h. true;
  sha256 = λ s. replicate 32 1;
  encode_block = λ s. some s;
  utc_now = λ h. codes "2020-01-01T00:00:00Z";
  decimal = λ n. codes "2";
}
