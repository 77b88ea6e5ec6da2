-- ===== src/GmailCalendar/Http/Examples.antt =====
-- One request against platforms that answer and that refuse, and the theorems there.
use code_samples.Base.{◌≡◌, ◌≤◌, refl, false, none, some, [], arith, Bytes, codes, replicate}
use code_samples.Base.Int.{pos}
use code_samples.GmailCalendar.Platform.{Platform}
use code_samples.GmailCalendar.Platform.Willing.{willing}
use code_samples.GmailCalendar.Http.{HttpRequest, http_helper_do}
use code_samples.GmailCalendar.Http.Resources.{long_token_fails}

abbrev post : HttpRequest
post = record {
  host = codes "example.org";
  port = 443;
  ca_bundle_path = codes "/ca";
  method = codes "POST";
  path = codes "/token";
  bearer_token = none;
  body = codes "ab";
  content_type = codes "text/plain";
}

abbrev long_token : Bytes
long_token = replicate 600 b'x'

http_helper_do_runs :
    (http_helper_do willing post 100 []).0
    ≡ (0, some (record { status = pos 200; body = codes "{}" }))
unfolding http_helper_do
http_helper_do_runs = refl

long_token_fails_example :
    let (code, response) =
      (http_helper_do willing (record post { bearer_token = some long_token }) 100 []).0 in
    (1 ≤ code) × (code ≤ 4) × (response ≡ none)
long_token_fails_example =
    long_token_fails willing (record post { bearer_token = some long_token }) 100 [] long_token refl
      (omega arith)

-- A buffer that has no room for any header.
abbrev no_room : Platform
no_room = record willing { adds_header = λ h name value. false }

abbrev with_token : HttpRequest
with_token = record post { bearer_token = some (codes "abc") }
