-- ===== src/GmailCalendar/Oauth/Examples.antt =====
-- The theorems on oauth.c at a platform on which all calls succeed, with a reader that answers
-- each property with its name.
use code_samples.Base.{
  ◌≡◌, ◌≢◌, ◌≤◌, refl, Bool, true, false, not, ◌||◌, ◌&&◌, Option, none, some, List, [], ◌∷◌, arith,
  Bytes, codes, replicate,
}
use code_samples.Base.Int.{pos}
use code_samples.GmailCalendar.Json.Echo.{echo}
use code_samples.GmailCalendar.Platform.{held}
use code_samples.GmailCalendar.Platform.Willing.{willing}
use code_samples.GmailCalendar.Loopback.{Query, Wakeup}
use code_samples.GmailCalendar.Oauth.Config.{
  Config, defaults, is_empty, oauth_load_config, oauth_save_config,
}
use code_samples.GmailCalendar.Oauth.Flow.{oauth_get_access_token, oauth_run_auth_flow}
use code_samples.GmailCalendar.Oauth.Resources.{
  oauth_load_config-Balanced, oauth_run_auth_flow-Balanced,
}
use code_samples.GmailCalendar.Oauth.Invariant.{
  IsConfig, FitsRoom, length-take, oauth_load_config-IsConfig,
}
use code_samples.GmailCalendar.Oauth.Session.{oauth_run_auth_flow-IsConfig}

abbrev wakeups : List Wakeup
wakeups =
    record { handled = record { code = codes "4/abc"; error = [] } ∷ []; timed_out = false } ∷ []

abbrev junk : Bytes
junk = replicate 64 0

abbrev config : Config
config = record (defaults echo (codes "config.json")) { client_id = codes "id" }

echo-FitsRoom : FitsRoom echo
echo-FitsRoom t room dest fits = length-take room t.1

abbrev loaded : Option Config
loaded = (oauth_load_config echo willing (codes "config.json") []).0

oauth_run_auth_flow-Balanced_example :
    held (oauth_run_auth_flow willing echo 8192 junk [] wakeups config []).1 ≡ some []
unfolding held code_samples.GmailCalendar.Loopback.wait_loop
oauth_run_auth_flow-Balanced_example =
    oauth_run_auth_flow-Balanced willing echo 8192 junk [] wakeups (omega arith) (ground arith)
      config [] [] refl

oauth_load_config-Balanced_example :
    held (oauth_load_config echo willing (codes "config.json") []).1 ≡ some []
unfolding held
oauth_load_config-Balanced_example =
    oauth_load_config-Balanced willing echo (codes "config.json") [] [] refl

-- The configuration that is loaded, with every string the name of its property.
abbrev echoed : Config
echoed = record {
  client_id = codes "client_id";
  client_secret = codes "client_secret";
  refresh_token = codes "refresh_token";
  have_refresh_token = true;
  ca_bundle_path = codes "ca_bundle_path";
  config_path = codes "config.json";
  loopback_port = pos 8080;
}

oauth_load_config-IsConfig_example : IsConfig echoed
unfolding oauth_load_config code_samples.GmailCalendar.Files.read_file
oauth_load_config-IsConfig_example =
    oauth_load_config-IsConfig echo echo-FitsRoom willing (codes "config.json") [] echoed refl

echoed-IsConfig : IsConfig echoed
echoed-IsConfig = record {
  id_fits = omega arith;
  secret_fits = omega arith;
  token_fits = omega arith;
  bundle_fits = omega arith;
  path_fits = omega arith;
  port_ok = (refl, refl);
  has_token = refl;
}

-- The flow runs through: the code is delivered, and the tokens are exchanged and saved.
succeeds : (oauth_run_auth_flow willing echo 8192 junk [] wakeups echoed []).0 ≡ some (true, echoed)
unfolding code_samples.Base.Int.to_int code_samples.GmailCalendar.Util.url_encode
    code_samples.GmailCalendar.Http.http_helper_do
    code_samples.GmailCalendar.Loopback.loopback_wait_for_code oauth_run_auth_flow
    code_samples.GmailCalendar.Oauth.Flow.make_pkce code_samples.GmailCalendar.Oauth.Flow.pkce_pair
    code_samples.GmailCalendar.Oauth.Flow.with_pair
    code_samples.GmailCalendar.Oauth.Flow.redirect_uri
    code_samples.GmailCalendar.Oauth.Flow.auth_url code_samples.GmailCalendar.Oauth.Flow.authorize
    code_samples.GmailCalendar.Oauth.Flow.redeem code_samples.GmailCalendar.Oauth.Flow.code_body
    code_samples.GmailCalendar.Oauth.Flow.fetch_token
    code_samples.GmailCalendar.Oauth.Flow.token_endpoint_post
    code_samples.GmailCalendar.Oauth.Flow.keep_token oauth_save_config
    code_samples.GmailCalendar.Files.after_loop code_samples.GmailCalendar.Files.after_write
    code_samples.GmailCalendar.Files.finish_write code_samples.GmailCalendar.Files.write_file_secure
    code_samples.GmailCalendar.Files.write_loop
succeeds = refl

oauth_run_auth_flow-IsConfig_example :
    IsConfig echoed
    × ((not true || (echoed.have_refresh_token && not (is_empty echoed.refresh_token))) ≡ true)
oauth_run_auth_flow-IsConfig_example =
    oauth_run_auth_flow-IsConfig willing echo 8192 echoed echoed-IsConfig [] wakeups junk [] true
      echoed succeeds
