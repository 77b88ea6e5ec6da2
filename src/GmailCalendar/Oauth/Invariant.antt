-- ===== src/GmailCalendar/Oauth/Invariant.antt =====
-- The invariant of the configuration: its strings fit their arrays, its port is one, and a refresh
-- token that it claims to have is there. oauth_load_config establishes it and
-- oauth_run_auth_flow keeps it.
use code_samples.Base.{
  ℕ, zero, suc, ◌-◌, ◌<◌, ◌≤◌, ◌≡◌, refl, Bool, true, false, not, ◌||◌, Option, none, some, [], ◌∷◌,
  length, take, arith, Bytes, codes, Option-cases, inl, inr, if◌then◌else◌,
}
use code_samples.Base.Int.{ℤ, pos, negsuc, ltb_ℤ}
use code_samples.GmailCalendar.Json.{Json}
use code_samples.GmailCalendar.Platform.{Platform, History}
use code_samples.GmailCalendar.Util.{c_string}
use code_samples.GmailCalendar.Files.{read_file}
use code_samples.GmailCalendar.Oauth.Config.{
  Config, token_max, client_id_max, client_secret_max, path_max, is_empty, json_root_get_string,
  json_root_find, read_port, read_optional, read_fields, defaults, parse_config, oauth_load_config,
}

abbrev pub IsPort : ℤ → Type 0
IsPort n = ltb_ℤ (pos 0) n ≡ true × ltb_ℤ n (pos 65536) ≡ true

pub record IsConfig (cfg : Config) : Type 0 where
  pub id_fits : length cfg.client_id < client_id_max
  pub secret_fits : length cfg.client_secret < client_secret_max
  pub token_fits : length cfg.refresh_token < token_max
  pub bundle_fits : length cfg.ca_bundle_path < path_max
  pub path_fits : length cfg.config_path < path_max
  pub port_ok : IsPort cfg.loopback_port
  pub has_token : (not cfg.have_refresh_token || not (is_empty cfg.refresh_token)) ≡ true

-- The reader's promise: it leaves no more bytes than the room in a buffer.
abbrev pub FitsRoom : Json → Type 0
FitsRoom j =
    (t : j.Token) (room : ℕ) (dest : Bytes)
    → length dest ≤ room
    → length (j.get_string t room dest).1 ≤ room

pub length-c_string : (s : Bytes) → length (c_string s) ≤ length s
unfolding c_string
length-c_string [] = ground arith
length-c_string (zero ∷ s) = ground arith
length-c_string (suc n ∷ s) = ground (arith, length-c_string s)

module _ (j : Json) (promise : FitsRoom j) where
  length-json_root_get_string :
      (r : j.Reader) (name : Bytes) (cap : ℕ) (dest : Bytes)
      → length dest < cap
      → length (json_root_get_string j r name cap dest).2 < cap
  unfolding json_root_get_string
  length-json_root_get_string r name cap dest fits =
      let token = (json_root_find j r name).2 in
      let out = j.get_string token (cap - 1) dest in
      let bound : length out.1 ≤ cap - 1 = promise token (cap - 1) dest (omega arith) in
      let shorter = length-c_string out.1 in ground arith

read_port-IsPort : (j : Json) (r : j.Reader) (n : ℤ) → IsPort n → IsPort (read_port j r n)
unfolding read_port
read_port-IsPort j r n good =
    let token = (json_root_find j r (codes "loopback_port")).2 in
    elim (Option-cases (j.get_int32 token)) [
      | inl e ↦ rw e (ground arith)
      | inr (m, e) ↦ rw e (ground arith)
    ]

pub length-take : (n : ℕ) (s : Bytes) → length (take n s) ≤ n
length-take zero s = ground arith
length-take (suc n) [] = ground arith
length-take (suc n) (c ∷ s) = ground (arith, length-take n s)

defaults-IsConfig : (j : Json) (path : Bytes) → IsConfig (defaults j path)
defaults-IsConfig j path = record {
  id_fits = omega arith;
  secret_fits = omega arith;
  token_fits = omega arith;
  bundle_fits = omega arith;
  path_fits = omega (arith, length-take 511 path);
  port_ok = (refl, refl);
  has_token = refl;
}

-- A token that is claimed behind the read is not empty, if none was claimed before it.
given_token :
    (has : Bool) (token : Bytes) (had : Bool)
    → had ≡ false
    → (not (if has then not (is_empty token) else had) || not (is_empty token)) ≡ true
given_token has token had unset = ground arith

chosen :
    (a b : Bool) (x out : Config)
    → IsConfig x
    → (if not a then none else if not b then none else some x) ≡ some out
    → IsConfig out
chosen false b x out ok e = ground arith
chosen true false x out ok e = ground arith
chosen true true x out ok e = ground arith

with_names :
    (cfg : Config) (id secret : Bytes)
    → IsConfig cfg
    → length id < client_id_max
    → length secret < client_secret_max
    → IsConfig (record cfg { client_id = id; client_secret = secret })
with_names cfg id secret ok fits1 fits2 = record {
  id_fits = fits1;
  secret_fits = fits2;
  token_fits = ok.token_fits;
  bundle_fits = ok.bundle_fits;
  path_fits = ok.path_fits;
  port_ok = ok.port_ok;
  has_token = ok.has_token;
}

module _ (j : Json) (promise : FitsRoom j) where
  read_optional-IsConfig :
      (r : j.Reader) (cfg : Config)
      → IsConfig cfg
      → cfg.have_refresh_token ≡ false
      → IsConfig (read_optional j r cfg)
  unfolding read_optional
  read_optional-IsConfig r cfg ok unset =
      let first = json_root_get_string j r (codes "refresh_token") token_max cfg.refresh_token in
      let r1 = first.1 in
      let second = json_root_get_string j r1 (codes "ca_bundle_path") path_max cfg.ca_bundle_path in
      record {
        id_fits = ok.id_fits;
        secret_fits = ok.secret_fits;
        token_fits = length-json_root_get_string j promise r _ _ _ ok.token_fits;
        bundle_fits = length-json_root_get_string j promise r1 _ _ _ ok.bundle_fits;
        path_fits = ok.path_fits;
        port_ok = read_port-IsPort j second.1 cfg.loopback_port ok.port_ok;
        has_token = given_token first.0 first.2 cfg.have_refresh_token unset;
      }

  read_fields-IsConfig :
      (r : j.Reader) (cfg out : Config)
      → IsConfig cfg
      → cfg.have_refresh_token ≡ false
      → read_fields j r cfg ≡ some out
      → IsConfig out
  unfolding read_fields
  read_fields-IsConfig r cfg out ok unset h =
      let first = json_root_get_string j r (codes "client_id") client_id_max cfg.client_id in
      let r1 = first.1 in
      let second =
        json_root_get_string j r1 (codes "client_secret") client_secret_max cfg.client_secret in
      let fits1 : length first.2 < client_id_max =
        length-json_root_get_string j promise r _ _ _ ok.id_fits in
      let fits2 : length second.2 < client_secret_max =
        length-json_root_get_string j promise r1 _ _ _ ok.secret_fits in
      let cfg' = record cfg { client_id = first.2; client_secret = second.2 } in
      let ok' : IsConfig cfg' = with_names cfg first.2 second.2 ok fits1 fits2 in
      let good = read_optional-IsConfig second.1 cfg' ok' unset in
      chosen first.0 second.0 (read_optional j second.1 cfg') out good h

  parse_config-IsConfig :
      (ret : ℤ) (buf path : Bytes) (cfg : Config)
      → parse_config j ret buf path ≡ some cfg
      → IsConfig cfg
  unfolding parse_config
  parse_config-IsConfig (negsuc n) buf path cfg e = ground arith
  parse_config-IsConfig (pos n) buf path cfg e = parsed (j.reader_init (take n buf)) e
    where
      parsed :
          (start : Option j.Reader)
          → (elim start [ none ↦ none | some r ↦ read_fields j r (defaults j path) ]) ≡ some cfg
          → IsConfig cfg
      parsed none e' = ground arith
      parsed (some r) e' =
          read_fields-IsConfig r (defaults j path) cfg (defaults-IsConfig j path) refl e'

  -- Provided that the JSON reader writes no more into a buffer than the room it is given, a
  -- configuration that is loaded satisfies the invariant.
  pub oauth_load_config-IsConfig :
      (p : Platform) (path : Bytes) (h : History) (cfg : Config)
      → (oauth_load_config j p path h).0 ≡ some cfg
      → IsConfig cfg
  unfolding oauth_load_config
  oauth_load_config-IsConfig p path h cfg e =
      let r = (read_file p path 8192 h).0 in parse_config-IsConfig r.ret r.out path cfg e
