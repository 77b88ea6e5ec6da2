-- ===== src/GmailCalendar/Oauth/Config.antt =====
-- The configuration of oauth.c and oauth.h: what is read from a JSON file and written back.
use code_samples.Base.{
  ℕ, ◌-◌, Bool, true, false, not, ◌||◌, ◌&&◌, Option, none, some, [], ◌∷◌, ◌++◌, leb, if◌then◌else◌,
  Bytes, codes, length, take,
}
use code_samples.Base.Int.{ℤ, pos, negsuc, ltb_ℤ}
use code_samples.GmailCalendar.Json.{Json, Status, error, failed, is_begin_object, is_number}
use code_samples.GmailCalendar.Platform.{Platform, Command, pure, ◌>>=◌}
use code_samples.GmailCalendar.Util.{c_string}
use code_samples.GmailCalendar.Files.{read_file, write_file_secure}

-- `gcal_oauth_t`, its character arrays as the strings in them.
pub record Config : Type 0 where
  pub client_id : Bytes
  pub client_secret : Bytes
  pub refresh_token : Bytes
  pub have_refresh_token : Bool
  pub ca_bundle_path : Bytes
  pub config_path : Bytes
  pub loopback_port : ℤ

-- The sizes of the arrays.
abbrev pub token_max : ℕ
token_max = 2048

abbrev pub client_id_max : ℕ
client_id_max = 256

abbrev pub client_secret_max : ℕ
client_secret_max = 128

abbrev pub path_max : ℕ
path_max = 512

-- `snprintf(dest, cap, "%s", s)`
abbrev pub copy_string : ℕ → Bytes → Bytes
copy_string cap s = take (cap - 1) s

abbrev pub is_empty : Bytes → Bool
is_empty [] = true
is_empty (c ∷ s) = false

module _ (j : Json) where
  open j use {Reader, Token}

  -- The reader after the call, the result and the token.
  unfoldable pub json_root_find : Reader → Bytes → Status × Reader × Token
  json_root_find r name =
      let (rewound, r1) = j.rewind r in
      let (moved, r2) = j.next_token r1 in
      if failed rewound
      then (rewound, r1, j.current r1)
      else if failed moved
      then (moved, r2, j.current r2)
      else if not (is_begin_object (j.kind (j.current r2)))
      then (error j.unexpected_char, r2, j.current r2)
      else j.find_property r2 name

  -- Whether it succeeds, the reader, and the string then in `dest`, which holds `cap` bytes.
  unfoldable pub json_root_get_string : Reader → Bytes → (cap : ℕ) → Bytes → Bool × Reader × Bytes
  unfolding json_root_find c_string
  json_root_get_string r name cap dest =
      let (found, r', token) = json_root_find r name in
      let (good, out) = j.get_string token (cap - 1) dest in
      if failed found
      then (false, r', dest)
      else if good
      then (true, r', c_string out)
      else (false, r', out)

  -- The optional port, if it is a number between 1 and 65535.
  unfoldable pub read_port : Reader → ℤ → ℤ
  unfolding json_root_find
  read_port r port =
      let (found, r', token) = json_root_find r (codes "loopback_port") in
      if failed found || not (is_number (j.kind token)) then port else elim (j.get_int32 token) [
        | none ↦ port
        | some n ↦ if ltb_ℤ (pos 0) n && ltb_ℤ n (pos 65536) then n else port
      ]

  -- The optional fields.
  unfoldable pub read_optional : Reader → Config → Config
  unfolding json_root_get_string read_port
  read_optional r cfg =
      let (has_token, r1, token) =
        json_root_get_string r (codes "refresh_token") token_max cfg.refresh_token in
      let (has_bundle, r2, bundle) =
        json_root_get_string r1 (codes "ca_bundle_path") path_max cfg.ca_bundle_path in
      record cfg {
        refresh_token = token;
        have_refresh_token = if has_token then not (is_empty token) else cfg.have_refresh_token;
        ca_bundle_path = bundle;
        loopback_port = read_port r2 cfg.loopback_port;
      }

  -- The fields of a document, over the defaults; `none` where a required one is missing.
  unfoldable pub read_fields : Reader → Config → Option Config
  unfolding json_root_get_string read_optional
  read_fields r cfg =
      let (has_id, r1, id) =
        json_root_get_string r (codes "client_id") client_id_max cfg.client_id in
      let (has_secret, r2, secret) =
        json_root_get_string r1 (codes "client_secret") client_secret_max cfg.client_secret in
      if not has_id
      then none
      else if not has_secret
      then none
      else some (read_optional r2 (record cfg { client_id = id; client_secret = secret }))

  abbrev pub defaults : Bytes → Config
  defaults path = record {
    client_id = [];
    client_secret = [];
    refresh_token = [];
    have_refresh_token = false;
    ca_bundle_path = codes "/etc/ssl/certs/ca-certificates.crt";
    config_path = copy_string path_max path;
    loopback_port = pos 8765;
  }

  -- The document in the bytes that were read, if any were.
  unfoldable pub parse_config : ℤ → Bytes → Bytes → Option Config
  unfolding read_fields
  parse_config (negsuc n) buf path = none
  parse_config (pos n) buf path = elim (j.reader_init (take n buf)) [
    | none ↦ none
    | some r ↦ read_fields r (defaults path)
  ]

  unfoldable pub oauth_load_config : Platform → Bytes → Command (Option Config)
  unfolding parse_config
  oauth_load_config p path = do r ← read_file p path 8192; pure (parse_config r.ret r.out path)

module _ (p : Platform) where
  -- The text that `snprintf` makes of the configuration. Strings stand in it as they are.
  unfoldable pub config_text : Config → Bytes
  config_text cfg =
      codes "{\n  \"client_id\":     \""
      ++ cfg.client_id
      ++ codes "\",\n  \"client_secret\": \""
      ++ cfg.client_secret
      ++ codes "\",\n  \"refresh_token\": \""
      ++ cfg.refresh_token
      ++ codes "\",\n  \"ca_bundle_path\":\""
      ++ cfg.ca_bundle_path
      ++ codes "\",\n  \"loopback_port\": "
      ++ p.decimal cfg.loopback_port
      ++ codes "\n}\n"

  unfoldable pub oauth_save_config : (fuel : ℕ) → Config → Command (Option Bool)
  unfolding config_text
  oauth_save_config fuel cfg =
      let text = config_text cfg in
      if leb 8192 (length text)
      then pure (some false)
      else write_file_secure p fuel cfg.config_path text
