-- ===== src/GmailCalendar/Http/Resources.antt =====
-- The endpoint and the connection of `http_helper_do`, and its answers where something does not fit.
use code_samples.Base.{
  ℕ, ◌≤◌, ◌≡◌, true, false, none, some, List, [], ◌∷◌, arith, Bytes, length, is_some, ◌==◌,
}
use code_samples.GmailCalendar.Platform.{
  Platform, History, Resource, held, Command, release, received, sent, request, connection,
  endpoint, header,
}
use code_samples.GmailCalendar.Http.{
  HttpRequest, Reply, http_helper_do, prepare, exchange, hang_up, parse_status_code,
}

module _ (p : Platform) (req : HttpRequest) where
  abbrev opened : List Resource → List Resource
  opened rs = connection ∷ endpoint req.host req.port req.ca_bundle_path ∷ rs

  -- With the connection and the endpoint on top, a command gives both back.
  abbrev Closes : {A : Type 0} → Command A → Type 0
  Closes m = (h : History) (rs : List Resource) → held h ≡ some (opened rs) → held (m h).1 ≡ some rs

  hang_up-Closes : (reply : Reply) → Closes (hang_up p req reply)
  unfolding hang_up held
  hang_up-Closes reply h rs at = ground arith

  exchange-Closes : (n : ℕ) → Closes (exchange p req n)
  unfolding exchange held
  exchange-Closes n h rs at = ground arith

  prepare-Closes : (n : ℕ) → Closes (prepare p req n)
  unfolding prepare held
  prepare-Closes n h rs at = ground arith

-- Whatever the platform answers, `http_helper_do` gives back the endpoint and the connection that
-- it had, in the reverse order, and sends and receives only while it has the connection.
pub http_helper_do-Balanced :
    (p : Platform) (req : HttpRequest) (n : ℕ)
    → (h : History) (rs : List Resource) → held h ≡ some rs
    → held (http_helper_do p req n h).1 ≡ some rs
unfolding http_helper_do held
http_helper_do-Balanced p req n h rs at = ground arith

-- `http_helper_do` returns 0 exactly when it returns a response, and otherwise a code from 1 to 7.
http_helper_do_codes :
    (p : Platform) (req : HttpRequest) (n : ℕ) (h : History)
    → let (code, response) = (http_helper_do p req n h).0 in
      (code ≤ 7) × (is_some response ≡ (code == 0))
unfolding http_helper_do
http_helper_do_codes p req n h = ground arith

-- With a bearer token of 505 bytes or more `http_helper_do` fails, with a code from 1 to 4.
pub long_token_fails :
    (p : Platform) (req : HttpRequest) (n : ℕ) (h : History) (token : Bytes)
    → req.bearer_token ≡ some token
    → 505 ≤ length token
    → let (code, response) = (http_helper_do p req n h).0 in
      (1 ≤ code) × (code ≤ 4) × (response ≡ none)
unfolding http_helper_do
long_token_fails p req n h [] at long = absurd (omega arith)
long_token_fails p req n h (c ∷ s) at long = ground arith

-- The headers that were added, the newest first.
unfoldable pub added_headers : History → List (Bytes × Bytes)
added_headers [] = []
added_headers (header name value true ∷ h) = (name, value) ∷ added_headers h
added_headers (e ∷ h) = added_headers h

-- The request was sent and answered, behind no header that was added since `h`.
abbrev pub Sent : HttpRequest → (h h' : History) → Type 0
Sent req h h' =
    (g : History) × (h'
      ≡ release (endpoint req.host req.port req.ca_bundle_path)
        ∷ release connection
        ∷ received true
        ∷ sent req.body true
        ∷ request req.method req.path
        ∷ g)
    × (added_headers g ≡ added_headers h)

module _ (p : Platform) (req : HttpRequest) (n : ℕ) (code body : Bytes)
    (full : (g : History) (name value : Bytes) → p.adds_header g name value ≡ false)
    (makes : (g : History) → p.request_initialize g ≡ true)
    (sends : (g : History) (s : Bytes) → p.sends g s ≡ true)
    (receives : (g : History) (k : ℕ) → p.receives g k ≡ some (code, body)) where
  abbrev Answers : (Reply × History) → History → Type 0
  Answers run h =
      (run.0 ≡ (0, some (record { status = parse_status_code code; body = body })))
      × Sent req h run.1
