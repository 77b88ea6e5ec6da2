-- ===== src/GmailCalendar/Http.antt =====
-- c/gmail-calendar/src/http_helper.c: one HTTPS request and its response.
mod Examples
pub mod Status
pub mod Resources
use code_samples.Base.{
  ℕ, zero, suc, ◌+◌, ◌-◌, ◌*◌, Bool, true, false, not, ◌||◌, ◌&&◌, Option, none, some, [], ◌∷◌,
  ◌++◌, ◌==◌, leb, ltb, if◌then◌else◌, Bytes, codes, length,
}
use code_samples.Base.Int.{ℤ, pos, negsuc}
use code_samples.GmailCalendar.Platform.{
  Platform, endpoint, connection, acquire, release, header, request, sent, received, Command, pure,
  emit, ask, obtain, ◌>>=◌, ◌>>◌,
}

-- The loop of `parse_status_code`, with the value so far. A digit string too long for an `int` is
-- undefined in C; here the value is exact.
unfoldable pub status_loop : ℕ → Bytes → ℤ
status_loop v [] = pos v
status_loop v (c ∷ s) =
    let rest = status_loop (v * 10 + (c - b'0')) s in
    if ltb c b'0' || ltb b'9' c then negsuc 0 else rest

unfoldable pub parse_status_code : Bytes → ℤ
unfolding status_loop
parse_status_code code = status_loop 0 code

-- `http_helper_req_t`
pub record HttpRequest : Type 0 where
  pub host : Bytes
  pub port : ℕ
  pub ca_bundle_path : Bytes
  pub method : Bytes
  pub path : Bytes
  pub bearer_token : Option Bytes
  pub body : Bytes
  pub content_type : Bytes

-- `http_helper_resp_t`
pub record HttpResponse : Type 0 where
  pub status : ℤ
  pub body : Bytes

abbrev pub Reply : Type 0
Reply = ℕ × Option HttpResponse

-- The value that `snprintf(auth_buf, 512, "Bearer %s", …)` makes, if there is a token.
abbrev pub authorization : Bytes → Bytes
authorization token = codes "Bearer " ++ token

abbrev pub has_token : Option Bytes → Bool
has_token none = false
has_token (some []) = false
has_token (some (c ∷ s)) = true

abbrev pub token_of : Option Bytes → Bytes
token_of none = []
token_of (some s) = s

module _ (p : Platform) where
  -- http_connection_close and http_endpoint_deinit, and the code returned.
  unfoldable pub hang_up : HttpRequest → Reply → Command Reply
  hang_up req reply = do
    emit (release connection)
    emit (release (endpoint req.host req.port req.ca_bundle_path))
    pure reply

  -- Sending the request and receiving the response.
  unfoldable pub exchange : HttpRequest → (recv_size : ℕ) → Command Reply
  unfolding hang_up parse_status_code
  exchange req recv_size = do
    emit (request req.method req.path)
    made ← ask p.request_initialize
    if not made then hang_up req (5, none) else do
      done ← ask (λ h. p.sends h req.body)
      emit (sent req.body done)
      if not done then hang_up req (6, none) else do
        response ← ask (λ h. p.receives h recv_size)
        elim response [
          | none ↦ emit (received false) >> hang_up req (7, none)
          | some (code, body) ↦
              emit (received true)
              >> hang_up req (0, some (record { status = parse_status_code code; body = body }))
        ]

  -- http_headers_add, whose result is not looked at.
  unfoldable pub add_header : (name value : Bytes) → Command (Unit {0})
  add_header name value = do
    added ← ask (λ h. p.adds_header h name value)
    emit (header name value added)

  -- The headers of the body, if there is one.
  unfoldable pub body_headers : HttpRequest → Command (Unit {0})
  unfolding add_header
  body_headers req =
      if ltb 0 (length req.body)
      then (do
        add_header (codes "Content-Length") (p.decimal (pos (length req.body)))
        add_header (codes "Content-Type") req.content_type)
      else pure tt

  -- The request's headers, in a connection.
  unfoldable pub prepare : HttpRequest → (recv_size : ℕ) → Command Reply
  unfolding exchange add_header body_headers hang_up
  prepare req recv_size = do
    add_header (codes "Host") req.host
    add_header (codes "User-Agent") (codes "gcal-c-sample/1.0")
    add_header (codes "Accept") (codes "application/json")
    add_header (codes "Connection") (codes "close")
    let auth = authorization (token_of req.bearer_token)
    if has_token req.bearer_token && leb 512 (length auth) then hang_up req (4, none) else do
      if has_token req.bearer_token then add_header (codes "Authorization") auth else pure tt
      body_headers req
      exchange req recv_size

  unfoldable pub http_helper_do : HttpRequest → (recv_size : ℕ) → Command Reply
  unfolding prepare hang_up
  http_helper_do req recv_size = do
    let e = endpoint req.host req.port req.ca_bundle_path
    ready ← obtain p e
    if not ready then pure (1, none) else do
      connected ← obtain p connection
      if not connected then (do emit (release e); pure (2, none)) else do
        headers ← ask p.headers_init
        if not headers then hang_up req (3, none) else prepare req recv_size
