-- ===== src/GmailCalendar/Platform.antt =====
-- What c/gmail-calendar takes from outside: the operating system, http-c, OpenSSL and the C
-- library. Each call is an event of a history; what a call answers is a field of `Platform`, which
-- may depend on the whole history before the call. A command runs from a history and extends it.
pub mod Willing
use code_samples.Base.{
  ℕ, ◌≡◌, Bool, true, false, Option, none, some, List, [], ◌∷◌, ◌==◌, if◌then◌else◌, Bytes,
}
use code_samples.Base.Int.{ℤ}

-- What is acquired and given back: files, http-c's endpoints, connections and servers, and the
-- objects of the threads.
pub data Resource : Type 0 where
  file : Bytes → Resource
  endpoint : (host : Bytes) (port : ℕ) (ca_bundle_path : Bytes) → Resource
  connection : Resource
  mutex : Resource
  condition : Resource
  task_platform : Resource
  server : (port : ℤ) → Resource
  server_task : Resource

abbrev pub kind : Resource → ℕ
kind (file path) = 0
kind (endpoint host port ca) = 1
kind connection = 2
kind mutex = 3
kind condition = 4
kind task_platform = 5
kind (server port) = 6
kind server_task = 7

-- The newest event stands first in a history.
pub data Event : Type 0 where
  acquire : Resource → Event
  refused : Resource → Event
  release : Resource → Event
  -- A header, and whether it was added.
  header : (name value : Bytes) → Bool → Event
  request : (method path : Bytes) → Event
  sent : Bytes → Bool → Event
  received : Bool → Event
  wrote : Bytes → Event
  write_failed : Event
  renamed : (from to : Bytes) → Bool → Event
  unlinked : Bytes → Event
  read_bytes : Bytes → Event
  browser : (url : Bytes) → Event
  random : ℕ → Event
  routed : Bool → Event
  stopped : Event
  printed : Bytes → Event

abbrev pub History : Type 0
History = List Event

pub record Platform : Type 0 where
  -- Whether a resource is had: open, fopen, http_endpoint_init, pthread_mutex_init and so on.
  pub acquires : History → Resource → Bool
  -- Whether close(2) of a file reports no error.
  pub closes : History → Bool
  -- The result of write(2), given what is offered.
  pub writes : History → Bytes → ℤ
  pub renames : History → Bytes → Bytes → Bool
  -- The bytes that fread gives, at most as many as asked, and what ferror says.
  pub reads : History → ℕ → Bytes × Bool
  pub random_bytes : History → ℕ → Option Bytes
  pub headers_init : History → Bool
  -- Whether the buffer of the headers has room for one more.
  pub adds_header : History → Bytes → Bytes → Bool
  pub request_initialize : History → Bool
  pub sends : History → Bytes → Bool
  -- The status code and the body of the response, if one is received.
  pub receives : History → ℕ → Option (Bytes × Bytes)
  pub adds_route : History → Bool
  pub sha256 : Bytes → Bytes
  pub encode_block : Bytes → Option Bytes
  -- What strftime makes of the time in UTC, for iso8601_utc_now.
  pub utc_now : History → Bytes
  -- `%d` and `%u` of printf.
  pub decimal : ℤ → Bytes

abbrev pub Command : Type 0 → Type 0
Command A = History → A × History

abbrev pub pure : {A : Type 0} → A → Command A
pure a h = (a, h)

abbrev pub emit : Event → Command (Unit {0})
emit e h = (tt, e ∷ h)

-- The answer to a call, which sees the history before it.
abbrev pub ask : {A : Type 0} → (History → A) → Command A
ask f h = (f h, h)

module _ {A B : Type 0} where
  infixl 5 ◌>>=◌ ◌>>◌
  abbrev pub ◌>>=◌ : Command A → (A → Command B) → Command B
  m >>= k = λ h. k (m h).0 (m h).1

  abbrev pub ◌>>◌ : Command A → Command B → Command B
  m >> k = λ h. k (m h).1

-- Tries to have a resource, and says whether it was had.
abbrev pub obtain : Platform → Resource → Command Bool
obtain p r h = (p.acquires h r, (if p.acquires h r then acquire r else refused r) ∷ h)

-- The resources held after a history, the newest first; `none` if a resource was given back that
-- was not the newest held, or a message was exchanged without a connection.
unfoldable pub after_event : Event → List Resource → Option (List Resource)
after_event (acquire r) rs = some (r ∷ rs)
after_event (release r) [] = none
after_event (release r) (q ∷ rs) = if kind q == kind r then some rs else none
after_event (sent body done) [] = none
after_event (sent body done) (q ∷ rs) = if kind q == kind connection then some (q ∷ rs) else none
after_event (received done) [] = none
after_event (received done) (q ∷ rs) = if kind q == kind connection then some (q ∷ rs) else none
after_event e rs = some rs

unfoldable pub held : History → Option (List Resource)
unfolding after_event
held [] = some []
held (e ∷ h) = elim (held h) [ none ↦ none | some rs ↦ after_event e rs ]

-- A command gives back all that it acquires, in the reverse order, and uses connections only while
-- it has them.
abbrev pub Balanced : {A : Type 0} → Command A → Type 0
Balanced m = (h : History) (rs : List Resource) → held h ≡ some rs → held (m h).1 ≡ some rs
