-- ===== src/GmailCalendar/Loopback.antt =====
-- c/gmail-calendar/src/loopback.c: the handler that takes the authorization code out of a request,
-- and the wait for it. The handler runs on the server's thread, under the mutex that the waiting
-- thread gives up in pthread_cond_timedwait: a wakeup lists the requests handled meanwhile.
mod Examples
pub mod Delivery
pub mod Resources
use code_samples.Base.{
  ℕ, ◌+◌, Bool, true, false, not, ◌||◌, ◌&&◌, Option, none, some, List, [], ◌∷◌, ◌==◌, leb, ltb,
  if◌then◌else◌, Bytes, codes, length,
}
use code_samples.Base.Int.{ℤ, pos}
use code_samples.GmailCalendar.Platform.{
  Platform, mutex, condition, task_platform, server, server_task, release, routed, stopped, Command,
  pure, emit, ask, obtain, ◌>>=◌, ◌>>◌,
}

abbrev pub code_max : ℕ
code_max = 1024

-- What http_query_find gives for the parameters `code` and `error` of a request's path; a
-- parameter that is not there gives the empty text.
pub record Query : Type 0 where
  pub code : Bytes
  pub error : Bytes

-- `loopback_ctx_t` without the mutex and the condition.
pub record Context : Type 0 where
  pub received : Bool
  pub success : Bool
  pub code : Bytes

abbrev pub start : Context
start = record { received = false; success = false; code = [] }

-- The part of `oauth_callback_handler` under the mutex.
unfoldable pub take_code : Query → Context → Context
take_code q c =
    if c.received
    then c
    else if ltb 0 (length q.code) && ltb (length q.code) code_max
    then record { received = true; success = true; code = q.code }
    else record c { received = true }

abbrev pub response_html : Bytes
response_html =
    codes
      "<!doctype html><html><body style='font-family:sans-serif'><h2>Authorization received</h2><p>You can close this tab and return to the terminal.</p></body></html>"

pub record Answer : Type 0 where
  pub status : ℕ
  pub content_type : Bytes
  pub content_length : Bytes
  pub body : Bytes

-- The handler: the context after it, and the answer that it fills in, if http_headers_init
-- succeeds and the length fits its buffer of 16 bytes.
unfoldable pub oauth_callback_handler :
    Platform → (headers_ready : Bool) → Query → Context → Context × Option Answer
unfolding take_code
oauth_callback_handler p headers_ready q c =
    let n = p.decimal (pos (length response_html)) in
    (
      take_code q c,
      if not headers_ready || (length n == 0 || leb 16 (length n))
          then none
          else some (record {
            status = 200;
            content_type = codes "text/html; charset=utf-8";
            content_length = n;
            body = response_html;
          }),
    )

-- The requests that are handled while the mutex is free, in order.
unfoldable pub handle_all : List Query → Context → Context
unfolding take_code
handle_all [] c = c
handle_all (q ∷ qs) c = handle_all qs (take_code q c)

-- One return of pthread_cond_timedwait. The deadline, which is `timeout_secs` from the start of the
-- wait, is only passed to that call, which says when it has gone by.
pub record Wakeup : Type 0 where
  pub handled : List Query
  pub timed_out : Bool

-- The waiting loop: whether it timed out, and the context; `none` while it still waits.
unfoldable pub wait_loop : List Wakeup → (timed_out : Bool) → Context → Option (Bool × Context)
unfolding handle_all
wait_loop [] timed_out c = if c.received || timed_out then some (timed_out, c) else none
wait_loop (w ∷ ws) timed_out c =
    let rest = wait_loop ws w.timed_out (handle_all w.handled c) in
    if c.received || timed_out then some (timed_out, c) else rest

-- What is copied into a buffer of `cap` bytes, if anything is.
unfoldable pub delivered : (cap : ℕ) → Context → Option Bytes
delivered cap c =
    if c.received && c.success && ltb 0 (length c.code) && ltb (length c.code) cap
    then some c.code
    else none

module _ (p : Platform) (port : ℤ) where
  unfoldable pub drop_threads : Command (Unit {0})
  drop_threads = do emit (release condition); emit (release mutex)

  unfoldable pub drop_server : Command (Unit {0})
  unfolding drop_threads
  drop_server = do emit (release (server port)); emit (release task_platform); drop_threads

  -- With the server running: the wait, the delivery and the clean-up. `early` are the requests
  -- handled before the wait; the outer `none` means that it still waits.
  unfoldable pub await_code : List Query → List Wakeup → (cap : ℕ) → Command (Option (Option Bytes))
  unfolding wait_loop delivered drop_server
  await_code early wakeups cap = elim (wait_loop wakeups false (handle_all early start)) [
    | none ↦ pure none
    | some (timed_out, c) ↦ do
      emit stopped
      emit (release server_task)
      drop_server
      pure (some (delivered cap c))
  ]

  -- With the server made: its route and its task.
  unfoldable pub serve : List Query → List Wakeup → (cap : ℕ) → Command (Option (Option Bytes))
  unfolding await_code drop_server
  serve early wakeups cap = do
    added ← ask p.adds_route
    emit (routed added)
    if not added then drop_server >> pure (some none) else do
      running ← obtain p server_task
      if not running then drop_server >> pure (some none) else await_code early wakeups cap

  -- The buffer is there, or a null pointer.
  unfoldable pub loopback_wait_for_code :
      List Query → List Wakeup → (has_buf : Bool) → (cap : ℕ) → Command (Option (Option Bytes))
  unfolding serve drop_threads
  loopback_wait_for_code early wakeups has_buf cap =
      if not has_buf || cap == 0 then pure (some none) else do
        has_mutex ← obtain p mutex
        if not has_mutex then pure (some none) else do
          has_condition ← obtain p condition
          if not has_condition then emit (release mutex) >> pure (some none) else do
            has_platform ← obtain p task_platform
            if not has_platform then drop_threads >> pure (some none) else do
              has_server ← obtain p (server port)
              if not has_server
                  then (do emit (release task_platform); drop_threads; pure (some none))
                  else serve early wakeups cap
