-- ===== src/GmailCalendar/Loopback/Resources.antt =====
-- The wait gives back its mutex, condition, platform, server and task.
use code_samples.Base.{ℕ, ◌≡◌, ◌≢◌, Bool, true, false, none, some, List, ◌∷◌, arith}
use code_samples.Base.Int.{ℤ}
use code_samples.GmailCalendar.Platform.{
  Platform, History, Resource, mutex, condition, task_platform, server, server_task, held, acquire,
  routed,
}
use code_samples.GmailCalendar.Loopback.{
  Query, Wakeup, handle_all, start, wait_loop, await_code, serve, loopback_wait_for_code,
}

module _ (p : Platform) (port : ℤ) (early : List Query) (wakeups : List Wakeup) (cap : ℕ) where
  abbrev below : List Resource → List Resource
  below rs = server port ∷ task_platform ∷ condition ∷ mutex ∷ rs

  -- The schedule ends the wait.
  abbrev Ends : Type 0
  Ends = wait_loop wakeups false (handle_all early start) ≢ none

  await_code-Closes :
      Ends
      → (h : History) (rs : List Resource) → held h ≡ some (server_task ∷ below rs)
      → held (await_code p port early wakeups cap h).1 ≡ some rs
  unfolding await_code held
  await_code-Closes ends h rs at = ground arith

  serve-Closes :
      Ends
      → (h : History) (rs : List Resource) → held h ≡ some (below rs)
      → held (serve p port early wakeups cap h).1 ≡ some rs
  unfolding serve held
  serve-Closes ends h rs at =
      ground (arith, await_code-Closes ends (acquire server_task ∷ routed true ∷ h) rs)

  -- If the wait ends, `loopback_wait_for_code` gives back all that it acquired, in the reverse
  -- order, whichever of its steps fails, and with a null pointer for a buffer too.
  pub loopback-Balanced :
      (has_buf : Bool)
      → wait_loop wakeups false (handle_all early start) ≢ none
      → (h : History) (rs : List Resource) → held h ≡ some rs
      → held (loopback_wait_for_code p port early wakeups has_buf cap h).1 ≡ some rs
  unfolding loopback_wait_for_code held
  loopback-Balanced has_buf ends h rs at = ground (
    arith,
    serve-Closes ends
        (acquire (server port) ∷ acquire task_platform ∷ acquire condition ∷ acquire mutex ∷ h) rs,
  )
