-- ===== src/GmailCalendar/Main/Examples.antt =====
-- The whole program at a platform on which all calls succeed.
use code_samples.Base.{
  ℕ, ◌≡◌, refl, true, false, Option, none, some, List, [], ◌∷◌, arith, Bytes, codes, replicate,
}
use code_samples.GmailCalendar.Json.{Status}
use code_samples.GmailCalendar.Json.Echo.{echo}
use code_samples.GmailCalendar.Platform.{Command, held}
use code_samples.GmailCalendar.Platform.Willing.{willing}
use code_samples.GmailCalendar.Loopback.{Query, Wakeup}
use code_samples.GmailCalendar.Main.{main, parse_args}
use code_samples.GmailCalendar.Main.Exit.{main-Balanced}

abbrev wakeups : List Wakeup
wakeups =
    record { handled = record { code = codes "4/abc"; error = [] } ∷ []; timed_out = false } ∷ []

abbrev visit_one :
    Bytes → (Bytes → ℕ → Command (Option (Status × Bytes))) → Command (Option (Status × Bytes))
visit_one r visit h = visit r 0 h

asks_to_authorize : parse_args (codes "--auth" ∷ []) ≡ some true
unfolding parse_args
asks_to_authorize = refl

asks_for_nothing_known : parse_args (codes "--help" ∷ []) ≡ none
unfolding parse_args
asks_for_nothing_known = refl

main-Balanced_example :
    held (main willing echo visit_one 8192 (replicate 64 0) [] wakeups (codes "--auth" ∷ []) []).1
    ≡ some []
unfolding held code_samples.GmailCalendar.Loopback.wait_loop
main-Balanced_example =
    main-Balanced willing echo visit_one (λ r visit good. good r 0) 8192 (replicate 64 0) [] wakeups
      (omega arith) (ground arith) (codes "--auth" ∷ []) [] [] refl
