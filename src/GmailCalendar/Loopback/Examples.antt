-- ===== src/GmailCalendar/Loopback/Examples.antt =====
-- A wait with a spurious wakeup, a denied request and a code, and the theorems at it.
use code_samples.Base.{◌≡◌, refl, true, false, none, some, List, [], ◌∷◌, arith, codes}
use code_samples.Base.Int.{pos}
use code_samples.GmailCalendar.Platform.{held}
use code_samples.GmailCalendar.Platform.Willing.{willing}
use code_samples.GmailCalendar.Loopback.{
  Query, Wakeup, loopback_wait_for_code, oauth_callback_handler, take_code, start,
}
use code_samples.GmailCalendar.Loopback.Delivery.{loopback-first, first_request, worth}
use code_samples.GmailCalendar.Loopback.Resources.{loopback-Balanced}

abbrev code_query : Query
code_query = record { code = codes "4/abc"; error = [] }

abbrev denied : Query
denied = record { code = []; error = codes "access_denied" }

-- A wakeup without a request, one with the code and a second request, and the time-out.
abbrev wakeups : List Wakeup
wakeups =
    record { handled = []; timed_out = false }
    ∷ record { handled = code_query ∷ denied ∷ []; timed_out = false }
    ∷ record { handled = []; timed_out = true }
    ∷ []

delivers :
    (loopback_wait_for_code willing (pos 8765) [] wakeups true 1024 []).0
    ≡ some (some (codes "4/abc"))
unfolding loopback_wait_for_code
delivers = refl

-- A denial handled first leaves nothing for the code behind it.
denial_first :
    (loopback_wait_for_code willing (pos 8765) (denied ∷ []) wakeups true 1024 []).0 ≡ some none
unfolding loopback_wait_for_code
denial_first = refl

loopback-first_example :
    (loopback_wait_for_code willing (pos 8765) [] wakeups true 1024 []).0
    ≡ some (worth 1024 (first_request [] wakeups))
loopback-first_example =
    loopback-first willing (pos 8765) [] wakeups 1024 [] (λ g r. refl) (λ g. refl) refl
      (omega arith)

loopback-Balanced_example :
    held (loopback_wait_for_code willing (pos 8765) [] wakeups true 1024 []).1 ≡ some []
unfolding code_samples.GmailCalendar.Loopback.wait_loop held
loopback-Balanced_example =
    loopback-Balanced willing (pos 8765) [] wakeups 1024 true (ground arith) [] [] refl
