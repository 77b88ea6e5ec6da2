-- ===== src/GmailCalendar/Loopback/Delivery.antt =====
-- What the wait delivers: the code of the first request, and only that one's.
use code_samples.Base.{
  ℕ, ◌<◌, ◌≡◌, ◌≢◌, Bool, true, false, ◌||◌, ◌&&◌, Option, none, some, List, [], ◌∷◌, arith, Bytes,
  refl, inl, inr, Option-cases, Bool-cases, if◌then◌else◌, ltb, length, ◌∙◌, ap, sym, ◌==◌,
}
use code_samples.Base.Int.{ℤ}
use code_samples.GmailCalendar.Platform.{Platform, History, Resource}
use code_samples.GmailCalendar.Loopback.{
  Query, Wakeup, Context, take_code, handle_all, start, wait_loop, await_code, serve,
  loopback_wait_for_code, delivered, code_max,
}

abbrev pub head? : List Query → Option Query
head? [] = none
head? (q ∷ qs) = some q

-- The first request that is handled before the wait ends, if there is one.
unfoldable pub first_request : List Query → List Wakeup → Option Query
first_request early [] = head? early
first_request early (w ∷ ws) =
    let later = if w.timed_out then head? w.handled else first_request w.handled ws in
    elim (head? early) [ none ↦ later | some q ↦ some q ]

-- What a request is worth to a caller with room for `cap` bytes.
unfoldable pub worth : ℕ → Option Query → Option Bytes
worth cap none = none
worth cap (some q) =
    if ltb 0 (length q.code) && (ltb (length q.code) code_max && ltb (length q.code) cap)
    then some q.code
    else none

-- Once a request was received the context stays as it is.
handle_all-received : (qs : List Query) (c : Context) → c.received ≡ true → handle_all qs c ≡ c
unfolding handle_all
handle_all-received [] c done = refl
handle_all-received (q ∷ qs) c done = ground (arith, handle_all-received qs c)

handle_all-first : (q : Query) (qs : List Query) → handle_all (q ∷ qs) start ≡ take_code q start
unfolding handle_all
handle_all-first q qs = handle_all-received qs (take_code q start) (ground arith)

-- A context with a request, or a wait that has timed out, ends the loop at once.
wait_loop-ended :
    (ws : List Wakeup) (timed_out : Bool) (c : Context)
    → (c.received || timed_out) ≡ true
    → wait_loop ws timed_out c ≡ some (timed_out, c)
unfolding wait_loop
wait_loop-ended [] timed_out c done = ground arith
wait_loop-ended (w ∷ ws) timed_out c done = ground arith

delivered-first :
    (cap : ℕ) (qs : List Query) → delivered cap (handle_all qs start) ≡ worth cap (head? qs)
unfolding delivered worth
delivered-first cap [] = unfold handle_all in refl
delivered-first cap (q ∷ qs) = rw (handle_all-first q qs) (unfold take_code in ground arith)

received-first : (q : Query) (qs : List Query) → (handle_all (q ∷ qs) start).received ≡ true
received-first q qs = rw (handle_all-first q qs) (unfold take_code in ground arith)

wait_round :
    (w : Wakeup) (ws : List Wakeup)
    → wait_loop (w ∷ ws) false (handle_all [] start)
      ≡ wait_loop ws w.timed_out (handle_all w.handled start)
unfolding wait_loop handle_all
wait_round w ws = refl

wait_loop-first :
    (early : List Query) (ws : List Wakeup) (r : Bool × Context) (cap : ℕ)
    → wait_loop ws false (handle_all early start) ≡ some r
    → delivered cap r.1 ≡ worth cap (first_request early ws)
unfolding first_request
wait_loop-first (q ∷ qs) [] r cap ran = ground (
  arith,
  wait_loop-ended [] false (handle_all (q ∷ qs) start),
  received-first q qs,
  delivered-first cap (q ∷ qs),
)
wait_loop-first (q ∷ qs) (w ∷ ws) r cap ran = ground (
  arith,
  wait_loop-ended (w ∷ ws) false (handle_all (q ∷ qs) start),
  received-first q qs,
  delivered-first cap (q ∷ qs),
)
wait_loop-first [] [] r cap ran = unfold wait_loop handle_all in ground arith
wait_loop-first [] (w ∷ ws) r cap ran = elim (Bool-cases w.timed_out) [
  | inl over ↦
      let c = handle_all w.handled start in
      ground (arith, wait_round w ws, wait_loop-ended ws true c, delivered-first cap w.handled)
  | inr on ↦ rw on (
      wait_loop-first w.handled ws r cap (
        ap (λ t. wait_loop ws t (handle_all w.handled start)) (sym on)
        ∙ sym (wait_round w ws)
        ∙ ran))
]

-- A wakeup that times out, or a request, ends the wait.
abbrev pub some_timeout : List Wakeup → Bool
some_timeout [] = false
some_timeout (w ∷ ws) = w.timed_out || some_timeout ws

-- A wait with a time-out among its wakeups ends.
pub wait_ends :
    (ws : List Wakeup) (timed_out : Bool) (c : Context)
    → (timed_out || some_timeout ws) ≡ true
    → wait_loop ws timed_out c ≢ none
unfolding wait_loop
wait_ends [] timed_out c over = ground arith
wait_ends (w ∷ ws) timed_out c over =
    ground (arith, wait_ends ws w.timed_out (handle_all w.handled c))

module _ (p : Platform) (port : ℤ) (early : List Query) (wakeups : List Wakeup) (cap : ℕ)
    (h : History) where
  await_code-worth :
      (g : History) (r : Bool × Context)
      → wait_loop wakeups false (handle_all early start) ≡ some r
      → (await_code p port early wakeups cap g).0 ≡ some (worth cap (first_request early wakeups))
  unfolding await_code
  await_code-worth g r ran =
      rw (ran, await_code) (ap some (wait_loop-first early wakeups r cap ran))

  -- If every step of the set-up succeeds, the caller's buffer is there and a wakeup times out, `loopback_wait_for_code` returns
  -- what the first request handled in time is worth: its code, if that is not empty, shorter than
  -- 1024 bytes and shorter than the caller's buffer, and otherwise nothing. Later requests change
  -- nothing.
  pub loopback-first :
      ((g : History) (r : Resource) → p.acquires g r ≡ true)
      → ((g : History) → p.adds_route g ≡ true)
      → some_timeout wakeups ≡ true
      → 0 < cap
      → (loopback_wait_for_code p port early wakeups true cap h).0
        ≡ some (worth cap (first_request early wakeups))
  unfolding loopback_wait_for_code serve
  loopback-first grants routes over room =
      elim (Option-cases (wait_loop wakeups false (handle_all early start))) [
        | inl none_ran ↦ absurd (wait_ends wakeups false (handle_all early start) over none_ran)
        | inr (r, ran) ↦
            let room' : (cap == 0) ≡ false = ground arith in
            rw (room', grants, grants, grants, grants, routes, grants) (await_code-worth _ r ran)
      ]
