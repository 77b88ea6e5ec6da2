-- ===== src/VideoCapture/Delivery/Session.antt =====
-- `main` of capture.c with a camera that answers every call.
use code_samples.Base.{
  ℕ, ◌+◌, ◌≤◌, ◌≡◌, refl, true, Option, none, some, List, [], ◌∷◌, arith, sym, ◌∙◌, ap, is_some,
}
use mathlib.Core.Bool.{true≢false}
use code_samples.Base.Int.{ℤ}
use code_samples.VideoCapture.Camera.{Camera, io_mmap, Trace, device_opened, device_closed}
use code_samples.VideoCapture.State.{
  State, Run, done, exited, aborted, fault, unfinished, Command, after, initial,
}
use code_samples.VideoCapture.Yuv.{Double}
use code_samples.VideoCapture.Frames.{mainloop, to_unsigned}
use code_samples.VideoCapture.Setup.{
  start_capturing, stop_capturing, uninit_device, init_device, after_open, open_device,
  close_device,
}
use code_samples.VideoCapture.Main.{
  Choice, flag, help, mmap, read, userp, output, format, unknown, device, count, choose, choose_all,
  capture, main,
}
use code_samples.VideoCapture.Delivery.{frames, Willing, Ends, bind-Ends, Going, call-Going}
use code_samples.VideoCapture.Delivery.Mainloop.{mainloop-Ends}
use code_samples.VideoCapture.Delivery.Streaming.{
  start_capturing-Ends, stop_capturing-Ends, uninit_device-Ends,
}
use code_samples.VideoCapture.Delivery.Preparation.{init_device-Ends, required-Ends}

module _ (d : Double) (camera : Camera) (fuel : ℕ) (n : ℕ) (willing : Willing camera n)
    (some_fuel : 1 ≤ fuel) (c : ℤ) where
  open_device-Ends :
      (b k : ℕ) (s : State) → Going c b k s → Ends (λ a. Going c b k) (open_device d camera fuel s)
  unfolding open_device
  open_device-Ends b k s g =
      required-Ends d camera fuel n willing some_fuel c (λ a. Going c b k)
        (camera.exists s.trace s.dev_name) _ s (willing.exists s.trace s.dev_name)
        (required-Ends d camera fuel n willing some_fuel c (λ a. Going c b k)
          (camera.is_character_device s.trace s.dev_name) _ s (willing.character s.trace s.dev_name)
          (opened (camera.opens s.trace s.dev_name) (willing.opens s.trace s.dev_name)))
    where
      opened :
          (fd : Option ℕ)
          → is_some fd ≡ true
          → Ends (λ a. Going c b k) (after_open d camera fuel fd s)
      opened none found = absurd (true≢false (sym found))
      opened (some fd) found =
          unfold after_open in
          (let g' =
              call-Going d camera fuel n willing some_fuel c device_opened s (unfold frames in refl)
                g in
            record {
              same_io = g'.same_io;
              no_output = g'.no_output;
              same_count = g'.same_count;
              same_n = g'.same_n;
              frames_so_far = g'.frames_so_far;
            })

  close_device-Ends :
      (b k : ℕ) (s : State) → Going c b k s → Ends (λ a. Going c b k) (close_device d camera fuel s)
  unfolding close_device frames
  close_device-Ends b k s g = rw (willing.closes s.trace) (
      let g' = call-Going d camera fuel n willing some_fuel c device_closed s refl g in
      record {
        same_io = g'.same_io;
        no_output = g'.no_output;
        same_count = g'.same_count;
        same_n = g'.same_n;
        frames_so_far = g'.frames_so_far;
      })

  capture-Ends :
      (b : ℕ) (s : State)
      → 2 ≤ n
      → Going c b 0 s
      → Ends (λ code t. (code ≡ 0) × (frames t.trace ≡ to_unsigned c)) (capture d camera fuel s)
  unfolding capture
  capture-Ends b s enough g =
      bind-Ends (λ a. Going c b 0) _ (open_device d camera fuel s) _ (open_device-Ends b 0 s g)
        (λ a t g_t.
          bind-Ends (λ a'. Going c n 0) _ (init_device d camera fuel t) _
            (init_device-Ends d camera fuel n willing some_fuel c b 0 t enough g_t)
            (λ a' u g_u.
              bind-Ends (λ e. Going c n 0) _ (start_capturing d camera fuel u) _
                (start_capturing-Ends d camera fuel n willing some_fuel c n 0 u g_u)
                (λ e v g_v.
                  bind-Ends (λ e'. Going c n (0 + to_unsigned c)) _ (mainloop d camera fuel v) _
                    (mainloop-Ends d camera fuel n willing some_fuel c 0 v g_v)
                    (λ e' w g_w.
                      bind-Ends (λ e''. Going c n (0 + to_unsigned c)) _
                        (stop_capturing d camera fuel w) _
                        (stop_capturing-Ends d camera fuel n willing some_fuel c n
                          (0 + to_unsigned c) w g_w)
                        (λ e'' x g_x.
                          bind-Ends (λ i. Going c n (0 + to_unsigned c)) _
                            (uninit_device d camera fuel x) _
                            (uninit_device-Ends d camera fuel n willing some_fuel c n
                              (0 + to_unsigned c) x g_x)
                            (λ i y g_y.
                              bind-Ends (λ j. Going c n (0 + to_unsigned c)) _
                                (close_device d camera fuel y) _
                                (close_device-Ends n (0 + to_unsigned c) y g_y)
                                (λ j z g_z. (refl, g_z.frames_so_far ∙ omega arith))))))))

-- A run that returns as a result.
Ends-done :
    {A : Type 0} (Q : A → State → Type 0) (r : Run A)
    → Ends Q r
    → (a : A) × (s : State) × (r ≡ done a s) × Q a s
Ends-done Q (done a s) ends = (a, s, refl, ends)
Ends-done Q (exited code s) ends = absurd ends
Ends-done Q (aborted s) ends = absurd ends
Ends-done Q (fault s) ends = absurd ends
Ends-done Q (unfinished s) ends = absurd ends

-- Options leave no trace where they return.
Untouched : Trace → Run (Unit {0}) → Type 0
Untouched h (done a t) = t.trace ≡ h
Untouched h r = Unit {0}

choose-Untouched : (c : Choice) (h : Trace) (s : State) → s.trace ≡ h → Untouched h (choose c s)
unfolding choose Untouched
choose-Untouched flag h s e = e
choose-Untouched (device name) h s e = e
choose-Untouched help h s e = tt
choose-Untouched mmap h s e = e
choose-Untouched read h s e = e
choose-Untouched userp h s e = e
choose-Untouched output h s e = e
choose-Untouched format h s e = e
choose-Untouched (count (some n)) h s e = e
choose-Untouched (count none) h s e = tt
choose-Untouched unknown h s e = tt

after-Untouched :
    (h : Trace) (r : Run (Unit {0})) (k : Unit {0} → Command (Unit {0}))
    → Untouched h r
    → ((a : Unit {0}) (t : State) → t.trace ≡ h → Untouched h (k a t))
    → Untouched h (after r k)
unfolding Untouched
after-Untouched h (done a t) k first rest = rest a t first
after-Untouched h (exited code t) k first rest = tt
after-Untouched h (aborted t) k first rest = tt
after-Untouched h (fault t) k first rest = tt
after-Untouched h (unfinished t) k first rest = tt

choose_all-Untouched :
    (cs : List Choice) (h : Trace) (s : State) → s.trace ≡ h → Untouched h (choose_all cs s)
unfolding choose_all Untouched
choose_all-Untouched [] h s e = e
choose_all-Untouched (c ∷ cs) h s e =
    after-Untouched h (choose c s) _ (choose-Untouched c h s e) (λ a t. choose_all-Untouched cs h t)

-- With a camera that answers every call and gives two buffers or more, `main` returns 0 where the
-- options leave the method at mmap and ask for no output, and it has then processed as many frames as
-- the options ask for.
pub main-returns :
    (d : Double) (camera : Camera) (fuel n : ℕ) (choices : List Choice) (s : State)
    → Willing camera n
    → 2 ≤ n
    → 1 ≤ fuel
    → choose_all choices initial ≡ done tt s
    → s.io ≡ io_mmap
    → s.out_buf ≡ 0
    → (t : State) × (main d camera fuel choices initial ≡ done 0 t)
      × (frames t.trace ≡ to_unsigned s.frame_count)
unfolding main Untouched
main-returns d camera fuel n choices s willing enough some_fuel chosen by_mmap quiet =
    let c = s.frame_count in
    let untouched : s.trace ≡ [] = rw chosen at (choose_all-Untouched choices [] initial refl) in
    let g : Going c s.n_buffers 0 s = record {
      same_io = by_mmap;
      no_output = quiet;
      same_count = refl;
      same_n = refl;
      frames_so_far = rw untouched (unfold frames in refl);
    } in
    let (code, t, e, (zero_code, as_many)) =
      Ends-done _ (capture d camera fuel s)
        (capture-Ends d camera fuel n willing some_fuel c s.n_buffers s enough g) in
    (t, rw (chosen, main) (e ∙ ap (λ x. done x t) zero_code), as_many)
