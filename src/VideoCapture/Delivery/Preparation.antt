-- ===== src/VideoCapture/Delivery/Preparation.antt =====
-- The set-up of capture.c with a camera that answers every call.
use code_samples.Base.{
  ℕ, zero, suc, ◌+◌, ◌≤◌, ◌==◌, ◌≡◌, refl, Bool, true, false, not, Option, none, some, ◌∷◌, arith,
  sym, ltb, if◌then◌else◌, is_some,
}
use mathlib.Core.Bool.{true≢false}
use code_samples.Base.Int.{ℤ}
use code_samples.VideoCapture.Camera.{
  Camera, IoMethod, io_mmap, reqbufs, querybuf, querycap, cropcap, s_crop, s_fmt, g_fmt, ok, Reply,
  failed, array_allocated,
}
use code_samples.VideoCapture.State.{State, Command, pure, exit_failure}
use code_samples.VideoCapture.Yuv.{Double}
use code_samples.VideoCapture.Setup.{
  map_buffer, map_buffers, init_mmap, init_buffers, reset_crop, init_device, supports,
  check_capabilities,
}
use code_samples.VideoCapture.Delivery.{
  frames, Willing, Ends, bind-Ends, select-Ends, Going, call-Going, request-Ends,
}

module _ (d : Double) (camera : Camera) (fuel : ℕ) (n : ℕ) (willing : Willing camera n)
    (some_fuel : 1 ≤ fuel) (c : ℤ) where
  -- A new value of the counter.
  map_buffer-Ends :
      (length index b k : ℕ) (start : Option ℕ) (s : State)
      → is_some start ≡ true
      → Going c b k s
      → Ends (λ a. Going c (index + 1) k) (map_buffer d camera fuel length index start s)
  unfolding map_buffer frames
  map_buffer-Ends length index b k (some p) s found g = record {
    same_io = g.same_io;
    no_output = g.no_output;
    same_count = g.same_count;
    same_n = refl;
    frames_so_far = g.frames_so_far;
  }
  map_buffer-Ends length index b k none s found g = absurd (true≢false (sym found))

  map_buffers-Ends :
      (left index total k : ℕ) (s : State)
      → index + left ≡ total
      → Going c index k s
      → Ends (λ a. Going c total k) (map_buffers d camera fuel left index s)
  unfolding map_buffers
  map_buffers-Ends zero index total k s all g = record {
    same_io = g.same_io;
    no_output = g.no_output;
    same_count = g.same_count;
    same_n = ground (arith, g.same_n);
    frames_so_far = g.frames_so_far;
  }
  map_buffers-Ends (suc left) index total k s all g =
      request-Ends d camera fuel n willing some_fuel c _ (querybuf index) s _ g (λ length t fits g'.
        bind-Ends (λ a. Going c (index + 1) k) (λ a. Going c total k)
          (map_buffer d camera fuel length index (camera.mmap t.trace length) t) _
          (map_buffer-Ends length index index k (camera.mmap t.trace length) t
            (willing.maps t.trace length) g')
          (λ a u g''. map_buffers-Ends left (index + 1) total k u (omega arith) g''))

  init_mmap-Ends :
      (b k : ℕ) (s : State)
      → 2 ≤ n
      → Going c b k s
      → Ends (λ a. Going c n k) (init_mmap d camera fuel s)
  unfolding init_mmap frames
  init_mmap-Ends b k s enough g =
      request-Ends d camera fuel n willing some_fuel c _ (reqbufs io_mmap) s _ g (λ count t same g'.
        let many : ltb count 2 ≡ false = ground arith in
        let g'' : Going c b k (record t { trace = array_allocated count ∷ t.trace }) =
          call-Going d camera fuel n willing some_fuel c (array_allocated count) t refl g' in
        rw many (
          rw (willing.remembers t.trace) (
            map_buffers-Ends count 0 n k _ (omega arith) (record {
              same_io = g''.same_io;
              no_output = g''.no_output;
              same_count = g''.same_count;
              same_n = refl;
              frames_so_far = g''.frames_so_far;
            }))))

  reset_crop-Ends :
      (reply : Reply) (b k : ℕ) (s : State)
      → Going c b k s
      → Ends (λ a. Going c b k) (reset_crop d camera fuel reply s)
  unfolding reset_crop
  reset_crop-Ends (failed e) b k s g = g
  reset_crop-Ends (ok x) b k s g =
      request-Ends d camera fuel n willing some_fuel c _ s_crop s _ g (λ y t fits g'. g')

  -- A command that goes on with what it requires.
  pub required-Ends :
      {A : Type 0} (Q : A → State → Type 0) (b : Bool) (next : Command A) (s : State)
      → b ≡ true
      → Ends Q (next s)
      → Ends Q ((if not b then exit_failure else next) s)
  required-Ends Q b next s holds ends = rw holds ends

  check_capabilities-Ends :
      (b k : ℕ) (s : State)
      → Going c b k s
      → Ends (λ a. Going c b k) (check_capabilities d camera fuel (camera.capabilities s.trace) s)
  check_capabilities-Ends b k s g =
      let abilities = camera.capabilities s.trace in
      required-Ends (λ a. Going c b k) abilities.video_capture _ s (willing.captures s.trace)
        (required-Ends (λ a. Going c b k) (supports d camera fuel s.io abilities) (pure tt) s
          (supported s.io g.same_io) g)
    where
      supported :
          (m : IoMethod)
          → m ≡ io_mmap
          → supports d camera fuel m (camera.capabilities s.trace) ≡ true
      supported m e = rw e (willing.streams s.trace)

  pub init_device-Ends :
      (b k : ℕ) (s : State)
      → 2 ≤ n
      → Going c b k s
      → Ends (λ a. Going c n k) (init_device d camera fuel s)
  unfolding init_device
  init_device-Ends b k s enough g =
      request-Ends d camera fuel n willing some_fuel c _ querycap s _ g (λ x t fits g_t.
        bind-Ends (λ a. Going c b k) _
          (check_capabilities d camera fuel (camera.capabilities t.trace) t) _
          (check_capabilities-Ends b k t g_t)
          (λ a u g_u.
            request-Ends d camera fuel n willing some_fuel c _ cropcap u _ g_u (λ y v fits_y g_v.
              bind-Ends (λ a. Going c b k) _ (reset_crop d camera fuel (ok y) v) _
                (reset_crop-Ends (ok y) b k v g_v)
                (λ a' w g_w.
                  request-Ends d camera fuel n willing some_fuel c _
                    (if w.force_format == 0 then g_fmt else s_fmt) w _ g_w
                    (λ z x' fits_z g_x. buffers w x' _ g_w.same_io g_x)))))
    where
      buffers :
          (w x : State) (size : ℕ)
          → w.io ≡ io_mmap
          → Going c b k x
          → Ends (λ a. Going c n k) (init_buffers d camera fuel w.io size x)
      buffers w x size same g_x =
          select-Ends (λ a. Going c n k) (λ m. init_buffers d camera fuel m size) w.io io_mmap x
            same (unfold init_buffers in (init_mmap-Ends b k x enough g_x))
