-- ===== src/VideoCapture/Protocol/Device.antt =====
-- The device in capture.c: it is opened, set up, and closed in the phase that the protocol wants.
use code_samples.Base.{
  ℕ, ◌==◌, ◌≡◌, ◌⊎◌, refl, Bool, true, false, not, Option, none, some, Bool-cases, inl, inr,
  if◌then◌else◌,
}
use code_samples.VideoCapture.Camera.{
  Camera, Capabilities, IoMethod, querycap, cropcap, s_crop, s_fmt, g_fmt, Reply, ok, failed,
  device_opened, device_closed,
}
use code_samples.VideoCapture.State.{State, Command, ask, pure, exit_failure, or_exit, ◌>>=◌}
use code_samples.VideoCapture.Yuv.{Double}
use code_samples.VideoCapture.Frames.{xioctl}
use code_samples.VideoCapture.Setup.{
  supports, check_capabilities, reset_crop, adjust_format, init_buffers, init_device, close_device,
  after_open, open_device,
}
use code_samples.VideoCapture.Main.{}
use code_samples.VideoCapture.Protocol.{
  closed, opened, after_event, after_request, open_device_phase, close_device_phase, phase,
}
use code_samples.VideoCapture.Protocol.Rules.{
  At, Legal, Meets, Reaches, At-Legal, bind-Meets, emit-At, Answered, xioctl-Answered,
  request-Meets,
}
use code_samples.VideoCapture.Protocol.Streaming.{by_method}
use code_samples.VideoCapture.Protocol.Buffers.{}
use code_samples.VideoCapture.Protocol.Preparation.{Prepared, init_buffers-Prepared}

-- The device is not open.
abbrev pub Idle : State → Type 0
Idle s = phase s.trace ≡ some closed

-- What a command requires before it goes on.
required-Meets :
    {A : Type 0} (Q : A → State → Type 0) (b : Bool) (next : Command A) (s : State)
    → Legal s
    → Meets Q (next s)
    → Meets Q ((if not b then exit_failure else next) s)
required-Meets Q true next s legal meets = meets
required-Meets Q false next s legal meets = legal

module _ (d : Double) (camera : Camera) (fuel : ℕ) where
  check_capabilities-Reaches :
      (cap : Capabilities) (m : IoMethod) (n : ℕ) (s : State)
      → At opened m n s
      → Reaches opened m n (check_capabilities d camera fuel cap s)
  check_capabilities-Reaches abilities m n s at =
      required-Meets (λ a. At opened m n) abilities.video_capture _ s (At-Legal s at)
        (required-Meets (λ a. At opened m n) (supports d camera fuel s.io abilities) (pure tt) s
          (At-Legal s at) at)

  reset_crop-Reaches :
      (reply : Reply) (m : IoMethod) (n : ℕ) (s : State)
      → Answered opened m n cropcap reply s
      → Reaches opened m n (reset_crop d camera fuel reply s)
  unfolding reset_crop after_event after_request
  reset_crop-Reaches (failed e) m n s at = at
  reset_crop-Reaches (ok x) m n s (in_phase, same_io, same_n) =
      bind-Meets (Answered opened m n s_crop) (λ a. At opened m n) (xioctl d camera fuel s_crop s) _
        (xioctl-Answered d camera fuel s_crop opened m n s refl
          (record { in_phase = in_phase; same_io = same_io; same_n = same_n }))
        ignored
    where
      ignored : (reply : Reply) (t : State) → Answered opened m n s_crop reply t → At opened m n t
      ignored (failed e) t at' = at'
      ignored (ok y) t (in_phase', same_io', same_n') = record {
        in_phase = in_phase';
        same_io = same_io';
        same_n = same_n';
      }

  pub init_device-Prepared :
      (m : IoMethod) (n : ℕ) (s : State)
      → At opened m n s
      → Meets (λ a. Prepared m) (init_device d camera fuel s)
  unfolding init_device after_event after_request
  init_device-Prepared m n s at =
      request-Meets d camera fuel (λ a. Prepared m) querycap opened m n s _ refl at
        (λ x t in_phase same_io same_n.
          let at_t : At opened m n t = record {
            in_phase = in_phase;
            same_io = same_io;
            same_n = same_n;
          } in
          bind-Meets (λ a. At opened m n) (λ a. Prepared m)
            (check_capabilities d camera fuel (camera.capabilities t.trace) t) _
            (check_capabilities-Reaches (camera.capabilities t.trace) m n t at_t)
            (λ a u at_u.
              bind-Meets (Answered opened m n cropcap) (λ b. Prepared m)
                (xioctl d camera fuel cropcap u) _
                (xioctl-Answered d camera fuel cropcap opened m n u refl at_u)
                (λ reply v answered.
                  bind-Meets (λ b. At opened m n) (λ b. Prepared m)
                    (reset_crop d camera fuel reply v) _ (reset_crop-Reaches reply m n v answered)
                    (λ b w at_w. formatted w at_w (Bool-cases (w.force_format == 0))))))
    where
      buffers :
          (w y : State) (size : ℕ)
          → w.io ≡ m
          → At opened m n y
          → Meets (λ a. Prepared m) (init_buffers d camera fuel w.io size y)
      buffers w y size same at_y =
          by_method d camera fuel (λ a. Prepared m) (λ m'. init_buffers d camera fuel m' size) w.io
            m y same (init_buffers-Prepared d camera fuel m size n y at_y)

      formatted :
          (w : State)
          → At opened m n w
          → (w.force_format == 0) ≡ true ⊎ (w.force_format == 0) ≡ false
          → Meets
              (λ a. Prepared m)
              ((xioctl d camera fuel (if w.force_format == 0 then g_fmt else s_fmt) >>= λ reply.
                  or_exit reply (λ x. ask camera.format >>= λ fmt.
                  init_buffers d camera fuel w.io (adjust_format d camera fuel fmt).sizeimage))
                w)
      formatted w at_w (inl as_is) = rw as_is (
          request-Meets d camera fuel (λ a. Prepared m) g_fmt opened m n w _ refl at_w
            (λ x y in_phase same_io same_n.
              buffers w y _ at_w.same_io
                (record { in_phase = in_phase; same_io = same_io; same_n = same_n })))
      formatted w at_w (inr forced) = rw forced (
          request-Meets d camera fuel (λ a. Prepared m) s_fmt opened m n w _ refl at_w
            (λ x y in_phase same_io same_n.
              buffers w y _ at_w.same_io
                (record { in_phase = in_phase; same_io = same_io; same_n = same_n })))

  pub open_device-Reaches :
      (s : State) → Idle s → Reaches opened s.io s.n_buffers (open_device d camera fuel s)
  unfolding open_device after_event open_device_phase
  open_device-Reaches s idle =
      required-Meets (λ a. At opened s.io s.n_buffers) (camera.exists s.trace s.dev_name) _ s
        (At-Legal s at)
        (required-Meets (λ a. At opened s.io s.n_buffers)
          (camera.is_character_device s.trace s.dev_name) _ s (At-Legal s at)
          (opening (camera.opens s.trace s.dev_name)))
    where
      at : At closed s.io s.n_buffers s
      at = record { in_phase = idle; same_io = refl; same_n = refl }

      opening : (fd : Option ℕ) → Reaches opened s.io s.n_buffers (after_open d camera fuel fd s)
      opening none = unfold after_open in (At-Legal s at)
      opening (some fd) =
          unfold after_open in
          (let at' = emit-At device_opened opened s at refl in
            record { in_phase = at'.in_phase; same_io = refl; same_n = refl })

  pub close_device-Reaches :
      (m : IoMethod) (n : ℕ) (s : State)
      → At opened m n s
      → Reaches closed m n (close_device d camera fuel s)
  unfolding close_device after_event close_device_phase
  close_device-Reaches m n s at = elim (Bool-cases (camera.closes s.trace)) [
    | inr fails ↦ rw fails (At-Legal s at)
    | inl closes ↦
        let at' = emit-At device_closed closed s at refl in
        rw closes (record { in_phase = at'.in_phase; same_io = at.same_io; same_n = at.same_n })
  ]
