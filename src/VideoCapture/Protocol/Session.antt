-- ===== src/VideoCapture/Protocol/Session.antt =====
-- `main` of capture.c as a client of the protocol: the device is opened, set up, used, given back and
-- closed.
use code_samples.Base.{ℕ, ◌≡◌, refl, none, some, List, [], ◌∷◌}
use code_samples.VideoCapture.Camera.{Camera, IoMethod, printed_usage}
use code_samples.VideoCapture.State.{State, initial, pure, ◌>>◌}
use code_samples.VideoCapture.Yuv.{Double}
use code_samples.VideoCapture.Frames.{mainloop}
use code_samples.VideoCapture.Setup.{
  init_device, close_device, open_device, start_capturing, stop_capturing, uninit_device,
}
use code_samples.VideoCapture.Main.{
  Choice, flag, help, mmap, read, userp, output, format, unknown, device, count, choose, choose_all,
  capture, main,
}
use code_samples.VideoCapture.Protocol.{closed, opened, after_event, phase}
use code_samples.VideoCapture.Protocol.Rules.{At, Meets, bind-Meets, phase-cons}
use code_samples.VideoCapture.Protocol.Streaming.{ready, mainloop-Reaches}
use code_samples.VideoCapture.Protocol.Buffers.{
  Enough, prepared, finished, start_capturing-Reaches, stop_capturing-Reaches,
}
use code_samples.VideoCapture.Protocol.Release.{uninit_device-Reaches}
use code_samples.VideoCapture.Protocol.Preparation.{Prepared}
use code_samples.VideoCapture.Protocol.Device.{
  Idle, init_device-Prepared, open_device-Reaches, close_device-Reaches,
}

module _ (d : Double) (camera : Camera) (fuel : ℕ) where
  capture-Meets :
      (s : State) → Idle s → Meets {A = ℕ} (λ code t. code ≡ 0 × Idle t) (capture d camera fuel s)
  unfolding capture
  capture-Meets s idle =
      let m = s.io in
      bind-Meets (λ a. At opened m s.n_buffers) _ (open_device d camera fuel s) _
        (open_device-Reaches d camera fuel s idle)
        (λ a t at_t.
          bind-Meets (λ b. Prepared m) _ (init_device d camera fuel t) _
            (init_device-Prepared d camera fuel m s.n_buffers t at_t)
            (λ b u (n, enough, at_u). used m n enough u at_u))
    where
      used :
          (m : IoMethod) (n : ℕ)
          → Enough m n
          → (u : State) → At (prepared m n) m n u
          → Meets {A = ℕ}
              (λ code t. code ≡ 0 × Idle t)
              ((start_capturing d camera fuel
                  >> (mainloop d camera fuel
                      >> (stop_capturing d camera fuel
                          >> (uninit_device d camera fuel
                              >> (close_device d camera fuel >> pure 0)))))
                u)
      used m n enough u at_u =
          bind-Meets (λ b. At (ready m n) m n) _ (start_capturing d camera fuel u) _
            (start_capturing-Reaches d camera fuel m n u enough at_u)
            (λ b v at_v.
              bind-Meets (λ c. At (ready m n) m n) _ (mainloop d camera fuel v) _
                (mainloop-Reaches d camera fuel m n v at_v)
                (λ c w at_w.
                  bind-Meets (λ c. At (finished m n) m n) _ (stop_capturing d camera fuel w) _
                    (stop_capturing-Reaches d camera fuel m n w at_w)
                    (λ c x at_x.
                      bind-Meets (λ c. At opened m n) _ (uninit_device d camera fuel x) _
                        (uninit_device-Reaches d camera fuel m n x enough at_x)
                        (λ c y at_y.
                          bind-Meets (λ c. At closed m n) _ (close_device d camera fuel y) _
                            (close_device-Reaches d camera fuel m n y at_y)
                            (λ c z at_z. (refl, at_z.in_phase))))))

  choose-Idle : (c : Choice) (s : State) → Idle s → Meets (λ a. Idle) (choose c s)
  unfolding choose after_event
  choose-Idle flag s idle = idle
  choose-Idle (device name) s idle = idle
  choose-Idle help s idle = record {
    at = closed;
    follows = phase-cons printed_usage s.trace closed idle;
  }
  choose-Idle mmap s idle = idle
  choose-Idle read s idle = idle
  choose-Idle userp s idle = idle
  choose-Idle output s idle = idle
  choose-Idle format s idle = idle
  choose-Idle (count (some n)) s idle = idle
  choose-Idle (count none) s idle = record { at = closed; follows = idle }
  choose-Idle unknown s idle = record {
    at = closed;
    follows = phase-cons printed_usage s.trace closed idle;
  }

  choose_all-Idle :
      (choices : List Choice) (s : State) → Idle s → Meets (λ a. Idle) (choose_all choices s)
  unfolding choose_all
  choose_all-Idle [] s idle = idle
  choose_all-Idle (c ∷ cs) s idle =
      bind-Meets (λ a. Idle) (λ a. Idle) (choose c s) _ (choose-Idle c s idle)
        (λ a t. choose_all-Idle cs t)

  -- Whatever the driver, the memory and the files answer, and whatever the options are: the trace of
  -- `main` follows the protocol of V4L2 however the run ends, and where `main` returns, it returns 0
  -- with every buffer given back and the device closed.
  pub main-Meets :
      (choices : List Choice)
      → Meets {A = ℕ}
          (λ code t. code ≡ 0 × phase t.trace ≡ some closed)
          (main d camera fuel choices initial)
  unfolding main phase
  main-Meets choices =
      bind-Meets (λ a. Idle) _ (choose_all choices initial) _ (choose_all-Idle choices initial refl)
        (λ a s idle. capture-Meets s idle)
