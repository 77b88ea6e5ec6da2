-- ===== src/VideoCapture/Delivery/Streaming.antt =====
-- The start and the end of the streaming in capture.c, with a camera that answers every call.
use code_samples.Base.{ℕ, zero, suc, ◌+◌, ◌≤◌, refl}
use code_samples.Base.Int.{ℤ}
use code_samples.VideoCapture.Camera.{
  Camera, io_mmap, qbuf, streamon, streamoff, unmapped, array_freed,
}
use code_samples.VideoCapture.State.{State}
use code_samples.VideoCapture.Yuv.{Double}
use code_samples.VideoCapture.Setup.{
  queue_buffers, start_streaming, start_capturing_by, start_capturing, stop_streaming,
  stop_capturing_by, stop_capturing, unmap_buffers, uninit_device_by, uninit_device,
}
use code_samples.VideoCapture.Delivery.{
  frames, Willing, Ends, bind-Ends, select-Ends, Going, call-Going, request-Ends,
}

module _ (d : Double) (camera : Camera) (fuel : ℕ) (n : ℕ) (willing : Willing camera n)
    (some_fuel : 1 ≤ fuel) (c : ℤ) where
  queue_buffers-Ends :
      (left index b k : ℕ) (s : State)
      → Going c b k s
      → Ends (λ a. Going c b k) (queue_buffers d camera fuel io_mmap left index s)
  unfolding queue_buffers
  queue_buffers-Ends zero index b k s g = g
  queue_buffers-Ends (suc left) index b k s g =
      request-Ends d camera fuel n willing some_fuel c _ (qbuf io_mmap index) s _ g
        (λ x t fits g'. queue_buffers-Ends left (index + 1) b k t g')

  pub start_capturing-Ends :
      (b k : ℕ) (s : State)
      → Going c b k s
      → Ends (λ a. Going c b k) (start_capturing d camera fuel s)
  unfolding start_capturing start_capturing_by start_streaming
  start_capturing-Ends b k s g =
      select-Ends _ (start_capturing_by d camera fuel) s.io io_mmap s g.same_io (
        bind-Ends (λ a. Going c b k) (λ a. Going c b k)
          (queue_buffers d camera fuel io_mmap s.n_buffers 0 s) _
          (queue_buffers-Ends s.n_buffers 0 b k s g)
          (λ a t g'.
            request-Ends d camera fuel n willing some_fuel c _ streamon t _ g'
              (λ x u fits g''. g'')))

  pub stop_capturing-Ends :
      (b k : ℕ) (s : State)
      → Going c b k s
      → Ends (λ a. Going c b k) (stop_capturing d camera fuel s)
  unfolding stop_capturing stop_capturing_by stop_streaming
  stop_capturing-Ends b k s g =
      select-Ends _ (stop_capturing_by d camera fuel) s.io io_mmap s g.same_io
        (request-Ends d camera fuel n willing some_fuel c _ streamoff s _ g (λ x t fits g'. g'))

  unmap_buffers-Ends :
      (left index b k : ℕ) (s : State)
      → Going c b k s
      → Ends (λ a. Going c b k) (unmap_buffers d camera fuel left index s)
  unfolding unmap_buffers frames
  unmap_buffers-Ends zero index b k s g = g
  unmap_buffers-Ends (suc left) index b k s g = rw (willing.unmaps s.trace) (
      unmap_buffers-Ends left (index + 1) b k _
        (call-Going d camera fuel n willing some_fuel c (unmapped index) s refl g))

  pub uninit_device-Ends :
      (b k : ℕ) (s : State)
      → Going c b k s
      → Ends (λ a. Going c b k) (uninit_device d camera fuel s)
  unfolding uninit_device uninit_device_by frames
  uninit_device-Ends b k s g =
      bind-Ends (λ a. Going c b k) (λ a. Going c b k)
        (uninit_device_by d camera fuel s.io s.n_buffers s) _
        (select-Ends _ (λ m. uninit_device_by d camera fuel m s.n_buffers) s.io io_mmap s g.same_io
          (unmap_buffers-Ends s.n_buffers 0 b k s g))
        (λ a t g'. call-Going d camera fuel n willing some_fuel c array_freed t refl g')
