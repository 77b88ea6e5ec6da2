-- ===== src/VideoCapture/Delivery/Mainloop.antt =====
-- mainloop of capture.c with a camera that answers every call.
use code_samples.Base.{ℕ, zero, suc, ◌+◌, ◌≤◌, ◌==◌, ◌≡◌, refl, true, arith, Bytes, ltb}
use code_samples.Base.Int.{ℤ, pos, to_int}
use code_samples.VideoCapture.Camera.{Camera, io_mmap, qbuf, dqbuf, waited, readable}
use code_samples.VideoCapture.State.{State, pure, or_exit}
use code_samples.VideoCapture.Yuv.{Double}
use code_samples.VideoCapture.Frames.{
  process_image, requeue, is_known, after_dequeue, dequeue, read_frame_by, read_frame, frame_loop,
  count_loop, mainloop, to_unsigned,
}
use code_samples.VideoCapture.Delivery.{
  frames, Willing, Ends, bind-Ends, Going, recount, select-Ends, weaken-Ends, call-Going,
  request-Ends,
}

module _ (d : Double) (camera : Camera) (fuel : ℕ) (n : ℕ) (willing : Willing camera n)
    (some_fuel : 1 ≤ fuel) (c : ℤ) where
  process_image-Ends :
      (k : ℕ) (content : Bytes) (size : ℤ) (s : State)
      → Going c n k s
      → Ends (λ a. Going c n (suc k)) (process_image d camera fuel content size s)
  unfolding process_image frames
  process_image-Ends k content size s g =
      let quiet : (s.out_buf == 0) ≡ true = ground (arith, g.no_output) in
      rw quiet (record {
        same_io = g.same_io;
        no_output = g.no_output;
        same_count = g.same_count;
        same_n = g.same_n;
        frames_so_far = ground (arith, g.frames_so_far);
      })

  requeue-Ends :
      (k index : ℕ) (s : State)
      → Going c n k s
      → Ends (λ got t. (got ≡ true) × Going c n (suc k) t) (requeue d camera fuel io_mmap index s)
  unfolding requeue
  requeue-Ends k index s g =
      let frame = camera.dequeued s.trace in
      bind-Ends (λ a. Going c n (suc k)) _
        (process_image d camera fuel frame.content (to_int (pos frame.bytesused)) s) _
        (process_image-Ends k frame.content (to_int (pos frame.bytesused)) s g)
        (λ a t g'.
          request-Ends d camera fuel n willing some_fuel c _ (qbuf io_mmap index) t
            (λ reply. or_exit reply (λ x. pure true)) g' (λ x u fits g''. (refl, g'')))

  read_frame-Ends :
      (k : ℕ) (s : State)
      → Going c n k s
      → Ends (λ got t. (got ≡ true) × Going c n (suc k) t) (read_frame d camera fuel s)
  unfolding read_frame read_frame_by dequeue after_dequeue is_known
  read_frame-Ends k s g = select-Ends _ (read_frame_by d camera fuel) s.io io_mmap s g.same_io (
      request-Ends d camera fuel n willing some_fuel c _ (dqbuf io_mmap) s
        (after_dequeue d camera fuel io_mmap) g
        (λ index t below g'.
          let known : ltb index t.n_buffers ≡ true = ground (arith, g'.same_n) in
          rw known (requeue-Ends k index t g')))

  frame_loop-Ends :
      (f k : ℕ) (s : State)
      → 1 ≤ f
      → Going c n k s
      → Ends (λ a. Going c n (suc k)) (frame_loop d camera fuel f s)
  unfolding frame_loop frames
  frame_loop-Ends zero k s some_f g = absurd (omega arith)
  frame_loop-Ends (suc f) k s some_f g = rw (willing.selects s.trace) (
      bind-Ends (λ got t. (got ≡ true) × Going c n (suc k) t) _ (read_frame d camera fuel _) _
        (read_frame-Ends k _
          (call-Going d camera fuel n willing some_fuel c (waited readable) s refl g))
        (λ got t (yes_got, g'). rw yes_got g'))

  count_loop-Ends :
      (count k : ℕ) (s : State)
      → Going c n k s
      → Ends (λ a. Going c n (k + count)) (count_loop d camera fuel count s)
  unfolding count_loop
  count_loop-Ends zero k s g = recount (k + 0) (omega arith) g
  count_loop-Ends (suc count) k s g =
      bind-Ends (λ a. Going c n (suc k)) (λ a. Going c n (k + suc count))
        (frame_loop d camera fuel fuel s) _ (frame_loop-Ends fuel k s some_fuel g)
        (λ a t g'.
          weaken-Ends (λ b. Going c n (suc k + count)) (λ b. Going c n (k + suc count))
            (count_loop d camera fuel count t) (count_loop-Ends count (suc k) t g')
            (λ b u. recount (k + suc count) (omega arith)))

  pub mainloop-Ends :
      (k : ℕ) (s : State)
      → Going c n k s
      → Ends (λ a. Going c n (k + to_unsigned c)) (mainloop d camera fuel s)
  unfolding mainloop
  mainloop-Ends k s g =
      select-Ends _ (λ x. count_loop d camera fuel (to_unsigned x)) s.frame_count c s g.same_count
        (count_loop-Ends (to_unsigned c) k s g)
