-- ===== src/VideoCapture/Protocol/Streaming.antt =====
-- The frames of capture.c: every read, request and processing is one that the protocol allows, and
-- the phase is the same behind each frame.
use code_samples.Base.{
  ℕ, zero, suc, ◌≡◌, refl, Bool, true, false, Option, none, some, ◌∷◌, arith, Bool-cases, inl, inr,
}
use code_samples.Base.Int.{pos, to_int}
use code_samples.VideoCapture.Camera.{
  Camera, IoMethod, io_read, io_mmap, io_userptr, Errno, qbuf, dqbuf, Reply, ok, failed, Readiness,
  interrupted, broken, timeout, readable, waited, read_in,
}
use code_samples.VideoCapture.State.{Buffer, State, Command, pure}
use code_samples.VideoCapture.Yuv.{Double}
use code_samples.VideoCapture.Frames.{
  process_image, xioctl, process_first, after_read, requeue, is_known, after_dequeue, dequeue,
  read_frame_by, read_frame, buffer_at, after_select, unless_got, frame_loop, count_loop, mainloop,
  to_unsigned,
}
use code_samples.VideoCapture.Protocol.{
  Phase, holding, streaming, taken, same, after_event, after_request,
}
use code_samples.VideoCapture.Protocol.Rules.{
  At, Meets, Reaches, At-Legal, bind-Meets, emit-At, Answered, xioctl-Answered, request-Meets,
}
use code_samples.VideoCapture.Protocol.Image.{process_image-Reaches, try_again-Reaches}

-- The phase between two frames.
abbrev pub ready : IoMethod → ℕ → Phase
ready io_read n = holding io_read 1 1
ready io_mmap n = streaming io_mmap n
ready io_userptr n = streaming io_userptr n

pub same_self : (m : IoMethod) → same m m ≡ true
same_self io_read = refl
same_self io_mmap = refl
same_self io_userptr = refl

module _ (d : Double) (camera : Camera) (fuel : ℕ) where
  requeue-Reaches :
      (m : IoMethod) (n index : ℕ) (s : State)
      → At (taken m n index) m n s
      → Reaches (streaming m n) m n (requeue d camera fuel m index s)
  unfolding requeue after_event after_request
  requeue-Reaches m n index s at =
      let frame = camera.dequeued s.trace in
      bind-Meets (λ a. At (taken m n index) m n) (λ a. At (streaming m n) m n)
        (process_image d camera fuel frame.content (to_int (pos frame.bytesused)) s) _
        (process_image-Reaches d camera fuel (taken m n index) m n frame.content
          (to_int (pos frame.bytesused)) s refl at)
        (λ a t at'.
          request-Meets d camera fuel (λ b. At (streaming m n) m n) (qbuf m index) (taken m n index)
            m n t (λ x. pure true) refl at'
            (λ x u in_phase same_io same_n. record {
              in_phase = ground (arith, same_self m);
              same_io = same_io;
              same_n = same_n;
            }))

  after_dequeue-Reaches :
      (m : IoMethod) (n : ℕ) (reply : Reply) (s : State)
      → Answered (streaming m n) m n (dqbuf m) reply s
      → Reaches (streaming m n) m n (after_dequeue d camera fuel m reply s)
  unfolding after_dequeue after_event after_request
  after_dequeue-Reaches m n (failed e) s at =
      try_again-Reaches d camera fuel (streaming m n) m n e s at
  after_dequeue-Reaches m n (ok index) s (in_phase, same_io, same_n) =
      let at : At (taken m n index) m n s = record {
        in_phase = ground (arith, same_self m);
        same_io = same_io;
        same_n = same_n;
      } in
      elim (Bool-cases (is_known m index (camera.dequeued s.trace) s)) [
        | inl known ↦ rw known (requeue-Reaches m n index s at)
        | inr unknown ↦ rw unknown (At-Legal s at)
      ]

  dequeue-Reaches :
      (m : IoMethod) (n : ℕ) (s : State)
      → At (streaming m n) m n s
      → Reaches (streaming m n) m n (dequeue d camera fuel m s)
  unfolding dequeue
  dequeue-Reaches m n s at =
      bind-Meets (Answered (streaming m n) m n (dqbuf m)) (λ a. At (streaming m n) m n)
        (xioctl d camera fuel (dqbuf m) s) _
        (xioctl-Answered d camera fuel (dqbuf m) (streaming m n) m n s refl at)
        (after_dequeue-Reaches m n)

  process_first-Reaches :
      (n : ℕ) (b : Option Buffer) (s : State)
      → At (holding io_read 1 1) io_read n s
      → Reaches (holding io_read 1 1) io_read n (process_first d camera fuel b s)
  unfolding process_first
  process_first-Reaches n none s at = At-Legal s at
  process_first-Reaches n (some b) s at =
      let frame = camera.dequeued s.trace in
      bind-Meets (λ a. At (holding io_read 1 1) io_read n) (λ a. At (holding io_read 1 1) io_read n)
        (process_image d camera fuel frame.content (to_int (pos b.length)) s) _
        (process_image-Reaches d camera fuel (holding io_read 1 1) io_read n frame.content
          (to_int (pos b.length)) s refl at)
        (λ a t at'. at')

  after_read-Reaches :
      (n : ℕ) (result : Option Errno) (s : State)
      → At (holding io_read 1 1) io_read n s
      → Reaches (holding io_read 1 1) io_read n (after_read d camera fuel result s)
  unfolding after_read
  after_read-Reaches n (some e) s at =
      try_again-Reaches d camera fuel (holding io_read 1 1) io_read n e s at
  after_read-Reaches n none s at = process_first-Reaches n (buffer_at s.buffers 0) s at

  read_frame_by-Reaches :
      (m : IoMethod) (n : ℕ) (s : State)
      → At (ready m n) m n s
      → Reaches (ready m n) m n (read_frame_by d camera fuel m s)
  unfolding read_frame_by after_event
  read_frame_by-Reaches io_read n s at =
      after_read-Reaches n (camera.reads s.trace) _
        (emit-At (read_in (camera.reads s.trace)) (holding io_read 1 1) s at refl)
  read_frame_by-Reaches io_mmap n s at = dequeue-Reaches io_mmap n s at
  read_frame_by-Reaches io_userptr n s at = dequeue-Reaches io_userptr n s at

  -- A switch on the global is one on its value.
  pub by_method :
      {A : Type 0} (Q : A → State → Type 0) (f : IoMethod → Command A) (m' m : IoMethod) (s : State)
      → m' ≡ m
      → Meets Q (f m s)
      → Meets Q (f m' s)
  by_method Q f m' m s e meets = rw e meets

  read_frame-Reaches :
      (m : IoMethod) (n : ℕ) (s : State)
      → At (ready m n) m n s
      → Reaches (ready m n) m n (read_frame d camera fuel s)
  unfolding read_frame
  read_frame-Reaches m n s at =
      by_method (λ a. At (ready m n) m n) (read_frame_by d camera fuel) s.io m s at.same_io
        (read_frame_by-Reaches m n s at)

  waited-At :
      (m : IoMethod) (n : ℕ) (r : Readiness) (s : State)
      → At (ready m n) m n s
      → At (ready m n) m n (record s { trace = waited r ∷ s.trace })
  unfolding after_event
  waited-At io_read n r s at = emit-At (waited r) (ready io_read n) s at refl
  waited-At io_mmap n r s at = emit-At (waited r) (ready io_mmap n) s at refl
  waited-At io_userptr n r s at = emit-At (waited r) (ready io_userptr n) s at refl

  module _ (m : IoMethod) (n : ℕ) where
    frame_loop-Reaches :
        (k : ℕ) (s : State)
        → At (ready m n) m n s
        → Reaches (ready m n) m n (frame_loop d camera fuel k s)
    unfolding frame_loop
    frame_loop-Reaches zero s at = At-Legal s at
    frame_loop-Reaches (suc k) s at =
        selected (camera.select s.trace) (waited-At m n (camera.select s.trace) s at)
          (frame_loop-Reaches k)
      where
        selected :
            (r : Readiness)
            → At (ready m n) m n (record s { trace = waited r ∷ s.trace })
            → ((t : State)
                → At (ready m n) m n t
                → Reaches (ready m n) m n (frame_loop d camera fuel k t))
            → Reaches (ready m n) m n (
                after_select d camera fuel
                  (frame_loop d camera fuel k)
                  r
                  (record s { trace = waited r ∷ s.trace }))
        selected interrupted at' again = again _ at'
        selected broken at' again = At-Legal _ at'
        selected timeout at' again = At-Legal _ at'
        selected readable at' again =
            bind-Meets (λ a. At (ready m n) m n) (λ a. At (ready m n) m n)
              (read_frame d camera fuel (record s { trace = waited readable ∷ s.trace })) _
              (read_frame-Reaches m n _ at') (λ got t at''. got_one got t at'' again)
          where
            got_one :
                (got : Bool) (t : State)
                → At (ready m n) m n t
                → ((u : State)
                    → At (ready m n) m n u
                    → Reaches (ready m n) m n (frame_loop d camera fuel k u))
                → Reaches (ready m n) m n (unless_got got (frame_loop d camera fuel k) t)
            got_one true t at'' again' = at''
            got_one false t at'' again' = again' t at''

    count_loop-Reaches :
        (count : ℕ) (s : State)
        → At (ready m n) m n s
        → Reaches (ready m n) m n (count_loop d camera fuel count s)
    unfolding count_loop
    count_loop-Reaches zero s at = at
    count_loop-Reaches (suc count) s at =
        bind-Meets (λ a. At (ready m n) m n) (λ a. At (ready m n) m n)
          (frame_loop d camera fuel fuel s) _ (frame_loop-Reaches fuel s at)
          (λ a t at'. count_loop-Reaches count t at')

    pub mainloop-Reaches :
        (s : State) → At (ready m n) m n s → Reaches (ready m n) m n (mainloop d camera fuel s)
    unfolding mainloop
    mainloop-Reaches s at = count_loop-Reaches (to_unsigned s.frame_count) s at
