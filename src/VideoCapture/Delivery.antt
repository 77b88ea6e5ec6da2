-- ===== src/VideoCapture/Delivery.antt =====
-- A camera that answers every call, and commands that return with such a camera.
pub mod Mainloop
pub mod Preparation
pub mod Streaming
pub mod Session
use code_samples.Base.{
  ℕ, zero, suc, ◌+◌, ◌≤◌, ◌<◌, ◌≡◌, refl, Bool, true, false, Option, some, List, [], ◌∷◌, arith,
  Bytes, sym, ◌∙◌, is_some,
}
use code_samples.Base.Int.{ℤ}
use code_samples.VideoCapture.Camera.{
  Camera, IoMethod, io_mmap, Event, processed, Trace, Request, reqbufs, dqbuf, Reply, ok, failed,
  readable, called,
}
use code_samples.VideoCapture.State.{
  State, Run, done, exited, aborted, fault, unfinished, Command, after, or_exit, pure, ◌>>=◌,
}
use code_samples.VideoCapture.Yuv.{Double}
use code_samples.VideoCapture.Frames.{xioctl_loop, xioctl, unless_interrupted}

-- The number of frames that a trace has processed.
unfoldable pub frames : Trace → ℕ
frames [] = 0
frames (processed size ∷ h) = suc (frames h)
frames (e ∷ h) = frames h

-- What the driver fills in: it gives `n` buffers, and dequeues one of them.
abbrev pub Fits : ℕ → Request → ℕ → Type 0
Fits n (reqbufs m) x = x ≡ n
Fits n (dqbuf m) x = x < n
Fits n r x = Unit {0}

-- A camera that streams from `n` buffers, with every call a success.
pub record Willing (camera : Camera) (n : ℕ) : Type 0 where
  pub exists : (h : Trace) (name : Bytes) → camera.exists h name ≡ true
  pub character : (h : Trace) (name : Bytes) → camera.is_character_device h name ≡ true
  pub opens : (h : Trace) (name : Bytes) → is_some (camera.opens h name) ≡ true
  pub closes : (h : Trace) → camera.closes h ≡ true
  pub answers : (h : Trace) (r : Request) → (x : ℕ) × (camera.ioctl h r ≡ ok x) × Fits n r x
  pub captures : (h : Trace) → (camera.capabilities h).video_capture ≡ true
  pub streams : (h : Trace) → (camera.capabilities h).streaming ≡ true
  pub selects : (h : Trace) → camera.select h ≡ readable
  pub remembers : (h : Trace) → camera.has_memory h ≡ true
  pub maps : (h : Trace) (length : ℕ) → is_some (camera.mmap h length) ≡ true
  pub unmaps : (h : Trace) → camera.munmaps h ≡ true

-- A run that returns, with a postcondition.
abbrev pub Ends : {A : Type 0} → (A → State → Type 0) → Run A → Type 0
Ends Q (done a s) = Q a s
Ends Q r = ⊥

pub bind-Ends :
    {A B : Type 0} (Q : A → State → Type 0) (R : B → State → Type 0) (r : Run A) (k : A → Command B)
    → Ends Q r
    → ((a : A) (s : State) → Q a s → Ends R (k a s))
    → Ends R (after r k)
bind-Ends Q R (done a s) k first then' = then' a s first
bind-Ends Q R (exited code s) k first then' = absurd first
bind-Ends Q R (aborted s) k first then' = absurd first
bind-Ends Q R (fault s) k first then' = absurd first
bind-Ends Q R (unfinished s) k first then' = absurd first

-- A state that streams by mmap, without output, with `b` buffers counted and `k` frames processed.
pub record Going (c : ℤ) (b k : ℕ) (s : State) : Type 0 where
  pub same_io : s.io ≡ io_mmap
  pub no_output : s.out_buf ≡ 0
  pub same_count : s.frame_count ≡ c
  pub same_n : s.n_buffers ≡ b
  pub frames_so_far : frames s.trace ≡ k

pub recount : {c : ℤ} {b k : ℕ} (k' : ℕ) {s : State} → k ≡ k' → Going c b k s → Going c b k' s
recount k' e g = record {
  same_io = g.same_io;
  no_output = g.no_output;
  same_count = g.same_count;
  same_n = g.same_n;
  frames_so_far = g.frames_so_far ∙ e;
}

-- A command that a field of the state selects.
pub select-Ends :
    {M A : Type 0} (Q : A → State → Type 0) (f : M → Command A) (m m' : M) (s : State)
    → m ≡ m'
    → Ends Q (f m' s)
    → Ends Q (f m s)
select-Ends Q f m m' s e ends = rw e ends

pub weaken-Ends :
    {A : Type 0} (Q R : A → State → Type 0) (r : Run A)
    → Ends Q r
    → ((a : A) (s : State) → Q a s → R a s)
    → Ends R r
weaken-Ends Q R (done a s) ends implies = implies a s ends
weaken-Ends Q R (exited code s) ends implies = ends
weaken-Ends Q R (aborted s) ends implies = ends
weaken-Ends Q R (fault s) ends implies = ends
weaken-Ends Q R (unfinished s) ends implies = ends

module _ (d : Double) (camera : Camera) (fuel : ℕ) (n : ℕ) (willing : Willing camera n)
    (some_fuel : 1 ≤ fuel) (c : ℤ) where
  -- A call whose event is none of a frame.
  pub call-Going :
      {b k : ℕ} (e : Event) (s : State)
      → frames (e ∷ s.trace) ≡ frames s.trace
      → Going c b k s
      → Going c b k (record s { trace = e ∷ s.trace })
  call-Going e s other_event g = record {
    same_io = g.same_io;
    no_output = g.no_output;
    same_count = g.same_count;
    same_n = g.same_n;
    frames_so_far = ground arith;
  }

  xioctl_loop-done :
      (f : ℕ) (r : Request) (x : ℕ) (s : State)
      → 1 ≤ f
      → camera.ioctl s.trace r ≡ ok x
      → xioctl_loop d camera fuel f r s
        ≡ done (ok x) (record s { trace = called r (ok x) ∷ s.trace })
  unfolding xioctl_loop
  xioctl_loop-done zero r x s some_f e = absurd (omega arith)
  xioctl_loop-done (suc f) r x s some_f e = rw e refl

  pub request-Ends :
      {B : Type 0} {b k : ℕ} (R : B → State → Type 0) (r : Request) (s : State)
      (next : Reply → Command B)
      → Going c b k s
      → ((x : ℕ) (t : State) → Fits n r x → Going c b k t → Ends R (next (ok x) t))
      → Ends R ((xioctl d camera fuel r >>= next) s)
  unfolding xioctl frames
  request-Ends R r s next g then' =
      let (x, e, fits) = willing.answers s.trace r in
      rw (xioctl_loop-done fuel r x s some_fuel e, xioctl)
        (then' x (record s { trace = called r (ok x) ∷ s.trace }) fits
          (call-Going (called r (ok x)) s refl g))
