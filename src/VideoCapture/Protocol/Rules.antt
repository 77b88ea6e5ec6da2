-- ===== src/VideoCapture/Protocol/Rules.antt =====
-- Rules for commands whose traces follow the protocol.
use code_samples.Base.{ℕ, zero, suc, ◌≡◌, true, some, ◌∷◌, arith}
use code_samples.VideoCapture.Camera.{
  Camera, IoMethod, Errno, Event, Trace, Request, Reply, ok, failed, eagain, eintr, eio, einval,
  other, called,
}
use code_samples.VideoCapture.State.{
  State, Run, done, exited, aborted, fault, unfinished, Command, after, ◌>>=◌, or_exit,
}
use code_samples.VideoCapture.Yuv.{Double}
use code_samples.VideoCapture.Frames.{xioctl_loop, xioctl, unless_interrupted}
use code_samples.VideoCapture.Protocol.{Phase, is_open, after_event, phase}

-- A state whose trace follows the protocol, in a phase and with given globals.
pub record At (ph : Phase) (io : IoMethod) (n : ℕ) (s : State) : Type 0 where
  pub in_phase : phase s.trace ≡ some ph
  pub same_io : s.io ≡ io
  pub same_n : s.n_buffers ≡ n

pub record Legal (s : State) : Type 0 where
  pub at : Phase
  pub follows : phase s.trace ≡ some at

-- A run's trace follows the protocol, however it ends, and a run that returns has the
-- postcondition.
abbrev pub Meets : {A : Type 0} → (A → State → Type 0) → Run A → Type 0
Meets Q (done a s) = Q a s
Meets Q (exited code s) = Legal s
Meets Q (aborted s) = Legal s
Meets Q (fault s) = Legal s
Meets Q (unfinished s) = Legal s

abbrev pub Reaches : {A : Type 0} → Phase → IoMethod → ℕ → Run A → Type 0
Reaches ph io n = Meets (λ a. At ph io n)

pub At-Legal : {ph : Phase} {io : IoMethod} {n : ℕ} (s : State) → At ph io n s → Legal s
At-Legal {ph} s at = record { at = ph; follows = at.in_phase }

pub bind-Meets :
    {A B : Type 0} (Q : A → State → Type 0) (R : B → State → Type 0) (r : Run A) (k : A → Command B)
    → Meets Q r
    → ((a : A) (s : State) → Q a s → Meets R (k a s))
    → Meets R (after r k)
bind-Meets Q R (done a s) k first then' = then' a s first
bind-Meets Q R (exited code s) k first then' = first
bind-Meets Q R (aborted s) k first then' = first
bind-Meets Q R (fault s) k first then' = first
bind-Meets Q R (unfinished s) k first then' = first

pub weaken-Meets :
    {A : Type 0} (Q R : A → State → Type 0) (r : Run A)
    → Meets Q r
    → ((a : A) (s : State) → Q a s → R a s)
    → Meets R r
weaken-Meets Q R (done a s) meets implies = implies a s meets
weaken-Meets Q R (exited code s) meets implies = meets
weaken-Meets Q R (aborted s) meets implies = meets
weaken-Meets Q R (fault s) meets implies = meets
weaken-Meets Q R (unfinished s) meets implies = meets

-- What holds of a state behind one more event.
pub emit-At :
    {ph : Phase} {io : IoMethod} {n : ℕ} (e : Event) (ph' : Phase) (s : State)
    → At ph io n s
    → after_event e ph ≡ some ph'
    → At ph' io n (record s { trace = e ∷ s.trace })
unfolding phase
emit-At e ph' s at allowed = record {
  in_phase = ground arith;
  same_io = at.same_io;
  same_n = at.same_n;
}

pub phase-cons :
    (e : Event) (h : Trace) (ph : Phase) → phase h ≡ some ph → phase (e ∷ h) ≡ after_event e ph
unfolding phase
phase-cons e h ph at = ground arith

failed-allowed :
    (r : Request) (e : Errno) (ph : Phase)
    → is_open ph ≡ true
    → after_event (called r (failed e)) ph ≡ some ph
unfolding after_event
failed-allowed r e ph open_ph = ground arith

-- What a request may leave: a failure leaves the phase, a success the phase behind it.
abbrev pub Answered : Phase → IoMethod → ℕ → Request → Reply → State → Type 0
Answered ph io n r (failed e) s = At ph io n s
Answered ph io n r (ok x) s =
    phase s.trace ≡ after_event (called r (ok x)) ph × s.io ≡ io × s.n_buffers ≡ n

module _ (d : Double) (camera : Camera) (fuel : ℕ) where
  xioctl_loop-Answered :
      (k : ℕ) (r : Request) (ph : Phase) (io : IoMethod) (n : ℕ) (s : State)
      → is_open ph ≡ true
      → At ph io n s
      → Meets (Answered ph io n r) (xioctl_loop d camera fuel k r s)
  unfolding xioctl_loop
  xioctl_loop-Answered zero r ph io n s open_ph at = At-Legal s at
  xioctl_loop-Answered (suc k) r ph io n s open_ph at =
      answered (camera.ioctl s.trace r) (λ t. xioctl_loop-Answered k r ph io n t open_ph)
    where
      failure : (e : Errno) → At ph io n (record s { trace = called r (failed e) ∷ s.trace })
      failure e = emit-At (called r (failed e)) ph s at (failed-allowed r e ph open_ph)

      answered :
          (reply : Reply)
          → ((t : State)
              → At ph io n t
              → Meets (Answered ph io n r) (xioctl_loop d camera fuel k r t))
          → Meets (Answered ph io n r) (
              (unless_interrupted reply (xioctl_loop d camera fuel k r))
                (record s { trace = called r reply ∷ s.trace }))
      answered (ok x) again =
          (phase-cons (called r (ok x)) s.trace ph at.in_phase, at.same_io, at.same_n)
      answered (failed eintr) again = again _ (failure eintr)
      answered (failed eagain) again = failure eagain
      answered (failed eio) again = failure eio
      answered (failed einval) again = failure einval
      answered (failed (other e)) again = failure (other e)

  pub xioctl-Answered :
      (r : Request) (ph : Phase) (io : IoMethod) (n : ℕ) (s : State)
      → is_open ph ≡ true
      → At ph io n s
      → Meets (Answered ph io n r) (xioctl d camera fuel r s)
  unfolding xioctl
  xioctl-Answered = xioctl_loop-Answered fuel

  -- A request that must succeed, and its use of what the driver fills in.
  pub request-Meets :
      {B : Type 0} (R : B → State → Type 0) (r : Request) (ph : Phase) (io : IoMethod) (n : ℕ)
      (s : State) (k : ℕ → Command B)
      → is_open ph ≡ true
      → At ph io n s
      → ((x : ℕ) (t : State)
          → phase t.trace ≡ after_event (called r (ok x)) ph
          → t.io ≡ io
          → t.n_buffers ≡ n
          → Meets R (k x t))
      → Meets R ((xioctl d camera fuel r >>= (λ reply. or_exit reply k)) s)
  request-Meets R r ph io n s k open_ph at next =
      bind-Meets (Answered ph io n r) R (xioctl d camera fuel r s) _
        (xioctl-Answered r ph io n s open_ph at) answered
    where
      answered :
          (reply : Reply) (t : State) → Answered ph io n r reply t → Meets R (or_exit reply k t)
      answered (ok x) t (in_phase, same_io, same_n) = next x t in_phase same_io same_n
      answered (failed e) t at' = At-Legal t at'
