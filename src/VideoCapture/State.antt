-- ===== src/VideoCapture/State.antt =====
-- The globals of capture.c with the trace of the calls so far, and commands on them.
use code_samples.Base.{ℕ, Option, none, List, [], ◌∷◌, Bytes, codes}
use code_samples.Base.Int.{ℤ, pos}
use code_samples.VideoCapture.Camera.{IoMethod, io_mmap, Event, Trace, Reply, ok, failed}

-- `struct buffer`
pub record Buffer : Type 0 where
  pub start : ℕ
  pub length : ℕ

pub record State : Type 0 where
  pub dev_name : Bytes
  pub io : IoMethod
  pub fd : Option ℕ
  pub buffers : List Buffer
  pub n_buffers : ℕ
  pub out_buf : ℕ
  pub force_format : ℕ
  pub frame_count : ℤ
  pub trace : Trace

-- The static initializers, and the first assignment of `main`.
abbrev pub initial : State
initial = record {
  dev_name = codes "/dev/video0";
  io = io_mmap;
  fd = none;
  buffers = [];
  n_buffers = 0;
  out_buf = 0;
  force_format = 0;
  frame_count = pos 70;
  trace = [];
}

-- A run returns, or exits with a code, or a failed assert aborts it, or it reads or writes outside
-- of an object, or it has no fuel left.
pub data Run (A : Type 0) : Type 0 where
  done : A → State → Run A
  exited : ℕ → State → Run A
  aborted : State → Run A
  fault : State → Run A
  unfinished : State → Run A

abbrev pub Command : Type 0 → Type 0
Command A = State → Run A

abbrev pub pure : {A : Type 0} → A → Command A
pure = done

module _ {A B : Type 0} where
  abbrev pub after : Run A → (A → Command B) → Run B
  after (done a s) k = k a s
  after (exited code s) k = exited code s
  after (aborted s) k = aborted s
  after (fault s) k = fault s
  after (unfinished s) k = unfinished s

  infixl 5 ◌>>=◌ ◌>>◌
  abbrev pub ◌>>=◌ : Command A → (A → Command B) → Command B
  m >>= k = λ s. after (m s) k

  abbrev pub ◌>>◌ : Command A → Command B → Command B
  m >> k = m >>= λ _. k

abbrev pub emit : Event → Command (Unit {0})
emit e s = done tt (record s { trace = e ∷ s.trace })

-- The globals, and the answer to a call.
abbrev pub get : Command State
get s = done s s

abbrev pub ask : {A : Type 0} → (Trace → A) → Command A
ask f s = done (f s.trace) s

abbrev pub modify : (State → State) → Command (Unit {0})
modify f s = done tt (f s)

-- `exit(EXIT_FAILURE)`, also at the end of `errno_exit`.
abbrev pub exit_failure : {A : Type 0} → Command A
exit_failure s = exited 1 s

-- What follows a call that succeeds; a failure exits.
abbrev pub or_exit : {A : Type 0} → Reply → (ℕ → Command A) → Command A
or_exit (ok n) k = k n
or_exit (failed e) k = exit_failure
