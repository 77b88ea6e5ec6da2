-- ===== src/VideoCapture/Main.antt =====
-- `main` of capture.c. `choices` is what getopt_long returns one after the other, with the number
-- that strtol makes of the argument of `--count`, or its failure.
use code_samples.Base.{ℕ, ◌+◌, Option, none, some, List, [], ◌∷◌, Bytes}
use code_samples.Base.Int.{ℤ, to_int}
use code_samples.VideoCapture.Camera.{Camera, io_read, io_mmap, io_userptr, printed_usage}
use code_samples.VideoCapture.State.{State, Command, exited, pure, emit, modify, exit_failure, ◌>>◌}
use code_samples.VideoCapture.Yuv.{Double}
use code_samples.VideoCapture.Frames.{mainloop}
use code_samples.VideoCapture.Setup.{
  open_device, init_device, start_capturing, stop_capturing, uninit_device, close_device,
}

pub data Choice : Type 0 where
  flag help mmap read userp output format unknown : Choice
  device : Bytes → Choice
  count : Option ℤ → Choice

unfoldable pub choose : Choice → Command (Unit {0})
choose flag = pure tt
choose (device name) = modify (λ (s : State). record s { dev_name = name })
choose help = do emit printed_usage; exited 0
choose mmap = modify (λ (s : State). record s { io = io_mmap })
choose read = modify (λ (s : State). record s { io = io_read })
choose userp = modify (λ (s : State). record s { io = io_userptr })
choose output = modify (λ (s : State). record s { out_buf = s.out_buf + 1 })
choose format = modify (λ (s : State). record s { force_format = s.force_format + 1 })
choose (count (some n)) = modify (λ (s : State). record s { frame_count = to_int n })
choose (count none) = exit_failure
choose unknown = do emit printed_usage; exit_failure

unfoldable pub choose_all : List Choice → Command (Unit {0})
unfolding choose
choose_all [] = pure tt
choose_all (c ∷ cs) = do choose c; choose_all cs

module _ (d : Double) (camera : Camera) (fuel : ℕ) where
  -- Behind the options.
  unfoldable pub capture : Command ℕ
  capture = do
    open_device d camera fuel
    init_device d camera fuel
    start_capturing d camera fuel
    mainloop d camera fuel
    stop_capturing d camera fuel
    uninit_device d camera fuel
    close_device d camera fuel
    pure 0

  unfoldable pub main : List Choice → Command ℕ
  unfolding choose_all capture
  main choices = do choose_all choices; capture
