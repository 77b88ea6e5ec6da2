-- ===== src/VideoCapture/Frames.antt =====
-- xioctl, jpegWrite, process_image, read_frame and mainloop of capture.c. The retries of xioctl and
-- of the select loop run on fuel.
use code_samples.Base.{
  ℕ, zero, suc, ◌+◌, ◌-◌, ◌*◌, ◌%◌, ◌^◌, ◌==◌, Bool, true, false, not, ◌&&◌, Option, none, some,
  List, [], ◌∷◌, ltb, if◌then◌else◌, Bytes, take, drop,
}
use code_samples.Base.Int.{ℤ, pos, pos_part, neg_part, to_int}
use code_samples.VideoCapture.Camera.{
  Camera, Frame, IoMethod, io_read, io_mmap, io_userptr, Errno, eagain, eintr, Request, qbuf, dqbuf,
  Reply, ok, failed, Readiness, interrupted, broken, timeout, readable, called, waited, read_in,
  processed, image_allocated, image_freed, file_opened, file_closed, scanline,
}
use code_samples.VideoCapture.State.{
  Buffer, State, Command, unfinished, aborted, fault, pure, emit, get, ask, exit_failure, or_exit,
  ◌>>=◌, ◌>>◌,
}
use code_samples.VideoCapture.Yuv.{Double, yuv422_to_rgb888}

abbrev pub image_width : ℕ
image_width = 1280

abbrev pub image_height : ℕ
image_height = 720

-- A conversion of an `int` to 64 bits without sign.
abbrev pub to_size : ℤ → ℕ
to_size n = (pos_part n + 2 ^ 64 - neg_part n) % 2 ^ 64

-- `buffers[i]`, if the array has it.
abbrev pub buffer_at : List Buffer → ℕ → Option Buffer
buffer_at [] i = none
buffer_at (b ∷ bs) zero = some b
buffer_at (b ∷ bs) (suc i) = buffer_at bs i

-- The first of the first `n` buffers with a given start and length.
unfoldable pub find_buffer : List Buffer → (n start length : ℕ) → Bool
find_buffer bs zero start length = false
find_buffer [] (suc n) start length = false
find_buffer (b ∷ bs) (suc n) start length =
    let rest = find_buffer bs n start length in
    if b.start == start && b.length == length then true else rest

-- A call that was interrupted is made again.
abbrev pub unless_interrupted : Reply → Command Reply → Command Reply
unless_interrupted (failed eintr) again = again
unless_interrupted reply again = pure reply

abbrev is_eagain : Errno → Bool
is_eagain eagain = true
is_eagain e = false

-- A failed read or request: whether to try again; otherwise the program exits.
abbrev pub try_again : Errno → Command Bool
try_again e = if is_eagain e then pure false else exit_failure

-- The count, an `unsigned int`.
abbrev pub to_unsigned : ℤ → ℕ
to_unsigned n = (pos_part n % 2 ^ 32 + 2 ^ 32 - neg_part n % 2 ^ 32) % 2 ^ 32

-- The asserts: the index is one of the buffers, or the address and the length are.
unfoldable pub is_known : IoMethod → (index : ℕ) → Frame → State → Bool
is_known io_mmap index frame s = ltb index s.n_buffers
is_known io_userptr index frame s = find_buffer s.buffers s.n_buffers frame.userptr frame.length
is_known io_read index frame s = true

abbrev pub unless_got : Bool → Command (Unit {0}) → Command (Unit {0})
unless_got true again = pure tt
unless_got false again = again

module _ (d : Double) (camera : Camera) (fuel : ℕ) where
  unfoldable pub xioctl_loop : (fuel : ℕ) → Request → Command Reply
  xioctl_loop zero r = unfinished
  xioctl_loop (suc k) r = do
    reply ← ask (λ h. camera.ioctl h r)
    emit (called r reply)
    unless_interrupted reply (xioctl_loop k r)

  unfoldable pub xioctl : Request → Command Reply
  unfolding xioctl_loop
  xioctl = xioctl_loop fuel

  -- The scanlines from a given one on.
  unfoldable pub write_scanlines : (left next width : ℕ) → Bytes → Command (Unit {0})
  write_scanlines zero next width img = pure tt
  write_scanlines (suc n) next width img = do
    emit (scanline (take (width * 3) (drop (next * width * 3) img)))
    write_scanlines n (next + 1) width img

  unfoldable pub jpeg_write : Bytes → (width height : ℕ) → Command (Unit {0})
  unfolding write_scanlines
  jpeg_write img width height = do
    opened ← ask camera.opens_file
    if not opened
        then exit_failure
        else do emit file_opened; write_scanlines height 0 width img; emit file_closed

  -- The image in a buffer of its own, which is freed.
  unfoldable pub write_image : (jpeg : ℕ) → Option Bytes → Command (Unit {0})
  unfolding jpeg_write
  write_image jpeg none = fault
  write_image jpeg (some img) = do jpeg_write img image_width image_height; emit (image_freed jpeg)

  -- A destination that malloc did not give cannot be written to.
  unfoldable pub convert_image : Bytes → (size : ℤ) → Option ℕ → Command (Unit {0})
  unfolding write_image
  convert_image content size none = fault
  convert_image content size (some jpeg) =
      write_image jpeg (yuv422_to_rgb888 d content (to_size size) image_width image_height)

  unfoldable pub process_image : Bytes → (size : ℤ) → Command (Unit {0})
  unfolding convert_image
  process_image content size = do
    emit (processed size)
    s ← get
    if s.out_buf == 0 then pure tt else (do
      jpeg ← ask (λ h. camera.malloc h (to_size size))
      emit (image_allocated jpeg)
      convert_image content size jpeg)

  -- The frame in the first buffer.
  unfoldable pub process_first : Option Buffer → Command Bool
  process_first none = fault
  process_first (some b) = do
    frame ← ask camera.dequeued
    process_image frame.content (to_int (pos b.length))
    pure true

  unfoldable pub after_read : Option Errno → Command Bool
  unfolding process_first
  after_read (some e) = try_again e
  after_read none = do s ← get; process_first (buffer_at s.buffers 0)

  -- A dequeued buffer is processed and queued again.
  unfoldable pub requeue : IoMethod → (index : ℕ) → Command Bool
  requeue memory index = do
    frame ← ask camera.dequeued
    process_image frame.content (to_int (pos frame.bytesused))
    reply ← xioctl (qbuf memory index)
    or_exit reply (λ _. pure true)

  unfoldable pub after_dequeue : IoMethod → Reply → Command Bool
  unfolding is_known requeue
  after_dequeue memory (failed e) = try_again e
  after_dequeue memory (ok index) = do
    frame ← ask camera.dequeued
    s ← get
    if is_known memory index frame s then requeue memory index else aborted

  unfoldable pub dequeue : IoMethod → Command Bool
  unfolding after_dequeue
  dequeue memory = do reply ← xioctl (dqbuf memory); after_dequeue memory reply

  unfoldable pub read_frame_by : IoMethod → Command Bool
  unfolding after_read dequeue
  read_frame_by io_read = do result ← ask camera.reads; emit (read_in result); after_read result
  read_frame_by io_mmap = dequeue io_mmap
  read_frame_by io_userptr = dequeue io_userptr

  unfoldable pub read_frame : Command Bool
  unfolding read_frame_by
  read_frame = do s ← get; read_frame_by s.io

  -- What follows the select; `again` is the next round.
  abbrev pub after_select : Command (Unit {0}) → Readiness → Command (Unit {0})
  after_select again interrupted = again
  after_select again broken = exit_failure
  after_select again timeout = exit_failure
  after_select again readable = do got ← read_frame; unless_got got again

  -- One frame: select until a frame is read.
  unfoldable pub frame_loop : (fuel : ℕ) → Command (Unit {0})
  frame_loop zero = unfinished
  frame_loop (suc k) = do r ← ask camera.select; emit (waited r); after_select (frame_loop k) r

  unfoldable pub count_loop : (count : ℕ) → Command (Unit {0})
  unfolding frame_loop
  count_loop zero = pure tt
  count_loop (suc count) = do frame_loop fuel; count_loop count

  unfoldable pub mainloop : Command (Unit {0})
  unfolding count_loop
  mainloop = do s ← get; count_loop (to_unsigned s.frame_count)
