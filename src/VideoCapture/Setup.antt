-- ===== src/VideoCapture/Setup.antt =====
-- The set-up and the clean-up of capture.c: start_capturing, stop_capturing, the initializations,
-- uninit_device, open_device and close_device.
use code_samples.Base.{
  ℕ, zero, suc, ◌+◌, ◌*◌, ◌%◌, ◌^◌, ◌==◌, Bool, not, Option, none, some, [], ◌∷◌, ◌++◌, ltb,
  if◌then◌else◌,
}
use code_samples.VideoCapture.Camera.{
  Camera, Capabilities, Format, IoMethod, io_read, io_mmap, io_userptr, Request, querycap, cropcap,
  s_crop, s_fmt, g_fmt, reqbufs, querybuf, qbuf, streamon, streamoff, Reply, ok, failed,
  device_opened, device_closed, array_allocated, array_freed, mapped, unmapped, allocated, freed,
}
use code_samples.VideoCapture.State.{
  State, Command, pure, emit, get, modify, ask, exit_failure, or_exit, ◌>>=◌, ◌>>◌,
}
use code_samples.VideoCapture.Yuv.{Double}
use code_samples.VideoCapture.Frames.{xioctl}

module _ (d : Double) (camera : Camera) (fuel : ℕ) where
  abbrev pub request : Request → Command Reply
  request = xioctl d camera fuel

  unfoldable pub queue_buffers : IoMethod → (left index : ℕ) → Command (Unit {0})
  queue_buffers memory zero index = pure tt
  queue_buffers memory (suc n) index = do
    reply ← request (qbuf memory index)
    or_exit reply (λ _. queue_buffers memory n (index + 1))

  unfoldable pub start_streaming : IoMethod → Command (Unit {0})
  unfolding queue_buffers
  start_streaming memory = do
    s ← get
    queue_buffers memory s.n_buffers 0
    reply ← request streamon
    or_exit reply (λ _. pure tt)

  unfoldable pub start_capturing_by : IoMethod → Command (Unit {0})
  unfolding start_streaming
  start_capturing_by io_read = pure tt
  start_capturing_by io_mmap = start_streaming io_mmap
  start_capturing_by io_userptr = start_streaming io_userptr

  unfoldable pub start_capturing : Command (Unit {0})
  unfolding start_capturing_by
  start_capturing = do s ← get; start_capturing_by s.io

  unfoldable pub stop_streaming : Command (Unit {0})
  stop_streaming = do reply ← request streamoff; or_exit reply (λ _. pure tt)

  unfoldable pub stop_capturing_by : IoMethod → Command (Unit {0})
  unfolding stop_streaming
  stop_capturing_by io_read = pure tt
  stop_capturing_by io_mmap = stop_streaming
  stop_capturing_by io_userptr = stop_streaming

  unfoldable pub stop_capturing : Command (Unit {0})
  unfolding stop_capturing_by
  stop_capturing = do s ← get; stop_capturing_by s.io

  unfoldable pub unmap_buffers : (left index : ℕ) → Command (Unit {0})
  unmap_buffers zero index = pure tt
  unmap_buffers (suc n) index = do
    unmaps ← ask camera.munmaps
    if not unmaps then exit_failure else do emit (unmapped index); unmap_buffers n (index + 1)

  unfoldable pub free_buffers : (left index : ℕ) → Command (Unit {0})
  free_buffers zero index = pure tt
  free_buffers (suc n) index = do emit (freed index); free_buffers n (index + 1)

  unfoldable pub uninit_device_by : IoMethod → (n_buffers : ℕ) → Command (Unit {0})
  unfolding unmap_buffers free_buffers
  uninit_device_by io_read n = emit (freed 0)
  uninit_device_by io_mmap n = unmap_buffers n 0
  uninit_device_by io_userptr n = free_buffers n 0

  unfoldable pub uninit_device : Command (Unit {0})
  unfolding uninit_device_by
  uninit_device = do s ← get; uninit_device_by s.io s.n_buffers; emit array_freed

  -- `buffers = calloc(count, …)`
  abbrev pub allocate_array : (count : ℕ) → Command (Unit {0})
  allocate_array count = do
    memory ← ask camera.has_memory
    if not memory
        then exit_failure
        else do emit (array_allocated count); modify (λ (s : State). record s { buffers = [] })

  -- The buffer behind the ones before it; `n` is the counter then.
  abbrev add_buffer : (start length n : ℕ) → Command (Unit {0})
  add_buffer start length n = modify (λ (s : State). record s {
    buffers = s.buffers ++ record { start = start; length = length } ∷ [];
    n_buffers = n;
  })

  -- A buffer of so many bytes.
  unfoldable pub allocate_buffer : (size index n : ℕ) → Option ℕ → Command (Unit {0})
  allocate_buffer size index n none = exit_failure
  allocate_buffer size index n (some start) = do emit (allocated index); add_buffer start size n

  -- init_read leaves the counter as it is.
  unfoldable pub init_read : (buffer_size : ℕ) → Command (Unit {0})
  unfolding allocate_buffer
  init_read buffer_size = do
    allocate_array 1
    start ← ask (λ h. camera.malloc h buffer_size)
    s ← get
    allocate_buffer buffer_size 0 s.n_buffers start

  unfoldable pub map_buffer : (length index : ℕ) → Option ℕ → Command (Unit {0})
  map_buffer length index none = exit_failure
  map_buffer length index (some start) = do emit (mapped index); add_buffer start length (index + 1)

  unfoldable pub map_buffers : (left index : ℕ) → Command (Unit {0})
  unfolding map_buffer
  map_buffers zero index = pure tt
  map_buffers (suc n) index = do
    reply ← request (querybuf index)
    or_exit reply (λ length. do
      start ← ask (λ h. camera.mmap h length)
      map_buffer length index start
      map_buffers n (index + 1))

  -- `n_buffers = 0`, at the head of a loop.
  abbrev reset_counter : Command (Unit {0})
  reset_counter = modify (λ (s : State). record s { n_buffers = 0 })

  unfoldable pub init_mmap : Command (Unit {0})
  unfolding map_buffers
  init_mmap = do
    reply ← request (reqbufs io_mmap)
    or_exit reply (λ count.
        if ltb count 2
        then exit_failure
        else do allocate_array count; reset_counter; map_buffers count 0)

  unfoldable pub allocate_buffers : (left index size : ℕ) → Command (Unit {0})
  unfolding allocate_buffer
  allocate_buffers zero index size = pure tt
  allocate_buffers (suc n) index size = do
    start ← ask (λ h. camera.malloc h size)
    allocate_buffer size index (index + 1) start
    allocate_buffers n (index + 1) size

  unfoldable pub init_userp : (buffer_size : ℕ) → Command (Unit {0})
  unfolding allocate_buffers
  init_userp buffer_size = do
    reply ← request (reqbufs io_userptr)
    or_exit reply (λ count. do allocate_array 4; reset_counter; allocate_buffers 4 0 buffer_size)

  -- Whether the device can do the way of input and output.
  abbrev pub supports : IoMethod → Capabilities → Bool
  supports io_read cap = cap.read_write
  supports io_mmap cap = cap.streaming
  supports io_userptr cap = cap.streaming

  abbrev pub check_capabilities : Capabilities → Command (Unit {0})
  check_capabilities cap = do
    s ← get
    if not cap.video_capture
        then exit_failure
        else if not (supports s.io cap)
        then exit_failure
        else pure tt

  -- The cropping is reset; errors are ignored.
  unfoldable pub reset_crop : Reply → Command (Unit {0})
  reset_crop (ok n) = do reply ← request s_crop; pure tt
  reset_crop (failed e) = pure tt

  -- "Buggy driver paranoia": unsigned numbers of 32 bits.
  unfoldable pub adjust_format : Format → Format
  adjust_format fmt =
      let line = fmt.width * 2 % 2 ^ 32 in
      let bytesperline = if ltb fmt.bytesperline line then line else fmt.bytesperline in
      let image = bytesperline * fmt.height % 2 ^ 32 in
      record fmt {
        bytesperline = bytesperline;
        sizeimage = if ltb fmt.sizeimage image then image else fmt.sizeimage;
      }

  unfoldable pub init_buffers : IoMethod → (size : ℕ) → Command (Unit {0})
  unfolding init_read init_mmap init_userp
  init_buffers io_read size = init_read size
  init_buffers io_mmap size = init_mmap
  init_buffers io_userptr size = init_userp size

  unfoldable pub init_device : Command (Unit {0})
  unfolding reset_crop init_buffers adjust_format
  init_device = do
    queried ← request querycap
    or_exit queried (λ _. do
      cap ← ask camera.capabilities
      check_capabilities cap
      cropping ← request cropcap
      reset_crop cropping
      s ← get
      formatted ← request (if s.force_format == 0 then g_fmt else s_fmt)
      or_exit formatted
          (λ _. do fmt ← ask camera.format; init_buffers s.io (adjust_format fmt).sizeimage))

  unfoldable pub close_device : Command (Unit {0})
  close_device = do
    closes ← ask camera.closes
    if not closes
        then exit_failure
        else do emit device_closed; modify (λ (s : State). record s { fd = none })

  unfoldable pub after_open : Option ℕ → Command (Unit {0})
  after_open none = exit_failure
  after_open (some fd) = do emit device_opened; modify (λ (s : State). record s { fd = some fd })

  unfoldable pub open_device : Command (Unit {0})
  unfolding after_open
  open_device = do
    s ← get
    exists ← ask (λ h. camera.exists h s.dev_name)
    if not exists then exit_failure else do
      character ← ask (λ h. camera.is_character_device h s.dev_name)
      if not character
          then exit_failure
          else do fd ← ask (λ h. camera.opens h s.dev_name); after_open fd
