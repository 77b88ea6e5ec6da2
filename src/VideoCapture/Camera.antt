-- ===== src/VideoCapture/Camera.antt =====
-- What capture.c takes from outside: the camera's driver, the memory, libjpeg and the files. Each
-- call is an event of a trace, and what it answers may depend on the whole trace before it.
use code_samples.Base.{ℕ, Bool, Option, List, Bytes}
use code_samples.Base.Int.{ℤ}

-- `enum io_method`, and the memory of a request.
pub data IoMethod : Type 0 where
  io_read io_mmap io_userptr : IoMethod

pub data Errno : Type 0 where
  eagain eintr eio einval : Errno
  other : ℕ → Errno

-- The requests of ioctl.
pub data Request : Type 0 where
  querycap cropcap s_crop s_fmt g_fmt : Request
  reqbufs : IoMethod → Request
  querybuf : ℕ → Request
  qbuf : IoMethod → (index : ℕ) → Request
  dqbuf : IoMethod → Request
  streamon streamoff : Request

-- A failure (-1), or success (0) with the number that the driver fills in: the count for `reqbufs`, the length for
-- `querybuf`, the index for `dqbuf`.
pub data Reply : Type 0 where
  ok : ℕ → Reply
  failed : Errno → Reply

-- What select says.
pub data Readiness : Type 0 where
  interrupted broken timeout readable : Readiness

-- The newest event stands first in a trace.
pub data Event : Type 0 where
  device_opened device_closed : Event
  called : Request → Reply → Event
  array_allocated : (count : ℕ) → Event
  array_freed : Event
  mapped unmapped allocated freed : (index : ℕ) → Event
  waited : Readiness → Event
  read_in : Option Errno → Event
  processed : (size : ℤ) → Event
  -- What malloc gives for an image, and the release of one.
  image_allocated : Option ℕ → Event
  image_freed : (address : ℕ) → Event
  file_opened file_closed : Event
  scanline : Bytes → Event
  printed_usage : Event

abbrev pub Trace : Type 0
Trace = List Event

-- `cap.capabilities`
pub record Capabilities : Type 0 where
  pub video_capture : Bool
  pub read_write : Bool
  pub streaming : Bool

-- The fields of `fmt.fmt.pix` that the code uses, unsigned numbers of 32 bits.
pub record Format : Type 0 where
  pub width : ℕ
  pub height : ℕ
  pub bytesperline : ℕ
  pub sizeimage : ℕ

-- What `dqbuf` fills in beside the index.
pub record Frame : Type 0 where
  pub bytesused : ℕ
  pub userptr : ℕ
  pub length : ℕ
  -- The bytes at the frame's start, as many as can be read there.
  pub content : Bytes

pub record Camera : Type 0 where
  -- Whether stat finds the device, and it is a character device.
  pub exists : Trace → Bytes → Bool
  pub is_character_device : Trace → Bytes → Bool
  pub opens : Trace → Bytes → Option ℕ
  pub closes : Trace → Bool
  pub ioctl : Trace → Request → Reply
  pub capabilities : Trace → Capabilities
  -- The format that `s_fmt` or `g_fmt` leaves.
  pub format : Trace → Format
  pub dequeued : Trace → Frame
  pub select : Trace → Readiness
  pub reads : Trace → Option Errno
  pub has_memory : Trace → Bool
  -- The addresses that malloc and mmap give, or none.
  pub malloc : Trace → ℕ → Option ℕ
  pub mmap : Trace → ℕ → Option ℕ
  pub munmaps : Trace → Bool
  pub opens_file : Trace → Bool
