-- ===== src/VideoCapture/Protocol.antt =====
-- The streaming protocol of V4L2 as a client has to follow it, with the ownership of its buffers: a
-- state machine over the calls of a trace, written without the program.
pub mod Device
pub mod Image
pub mod Preparation
pub mod Rules
pub mod Streaming
pub mod Buffers
pub mod Release
pub mod Session
use code_samples.Base.{
  ℕ, suc, ◌+◌, ◌==◌, ◌≡◌, Bool, true, false, ◌&&◌, Option, none, some, List, [], ◌∷◌, ltb,
  if◌then◌else◌,
}
use code_samples.VideoCapture.Camera.{
  IoMethod, io_read, io_mmap, io_userptr, Event, Trace, Request, querycap, cropcap, s_crop, s_fmt,
  g_fmt, reqbufs, querybuf, qbuf, dqbuf, streamon, streamoff, Reply, ok, failed, device_opened,
  device_closed, called, array_allocated, array_freed, mapped, unmapped, allocated, freed, waited,
  read_in, processed, image_allocated, image_freed, file_opened, file_closed, scanline,
  printed_usage,
}

pub data Phase : Type 0 where
  closed : Phase
  -- The device is open and has no buffers.
  opened : Phase
  requested : IoMethod → Phase
  -- An array of `n` buffers, the first `k` of which are there.
  holding : IoMethod → (n k : ℕ) → Phase
  -- The first `k` of the `n` buffers are the driver's.
  queueing : IoMethod → (n k : ℕ) → Phase
  -- The driver has all `n` buffers, or all but one, which the client may use.
  streaming : IoMethod → (n : ℕ) → Phase
  taken : IoMethod → (n index : ℕ) → Phase
  stopped : IoMethod → (n : ℕ) → Phase
  -- The first `k` of the buffers are given back.
  releasing : IoMethod → (n k : ℕ) → Phase

abbrev pub same : IoMethod → IoMethod → Bool
same io_read io_read = true
same io_mmap io_mmap = true
same io_userptr io_userptr = true
same m m' = false

abbrev pub when : Bool → Phase → Option Phase
when b ph = if b then some ph else none

-- The phase behind a request that succeeds.
unfoldable pub after_request : Request → ℕ → Phase → Option Phase
after_request querycap x opened = some opened
after_request cropcap x opened = some opened
after_request s_crop x opened = some opened
after_request s_fmt x opened = some opened
after_request g_fmt x opened = some opened
after_request (reqbufs m) x opened = some (requested m)
after_request (querybuf i) x (holding io_mmap n k) = when (i == k && ltb k n) (holding io_mmap n k)
after_request (qbuf m' i) x (holding m n k) =
    when (same m' m && (i == 0 && k == n)) (queueing m n 1)
after_request (qbuf m' i) x (queueing m n k) =
    when (same m' m && (i == k && ltb k n)) (queueing m n (k + 1))
after_request (qbuf m' i) x (taken m n i') = when (same m' m && i == i') (streaming m n)
after_request streamon x (queueing m n k) = when (k == n) (streaming m n)
after_request (dqbuf m') x (streaming m n) = when (same m' m) (taken m n x)
after_request streamoff x (streaming m n) = some (stopped m n)
after_request r x ph = none

abbrev pub is_open : Phase → Bool
is_open closed = false
is_open ph = true

-- Frames are there while streaming, and in the one buffer of `read`.
abbrev has_frames : Phase → Bool
has_frames (streaming m n) = true
has_frames (holding io_read n k) = k == n
has_frames ph = false

abbrev pub may_process : Phase → Bool
may_process (taken m n i) = true
may_process (holding io_read n k) = k == n
may_process ph = false

unfoldable pub give_back : IoMethod → (index : ℕ) → Phase → Option Phase
give_back m' i (stopped m n) = when (same m' m && i == 0) (releasing m n 1)
give_back m' i (releasing m n k) = when (same m' m && (i == k && ltb k n)) (releasing m n (k + 1))
give_back io_userptr i (holding io_read n k) = when (i == 0 && k == n) (releasing io_read n 1)
give_back m' i ph = none

unfoldable pub set_up : IoMethod → (index : ℕ) → Phase → Option Phase
set_up io_mmap i (holding io_mmap n k) = when (i == k && ltb k n) (holding io_mmap n (k + 1))
set_up io_userptr i (holding io_userptr n k) =
    when (i == k && ltb k n) (holding io_userptr n (k + 1))
set_up io_userptr i (holding io_read n k) = when (i == k && ltb k n) (holding io_read n (k + 1))
set_up m i ph = none

unfoldable pub open_array : (count : ℕ) → Phase → Option Phase
open_array n opened = some (holding io_read n 0)
open_array n (requested m) = some (holding m n 0)
open_array n ph = none

unfoldable pub close_array : Phase → Option Phase
close_array (releasing m n k) = when (k == n) opened
close_array ph = none

unfoldable pub open_device_phase : Phase → Option Phase
open_device_phase closed = some opened
open_device_phase ph = none

unfoldable pub close_device_phase : Phase → Option Phase
close_device_phase opened = some closed
close_device_phase ph = none

-- The phase behind an event, if the protocol allows it there.
unfoldable pub after_event : Event → Phase → Option Phase
unfolding after_request give_back set_up open_array close_array open_device_phase close_device_phase
after_event device_opened ph = open_device_phase ph
after_event device_closed ph = close_device_phase ph
after_event (called r (ok x)) ph = after_request r x ph
after_event (called r (failed e)) ph = when (is_open ph) ph
after_event (array_allocated n) ph = open_array n ph
after_event array_freed ph = close_array ph
after_event (mapped i) ph = set_up io_mmap i ph
after_event (allocated i) ph = set_up io_userptr i ph
after_event (unmapped i) ph = give_back io_mmap i ph
after_event (freed i) ph = give_back io_userptr i ph
after_event (waited r) ph = when (has_frames ph) ph
after_event (read_in r) ph = when (may_process ph) ph
after_event (processed size) ph = when (may_process ph) ph
after_event (image_allocated r) ph = some ph
after_event (image_freed i) ph = some ph
after_event file_opened ph = some ph
after_event file_closed ph = some ph
after_event (scanline bytes) ph = some ph
after_event printed_usage ph = some ph

-- The phase behind a trace that follows the protocol.
unfoldable pub phase : Trace → Option Phase
unfolding after_event
phase [] = some closed
phase (e ∷ h) = elim (phase h) [ none ↦ none | some ph ↦ after_event e ph ]
