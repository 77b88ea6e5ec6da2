-- ===== src/VideoCapture/Protocol/Buffers.antt =====
-- The buffers of capture.c: setting them up, queueing them, and giving them back, each in the phase
-- that the protocol wants.
use code_samples.Base.{ℕ, zero, suc, ◌+◌, ◌≤◌, ◌≡◌, refl, arith}
use code_samples.VideoCapture.Camera.{
  Camera, IoMethod, io_read, io_mmap, io_userptr, qbuf, streamon, streamoff,
}
use code_samples.VideoCapture.State.{State}
use code_samples.VideoCapture.Yuv.{Double}
use code_samples.VideoCapture.Setup.{
  queue_buffers, start_streaming, start_capturing_by, start_capturing, stop_streaming,
  stop_capturing_by, stop_capturing,
}
use code_samples.VideoCapture.Protocol.{
  Phase, holding, queueing, streaming, stopped, after_event, after_request,
}
use code_samples.VideoCapture.Protocol.Rules.{At, Reaches, bind-Meets, request-Meets}
use code_samples.VideoCapture.Protocol.Streaming.{ready, same_self, by_method}

-- The phases behind the set-up and behind the end of the streaming.
abbrev pub prepared : IoMethod → ℕ → Phase
prepared io_read n = holding io_read 1 1
prepared io_mmap n = holding io_mmap n n
prepared io_userptr n = holding io_userptr n n

-- How many buffers the set-up leaves.
abbrev pub Enough : IoMethod → ℕ → Type 0
Enough io_read n = Unit {0}
Enough io_mmap n = 1 ≤ n
Enough io_userptr n = 1 ≤ n

abbrev pub finished : IoMethod → ℕ → Phase
finished io_read n = holding io_read 1 1
finished io_mmap n = stopped io_mmap n
finished io_userptr n = stopped io_userptr n

-- What holds of the successors holds of a count that is not zero.
pub counted :
    (n count : ℕ)
    → count ≡ n
    → 1 ≤ n
    → (P : ℕ → Type 0) → ((left : ℕ) → suc left ≡ n → P (suc left))
    → P count
counted n zero e some_one P each = absurd (omega arith)
counted n (suc left) e some_one P each = each left e

module _ (d : Double) (camera : Camera) (fuel : ℕ) where
  module _ (m : IoMethod) (n : ℕ) where
    queue_buffers-Reaches :
        (left k : ℕ) (s : State)
        → k + left ≡ n
        → At (queueing m n k) m n s
        → Reaches (queueing m n n) m n (queue_buffers d camera fuel m left k s)
    unfolding queue_buffers after_event after_request
    queue_buffers-Reaches zero k s all at = record {
      in_phase = ground arith;
      same_io = at.same_io;
      same_n = at.same_n;
    }
    queue_buffers-Reaches (suc left) k s all at =
        request-Meets d camera fuel (λ a. At (queueing m n n) m n) (qbuf m k) (queueing m n k) m n s
          _ refl at
          (λ x t in_phase same_io same_n.
            queue_buffers-Reaches left (k + 1) t (omega arith) (record {
              in_phase = ground (arith, same_self m);
              same_io = same_io;
              same_n = same_n;
            }))

    -- The first buffer is queued while none is, the others behind it.
    queue_all-Reaches :
        (left : ℕ) (s : State)
        → suc left ≡ n
        → At (holding m n n) m n s
        → Reaches (queueing m n n) m n (queue_buffers d camera fuel m (suc left) 0 s)
    unfolding queue_buffers after_event after_request
    queue_all-Reaches left s all at =
        request-Meets d camera fuel (λ a. At (queueing m n n) m n) (qbuf m 0) (holding m n n) m n s
          _ refl at
          (λ x t in_phase same_io same_n.
            queue_buffers-Reaches left (0 + 1) t (omega arith) (record {
              in_phase = ground (arith, same_self m);
              same_io = same_io;
              same_n = same_n;
            }))

    start_streaming-Reaches :
        (s : State)
        → 1 ≤ n
        → At (holding m n n) m n s
        → Reaches (streaming m n) m n (start_streaming d camera fuel m s)
    unfolding start_streaming after_event after_request
    start_streaming-Reaches s some_buffer at =
        bind-Meets (λ a. At (queueing m n n) m n) (λ a. At (streaming m n) m n)
          (queue_buffers d camera fuel m s.n_buffers 0 s) _
          (counted n s.n_buffers at.same_n some_buffer
            (λ c. Reaches (queueing m n n) m n (queue_buffers d camera fuel m c 0 s))
            (λ left all. queue_all-Reaches left s all at))
          (λ a t at'.
            request-Meets d camera fuel (λ b. At (streaming m n) m n) streamon (queueing m n n) m n
              t _ refl at'
              (λ x u in_phase same_io same_n. record {
                in_phase = ground arith;
                same_io = same_io;
                same_n = same_n;
              }))

    stop_streaming-Reaches :
        (s : State)
        → At (streaming m n) m n s
        → Reaches (stopped m n) m n (stop_streaming d camera fuel s)
    unfolding stop_streaming after_event after_request
    stop_streaming-Reaches s at =
        request-Meets d camera fuel (λ a. At (stopped m n) m n) streamoff (streaming m n) m n s _
          refl at
          (λ x u in_phase same_io same_n. record {
            in_phase = in_phase;
            same_io = same_io;
            same_n = same_n;
          })

  pub start_capturing-Reaches :
      (m : IoMethod) (n : ℕ) (s : State)
      → Enough m n
      → At (prepared m n) m n s
      → Reaches (ready m n) m n (start_capturing d camera fuel s)
  unfolding start_capturing start_capturing_by
  start_capturing-Reaches m n s some_buffer at =
      by_method d camera fuel (λ a. At (ready m n) m n) (start_capturing_by d camera fuel) s.io m s
        at.same_io (by m some_buffer at)
    where
      by :
          (m' : IoMethod)
          → Enough m' n
          → At (prepared m' n) m' n s
          → Reaches (ready m' n) m' n (start_capturing_by d camera fuel m' s)
      by io_read e at' = at'
      by io_mmap e at' = start_streaming-Reaches io_mmap n s e at'
      by io_userptr e at' = start_streaming-Reaches io_userptr n s e at'

  pub stop_capturing-Reaches :
      (m : IoMethod) (n : ℕ) (s : State)
      → At (ready m n) m n s
      → Reaches (finished m n) m n (stop_capturing d camera fuel s)
  unfolding stop_capturing stop_capturing_by
  stop_capturing-Reaches m n s at =
      by_method d camera fuel (λ a. At (finished m n) m n) (stop_capturing_by d camera fuel) s.io m
        s at.same_io (by m at)
    where
      by :
          (m' : IoMethod)
          → At (ready m' n) m' n s
          → Reaches (finished m' n) m' n (stop_capturing_by d camera fuel m' s)
      by io_read at' = at'
      by io_mmap at' = stop_streaming-Reaches io_mmap n s at'
      by io_userptr at' = stop_streaming-Reaches io_userptr n s at'
