-- ===== src/VideoCapture/Protocol/Release.antt =====
-- Giving back the buffers of capture.c, each in the phase that the protocol wants.
use code_samples.Base.{ℕ, zero, suc, ◌+◌, ◌≡◌, refl, ◌∷◌, arith, Bool-cases, inl, inr}
use code_samples.VideoCapture.Camera.{
  Camera, IoMethod, io_read, io_mmap, io_userptr, array_freed, unmapped, freed,
}
use code_samples.VideoCapture.State.{State}
use code_samples.VideoCapture.Yuv.{Double}
use code_samples.VideoCapture.Setup.{unmap_buffers, free_buffers, uninit_device_by, uninit_device}
use code_samples.VideoCapture.Protocol.{
  Phase, opened, stopped, releasing, after_event, give_back, close_array,
}
use code_samples.VideoCapture.Protocol.Rules.{At, Reaches, At-Legal, bind-Meets, emit-At}
use code_samples.VideoCapture.Protocol.Streaming.{by_method}
use code_samples.VideoCapture.Protocol.Buffers.{Enough, finished, counted}

-- The phase with every buffer given back.
abbrev released : IoMethod → ℕ → Phase
released io_read n = releasing io_read 1 1
released io_mmap n = releasing io_mmap n n
released io_userptr n = releasing io_userptr n n

module _ (d : Double) (camera : Camera) (fuel : ℕ) where
  module _ (n : ℕ) where
    unmap_buffers-Reaches :
        (left k : ℕ) (s : State)
        → k + left ≡ n
        → At (releasing io_mmap n k) io_mmap n s
        → Reaches (releasing io_mmap n n) io_mmap n (unmap_buffers d camera fuel left k s)
    unfolding unmap_buffers after_event give_back
    unmap_buffers-Reaches zero k s all at = record {
      in_phase = ground arith;
      same_io = at.same_io;
      same_n = at.same_n;
    }
    unmap_buffers-Reaches (suc left) k s all at = elim (Bool-cases (camera.munmaps s.trace)) [
      | inr fails ↦ rw fails (At-Legal s at)
      | inl unmaps ↦ rw unmaps (
          unmap_buffers-Reaches left (k + 1) _ (omega arith)
            (emit-At (unmapped k) (releasing io_mmap n (k + 1)) s at (ground arith)))
    ]

    unmap_all-Reaches :
        (left : ℕ) (s : State)
        → suc left ≡ n
        → At (stopped io_mmap n) io_mmap n s
        → Reaches (releasing io_mmap n n) io_mmap n (unmap_buffers d camera fuel (suc left) 0 s)
    unfolding unmap_buffers after_event give_back
    unmap_all-Reaches left s all at = elim (Bool-cases (camera.munmaps s.trace)) [
      | inr fails ↦ rw fails (At-Legal s at)
      | inl unmaps ↦ rw unmaps (
          unmap_buffers-Reaches left (0 + 1) _ (omega arith)
            (emit-At (unmapped 0) (releasing io_mmap n (0 + 1)) s at (ground arith)))
    ]

    free_buffers-Reaches :
        (left k : ℕ) (s : State)
        → k + left ≡ n
        → At (releasing io_userptr n k) io_userptr n s
        → Reaches (releasing io_userptr n n) io_userptr n (free_buffers d camera fuel left k s)
    unfolding free_buffers after_event give_back
    free_buffers-Reaches zero k s all at = record {
      in_phase = ground arith;
      same_io = at.same_io;
      same_n = at.same_n;
    }
    free_buffers-Reaches (suc left) k s all at =
        free_buffers-Reaches left (k + 1) _ (omega arith)
          (emit-At (freed k) (releasing io_userptr n (k + 1)) s at (ground arith))

    free_all-Reaches :
        (left : ℕ) (s : State)
        → suc left ≡ n
        → At (stopped io_userptr n) io_userptr n s
        → Reaches
            (releasing io_userptr n n)
            io_userptr
            n
            (free_buffers d camera fuel (suc left) 0 s)
    unfolding free_buffers after_event give_back
    free_all-Reaches left s all at =
        free_buffers-Reaches left (0 + 1) _ (omega arith)
          (emit-At (freed 0) (releasing io_userptr n (0 + 1)) s at (ground arith))

  -- With every buffer given back the array goes.
  uninit_device_by-Reaches :
      (m : IoMethod) (n : ℕ) (s : State)
      → Enough m n
      → At (finished m n) m n s
      → Reaches (released m n) m n (uninit_device_by d camera fuel m s.n_buffers s)
  unfolding uninit_device_by after_event give_back
  uninit_device_by-Reaches io_read n s some_buffer at =
      emit-At (freed 0) (releasing io_read 1 1) s at refl
  uninit_device_by-Reaches io_mmap n s some_buffer at =
      counted n s.n_buffers at.same_n some_buffer
        (λ c. Reaches (releasing io_mmap n n) io_mmap n (unmap_buffers d camera fuel c 0 s))
        (λ left all. unmap_all-Reaches n left s all at)
  uninit_device_by-Reaches io_userptr n s some_buffer at =
      counted n s.n_buffers at.same_n some_buffer
        (λ c. Reaches (releasing io_userptr n n) io_userptr n (free_buffers d camera fuel c 0 s))
        (λ left all. free_all-Reaches n left s all at)

  pub uninit_device-Reaches :
      (m : IoMethod) (n : ℕ) (s : State)
      → Enough m n
      → At (finished m n) m n s
      → Reaches opened m n (uninit_device d camera fuel s)
  unfolding uninit_device after_event close_array
  uninit_device-Reaches m n s some_buffer at =
      bind-Meets (λ a. At (released m n) m n) (λ a. At opened m n)
        (uninit_device_by d camera fuel s.io s.n_buffers s) _
        (by_method d camera fuel (λ a. At (released m n) m n)
          (λ m'. uninit_device_by d camera fuel m' s.n_buffers) s.io m s at.same_io
          (uninit_device_by-Reaches m n s some_buffer at))
        (freed_all m)
    where
      freed_all :
          (m' : IoMethod) (a : Unit {0}) (t : State)
          → At (released m' n) m n t
          → At opened m n (record t { trace = array_freed ∷ t.trace })
      freed_all io_read a t at' = emit-At array_freed opened t at' refl
      freed_all io_mmap a t at' = emit-At array_freed opened t at' (ground arith)
      freed_all io_userptr a t at' = emit-At array_freed opened t at' (ground arith)
