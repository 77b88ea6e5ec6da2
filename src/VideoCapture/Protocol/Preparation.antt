-- ===== src/VideoCapture/Protocol/Preparation.antt =====
-- The initializations of capture.c: the buffers are requested, allocated and mapped in order.
use code_samples.Base.{
  ℕ, zero, suc, ◌+◌, ◌≤◌, ◌<◌, ◌≡◌, refl, Option, none, some, arith, Bool-cases, inl, inr, ltb,
}
use code_samples.VideoCapture.Camera.{
  Camera, IoMethod, io_read, io_mmap, io_userptr, reqbufs, querybuf, array_allocated, mapped,
  allocated,
}
use code_samples.VideoCapture.State.{State}
use code_samples.VideoCapture.Yuv.{Double}
use code_samples.VideoCapture.Setup.{
  allocate_array, allocate_buffer, init_read, map_buffer, map_buffers, init_mmap, allocate_buffers,
  init_userp, init_buffers,
}
use code_samples.VideoCapture.Protocol.{
  Phase, opened, requested, holding, after_event, after_request, set_up, open_array,
}
use code_samples.VideoCapture.Protocol.Rules.{
  At, Meets, Reaches, At-Legal, bind-Meets, weaken-Meets, emit-At, request-Meets,
}
use code_samples.VideoCapture.Protocol.Buffers.{Enough, prepared}

-- The set-up ends with at least one buffer.
abbrev pub Prepared : IoMethod → State → Type 0
Prepared m s = (n : ℕ) × Enough m n × At (prepared m n) m n s

module _ (d : Double) (camera : Camera) (fuel : ℕ) where
  allocate_array-Reaches :
      (count : ℕ) (ph ph' : Phase) (m : IoMethod) (n : ℕ) (s : State)
      → after_event (array_allocated count) ph ≡ some ph'
      → At ph m n s
      → Reaches ph' m n (allocate_array d camera fuel count s)
  allocate_array-Reaches count ph ph' m n s allowed at =
      elim (Bool-cases (camera.has_memory s.trace)) [
        | inr full ↦ rw full (At-Legal s at)
        | inl memory ↦
            let at' = emit-At (array_allocated count) ph' s at allowed in
            rw memory (record { in_phase = at'.in_phase; same_io = at.same_io; same_n = at.same_n })
      ]

  allocate_buffer-Reaches :
      (size i n' : ℕ) (start : Option ℕ) (ph ph' : Phase) (m : IoMethod) (n : ℕ) (s : State)
      → after_event (allocated i) ph ≡ some ph'
      → At ph m n s
      → Reaches ph' m n' (allocate_buffer d camera fuel size i n' start s)
  unfolding allocate_buffer
  allocate_buffer-Reaches size i n' none ph ph' m n s allowed at = At-Legal s at
  allocate_buffer-Reaches size i n' (some p) ph ph' m n s allowed at =
      let at' = emit-At (allocated i) ph' s at allowed in
      record { in_phase = at'.in_phase; same_io = at.same_io; same_n = refl }

  init_read-Prepared :
      (size : ℕ) (n : ℕ) (s : State)
      → At opened io_read n s
      → Meets (λ a. Prepared io_read) (init_read d camera fuel size s)
  unfolding init_read after_event open_array set_up
  init_read-Prepared size n s at =
      bind-Meets (λ a. At (holding io_read 1 0) io_read n) (λ a. Prepared io_read)
        (allocate_array d camera fuel 1 s) _
        (allocate_array-Reaches 1 opened (holding io_read 1 0) io_read n s refl at)
        (λ a t at'. one t at' (camera.malloc t.trace size))
    where
      one :
          (t : State)
          → At (holding io_read 1 0) io_read n t
          → (start : Option ℕ)
          → Meets (λ a. Prepared io_read) (allocate_buffer d camera fuel size 0 t.n_buffers start t)
      one t at' none = unfold allocate_buffer in (At-Legal t at')
      one t at' (some p) =
          unfold allocate_buffer in
          (let at'' = emit-At (allocated 0) (holding io_read 1 1) t at' refl in
            (
              n,
              tt,
              record { in_phase = at''.in_phase; same_io = at'.same_io; same_n = at'.same_n },
            ))

  allocate_buffers-Reaches :
      (n left k size : ℕ) (s : State)
      → k + left ≡ n
      → At (holding io_userptr n k) io_userptr k s
      → Reaches (holding io_userptr n n) io_userptr n (allocate_buffers d camera fuel left k size s)
  unfolding allocate_buffers after_event set_up
  allocate_buffers-Reaches n zero k size s all at = record {
    in_phase = ground arith;
    same_io = at.same_io;
    same_n = ground arith;
  }
  allocate_buffers-Reaches n (suc left) k size s all at =
      let start = camera.malloc s.trace size in
      bind-Meets (λ a. At (holding io_userptr n (k + 1)) io_userptr (k + 1))
        (λ a. At (holding io_userptr n n) io_userptr n)
        (allocate_buffer d camera fuel size k (k + 1) start s) _
        (allocate_buffer-Reaches size k (k + 1) start (holding io_userptr n k)
          (holding io_userptr n (k + 1)) io_userptr k s (ground arith) at)
        (λ a t at'. allocate_buffers-Reaches n left (k + 1) size t (omega arith) at')

  map_buffer-Reaches :
      (n k length : ℕ) (start : Option ℕ) (t : State)
      → k < n
      → At (holding io_mmap n k) io_mmap k t
      → Reaches
          (holding io_mmap n (k + 1))
          io_mmap
          (k + 1)
          (map_buffer d camera fuel length k start t)
  unfolding map_buffer after_event set_up
  map_buffer-Reaches n k length none t below at = At-Legal t at
  map_buffer-Reaches n k length (some p) t below at =
      let at' = emit-At (mapped k) (holding io_mmap n (k + 1)) t at (ground arith) in
      record { in_phase = at'.in_phase; same_io = at.same_io; same_n = refl }

  map_buffers-Reaches :
      (n left k : ℕ) (s : State)
      → k + left ≡ n
      → At (holding io_mmap n k) io_mmap k s
      → Reaches (holding io_mmap n n) io_mmap n (map_buffers d camera fuel left k s)
  unfolding map_buffers after_event after_request
  map_buffers-Reaches n zero k s all at = record {
    in_phase = ground arith;
    same_io = at.same_io;
    same_n = ground arith;
  }
  map_buffers-Reaches n (suc left) k s all at =
      request-Meets d camera fuel (λ a. At (holding io_mmap n n) io_mmap n) (querybuf k)
        (holding io_mmap n k) io_mmap k s _ refl at
        (λ length t in_phase same_io same_n.
          bind-Meets (λ a. At (holding io_mmap n (k + 1)) io_mmap (k + 1))
            (λ a. At (holding io_mmap n n) io_mmap n)
            (map_buffer d camera fuel length k (camera.mmap t.trace length) t) _
            (map_buffer-Reaches n k length (camera.mmap t.trace length) t (omega arith)
              (record { in_phase = ground arith; same_io = same_io; same_n = same_n }))
            (λ a u at'. map_buffers-Reaches n left (k + 1) u (omega arith) at'))

  init_mmap-Prepared :
      (n : ℕ) (s : State)
      → At opened io_mmap n s
      → Meets (λ a. Prepared io_mmap) (init_mmap d camera fuel s)
  unfolding init_mmap after_event after_request open_array
  init_mmap-Prepared n s at =
      request-Meets d camera fuel (λ a. Prepared io_mmap) (reqbufs io_mmap) opened io_mmap n s _
        refl at
        (λ count t in_phase same_io same_n.
          let at' : At (requested io_mmap) io_mmap n t = record {
            in_phase = in_phase;
            same_io = same_io;
            same_n = same_n;
          } in
          elim (Bool-cases (ltb count 2)) [
            | inl few ↦ rw few (At-Legal t at')
            | inr many ↦ rw many (
                bind-Meets (λ a. At (holding io_mmap count 0) io_mmap n) (λ a. Prepared io_mmap)
                  (allocate_array d camera fuel count t) _
                  (allocate_array-Reaches count (requested io_mmap) (holding io_mmap count 0)
                    io_mmap n t refl at')
                  (λ a u at_u. mapped_all count u n (ground arith) at_u))
          ])
    where
      mapped_all :
          (count : ℕ) (u : State) (n' : ℕ)
          → 1 ≤ count
          → At (holding io_mmap count 0) io_mmap n' u
          → Meets
              (λ a. Prepared io_mmap)
              (map_buffers d camera fuel count 0 (record u { n_buffers = 0 }))
      mapped_all count u n' some_buffer at_u =
          weaken-Meets (λ a. At (holding io_mmap count count) io_mmap count) (λ a. Prepared io_mmap)
            (map_buffers d camera fuel count 0 (record u { n_buffers = 0 }))
            (map_buffers-Reaches count count 0 (record u { n_buffers = 0 }) (omega arith)
              (record { in_phase = at_u.in_phase; same_io = at_u.same_io; same_n = refl }))
            (λ a v at_v. (count, some_buffer, at_v))

  init_userp-Prepared :
      (size n : ℕ) (s : State)
      → At opened io_userptr n s
      → Meets (λ a. Prepared io_userptr) (init_userp d camera fuel size s)
  unfolding init_userp after_event after_request open_array
  init_userp-Prepared size n s at =
      request-Meets d camera fuel (λ a. Prepared io_userptr) (reqbufs io_userptr) opened io_userptr
        n s _ refl at
        (λ count t in_phase same_io same_n.
          bind-Meets (λ a. At (holding io_userptr 4 0) io_userptr n) (λ a. Prepared io_userptr)
            (allocate_array d camera fuel 4 t) _
            (allocate_array-Reaches 4 (requested io_userptr) (holding io_userptr 4 0) io_userptr n t
              refl (record { in_phase = in_phase; same_io = same_io; same_n = same_n }))
            (λ a u at_u.
              weaken-Meets (λ b. At (holding io_userptr 4 4) io_userptr 4)
                (λ b. Prepared io_userptr)
                (allocate_buffers d camera fuel 4 0 size (record u { n_buffers = 0 }))
                (allocate_buffers-Reaches 4 4 0 size (record u { n_buffers = 0 }) (omega arith)
                  (record { in_phase = at_u.in_phase; same_io = at_u.same_io; same_n = refl }))
                (λ b v at_v. (4, omega arith, at_v))))

  pub init_buffers-Prepared :
      (m : IoMethod) (size n : ℕ) (s : State)
      → At opened m n s
      → Meets (λ a. Prepared m) (init_buffers d camera fuel m size s)
  unfolding init_buffers
  init_buffers-Prepared io_read size n s at = init_read-Prepared size n s at
  init_buffers-Prepared io_mmap size n s at = init_mmap-Prepared n s at
  init_buffers-Prepared io_userptr size n s at = init_userp-Prepared size n s at
