-- ===== src/VideoCapture/Yuv/Size.antt =====
-- How much YUV422toRGB888 writes, and process_image where it gives less room than that.
use code_samples.Base.{
  ℕ, zero, suc, ◌+◌, ◌*◌, ◌<◌, ◌≤◌, ◌==◌, ◌≡◌, refl, ◌&&◌, Bool, true, false, Option, none, some,
  [], ◌∷◌, ◌++◌, leb, ltb, if◌then◌else◌, Bytes, length, length-append, get_or, arith,
}
use code_samples.Base.Int.{ℤ}
use native.Mathlib.Nat.{zero-mul, suc-mul}
use code_samples.VideoCapture.Camera.{Camera, processed, image_allocated}
use code_samples.VideoCapture.State.{State, fault}
use code_samples.VideoCapture.Yuv.{Double, Cursor, rgb, pixel, columns, lines, yuv422_to_rgb888}
use code_samples.VideoCapture.Frames.{
  to_size, image_width, image_height, write_image, convert_image, process_image,
}

module _ (d : Double) (src : Bytes) (cap : ℕ) where
  -- Three bytes for each of `n` pixels more, and the destination has room for them, or none.
  abbrev Wrote : ℕ → (from : Bytes) → Option (Cursor d) → Type 0
  Wrote n from none = Unit {0}
  Wrote n from (some c) =
      (length c.out ≡ length from + 3 * n) × (length from ≤ cap → length c.out ≤ cap)

  guarded-Wrote :
      (py pu pv room : Bool) (c x : Cursor d)
      → (room ≡ true → Wrote 1 c.out (some x))
      → Wrote 1 c.out (if py && (pu && (pv && room)) then some x else none)
  guarded-Wrote true true true true c x wrote = wrote refl
  guarded-Wrote false pu pv room c x wrote = tt
  guarded-Wrote true false pv room c x wrote = tt
  guarded-Wrote true true false room c x wrote = tt
  guarded-Wrote true true true false c x wrote = tt

  length-rgb_more : (out : Bytes) (y u v : ℕ) → length (out ++ rgb d y u v) ≡ length out + 3
  unfolding rgb
  length-rgb_more out y u v = length-append out (rgb d y u v)

  pixel-Wrote : (column : ℕ) (c : Cursor d) → Wrote 1 c.out (pixel d src cap column c)
  unfolding pixel
  pixel-Wrote column c =
      guarded-Wrote (ltb c.py (length src)) (ltb c.pu (length src)) (ltb c.pv (length src))
        (leb (length c.out + 3) cap) c _
        (λ room.
          let more =
            length-rgb_more c.out (get_or src c.py 0) (get_or src c.pu 0) (get_or src c.pv 0) in
          (more, λ below. ground (arith, more)))

  -- One stretch of pixels behind another.
  next-Wrote :
      (n m k : ℕ) (from : Bytes) (c : Option (Cursor d)) (f : Cursor d → Option (Cursor d))
      → n + m ≡ k
      → Wrote n from c
      → ((c' : Cursor d) → Wrote m c'.out (f c'))
      → Wrote k from (elim c [ none ↦ none | some c' ↦ f c' ])
  next-Wrote n m k from none f e first rest = tt
  next-Wrote n m k from (some c) f e (written, room) rest = joined (f c) (rest c)
    where
      joined : (c' : Option (Cursor d)) → Wrote m c.out c' → Wrote k from c'
      joined none wrote = tt
      joined (some c') (written', room') = (omega arith, λ below. room' (room below))

  columns-Wrote : (n column : ℕ) (c : Cursor d) → Wrote n c.out (columns d src cap n column c)
  unfolding columns
  columns-Wrote zero column c = (omega arith, λ below. below)
  columns-Wrote (suc n) column c =
      next-Wrote 1 n (suc n) c.out (pixel d src cap column c) (columns d src cap n (column + 1))
        (omega arith) (pixel-Wrote column c) (columns-Wrote n (column + 1))

  lines-Wrote : (h w : ℕ) (c : Cursor d) → Wrote (h * w) c.out (lines d src cap h w c)
  unfolding lines
  lines-Wrote zero w c = (rw (zero-mul w) (omega arith), λ below. below)
  lines-Wrote (suc h) w c =
      next-Wrote w (h * w) (suc h * w) c.out (columns d src cap w 0 c) (lines d src cap h w)
        (omega (arith, suc-mul h w)) (columns-Wrote w 0 c) (lines-Wrote h w)

  -- A destination too small for the image is written past its end.
  yuv422_to_rgb888-none :
      (width height : ℕ)
      → cap < 3 * (height * width)
      → yuv422_to_rgb888 d src cap width height ≡ none
  unfolding yuv422_to_rgb888
  yuv422_to_rgb888-none width height small =
      too_long (lines d src cap height width start) (lines-Wrote height width start)
    where
      start : Cursor d
      start = record { py = 0; pu = 1; pv = 3; out = [] }

      too_long :
          (c : Option (Cursor d))
          → Wrote (height * width) [] c
          → (elim c as (λ c'. Option Bytes) [ none ↦ none | some c' ↦ some c'.out ]) ≡ none
      too_long none wrote = refl
      too_long (some c) (written, room) = let below = room (omega arith) in absurd (omega arith)

-- Where `-o` is given and a frame has fewer bytes than an RGB image of 1280 by 720 pixels,
-- process_image goes behind the end of the image's buffer or of the frame, or through a null pointer,
-- whatever the frame holds.
pub process_image-fault :
    (d : Double) (camera : Camera) (fuel : ℕ) (content : Bytes) (size : ℤ) (s : State)
    → 1 ≤ s.out_buf
    → to_size size < 2764800
    → process_image d camera fuel content size s
      ≡ fault (record s {
        trace =
            image_allocated (camera.malloc (processed size ∷ s.trace) (to_size size))
            ∷ processed size
            ∷ s.trace;
      })
unfolding process_image
process_image-fault d camera fuel content size s out small =
    let writes : (s.out_buf == 0) ≡ false = ground arith in
    rw writes (converted (camera.malloc (processed size ∷ s.trace) (to_size size)))
  where
    converted :
        (jpeg : Option ℕ)
        → convert_image d camera fuel content size jpeg (record s {
          trace =
              image_allocated (camera.malloc (processed size ∷ s.trace) (to_size size))
              ∷ processed size
              ∷ s.trace;
        })
          ≡ fault (record s {
            trace =
                image_allocated (camera.malloc (processed size ∷ s.trace) (to_size size))
                ∷ processed size
                ∷ s.trace;
          })
    converted none = unfold convert_image in refl
    converted (some p) =
        unfold convert_image in
        (rw (yuv422_to_rgb888-none d content (to_size size) image_width image_height small)
          (unfold write_image in refl))
