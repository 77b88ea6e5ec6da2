-- ===== src/VideoCapture/Yuv/Image.antt =====
-- The file that process_image of capture.c writes of a frame: line after line of its pixels.
use code_samples.Base.{
  ℕ, zero, suc, ◌+◌, ◌*◌, ◌≤◌, ◌==◌, ◌≡◌, refl, true, false, some, [], ◌∷◌, ◌++◌, Bytes, length,
  take, drop, arith, sym, ap, ◌∙◌,
}
use code_samples.Base.Int.{ℤ}
use native.Mathlib.Nat.{mul_comm, add-mul, suc-mul, zero-add}
use code_samples.VideoCapture.Camera.{
  Camera, Trace, processed, image_allocated, image_freed, scanline, file_opened, file_closed,
}
use code_samples.VideoCapture.State.{State, done, after, emit}
use code_samples.VideoCapture.Yuv.{Double, yuv422_to_rgb888}
use code_samples.VideoCapture.Yuv.Reference.{
  pixels, pixels-add, length-pixels, yuv422_to_rgb888-pixels,
}
use code_samples.VideoCapture.Frames.{
  to_size, image_width, image_height, write_scanlines, jpeg_write, write_image, convert_image,
  process_image,
}

take-exact : (xs ys : Bytes) (n : ℕ) → length xs ≡ n → take n (xs ++ ys) ≡ xs
take-exact [] ys zero e = refl
take-exact [] ys (suc n) e = absurd (omega (arith, e))
take-exact (x ∷ xs) ys zero e = absurd (omega (arith, e))
take-exact (x ∷ xs) ys (suc n) e = ap (λ zs. x ∷ zs) (take-exact xs ys n (omega (arith, e)))

drop-exact : (xs ys : Bytes) (n : ℕ) → length xs ≡ n → drop n (xs ++ ys) ≡ ys
drop-exact [] ys zero e = refl
drop-exact [] ys (suc n) e = absurd (omega (arith, e))
drop-exact (x ∷ xs) ys zero e = absurd (omega (arith, e))
drop-exact (x ∷ xs) ys (suc n) e = drop-exact xs ys n (omega (arith, e))

module _ (d : Double) (src : Bytes) where
  -- The lines from a given one on, each with its pixels.
  unfoldable pub rows : (width left next : ℕ) → Trace → Trace
  rows width zero next h = h
  rows width (suc n) next h =
      rows width n (next + 1) (scanline (pixels d src width (next * width)) ∷ h)

  -- A line of the image is cut out of it.
  cut :
      (w before behind : ℕ)
      → take (w * 3) (drop (before * 3) (pixels d src (before + (w + behind)) 0))
        ≡ pixels d src w before
  cut w before behind =
      let start : pixels d src (before + (w + behind)) 0
          ≡ pixels d src before 0 ++ pixels d src (w + behind) before =
        pixels-add d src before (w + behind) 0
        ∙ ap (λ q. pixels d src before 0 ++ pixels d src (w + behind) q) (zero-add before) in
      let length_before : length (pixels d src before 0) ≡ before * 3 =
        length-pixels d src before 0 ∙ mul_comm 3 before in
      let length_line : length (pixels d src w before) ≡ w * 3 =
        length-pixels d src w before ∙ mul_comm 3 w in
      rw start (
        rw
          (drop-exact (pixels d src before 0) (pixels d src (w + behind) before) (before * 3)
            length_before)
          (rw (pixels-add d src w behind before) (
            take-exact (pixels d src w before) (pixels d src behind (before + w)) (w * 3)
              length_line)))

  module _ (camera : Camera) (fuel : ℕ) where
    write_scanlines-rows :
        (w left next : ℕ) (img : Bytes) (s : State)
        → img ≡ pixels d src ((next + left) * w) 0
        → write_scanlines d camera fuel left next w img s
          ≡ done tt (record s { trace = rows w left next s.trace })
    unfolding write_scanlines rows
    write_scanlines-rows w zero next img s e = refl
    write_scanlines-rows w (suc left) next img s e =
        let there : next + suc left ≡ next + 1 + left = omega arith in
        let split : (next + suc left) * w ≡ next * w + (w + left * w) =
          add-mul next (suc left) w ∙ ap (λ k. next * w + k) (suc-mul left w ∙ omega arith) in
        let line : take (w * 3) (drop (next * w * 3) img) ≡ pixels d src w (next * w) =
          ap (λ i. take (w * 3) (drop (next * w * 3) i)) (e ∙ ap (λ k. pixels d src k 0) split)
          ∙ cut w (next * w) (left * w) in
        rw line (
          write_scanlines-rows w left (next + 1) img
            (record s { trace = scanline (pixels d src w (next * w)) ∷ s.trace })
            (e ∙ ap (λ k. pixels d src (k * w) 0) there))

    jpeg_write-rows :
        (w h : ℕ) (img : Bytes) (s : State)
        → ((t : Trace) → camera.opens_file t ≡ true)
        → img ≡ pixels d src (h * w) 0
        → jpeg_write d camera fuel img w h s
          ≡ done tt (record s { trace = file_closed ∷ rows w h 0 (file_opened ∷ s.trace) })
    unfolding jpeg_write
    jpeg_write-rows w h img s opens e = rw (opens s.trace) (
        rw
          (write_scanlines-rows w h 0 img (record s { trace = file_opened ∷ s.trace })
            (e ∙ ap (λ k. pixels d src (k * w) 0) (sym (zero-add h))))
          refl)

write_image-freed :
    (d : Double) (camera : Camera) (fuel jpeg : ℕ) (img : Bytes) (s s' : State)
    → jpeg_write d camera fuel img image_width image_height s ≡ done tt s'
    → write_image d camera fuel jpeg (some img) s
      ≡ done tt (record s' { trace = image_freed jpeg ∷ s'.trace })
unfolding write_image
write_image-freed d camera fuel jpeg img s s' e = ap (λ r. after r (λ u. emit (image_freed jpeg))) e

-- Where `-o` is given, a frame is at least as large as the RGB image and its memory holds 1280 by 720
-- pixels, malloc gives the buffer and the file opens, process_image writes a file whose lines are
-- those of the frame, from top to bottom, and closes it, and frees the buffer.
pub process_image-rows :
    (d : Double) (camera : Camera) (fuel : ℕ) (content : Bytes) (size : ℤ) (s : State) (jpeg : ℕ)
    → 1 ≤ s.out_buf
    → 2764800 ≤ to_size size
    → 1843200 ≤ length content
    → camera.malloc (processed size ∷ s.trace) (to_size size) ≡ some jpeg
    → ((t : Trace) → camera.opens_file t ≡ true)
    → process_image d camera fuel content size s
      ≡ done tt (record s {
        trace =
            image_freed jpeg
            ∷ file_closed
            ∷ rows d content 1280 720 0
                (file_opened ∷ image_allocated (some jpeg) ∷ processed size ∷ s.trace);
      })
unfolding process_image convert_image
process_image-rows d camera fuel content size s jpeg out large long gives opens =
    let writes : (s.out_buf == 0) ≡ false = ground arith in
    let img : yuv422_to_rgb888 d content (to_size size) image_width image_height
        ≡ some (pixels d content (720 * 1280) 0) =
      yuv422_to_rgb888-pixels d content (to_size size) 1280 720 refl long large in
    rw writes (
      rw (gives, convert_image)
        (rw img (
          write_image-freed d camera fuel jpeg (pixels d content (720 * 1280) 0) _ _ (
            jpeg_write-rows d content camera fuel 1280 720 (pixels d content (720 * 1280) 0)
              (record s { trace = image_allocated (some jpeg) ∷ processed size ∷ s.trace }) opens
              refl))))
