-- ===== src/VideoCapture/Protocol/Image.antt =====
-- The processing of a frame in capture.c, which calls nothing of the protocol.
use code_samples.Base.{
  ℕ, zero, suc, ◌+◌, ◌==◌, ◌≡◌, refl, true, Option, none, some, ◌∷◌, arith, Bytes, Bool-cases, inl,
  inr,
}
use code_samples.Base.Int.{ℤ}
use code_samples.VideoCapture.Camera.{
  Camera, IoMethod, Errno, eagain, eintr, eio, einval, other, processed, image_allocated,
  image_freed, file_opened, file_closed, scanline,
}
use code_samples.VideoCapture.State.{State}
use code_samples.VideoCapture.Yuv.{Double, yuv422_to_rgb888}
use code_samples.VideoCapture.Frames.{
  write_scanlines, jpeg_write, write_image, convert_image, process_image, to_size, image_width,
  image_height, try_again,
}
use code_samples.VideoCapture.Protocol.{Phase, may_process, after_event}
use code_samples.VideoCapture.Protocol.Rules.{At, Reaches, At-Legal, bind-Meets, emit-At}

module _ (d : Double) (camera : Camera) (fuel : ℕ) where
  module _ (ph : Phase) (io : IoMethod) (n : ℕ) where
    write_scanlines-Reaches :
        (k next width : ℕ) (img : Bytes) (s : State)
        → At ph io n s
        → Reaches ph io n (write_scanlines d camera fuel k next width img s)
    unfolding write_scanlines after_event
    write_scanlines-Reaches zero next width img s at = at
    write_scanlines-Reaches (suc k) next width img s at =
        write_scanlines-Reaches k (next + 1) width img _ (emit-At (scanline _) ph s at refl)

    jpeg_write-Reaches :
        (img : Bytes) (width height : ℕ) (s : State)
        → At ph io n s
        → Reaches ph io n (jpeg_write d camera fuel img width height s)
    unfolding jpeg_write after_event
    jpeg_write-Reaches img width height s at = elim (Bool-cases (camera.opens_file s.trace)) [
      | inr shut ↦ rw shut (At-Legal s at)
      | inl opened ↦ rw opened (
          bind-Meets (λ a. At ph io n) (λ a. At ph io n)
            (write_scanlines d camera fuel height 0 width img _) _
            (write_scanlines-Reaches height 0 width img _ (emit-At file_opened ph s at refl))
            (λ a t at'. emit-At file_closed ph t at' refl))
    ]

    convert_image-Reaches :
        (content : Bytes) (size : ℤ) (jpeg : Option ℕ) (s : State)
        → At ph io n s
        → Reaches ph io n (convert_image d camera fuel content size jpeg s)
    unfolding convert_image after_event
    convert_image-Reaches content size none s at = At-Legal s at
    convert_image-Reaches content size (some p) s at =
        written (yuv422_to_rgb888 d content (to_size size) image_width image_height)
      where
        written : (img : Option Bytes) → Reaches ph io n (write_image d camera fuel p img s)
        written none = unfold write_image in (At-Legal s at)
        written (some img) =
            unfold write_image in
            (bind-Meets (λ a. At ph io n) (λ a. At ph io n)
              (jpeg_write d camera fuel img image_width image_height s) _
              (jpeg_write-Reaches img image_width image_height s at)
              (λ a t at'. emit-At (image_freed p) ph t at' refl))

    pub process_image-Reaches :
        (content : Bytes) (size : ℤ) (s : State)
        → may_process ph ≡ true
        → At ph io n s
        → Reaches ph io n (process_image d camera fuel content size s)
    unfolding process_image after_event
    process_image-Reaches content size s may at =
        let s' : State = record s { trace = processed size ∷ s.trace } in
        let at' : At ph io n s' = emit-At (processed size) ph s at (ground arith) in
        elim (Bool-cases (s.out_buf == 0)) [
          | inl quiet ↦ rw quiet at'
          | inr out ↦ rw out (
              convert_image-Reaches content size _ _
                (emit-At (image_allocated (camera.malloc s'.trace (to_size size))) ph s' at' refl))
        ]

    pub try_again-Reaches : (e : Errno) (s : State) → At ph io n s → Reaches ph io n (try_again e s)
    try_again-Reaches eagain s at = at
    try_again-Reaches eintr s at = At-Legal s at
    try_again-Reaches eio s at = At-Legal s at
    try_again-Reaches einval s at = At-Legal s at
    try_again-Reaches (other e) s at = At-Legal s at
