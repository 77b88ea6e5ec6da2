-- ===== src/VideoCapture/Examples.antt =====
-- The theorems on capture.c at a camera of two buffers, with thousandths for `double`.
use code_samples.Base.{
  ℕ, ◌*◌, ◌/◌, ◌≤◌, ◌<◌, ◌≡◌, refl, true, not, none, some, List, [], ◌∷◌, replicate, length,
  length-replicate, Bytes, arith,
}
use code_samples.Base.Int.{ℤ, pos, pos_part, ◌+ℤ◌, ◌-ℤ◌, ◌*ℤ◌, ◌/ℤ◌, ltb_ℤ, to_int}
use code_samples.VideoCapture.Camera.{
  Camera, Format, Trace, Request, reqbufs, dqbuf, ok, readable, processed, image_allocated,
  image_freed, file_opened, file_closed,
}
use code_samples.VideoCapture.State.{State, done, fault, initial}
use code_samples.VideoCapture.Yuv.{Double, rgb, yuv422_to_rgb888}
use code_samples.VideoCapture.Yuv.Reference.{pixels, yuv422_to_rgb888-pixels}
use code_samples.VideoCapture.Yuv.Size.{process_image-fault}
use code_samples.VideoCapture.Yuv.Image.{rows, process_image-rows}
use code_samples.VideoCapture.FormatSize.{adjust_format-bounds}
use code_samples.VideoCapture.Frames.{process_image}
use code_samples.VideoCapture.Setup.{adjust_format}
use code_samples.VideoCapture.Main.{Choice, count, choose_all, main}
use code_samples.VideoCapture.Protocol.{closed, phase}
use code_samples.VideoCapture.Protocol.Rules.{Meets}
use code_samples.VideoCapture.Protocol.Session.{main-Meets}
use code_samples.VideoCapture.Delivery.{frames, Fits, Willing}
use code_samples.VideoCapture.Delivery.Session.{main-returns}

abbrev thousandths_double : Double
thousandths_double = record {
  W = ℤ;
  of_byte = λ n. pos (1000 * n);
  thousandths = pos;
  plus = ◌+ℤ◌;
  minus = ◌-ℤ◌;
  times = λ x y. (x *ℤ y) /ℤ 1000;
  at_least = λ x y. not (ltb_ℤ x y);
  at_most = λ x y. not (ltb_ℤ y x);
  truncate = λ x. pos_part x / 1000;
}

abbrev answer : Request → ℕ
answer (reqbufs m) = 2
answer r = 0

abbrev steady : Camera
steady = record {
  exists = λ h name. true;
  is_character_device = λ h name. true;
  opens = λ h name. some 3;
  closes = λ h. true;
  ioctl = λ h r. ok (answer r);
  capabilities = λ h. record { video_capture = true; read_write = true; streaming = true };
  format = λ h. record { width = 1280; height = 720; bytesperline = 0; sizeimage = 0 };
  dequeued = λ h. record { bytesused = 1843200; userptr = 0; length = 0; content = [] };
  select = λ h. readable;
  reads = λ h. none;
  has_memory = λ h. true;
  malloc = λ h size. some 4096;
  mmap = λ h length. some 4096;
  munmaps = λ h. true;
  opens_file = λ h. true;
}

steady-Willing : Willing steady 2
steady-Willing = record {
  exists = λ h name. refl;
  character = λ h name. refl;
  opens = λ h name. refl;
  closes = λ h. refl;
  answers = answered;
  captures = λ h. refl;
  streams = λ h. refl;
  selects = λ h. refl;
  remembers = λ h. refl;
  maps = λ h length. refl;
  unmaps = λ h. refl;
}
  where
    answered : (h : Trace) (r : Request) → (x : ℕ) × (steady.ioctl h r ≡ ok x) × Fits 2 r x
    answered h r = (answer r, refl, fits r)
      where
        fits : (r' : Request) → Fits 2 r' (answer r')
        fits (reqbufs m) = refl
        fits (dqbuf m) = omega arith
        fits r' = tt

abbrev two_frames : List Choice
two_frames = count (some (pos 2)) ∷ []

abbrev chosen : State
chosen = record initial { frame_count = pos 2 }

choose_all-two_frames : choose_all two_frames initial ≡ done tt chosen
unfolding choose_all to_int
choose_all-two_frames = refl

main-Meets_example :
    Meets
      (λ code t. (code ≡ 0) × (phase t.trace ≡ some closed))
      (main thousandths_double steady 2 two_frames initial)
main-Meets_example = main-Meets thousandths_double steady 2 two_frames

main-returns_example :
    (t : State) × (main thousandths_double steady 2 two_frames initial ≡ done 0 t)
    × (frames t.trace ≡ 2)
main-returns_example =
    main-returns thousandths_double steady 2 2 two_frames chosen steady-Willing (omega arith)
      (omega arith) choose_all-two_frames refl refl

abbrev two_pixels : Bytes
two_pixels = 235 ∷ 90 ∷ 16 ∷ 240 ∷ []

yuv422_to_rgb888-pixels_example :
    yuv422_to_rgb888 thousandths_double two_pixels 6 2 1
    ≡ some (pixels thousandths_double two_pixels 2 0)
yuv422_to_rgb888-pixels_example =
    yuv422_to_rgb888-pixels thousandths_double two_pixels 6 2 1 refl (omega arith) (omega arith)

-- The colours of two grey pixels with a red tint.
pixels_run : pixels thousandths_double two_pixels 2 0 ≡ 255 ∷ 168 ∷ 167 ∷ 173 ∷ 0 ∷ 0 ∷ []
unfolding pixels rgb ◌+ℤ◌ ◌-ℤ◌ ◌/ℤ◌ ◌*ℤ◌
pixels_run = refl

abbrev with_output : State
with_output = record initial { out_buf = 1 }

unfoldable grey : ℕ → Bytes
grey n = replicate n 128

-- A whole grey frame of 1280 by 720 pixels in YUYV.
process_image-fault_example :
    process_image thousandths_double steady 2 (grey 1843200) (pos 1843200) with_output
    ≡ fault
        (record with_output { trace = image_allocated (some 4096) ∷ processed (pos 1843200) ∷ [] })
process_image-fault_example =
    process_image-fault thousandths_double steady 2 (grey 1843200) (pos 1843200) with_output
      (omega arith) (omega arith)

abbrev no_sizes : Format
no_sizes = record { width = 1280; height = 720; bytesperline = 0; sizeimage = 0 }

adjust_format-bounds_example :
    (2560 ≤ (adjust_format thousandths_double steady 2 no_sizes).bytesperline)
    × (0 ≤ (adjust_format thousandths_double steady 2 no_sizes).bytesperline)
    × ((adjust_format thousandths_double steady 2 no_sizes).bytesperline * 720
        ≤ (adjust_format thousandths_double steady 2 no_sizes).sizeimage)
    × (0 ≤ (adjust_format thousandths_double steady 2 no_sizes).sizeimage)
    × (1843200 ≤ (adjust_format thousandths_double steady 2 no_sizes).sizeimage)
adjust_format-bounds_example =
    adjust_format-bounds thousandths_double steady 2 no_sizes (omega arith) fits
  where
    fits : (adjust_format thousandths_double steady 2 no_sizes).bytesperline * 720 < 4294967296
    fits = unfold adjust_format in (omega arith)

length-grey : (n : ℕ) → length (grey n) ≡ n
unfolding grey
length-grey n = length-replicate n 128

process_image-rows_example :
    process_image thousandths_double steady 2 (grey 1843200) (pos 2764800) with_output
    ≡ done tt (record with_output {
      trace =
          image_freed 4096
          ∷ file_closed
          ∷ rows thousandths_double
              (grey 1843200)
              1280
              720
              0
              (file_opened ∷ image_allocated (some 4096) ∷ processed (pos 2764800) ∷ []);
    })
process_image-rows_example =
    process_image-rows thousandths_double steady 2 (grey 1843200) (pos 2764800) with_output 4096
      (omega arith) (omega arith) (omega (arith, length-grey 1843200)) refl (λ t. refl)
