-- ===== src/VideoCapture/FormatSize.antt =====
-- The "buggy driver paranoia" of init_device: how large the buffers are that it asks for.
use code_samples.Base.{ℕ, ◌*◌, ◌%◌, ◌<◌, ◌≤◌, arith, ltb, if◌then◌else◌}
use native.Mathlib.Nat.{mul-le-mul_right}
use code_samples.VideoCapture.Camera.{Camera, Format}
use code_samples.VideoCapture.Yuv.{Double}
use code_samples.VideoCapture.Setup.{adjust_format}

-- A number that is raised to a least one.
raised :
    (old least : ℕ)
    → least < 4294967296
    → (least ≤ (if ltb old (least % 4294967296) then least % 4294967296 else old))
      × (old ≤ (if ltb old (least % 4294967296) then least % 4294967296 else old))
raised old least small = (ground arith, ground arith)

module _ (d : Double) (camera : Camera) (fuel : ℕ) where
  -- Where the products stay below 32 bits, a line has two bytes for each pixel and the image has all
  -- the lines, whatever sizes the driver reports; what the driver reports above that is kept.
  pub adjust_format-bounds :
      (fmt : Format)
      → fmt.width * 2 < 4294967296
      → (adjust_format d camera fuel fmt).bytesperline * fmt.height < 4294967296
      → (fmt.width * 2 ≤ (adjust_format d camera fuel fmt).bytesperline)
        × (fmt.bytesperline ≤ (adjust_format d camera fuel fmt).bytesperline)
        × ((adjust_format d camera fuel fmt).bytesperline * fmt.height
            ≤ (adjust_format d camera fuel fmt).sizeimage)
        × (fmt.sizeimage ≤ (adjust_format d camera fuel fmt).sizeimage)
        × (fmt.width * 2 * fmt.height ≤ (adjust_format d camera fuel fmt).sizeimage)
  unfolding adjust_format
  adjust_format-bounds fmt narrow small =
      let (wide, kept) = raised fmt.bytesperline (fmt.width * 2) narrow in
      let (tall, kept') =
        raised fmt.sizeimage ((adjust_format d camera fuel fmt).bytesperline * fmt.height) small in
      let lines = mul-le-mul_right fmt.height wide in
      (wide, kept, tall, kept', omega (arith, lines, tall))
