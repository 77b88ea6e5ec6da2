-- ===== src/VideoCapture/Yuv.antt =====
-- YUV422toRGB888 of capture.c. The arithmetic of `double` is an interface. A read outside of the
-- source or a write outside of the destination gives none.
pub mod Image
pub mod Reference
pub mod Size
use code_samples.Base.{
  ℕ, zero, suc, ◌+◌, ◌-◌, ◌%◌, ◌<◌, ◌==◌, Bool, true, false, not, ◌&&◌, Option, none, some, List,
  [], ◌∷◌, ◌++◌, leb, ltb, if◌then◌else◌, Bytes, length, get_or,
}

-- What the code does with a `double`.
pub record Double : Type 1 where
  pub W : Type 0
  pub of_byte : ℕ → W
  -- The constant `n / 1000`.
  pub thousandths : ℕ → W
  pub plus : W → W → W
  pub minus : W → W → W
  pub times : W → W → W
  pub at_least : W → W → Bool
  pub at_most : W → W → Bool
  -- The conversion to `unsigned char`.
  pub truncate : W → ℕ

module _ (d : Double) where
  open d use {W, of_byte, thousandths, plus, minus, times, at_least, at_most, truncate}

  unfoldable pub clip : W → ℕ
  clip x = if at_least x (of_byte 255) then 255 else if at_most x (of_byte 0) then 0 else truncate x

  -- The three bytes of a pixel.
  unfoldable pub rgb : (y u v : ℕ) → Bytes
  unfolding clip
  rgb y u v =
      let v' = minus (of_byte v) (thousandths 128000) in
      let u' = minus (of_byte u) (thousandths 128000) in
      clip (plus (of_byte y) (times (thousandths 1402) v'))
      ∷ clip (minus (minus (of_byte y) (times (thousandths 344) u')) (times (thousandths 714) v'))
      ∷ clip (plus (of_byte y) (times (thousandths 1772) u'))
      ∷ []

  -- The pointers into the source, and what is written.
  pub record Cursor : Type 0 where
    pub py : ℕ
    pub pu : ℕ
    pub pv : ℕ
    pub out : Bytes

  module _ (src : Bytes) (cap : ℕ) where
    -- One pixel, and the pointers behind it.
    unfoldable pub pixel : (column : ℕ) → Cursor → Option Cursor
    pixel column c =
        if ltb c.py (length src)
          && (ltb c.pu (length src) && (ltb c.pv (length src) && leb (length c.out + 3) cap))
        then some (record {
          py = c.py + 2;
          pu = if column % 2 == 1 then c.pu + 4 else c.pu;
          pv = if column % 2 == 1 then c.pv + 4 else c.pv;
          out = c.out ++ rgb (get_or src c.py 0) (get_or src c.pu 0) (get_or src c.pv 0);
        })
        else none

    unfoldable pub columns : (left column : ℕ) → Cursor → Option Cursor
    columns zero column c = some c
    columns (suc n) column c = elim (pixel column c) [
      | none ↦ none
      | some c' ↦ columns n (column + 1) c'
    ]

    unfoldable pub lines : (left width : ℕ) → Cursor → Option Cursor
    lines zero width c = some c
    lines (suc n) width c = elim (columns width 0 c) [ none ↦ none | some c' ↦ lines n width c' ]

    unfoldable pub yuv422_to_rgb888 : (width height : ℕ) → Option Bytes
    yuv422_to_rgb888 width height =
        elim (lines height width (record { py = 0; pu = 1; pv = 3; out = [] })) [
          | none ↦ none
          | some c ↦ some c.out
        ]
