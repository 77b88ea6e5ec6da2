-- ===== src/VideoCapture/Yuv/Reference.antt =====
-- YUV422toRGB888 of capture.c against a formula by the number of the pixel: a group of four bytes
-- has a luma for each of two pixels and the two chromas that they share.
use code_samples.Base.{
  ℕ, zero, suc, ◌+◌, ◌*◌, ◌/◌, ◌%◌, ◌<◌, ◌≤◌, ◌==◌, ◌≡◌, refl, true, Option, some, [], ◌++◌,
  append_assoc, append-nil, leb, ltb, if◌then◌else◌, Bytes, length, length-append, get_or, arith,
  sym, ap, ◌∙◌,
}
use native.Mathlib.Nat.{zero-mul, suc-mul}
use code_samples.VideoCapture.Yuv.{Double, Cursor, rgb, pixel, columns, lines, yuv422_to_rgb888}

even_mul : (h w : ℕ) → w % 2 ≡ 0 → h * w % 2 ≡ 0
even_mul zero w even = rw (zero-mul w) refl
even_mul (suc h) w even = let more = even_mul h w even in rw (suc-mul h w) (omega arith)

module _ (d : Double) where
  -- Pixel number `q` of a frame, and `n` pixels from there on.
  abbrev pub pixel_at : Bytes → ℕ → Bytes
  pixel_at src q =
      rgb d (get_or src (2 * q) 0) (get_or src (4 * (q / 2) + 1) 0) (get_or src (4 * (q / 2) + 3) 0)

  unfoldable pub pixels : Bytes → (n q : ℕ) → Bytes
  pixels src zero q = []
  pixels src (suc n) q = pixel_at src q ++ pixels src n (q + 1)

  length-rgb : (y u v : ℕ) → length (rgb d y u v) ≡ 3
  unfolding rgb
  length-rgb y u v = refl

  -- The pointers in front of pixel `q`.
  abbrev before : ℕ → Bytes → Cursor d
  before q out = record { py = 2 * q; pu = 4 * (q / 2) + 1; pv = 4 * (q / 2) + 3; out = out }

  -- Two pointers are behind a pixel where the column's parity says so.
  advance :
      (column q k : ℕ)
      → column % 2 ≡ q % 2
      → (if column % 2 == 1 then 4 * (q / 2) + k + 4 else 4 * (q / 2) + k) ≡ 4 * ((q + 1) / 2) + k
  advance column q k parity = ground arith

  abbrev at_cursor : (py pu pv : ℕ) → Bytes → Option (Cursor d)
  at_cursor py pu pv out = some (record { py = py; pu = pu; pv = pv; out = out })

  same_cursor :
      {py py' pu pu' pv pv' : ℕ} {out out' : Bytes}
      → py ≡ py'
      → pu ≡ pu'
      → pv ≡ pv'
      → out ≡ out'
      → at_cursor py pu pv out ≡ at_cursor py' pu' pv' out'
  same_cursor e1 e2 e3 e4 = cc

  same_pixels : (src : Bytes) {n n' q q' : ℕ} → n ≡ n' → q ≡ q' → pixels src n q ≡ pixels src n' q'
  same_pixels src e1 e2 = cc

  pub length-pixels : (src : Bytes) (n q : ℕ) → length (pixels src n q) ≡ 3 * n
  unfolding pixels
  length-pixels src zero q = refl
  length-pixels src (suc n) q = rw (length-append (pixel_at src q) (pixels src n (q + 1))) (
      ground (
        arith,
        length-pixels src n (q + 1),
        length-rgb (get_or src (2 * q) 0) (get_or src (4 * (q / 2) + 1) 0)
            (get_or src (4 * (q / 2) + 3) 0),
      ))

  pub pixels-add :
      (src : Bytes) (a b q : ℕ) → pixels src (a + b) q ≡ pixels src a q ++ pixels src b (q + a)
  unfolding pixels
  pixels-add src zero b q = same_pixels src (omega arith) (omega arith)
  pixels-add src (suc a) b q =
      let start : pixels src (suc a + b) q ≡ pixels src (suc (a + b)) q =
        same_pixels src {n' = suc (a + b)} (omega arith) refl in
      let rest : pixels src (a + b) (q + 1) ≡ pixels src a (q + 1) ++ pixels src b (q + suc a) =
        pixels-add src a b (q + 1)
        ∙ ap (λ x. pixels src a (q + 1) ++ x) (same_pixels src {n = b} refl (omega arith)) in
      start
      ∙ ap (λ x. pixel_at src q ++ x) rest
      ∙ sym (append_assoc (pixel_at src q) (pixels src a (q + 1)) (pixels src b (q + suc a)))

  module _ (src : Bytes) (cap total : ℕ) (even : total % 2 ≡ 0) (enough : 2 * total ≤ length src)
      (fits : 3 * total ≤ cap) where
    pixel-before :
        (column q : ℕ) (out : Bytes)
        → column % 2 ≡ q % 2
        → q < total
        → length out ≡ 3 * q
        → pixel d src cap column (before q out) ≡ some (before (q + 1) (out ++ pixel_at src q))
    unfolding pixel
    pixel-before column q out parity inside written =
        let py : ltb (2 * q) (length src) ≡ true = ground arith in
        let pu : ltb (4 * (q / 2) + 1) (length src) ≡ true = ground arith in
        let pv : ltb (4 * (q / 2) + 3) (length src) ≡ true = ground arith in
        let room : leb (length out + 3) cap ≡ true = ground arith in
        rw py (
          rw pu (
            rw pv (
              rw room (
                same_cursor (omega arith) (advance column q 1 parity) (advance column q 3 parity)
                  refl))))

    written_more :
        (n q : ℕ) (out : Bytes) → length out ≡ 3 * q → length (out ++ pixels src n q) ≡ 3 * (q + n)
    written_more n q out written =
        rw (length-append out (pixels src n q)) (ground (arith, length-pixels src n q))

    columns-next :
        (n column : ℕ) (c c' : Cursor d)
        → pixel d src cap column c ≡ some c'
        → columns d src cap (suc n) column c ≡ columns d src cap n (column + 1) c'
    unfolding columns
    columns-next n column c c' e = rw (e, columns) refl

    lines-next :
        (h w : ℕ) (c c' : Cursor d)
        → columns d src cap w 0 c ≡ some c'
        → lines d src cap (suc h) w c ≡ lines d src cap h w c'
    unfolding lines
    lines-next h w c c' e = rw (e, lines) refl

    columns-before :
        (n column q : ℕ) (out : Bytes)
        → column % 2 ≡ q % 2
        → q + n ≤ total
        → length out ≡ 3 * q
        → columns d src cap n column (before q out) ≡ some (before (q + n) (out ++ pixels src n q))
    unfolding columns pixels
    columns-before zero column q out parity inside written =
        same_cursor (omega arith) (omega arith) (omega arith) (sym (append-nil out))
    columns-before (suc n) column q out parity inside written =
        let written' : length (out ++ pixel_at src q) ≡ 3 * (q + 1) =
          rw (length-append out (pixel_at src q)) (
            ground (
              arith,
              length-rgb (get_or src (2 * q) 0) (get_or src (4 * (q / 2) + 1) 0)
                  (get_or src (4 * (q / 2) + 3) 0),
            )) in
        columns-next n column (before q out) (before (q + 1) (out ++ pixel_at src q))
          (pixel-before column q out parity (omega arith) written)
        ∙ columns-before n (column + 1) (q + 1) (out ++ pixel_at src q) (omega arith) (omega arith)
            written'
        ∙ same_cursor (omega arith) (omega arith) (omega arith)
            (append_assoc out (pixel_at src q) (pixels src n (q + 1)))

    lines-before :
        (h w q : ℕ) (out : Bytes)
        → w % 2 ≡ 0
        → q % 2 ≡ 0
        → q + h * w ≤ total
        → length out ≡ 3 * q
        → lines d src cap h w (before q out)
          ≡ some (before (q + h * w) (out ++ pixels src (h * w) q))
    unfolding lines pixels
    lines-before zero w q out e e' inside written =
        same_cursor (omega arith) (omega arith) (omega arith)
          (sym (append-nil out) ∙ ap (λ x. out ++ x) (same_pixels src (sym (zero-mul w)) refl))
    lines-before (suc h) w q out e e' inside written =
        let more : suc h * w ≡ w + h * w = suc-mul h w ∙ omega arith in
        let below : q + w + h * w ≤ total = omega (arith, more) in
        lines-next h w (before q out) (before (q + w) (out ++ pixels src w q))
          (columns-before w 0 q out (omega arith) (omega arith) written)
        ∙ lines-before h w (q + w) (out ++ pixels src w q) e (omega arith) below
            (written_more w q out written)
        ∙ same_cursor (omega (arith, more)) (omega (arith, more)) (omega (arith, more)) (
            append_assoc out (pixels src w q) (pixels src (h * w) (q + w))
            ∙ ap (λ x. out ++ x)
                (sym (pixels-add src w (h * w) q) ∙ same_pixels src (sym more) refl))

  -- With an even width, a source that has the frame and room for the image, YUV422toRGB888 writes
  -- pixel after pixel what the formula gives for its number, and nothing else.
  pub yuv422_to_rgb888-pixels :
      (src : Bytes) (cap width height : ℕ)
      → width % 2 ≡ 0
      → 2 * (height * width) ≤ length src
      → 3 * (height * width) ≤ cap
      → yuv422_to_rgb888 d src cap width height ≡ some (pixels src (height * width) 0)
  unfolding yuv422_to_rgb888
  yuv422_to_rgb888-pixels src cap width height even enough fits =
      rw
        (
          lines-before src cap (height * width) (even_mul height width even) enough fits height
              width 0 [] even refl (omega arith) refl,
          yuv422_to_rgb888,
        )
        refl
