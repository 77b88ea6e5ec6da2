-- ===== src/GmailCalendar/Util/Base64.antt =====
-- `b64url_encode`: the text of EVP_EncodeBlock in the URL alphabet, without its padding, made in
-- place.
use code_samples.Base.{
  ℕ, zero, suc, ◌+◌, ◌*◌, ◌/◌, ◌^◌, ◌≤◌, ◌<◌, ◌≡◌, refl, false, inl, inr, Option, some, List, [],
  ◌∷◌, ◌++◌, map, append_assoc, arith, ◌==◌, ltb, if◌then◌else◌, Bytes, codes, length,
  length-append, get_or, set, drop, All, Bool-cases, ◌∙◌, ap, get_or_append, set_append, replicate,
  length-replicate, length-drop, length-map, not, all_below, all_below_sound, eq_of_test,
}
use code_samples.Base.Int.{pos, to_int-pos}
use code_samples.GmailCalendar.Util.{url_alphabet_loop, b64url_encode}

-- What the loop writes for a character.
translate : ℕ → ℕ
translate c = if c == b'+' then b'-' else if c == b'/' then b'_' else c

-- What the loop leaves of a text.
url_text : Bytes → Bytes
url_text [] = []
url_text (c ∷ s) = if c == b'=' then url_text s else translate c ∷ url_text s

-- The character at the read position, and the write at the write position.
read_at :
    (front junk : Bytes) (c : ℕ) (s : Bytes)
    → get_or (front ++ (junk ++ c ∷ s)) (length front + length junk) 0 ≡ c
read_at front junk c s =
    rw (← append_assoc front junk (c ∷ s), ← length-append front junk)
      (get_or_append (front ++ junk) c s 0)

-- The buffer is the text written so far, characters already read, and what is still to be read.
record Layout (i w : ℕ) (buffer front junk rest : Bytes) : Type 0 where
  read_pos : i ≡ length front + length junk
  write_pos : w ≡ length front
  contents : buffer ≡ front ++ (junk ++ rest)

-- After a written character the text is longer, and as much has been read and not overwritten.
advance :
    (c d : ℕ) (front junk rest : Bytes) (i w : ℕ) (buffer : Bytes)
    → Layout i w buffer front junk (c ∷ rest)
    → (junk' : Bytes) × Layout (i + 1) (w + 1) (set buffer w d) (front ++ d ∷ []) junk' rest
      × (length junk' ≡ length junk)
advance c d front [] rest i w buffer at = (
  [],
  record {
    read_pos = ground (arith, at.read_pos, length-append front (d ∷ []));
    write_pos = ground (arith, at.write_pos, length-append front (d ∷ []));
    contents =
        rw (at.contents, at.write_pos, append_assoc front (d ∷ []) rest)
          (set_append front c rest d);
  },
  refl,
)
advance c d front (j ∷ junk) rest i w buffer at = (
  junk ++ c ∷ [],
  record {
    read_pos =
        ground (arith, at.read_pos, length-append front (d ∷ []), length-append junk (c ∷ []));
    write_pos = ground (arith, at.write_pos, length-append front (d ∷ []));
    contents =
        rw (at.contents, at.write_pos, append_assoc front (d ∷ []), append_assoc junk (c ∷ []) rest)
          (set_append front j (junk ++ c ∷ rest) d);
  },
  ground (arith, length-append junk (c ∷ [])),
)

loop-url_text :
    (s front junk tail : Bytes) (i w : ℕ) (buffer : Bytes)
    → Layout i w buffer front junk (s ++ tail)
    → (more : Bytes) × (url_alphabet_loop (length s) i w buffer
        ≡ (length front + length (url_text s), front ++ (url_text s ++ more)))
      × (length more + length (url_text s) ≡ length junk + length s + length tail)
unfolding url_alphabet_loop url_text translate
loop-url_text [] front junk tail i w buffer at = (
  junk ++ tail,
  rw (at.contents, at.write_pos) (ground arith),
  ground (arith, length-append junk tail),
)
loop-url_text (c ∷ s) front junk tail i w buffer at =
    let got : get_or buffer i 0 ≡ c =
      rw (at.contents, at.read_pos) (read_at front junk c (s ++ tail)) in
    elim (Bool-cases (c == b'=')) [
      | inl pad ↦
          let (more, run, size) =
            loop-url_text s front (junk ++ c ∷ []) tail (i + 1) w buffer (record {
              read_pos = ground (arith, at.read_pos, length-append junk (c ∷ []));
              write_pos = at.write_pos;
              contents = rw (append_assoc junk (c ∷ []) (s ++ tail)) at.contents;
            }) in
          rw (got, pad) (more, run, ground (arith, length-append junk (c ∷ [])))
      | inr char ↦
          let d = translate c in
          let (junk', next, same) = advance c d front junk (s ++ tail) i w buffer at in
          let (more, run, size) =
            loop-url_text s (front ++ d ∷ []) junk' tail (i + 1) (w + 1) (set buffer w d) next in
          rw (got, char)
            (
              more,
              run ∙ rw append_assoc (ground (arith, length-append front (d ∷ []))),
              ground arith,
            )
    ]

abbrev pub standard : Bytes
standard = codes "ABCDEFGHIJKLMNOPQRSTUVWXYZabcdefghijklmnopqrstuvwxyz0123456789+/"

abbrev pub url_safe : Bytes
url_safe = codes "ABCDEFGHIJKLMNOPQRSTUVWXYZabcdefghijklmnopqrstuvwxyz0123456789-_"

-- The text of six-bit values in an alphabet.
abbrev pub spell : Bytes → List ℕ → Bytes
spell alphabet = map (λ d. get_or alphabet d 0)

abbrev pub IsSextet : ℕ → Type 0
IsSextet d = d < 64

translate_table : (d : ℕ) → IsSextet d → translate (get_or standard d 0) ≡ get_or url_safe d 0
unfolding translate all_below
translate_table d h =
    eq_of_test _ _
      (all_below_sound 64 (λ m. translate (get_or standard m 0) == get_or url_safe m 0) d refl h)

no_padding : (d : ℕ) → IsSextet d → (get_or standard d 0 == b'=') ≡ false
unfolding all_below
no_padding d h =
    ground (arith, all_below_sound 64 (λ m. not (get_or standard m 0 == b'=')) d refl h)

url_text-replicate : (k : ℕ) → url_text (replicate k b'=') ≡ []
unfolding url_text
url_text-replicate zero = refl
url_text-replicate (suc k) = url_text-replicate k

url_text-spell :
    (ds : List ℕ) (k : ℕ)
    → All IsSextet ds
    → url_text (spell standard ds ++ replicate k b'=') ≡ spell url_safe ds
unfolding url_text
url_text-spell [] k ok = url_text-replicate k
url_text-spell (d ∷ ds) k ok =
    rw (no_padding d ok.0, translate_table d ok.0, url_text-spell ds k ok.1)

-- The terminating NUL is put behind the text.
terminate :
    (text more : Bytes)
    → 0 < length more
    → (more' : Bytes) × (set (text ++ more) (length text) 0 ≡ text ++ 0 ∷ more')
      × (length more' + 1 ≡ length more)
terminate text [] h = elim h [ ]
terminate text (m ∷ more) h = (more, set_append text m more 0, omega arith)

-- Where EVP_EncodeBlock gives the standard base64 text of some six-bit values, padded to whole
-- groups of four, and the buffer has room for it and a NUL, `b64url_encode` returns the number of
-- values and leaves their text in the URL alphabet, without padding and with a NUL behind it; the
-- buffer keeps its size.
pub b64url_encode-spell :
    (encode_block : Bytes → Option Bytes) (inp buffer : Bytes) (ds : List ℕ) (k : ℕ)
    → encode_block inp ≡ some (spell standard ds ++ replicate k b'=')
    → All IsSextet ds
    → length ds + k ≡ 4 * ((length inp + 2) / 3)
    → 4 * ((length inp + 2) / 3) < length buffer
    → length buffer ≤ 2 ^ 31
    → (more : Bytes) × (b64url_encode encode_block inp buffer (length buffer)
        ≡ record { ret = pos (length ds); out = spell url_safe ds ++ 0 ∷ more })
      × (length ds + 1 + length more ≡ length buffer)
unfolding b64url_encode
b64url_encode-spell encode_block inp buffer ds k gives ok whole fits small =
    let block = spell standard ds ++ replicate k b'=' in
    let length_block : length block ≡ length ds + k = ground (
      arith,
      length-append (spell standard ds) (replicate k b'='),
      length-map (λ d. get_or standard d 0) ds,
      length-replicate {A = ℕ} k b'=',
    ) in
    let length_text : length (spell url_safe ds) ≡ length ds =
      length-map (λ d. get_or url_safe d 0) ds in
    let tail = 0 ∷ drop (length block + 1) buffer in
    let (more, run, size) =
      loop-url_text block [] [] tail 0 0 (block ++ tail)
        (record { read_pos = refl; write_pos = refl; contents = refl }) in
    let clean : url_text block ≡ spell url_safe ds = url_text-spell ds k ok in
    let size' : length more + length ds ≡ length block + length tail =
      omega (arith, size, ap length clean, length_text) in
    let (more', ended, size'') =
      terminate (spell url_safe ds) more (omega (arith, size', length_block)) in
    let room : ltb (length buffer) (4 * ((length inp + 2) / 3) + 1) ≡ false = ground arith in
    (
      more',
      rw (room, gives, run, clean) (ground (arith, length_text, ended, to_int-pos (length ds))),
      omega (arith, size', size'', length_block, length-drop (length block + 1) buffer),
    )
