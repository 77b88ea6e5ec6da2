-- ===== src/GmailCalendar/Util/Strip.antt =====
-- `rstrip`: what is cut off a string, and what stays.
use code_samples.Base.{
  ℕ, ◌≡◌, refl, true, false, inl, inr, [], ◌∷◌, ◌++◌, append_assoc, append-nil, arith, ◌==◌, Bytes,
  length, length-append, get_or, set, All, All-append, Bool-cases, IsCString, get_or_append,
  set_append, ap, sym, ◌∙◌, IsCharacter,
}
use mathlib.Core.List.{concat-ne-nil}
use code_samples.GmailCalendar.Util.{is_trailing, rstrip_loop, c_string, rstrip}

abbrev IsTrailing : ℕ → Type 0
IsTrailing c = is_trailing c ≡ true

-- The string in a buffer that holds `s`, a NUL and more.
c_string-terminated : (s more : Bytes) → IsCString s → c_string (s ++ 0 ∷ more) ≡ s
unfolding c_string
c_string-terminated [] more ok = refl
c_string-terminated (c ∷ s) more ok =
    let other : (c == 0) ≡ false = ground arith in rw (other, c_string-terminated s more ok.1)

-- A list from its last element on.
backwards : Bytes → Bytes
backwards [] = []
backwards (c ∷ r) = backwards r ++ c ∷ []

length-backwards : (r : Bytes) → length (backwards r) ≡ length r
unfolding backwards
length-backwards [] = refl
length-backwards (c ∷ r) = ground (arith, length-append (backwards r) (c ∷ []), length-backwards r)

backwards-snoc : (r : Bytes) (c : ℕ) → backwards (r ++ c ∷ []) ≡ c ∷ backwards r
unfolding backwards
backwards-snoc [] c = refl
backwards-snoc (d ∷ r) c = rw (backwards-snoc r c)

backwards_view : (s : Bytes) → (r : Bytes) × (backwards r ≡ s)
unfolding backwards
backwards_view [] = ([], refl)
backwards_view (c ∷ s) =
    let (r, e) = backwards_view s in (r ++ c ∷ [], backwards-snoc r c ∙ ap (λ t. c ∷ t) e)

-- A string in two parts, the second being what `rstrip` cuts off.
pub record Stripped (s kept cut : Bytes) : Type 0 where
  pub parts : s ≡ kept ++ cut
  pub all_trailing : All IsTrailing cut
  pub ends : (t : Bytes) (c : ℕ) → kept ≡ t ++ c ∷ [] → is_trailing c ≡ false

append-snoc-injective : (s t : Bytes) (c d : ℕ) → s ++ c ∷ [] ≡ t ++ d ∷ [] → c ≡ d
append-snoc-injective [] [] c d e = cc
append-snoc-injective [] (y ∷ []) c d e = cc
append-snoc-injective [] (y ∷ z ∷ t) c d e = cc
append-snoc-injective (x ∷ []) [] c d e = cc
append-snoc-injective (x ∷ z ∷ s) [] c d e = cc
append-snoc-injective (x ∷ s) (y ∷ t) c d e = append-snoc-injective s t c d (cc)

rstrip_loop-Stripped :
    (r more : Bytes)
    → (kept cut more' : Bytes) × (rstrip_loop (length r) (backwards r ++ 0 ∷ more)
        ≡ kept ++ 0 ∷ more')
      × Stripped (backwards r) kept cut
unfolding rstrip_loop backwards
rstrip_loop-Stripped [] more = (
  [],
  [],
  more,
  refl,
  record { parts = refl; all_trailing = tt; ends = λ t c e. absurd (concat-ne-nil c t (sym e)) },
)
rstrip_loop-Stripped (c ∷ r) more =
    let s = backwards r in
    let got : get_or (s ++ c ∷ 0 ∷ more) (length r) 0 ≡ c =
      rw (← length-backwards r) (get_or_append s c (0 ∷ more) 0) in
    let cleared : set (s ++ c ∷ 0 ∷ more) (length r) 0 ≡ s ++ 0 ∷ 0 ∷ more =
      rw (← length-backwards r) (set_append s c (0 ∷ more) 0) in
    elim (Bool-cases (is_trailing c)) [
      | inl white ↦
          let (kept, cut, more', run, ok) = rstrip_loop-Stripped r (0 ∷ more) in
          (
            kept,
            cut ++ c ∷ [],
            more',
            rw (append_assoc s (c ∷ []) (0 ∷ more), got, white, cleared) run,
            record {
              parts = rw ok.parts (append_assoc kept cut (c ∷ []));
              all_trailing = All-append IsTrailing cut (c ∷ []) ok.all_trailing (white, tt);
              ends = ok.ends;
            },
          )
      | inr solid ↦ (
        s ++ c ∷ [],
        [],
        more,
        rw (append_assoc s (c ∷ []) (0 ∷ more), got, solid),
        record {
          parts = sym (append-nil (s ++ c ∷ []));
          all_trailing = tt;
          ends = λ t d e. rw (← append-snoc-injective s t c d e) solid;
        },
      )
    ]

All-front {κ} : (P : ℕ → Type κ) (xs ys : Bytes) → All P (xs ++ ys) → All P xs
All-front P [] ys h = tt
All-front P (x ∷ xs) ys h = (h.0, All-front P xs ys h.1)

-- `rstrip` leaves in the buffer the string without its longest end of newlines, carriage returns,
-- spaces and tabs: it cuts off nothing else, and the string that stays does not end in one of them.
pub rstrip-Stripped :
    (s more : Bytes)
    → IsCString s
    → (kept cut : Bytes) × (c_string (rstrip (s ++ 0 ∷ more)) ≡ kept) × Stripped s kept cut
unfolding rstrip
rstrip-Stripped s more ok =
    let (r, e) = backwards_view s in
    let (kept, cut, more', run, stripped) = rstrip_loop-Stripped r more in
    let run' : rstrip_loop (length s) (s ++ 0 ∷ more) ≡ kept ++ 0 ∷ more' =
      ap (λ t. rstrip_loop (length t) (t ++ 0 ∷ more)) (sym e) ∙ rw (length-backwards r) run in
    let parts : s ≡ kept ++ cut = sym e ∙ stripped.parts in
    let ok' : IsCString (kept ++ cut) = rw parts at ok in
    (
      kept,
      cut,
      rw (c_string-terminated s more ok, run')
          (c_string-terminated kept more' (All-front IsCharacter kept cut ok')),
      record { parts = parts; all_trailing = stripped.all_trailing; ends = stripped.ends },
    )
