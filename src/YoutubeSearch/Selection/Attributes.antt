-- ===== src/YoutubeSearch/Selection/Attributes.antt =====
-- The attributes of a link in ytsearch.c, with memory for every call: the loop appends the link's
-- item, if it has one.
use code_samples.Base.{
  ℕ, suc, ◌≤◌, ◌==◌, ◌≡◌, refl, true, false, Bool-cases, inl, inr, Option, none, some, [], ◌∷◌,
  append-nil, Bytes, codes, if◌then◌else◌, arith, eq_of_test, sym,
}
use mathlib.Core.Bool.{true≢false}
use code_samples.YoutubeSearch.Memory.{Allocator, Memory, Command, Leads}
use code_samples.YoutubeSearch.Page.{
  equal_text, Link, Found, Results, when_found, attribute_step, attributes_loop,
}
use code_samples.YoutubeSearch.Selection.{views, is_value, value_of, times, describe}
use code_samples.YoutubeSearch.Selection.Append.{Gains, found-Gains}

equal_text_sound : (cs ds : Bytes) → equal_text cs ds ≡ true → cs ≡ ds
unfolding equal_text
equal_text_sound [] [] h = refl
equal_text_sound [] (d ∷ ds) h = absurd (true≢false (sym h))
equal_text_sound (c ∷ cs) [] h = absurd (true≢false (sym h))
equal_text_sound (c ∷ cs) (d ∷ ds) h = elim (Bool-cases (c == d)) [
  | inl e ↦
      let head : c ≡ d = eq_of_test c d e in
      let tail : cs ≡ ds = equal_text_sound cs ds (rw e at h) in cc
  | inr e ↦ absurd (true≢false (sym (rw e at h)))
]

-- No key is both.
title-href :
    (key : Bytes) → equal_text (codes "href") key ≡ true → equal_text (codes "title") key ≡ false
unfolding equal_text
title-href key h = let e = equal_text_sound (codes "href") key h in rw (sym e) refl

-- A pointer that is set stays, and none of its attributes is left.
abbrev combine : Option Bytes → Option Bytes → Option Bytes
combine (some v) w = some v
combine none w = w

abbrev Allowed : Option Bytes → ℕ → Type 0
Allowed (some v) k = k ≡ 0
Allowed none k = k ≤ 1

abbrev Missing : Option Bytes → Option Bytes → Type 0
Missing (some v) (some w) = ⊥
Missing gh gt = Unit {0}

module _ (a : Allocator) (mallocs : (n : ℕ) → a.mallocs n ≡ true)
    (reallocs : (n : ℕ) → a.reallocs n ≡ true) where
  module _ (r : Results) (rest : Found → Command Results) (s : Memory) (vh vt : Option Bytes)
      (kh kt : ℕ)
      (each : (gh gt : Option Bytes)
        → Missing gh gt
        → Allowed gh kh
        → Allowed gt kt
        → Leads
            (Gains r (describe (combine gh vh) (combine gt vt)))
            (rest (record { href = gh; title = gt }) s)) where
    href-Gains :
        (value : Bytes) (gh gt : Option Bytes)
        → Allowed gh (suc kh)
        → Allowed gt kt
        → Leads
            (Gains r (describe (combine gh (some value)) (combine gt vt)))
            (when_found a r (some value) gt (rest (record { href = some value; title = gt })) s)
    unfolding when_found
    href-Gains value (some h) gt one_left other = absurd (omega (arith, one_left))
    href-Gains value none (some t) one_left other =
        found-Gains a mallocs reallocs r value t
          (rest (record { href = some value; title = some t })) s
    href-Gains value none none one_left other =
        each (some value) none tt (omega (arith, one_left)) other

    title-Gains :
        (value : Bytes) (gh gt : Option Bytes)
        → Allowed gh kh
        → Allowed gt (suc kt)
        → Leads
            (Gains r (describe (combine gh vh) (combine gt (some value))))
            (when_found a r gh (some value) (rest (record { href = gh; title = some value })) s)
    unfolding when_found
    title-Gains value gh (some t) other one_left = absurd (omega (arith, one_left))
    title-Gains value (some h) none other one_left =
        found-Gains a mallocs reallocs r h value
          (rest (record { href = some h; title = some value })) s
    title-Gains value none none other one_left =
        each none (some value) tt other (omega (arith, one_left))

    other-Gains :
        (gh gt : Option Bytes)
        → Missing gh gt
        → Allowed gh kh
        → Allowed gt kt
        → Leads
            (Gains r (describe (combine gh vh) (combine gt vt)))
            (when_found a r gh gt (rest (record { href = gh; title = gt })) s)
    unfolding when_found
    other-Gains (some h) (some t) missing left left' = absurd missing
    other-Gains (some h) none missing left left' = each (some h) none missing left left'
    other-Gains none gt missing left left' = each none gt missing left left'

    step-Gains :
        (key value gh gt : Option Bytes)
        → Missing gh gt
        → Allowed gh (if is_value (codes "href") key value then suc kh else kh)
        → Allowed gt (if is_value (codes "title") key value then suc kt else kt)
        → Leads
            (Gains r (
              describe
                (combine gh (if is_value (codes "href") key value then value else vh))
                (combine gt (if is_value (codes "title") key value then value else vt))))
            (attribute_step a (record { href = gh; title = gt }) r key value rest s)
    unfolding attribute_step
    step-Gains none value gh gt missing left left' = each gh gt missing left left'
    step-Gains (some key) none gh gt missing left left' = each gh gt missing left left'
    step-Gains (some key) (some value) gh gt missing left left' =
        elim (Bool-cases (equal_text (codes "href") key)) [
          | inl h ↦
              let h' = title-href key h in
              rw h (rw h' (href-Gains value gh gt (rw h at left) (rw h' at left')))
          | inr h ↦ elim (Bool-cases (equal_text (codes "title") key)) [
            | inl h' ↦ rw h (rw h' (title-Gains value gh gt (rw h at left) (rw h' at left')))
            | inr h' ↦ rw h (rw h' (other-Gains gh gt missing (rw h at left) (rw h' at left')))
          ]
        ]

  pub attributes_loop-Gains :
      (bs : Link) (gh gt : Option Bytes) (r : Results) (s : Memory)
      → Missing gh gt
      → Allowed gh (times (codes "href") bs)
      → Allowed gt (times (codes "title") bs)
      → Leads
          (Gains r (
            describe
              (combine gh (value_of (codes "href") bs))
              (combine gt (value_of (codes "title") bs))))
          (attributes_loop a bs (record { href = gh; title = gt }) r s)
  unfolding attributes_loop times value_of
  attributes_loop-Gains [] (some h) (some t) r s missing left left' = absurd missing
  attributes_loop-Gains [] (some h) none r s missing left left' = sym (append-nil (views r.items))
  attributes_loop-Gains [] none gt r s missing left left' = sym (append-nil (views r.items))
  attributes_loop-Gains (b ∷ bs) gh gt r s missing left left' =
      step-Gains r (λ g. attributes_loop a bs g r) s (value_of (codes "href") bs)
        (value_of (codes "title") bs) (times (codes "href") bs) (times (codes "title") bs)
        (λ gh' gt'. attributes_loop-Gains bs gh' gt' r s) b.key b.value gh gt missing left left'
