-- ===== src/YoutubeSearch/Ownership/Items.antt =====
-- The blocks of the descriptions of ytsearch.c: creating one either gives it three blocks of its own
-- or leaves none behind, and appending it to the results keeps it.
use code_samples.Base.{ℕ, ◌+◌, ◌≡◌, true, Option, none, some, List, [], ◌∷◌, ◌++◌, Bytes, arith}
use code_samples.YoutubeSearch.Memory.{Allocator, Memory, free, malloc, realloc}
use code_samples.YoutubeSearch.Page.{
  MediaType, media_type, Description, Results, with_address, with_title, with_description,
  create_of_type, youtube_media_description_create, with_space, append,
}
use code_samples.YoutubeSearch.Ownership.{
  Ends, bind-Ends, Count, Holds, one, one_if, ◌⊕◌, allocate-Ends, free-Ends, realloc-Ends,
}

abbrev pub of_item : Description → Count
of_item d = one d.id ⊕ one d.title.id ⊕ one d.address.id

abbrev pub of_option : Option Description → Count
of_option none x = 0
of_option (some d) x = of_item d x

abbrev pub of_items : List (Option Description) → Count
of_items [] x = 0
of_items (d ∷ ds) x = of_option d x + of_items ds x

abbrev pub of_results : Results → Count
of_results r = one_if r.array ⊕ of_items r.items

-- Every entry is written, and without an array there is none.
abbrev pub Written : List (Option Description) → Type 0
Written [] = Unit {0}
Written (none ∷ items) = ⊥
Written (some d ∷ items) = Written items

abbrev pub Consistent : Option ℕ → List (Option Description) → Type 0
Consistent (some i) items = Written items
Consistent none [] = Unit {0}
Consistent none (d ∷ items) = ⊥

abbrev pub Owns : Count → Results → Memory → Type 0
Owns f r s = Holds (f ⊕ of_results r) s × Consistent r.array r.items

of_items-append :
    (ds es : List (Option Description)) (x : ℕ)
    → of_items (ds ++ es) x ≡ of_items ds x + of_items es x
of_items-append [] es x = omega arith
of_items-append (d ∷ ds) es x = let rest = of_items-append ds es x in omega (arith, rest)

Written-append :
    (ds : List (Option Description)) (d : Description) → Written ds → Written (ds ++ some d ∷ [])
Written-append [] d w = tt
Written-append (some e ∷ ds) d w = Written-append ds d w
Written-append (none ∷ ds) d w = absurd w

Consistent-Written :
    (array : Option ℕ) (ds : List (Option Description)) → Consistent array ds → Written ds
Consistent-Written (some i) ds c = c
Consistent-Written none [] c = tt
Consistent-Written none (d ∷ ds) c = absurd c

module _ (a : Allocator) where
  with_address-Ends :
      (id title_id : ℕ) (type : MediaType) (address title : Bytes) (address_id : Option ℕ)
      (f : Count) (s : Memory)
      → Holds (f ⊕ one id ⊕ one title_id ⊕ one_if address_id) s
      → Ends
          (λ d. Holds (f ⊕ of_option d))
          (with_address a id title_id type address title address_id s)
  unfolding with_address
  with_address-Ends id title_id type address title (some address_id) f s holds =
      λ x. let h = holds x in omega (arith, h)
  with_address-Ends id title_id type address title none f s holds =
      bind-Ends (λ u. Holds (f ⊕ one id)) _ (free title_id s) _
        (free-Ends title_id (f ⊕ one id) s (λ x. let h = holds x in omega (arith, h)))
        (λ u t h.
          bind-Ends (λ v. Holds f) _ (free id t) _ (free-Ends id f t h)
            (λ v w h' x. let k = h' x in omega (arith, k)))

  with_title-Ends :
      (id : ℕ) (type : MediaType) (address title : Bytes) (title_id : Option ℕ) (f : Count)
      (s : Memory)
      → Holds (f ⊕ one id ⊕ one_if title_id) s
      → Ends (λ d. Holds (f ⊕ of_option d)) (with_title a id type address title title_id s)
  unfolding with_title
  with_title-Ends id type address title none f s holds =
      bind-Ends (λ u. Holds f) _ (free id s) _
        (free-Ends id f s (λ x. let h = holds x in omega (arith, h)))
        (λ u t h x. let k = h x in omega (arith, k))
  with_title-Ends id type address title (some title_id) f s holds =
      bind-Ends (λ i. Holds (f ⊕ one id ⊕ one title_id ⊕ one_if i)) _ (malloc a s) _
        (allocate-Ends a.mallocs (f ⊕ one id ⊕ one title_id) s holds)
        (λ i t. with_address-Ends id title_id type address title i f t)

  with_description-Ends :
      (type : MediaType) (address title : Bytes) (id : Option ℕ) (f : Count) (s : Memory)
      → Holds (f ⊕ one_if id) s
      → Ends (λ d. Holds (f ⊕ of_option d)) (with_description a type address title id s)
  unfolding with_description
  with_description-Ends type address title none f s holds = holds
  with_description-Ends type address title (some id) f s holds =
      bind-Ends (λ i. Holds (f ⊕ one id ⊕ one_if i)) _ (malloc a s) _
        (allocate-Ends a.mallocs (f ⊕ one id) s holds)
        (λ i t. with_title-Ends id type address title i f t)

  -- Creating a description takes three blocks for it, or leaves none behind.
  pub create-Ends :
      (address title : Bytes) (f : Count) (s : Memory)
      → Holds f s
      → Ends (λ d. Holds (f ⊕ of_option d)) (youtube_media_description_create a address title s)
  unfolding youtube_media_description_create
  create-Ends address title f s holds = typed (media_type address)
    where
      typed :
          (type : Option MediaType)
          → Ends (λ d. Holds (f ⊕ of_option d)) (create_of_type a address title type s)
      typed none = unfold create_of_type in (λ x. let h = holds x in omega (arith, h))
      typed (some type) =
          unfold create_of_type in
          (bind-Ends (λ i. Holds (f ⊕ one_if i)) _ (malloc a s) _
            (allocate-Ends a.mallocs f s holds)
            (λ i t. with_description-Ends type address title i f t))

  pub append-Ends :
      (r : Results) (d : Option Description) (f : Count) (s : Memory)
      → ((n : ℕ) → a.reallocs n ≡ true)
      → Consistent r.array r.items
      → Holds (f ⊕ of_results r ⊕ of_option d) s
      → Ends (λ r'. Owns f r') (append a r d s)
  unfolding append
  append-Ends r none f s gives consistent holds =
      ((λ x. let h = holds x in omega (arith, h)), consistent)
  append-Ends r (some d) f s gives consistent holds =
      bind-Ends (λ i t. (j : ℕ) × (i ≡ some j) × Holds (f ⊕ of_items r.items ⊕ of_item d ⊕ one j) t)
        _ (realloc a r.array s) _
        (realloc-Ends a r.array (f ⊕ of_items r.items ⊕ of_item d) s gives
          (λ x. let h = holds x in omega (arith, h)))
        (λ i t (j, e, h). spaced i t j e h)
    where
      spaced :
          (i : Option ℕ) (t : Memory) (j : ℕ)
          → i ≡ some j
          → Holds (f ⊕ of_items r.items ⊕ of_item d ⊕ one j) t
          → Ends (λ r'. Owns f r') (with_space a d r i t)
      spaced i t j e h =
          unfold with_space in
          (rw e (
            (λ x.
                let k = h x in
                let l = of_items-append r.items (some d ∷ []) x in omega (arith, k, l)),
            Written-append r.items d (Consistent-Written r.array r.items consistent),
          ))
