-- ===== src/YoutubeSearch/Selection/Append.antt =====
-- With memory for every call, ytsearch.c makes the description of a link and appends it.
use code_samples.Base.{
  ℕ, ◌≡◌, refl, Bool, true, Option, none, some, List, [], ◌∷◌, ◌++◌, append-nil, Bytes, sym, ap,
}
use code_samples.YoutubeSearch.Memory.{
  Allocator, Memory, Command, allocate, malloc, realloc, free_if, Leads, bind-Leads, any-Leads,
}
use code_samples.YoutubeSearch.Page.{
  MediaType, media_type, Description, Results, with_address, with_title, with_description,
  create_of_type, youtube_media_description_create, with_space, append, when_found,
}
use code_samples.YoutubeSearch.Selection.{Item, view, views, item_of, describe, item_list}

abbrev IsSome : {A : Type 0} → Option A → Type 0
IsSome none = ⊥
IsSome (some a) = Unit {0}

abbrev view_if : Option Description → Option Item
view_if none = none
view_if (some d) = some (view d)

-- Results with one item more, if there is one.
abbrev pub Gains : Results → Option Item → Results → Type 0
Gains r i r' = views r'.items ≡ views r.items ++ item_list i

views-append :
    (ds : List (Option Description)) (d : Description)
    → views (ds ++ some d ∷ []) ≡ views ds ++ some (view d) ∷ []
views-append [] d = refl
views-append (none ∷ ds) d = ap (λ x. none ∷ x) (views-append ds d)
views-append (some e ∷ ds) d = ap (λ x. some (view e) ∷ x) (views-append ds d)

allocate-IsSome :
    (gives : ℕ → Bool) (s : Memory) → ((n : ℕ) → gives n ≡ true) → Leads IsSome (allocate gives s)
unfolding allocate
allocate-IsSome gives s all = rw (all s.next) tt

module _ (a : Allocator) (mallocs : (n : ℕ) → a.mallocs n ≡ true)
    (reallocs : (n : ℕ) → a.reallocs n ≡ true) where
  realloc-IsSome : (old : Option ℕ) (s : Memory) → Leads IsSome (realloc a old s)
  unfolding realloc allocate
  realloc-IsSome old s = rw (reallocs s.next) (
      bind-Leads (λ u. Unit {0}) IsSome (free_if old _) _ (any-Leads (free_if old _)) (λ u t h. tt))

  create-view :
      (address title : Bytes) (s : Memory)
      → Leads
          (λ d. view_if d ≡ item_of address title (media_type address))
          (youtube_media_description_create a address title s)
  unfolding youtube_media_description_create
  create-view address title s = typed (media_type address)
    where
      addressed :
          (id title_id : ℕ) (type : MediaType) (i : Option ℕ) (t : Memory)
          → IsSome i
          → Leads
              (λ d. view_if d ≡ item_of address title (some type))
              (with_address a id title_id type address title i t)
      addressed id title_id type none t h = absurd h
      addressed id title_id type (some i) t h = unfold with_address in refl

      titled :
          (id : ℕ) (type : MediaType) (i : Option ℕ) (t : Memory)
          → IsSome i
          → Leads
              (λ d. view_if d ≡ item_of address title (some type))
              (with_title a id type address title i t)
      titled id type none t h = absurd h
      titled id type (some i) t h =
          unfold with_title in
          (bind-Leads IsSome _ (malloc a t) _ (allocate-IsSome a.mallocs t mallocs)
            (λ j u. addressed id i type j u))

      described :
          (type : MediaType) (i : Option ℕ) (t : Memory)
          → IsSome i
          → Leads
              (λ d. view_if d ≡ item_of address title (some type))
              (with_description a type address title i t)
      described type none t h = absurd h
      described type (some i) t h =
          unfold with_description in
          (bind-Leads IsSome _ (malloc a t) _ (allocate-IsSome a.mallocs t mallocs)
            (λ j u. titled i type j u))

      typed :
          (type : Option MediaType)
          → Leads
              (λ d. view_if d ≡ item_of address title type)
              (create_of_type a address title type s)
      typed none = unfold create_of_type in refl
      typed (some type) =
          unfold create_of_type in
          (bind-Leads IsSome _ (malloc a s) _ (allocate-IsSome a.mallocs s mallocs)
            (described type))

  append-Gains :
      (r : Results) (d : Option Description) (s : Memory)
      → Leads (Gains r (view_if d)) (append a r d s)
  unfolding append
  append-Gains r none s = sym (append-nil (views r.items))
  append-Gains r (some d) s =
      bind-Leads IsSome (Gains r (some (view d))) (realloc a r.array s) _ (realloc-IsSome r.array s)
        spaced
    where
      spaced :
          (i : Option ℕ) (t : Memory)
          → IsSome i
          → Leads (Gains r (some (view d))) (with_space a d r i t)
      spaced none t h = absurd h
      spaced (some i) t h = unfold with_space in (views-append r.items d)

  pub found-Gains :
      (r : Results) (href title : Bytes) (rest : Command Results) (s : Memory)
      → Leads
          (Gains r (describe (some href) (some title)))
          (when_found a r (some href) (some title) rest s)
  unfolding when_found
  found-Gains r href title rest s =
      bind-Leads (λ d. view_if d ≡ item_of href title (media_type href)) _
        (youtube_media_description_create a href title s) _ (create-view href title s)
        (λ d t e. rw e at (append-Gains r d t))
