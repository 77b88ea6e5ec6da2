-- ===== src/YoutubeSearch/Ownership/Release.antt =====
-- The blocks that parsing a page and destroying the results in ytsearch.c leave behind.
use code_samples.Base.{
  ℕ, ◌+◌, ◌≡◌, refl, true, Option, none, some, List, [], ◌∷◌, Bytes, take, arith, ap, ◌∙◌,
}
use code_samples.YoutubeSearch.Memory.{
  Allocator, Memory, done, Command, free, strlen, ◌>>=◌, added, after, allocate,
}
use code_samples.YoutubeSearch.Page.{
  Description, Link, Found, nothing_found, Results, no_results, note,
  youtube_media_description_create, when_found, attribute_step, attributes_loop, nodes_loop,
  parse_youtube_search_result_page, parse_collection, create_object,
}
use code_samples.YoutubeSearch.Search.{destroy_items, youtube_destroy_search_results}
use code_samples.YoutubeSearch.Ownership.{
  Ends, bind-Ends, Ends-done, Count, Holds, one, one_if, ◌⊕◌, free-Ends,
}
use code_samples.YoutubeSearch.Ownership.Items.{
  of_items, of_option, of_results, Written, Consistent, Owns, create-Ends, append-Ends,
}

module _ (a : Allocator) (gives : (n : ℕ) → a.reallocs n ≡ true) (f : Count) where
  when_found-Ends :
      (r : Results) (href title : Option Bytes) (rest : Command Results) (s : Memory)
      → Owns f r s
      → Ends (λ r'. Owns f r') (rest s)
      → Ends (λ r'. Owns f r') (when_found a r href title rest s)
  unfolding when_found
  when_found-Ends r none title rest s owns ends = ends
  when_found-Ends r (some href) none rest s owns ends = ends
  when_found-Ends r (some href) (some title) rest s (holds, consistent) ends =
      bind-Ends (λ d. Holds (f ⊕ of_results r ⊕ of_option d)) _
        (youtube_media_description_create a href title s) _
        (create-Ends a href title (f ⊕ of_results r) s holds)
        (λ d t h. append-Ends a r d f t gives consistent h)

  attribute_step-Ends :
      (g : Found) (r : Results) (key value : Option Bytes) (rest : Found → Command Results)
      (s : Memory)
      → Owns f r s
      → ((g' : Found) → Ends (λ r'. Owns f r') (rest g' s))
      → Ends (λ r'. Owns f r') (attribute_step a g r key value rest s)
  unfolding attribute_step
  attribute_step-Ends g r none value rest s owns ends = ends g
  attribute_step-Ends g r (some key) none rest s owns ends = ends g
  attribute_step-Ends g r (some key) (some value) rest s owns ends =
      when_found-Ends r (note key value g).href (note key value g).title (rest (note key value g)) s
        owns (ends (note key value g))

  attributes_loop-Ends :
      (bs : Link) (g : Found) (r : Results) (s : Memory)
      → Owns f r s
      → Ends (λ r'. Owns f r') (attributes_loop a bs g r s)
  unfolding attributes_loop
  attributes_loop-Ends [] g r s owns = owns
  attributes_loop-Ends (b ∷ bs) g r s owns =
      attribute_step-Ends g r b.key b.value (λ g'. attributes_loop a bs g' r) s owns
        (λ g'. attributes_loop-Ends bs g' r s owns)

  pub nodes_loop-Ends :
      (ns : List Link) (r : Results) (s : Memory)
      → Owns f r s
      → Ends (λ r'. Owns f r') (nodes_loop a ns r s)
  unfolding nodes_loop
  nodes_loop-Ends [] r s owns = owns
  nodes_loop-Ends (n ∷ ns) r s owns =
      bind-Ends (λ r'. Owns f r') _ (attributes_loop a n nothing_found r s) _
        (attributes_loop-Ends n nothing_found r s owns) (λ r' t. nodes_loop-Ends ns r' t)

destroy_items-Ends :
    (items : List (Option Description)) (f : Count) (s : Memory)
    → Written items
    → Holds (f ⊕ of_items items) s
    → Ends (λ u. Holds f) (destroy_items items s)
unfolding destroy_items
destroy_items-Ends [] f s w holds = λ x. let h = holds x in omega (arith, h)
destroy_items-Ends (none ∷ items) f s w holds = absurd w
destroy_items-Ends (some d ∷ items) f s w holds =
    bind-Ends (λ u. Holds (f ⊕ of_items items ⊕ one d.id ⊕ one d.address.id)) _ (free d.title.id s)
      _
      (free-Ends d.title.id (f ⊕ of_items items ⊕ one d.id ⊕ one d.address.id) s
        (λ x. let h = holds x in omega (arith, h)))
      (λ u t h_t.
        bind-Ends (λ u'. Holds (f ⊕ of_items items ⊕ one d.id)) _ (free d.address.id t) _
          (free-Ends d.address.id (f ⊕ of_items items ⊕ one d.id) t h_t)
          (λ u' v h_v.
            bind-Ends (λ u''. Holds (f ⊕ of_items items)) _ (free d.id v) _
              (free-Ends d.id (f ⊕ of_items items) v h_v)
              (λ u'' w' h_w. destroy_items-Ends items f w' w h_w)))

destroy-Ends :
    (array : Option ℕ) (items : List (Option Description)) (f : Count) (s : Memory)
    → Consistent array items
    → Holds (f ⊕ (one_if array ⊕ of_items items)) s
    → Ends (λ u. Holds f) (youtube_destroy_search_results array items s)
unfolding youtube_destroy_search_results
destroy-Ends none [] f s c holds = λ x. let h = holds x in omega (arith, h)
destroy-Ends none (d ∷ items) f s c holds = absurd c
destroy-Ends (some i) items f s c holds =
    bind-Ends (λ u. Holds (f ⊕ one i)) _ (destroy_items items s) _
      (destroy_items-Ends items (f ⊕ one i) s c (λ x. let h = holds x in omega (arith, h)))
      (λ u t h. free-Ends i f t h)

-- The memory with the library's object, the tree and the collection of a page.
abbrev pub with_objects : Memory → Memory
with_objects s = record {
  next = s.next + 1 + 1 + 1;
  live = added (s.next + 1 + 1) (added (s.next + 1) (added s.next s.live));
}

added-one : (i : ℕ) (live : Count) (x : ℕ) → added i live x ≡ live x + one i x
added-one i live x = ground arith

with_objects-live :
    (s : Memory) (x : ℕ)
    → (with_objects s).live x
      ≡ s.live x + one s.next x + one (s.next + 1) x + one (s.next + 1 + 1) x
with_objects-live s x =
    added-one (s.next + 1 + 1) (added (s.next + 1) (added s.next s.live)) x
    ∙ ap (λ k. k + one (s.next + 1 + 1) x)
        (added-one (s.next + 1) (added s.next s.live) x
          ∙ ap (λ k. k + one (s.next + 1) x) (added-one s.next s.live x))

-- A page that is a string is the nodes that are found in it.
pub parse-nodes :
    (a : Allocator) (nodes : Bytes → Option (List Link)) (content : Bytes) (n : ℕ) (ns : List Link)
    (s : Memory)
    → a.mallocs s.next ≡ true
    → a.mallocs (s.next + 1) ≡ true
    → a.mallocs (s.next + 1 + 1) ≡ true
    → strlen content ≡ some n
    → nodes (take n content) ≡ some ns
    → parse_youtube_search_result_page a nodes content s
      ≡ nodes_loop a ns no_results (with_objects s)
unfolding parse_youtube_search_result_page parse_collection create_object allocate
parse-nodes a nodes content n ns s gives gives' gives'' ends found =
    rw (gives, gives', ends, found, gives'') refl

-- Where realloc succeeds and the three objects of myhtml are given, whatever malloc answers to the
-- other calls, parsing a page that is a string with a collection of links and then destroying the
-- results returns. Exactly the three objects of myhtml are live in addition to the blocks of before.
pub destroy-parse :
    (a : Allocator) (nodes : Bytes → Option (List Link)) (content : Bytes) (n : ℕ) (ns : List Link)
    (s : Memory)
    → ((k : ℕ) → a.reallocs k ≡ true)
    → a.mallocs s.next ≡ true
    → a.mallocs (s.next + 1) ≡ true
    → a.mallocs (s.next + 1 + 1) ≡ true
    → strlen content ≡ some n
    → nodes (take n content) ≡ some ns
    → (t : Memory) × ((parse_youtube_search_result_page a nodes content >>= λ r.
            youtube_destroy_search_results r.array r.items)
          s
        ≡ done tt t)
      × ((x : ℕ) → t.live x ≡ s.live x + one s.next x + one (s.next + 1) x + one (s.next + 1 + 1) x)
destroy-parse a nodes content n ns s gives first second third ends found =
    let (u, t, e, h) =
      Ends-done (λ u. Holds (with_objects s).live)
        ((nodes_loop a ns no_results >>= destroy) (with_objects s)) ended in
    (
      t,
      ap (λ r. after r destroy) (parse-nodes a nodes content n ns s first second third ends found)
          ∙ e,
      λ x. h x ∙ with_objects-live s x,
    )
  where
    destroy : Results → Command (Unit {0})
    destroy r = youtube_destroy_search_results r.array r.items

    ended :
        Ends
          (λ u. Holds (with_objects s).live)
          ((nodes_loop a ns no_results >>= destroy) (with_objects s))
    ended =
        bind-Ends (λ r. Owns (with_objects s).live r) _
          (nodes_loop a ns no_results (with_objects s)) _
          (nodes_loop-Ends a gives (with_objects s).live ns no_results (with_objects s)
            ((λ x. omega arith), tt))
          (λ r t (h, c). destroy-Ends r.array r.items (with_objects s).live t c h)
