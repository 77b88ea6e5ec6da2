-- ===== src/YoutubeSearch/Selection/Pages.antt =====
-- The links of a whole page in ytsearch.c.
use code_samples.Base.{
  ℕ, ◌+◌, ◌≡◌, refl, true, Option, none, some, List, [], ◌∷◌, ◌++◌, append_assoc, append-nil, Bytes,
  codes, take, All, arith, sym, ap, ◌∙◌,
}
use code_samples.YoutubeSearch.Memory.{
  Allocator, Memory, Run, done, fault, strlen, Leads, bind-Leads,
}
use code_samples.YoutubeSearch.Page.{
  Link, nothing_found, Results, no_results, attributes_loop, nodes_loop,
  parse_youtube_search_result_page,
}
use code_samples.YoutubeSearch.Ownership.{Ends}
use code_samples.YoutubeSearch.Ownership.Items.{Owns}
use code_samples.YoutubeSearch.Ownership.Release.{nodes_loop-Ends, parse-nodes, with_objects}
use code_samples.YoutubeSearch.Selection.{views, value_of, describe, item_list, selection, IsSimple}
use code_samples.YoutubeSearch.Selection.Attributes.{attributes_loop-Gains}

weaken-Leads :
    {A : Type 0} (Q R : A → Type 0) (r : Run A) → Leads Q r → ((a : A) → Q a → R a) → Leads R r
weaken-Leads Q R (done a s) leads implies = implies a leads
weaken-Leads Q R (fault s) leads implies = tt

nodes_loop-selection :
    (a : Allocator)
    → ((n : ℕ) → a.mallocs n ≡ true)
    → ((n : ℕ) → a.reallocs n ≡ true)
    → (ns : List Link) (r : Results) (s : Memory) → All IsSimple ns
    → Leads (λ r'. views r'.items ≡ views r.items ++ selection ns) (nodes_loop a ns r s)
unfolding nodes_loop selection
nodes_loop-selection a mallocs reallocs [] r s simple = sym (append-nil (views r.items))
nodes_loop-selection a mallocs reallocs (n ∷ ns) r s ((once, once'), simple) =
    let found = item_list (describe (value_of (codes "href") n) (value_of (codes "title") n)) in
    bind-Leads (λ r'. views r'.items ≡ views r.items ++ found)
      (λ r'. views r'.items ≡ views r.items ++ (found ++ selection ns))
      (attributes_loop a n nothing_found r s) _
      (attributes_loop-Gains a mallocs reallocs n none none r s tt once once')
      (λ r' t gained.
        weaken-Leads (λ r''. views r''.items ≡ views r'.items ++ selection ns) _
          (nodes_loop a ns r' t) (nodes_loop-selection a mallocs reallocs ns r' t simple)
          (λ r'' e.
            e
            ∙ ap (λ x. x ++ selection ns) gained
            ∙ append_assoc (views r.items) found (selection ns)))

-- A run that returns, with what holds of its result if it returns.
both :
    {A : Type 0} (Q : A → Memory → Type 0) (P : A → Type 0) (r : Run A)
    → Ends Q r
    → Leads P r
    → (a : A) × (t : Memory) × (r ≡ done a t) × P a
both Q P (done a t) ends leads = (a, t, refl, leads)
both Q P (fault t) ends leads = absurd ends

-- With memory for every call, parsing a page that is a string with a collection of links, none of
-- which gives an attribute twice, returns the items of the links that have an address of a known kind
-- and a title, in the order of the page.
pub parse-selection :
    (a : Allocator) (nodes : Bytes → Option (List Link)) (content : Bytes) (n : ℕ) (ns : List Link)
    (s : Memory)
    → ((k : ℕ) → a.mallocs k ≡ true)
    → ((k : ℕ) → a.reallocs k ≡ true)
    → strlen content ≡ some n
    → nodes (take n content) ≡ some ns
    → All IsSimple ns
    → (r : Results) × (t : Memory) × (parse_youtube_search_result_page a nodes content s ≡ done r t)
      × (views r.items ≡ selection ns)
parse-selection a nodes content n ns s mallocs reallocs ends found simple =
    let (r, t, e, same) =
      both (λ r. Owns (with_objects s).live r) (λ r. views r.items ≡ selection ns)
        (nodes_loop a ns no_results (with_objects s))
        (nodes_loop-Ends a reallocs (with_objects s).live ns no_results (with_objects s)
          ((λ x. omega arith), tt))
        (nodes_loop-selection a mallocs reallocs ns no_results (with_objects s) simple) in
    (
      r,
      t,
      parse-nodes a nodes content n ns s (mallocs s.next) (mallocs (s.next + 1))
            (mallocs (s.next + 1 + 1)) ends found
          ∙ e,
      same,
    )
