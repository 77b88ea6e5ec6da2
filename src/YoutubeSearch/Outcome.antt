-- ===== src/YoutubeSearch/Outcome.antt =====
-- What becomes of a search of ytsearch.c: the buffer of the URL has no room for its end.
use code_samples.Base.{
  ℕ, ◌+◌, ◌≡◌, ◌≢◌, ◌⊎◌, refl, false, inl, inr, Option, none, some, List, [], ◌∷◌, ◌++◌, Bytes,
  length, length-append, leb, arith,
}
use code_samples.YoutubeSearch.Memory.{
  Allocator, Memory, Block, Run, done, fault, free, malloc, sprintf, Leads, bind-Leads, any-Leads,
}
use code_samples.YoutubeSearch.Request.{
  base_search_url, modified_query, with_copy, with_result, create_search_request_url,
}
use code_samples.YoutubeSearch.Page.{Results}
use code_samples.YoutubeSearch.Search.{Web, with_url, youtube_search, show_results, main}

length-modified_query : (query : Bytes) → length (modified_query query) ≡ length query
unfolding modified_query
length-modified_query [] = refl
length-modified_query (c ∷ cs) = let rest = length-modified_query cs in omega (arith, rest)

abbrev IsNone : {A : Type 0} → Option A → Type 0
IsNone none = Unit {0}
IsNone (some a) = ⊥

module _ (a : Allocator) where
  with_copy-Leads :
      (result : ℕ) (query : Bytes) (copy : Option ℕ) (s : Memory)
      → Leads IsNone (with_copy a result query copy s)
  unfolding with_copy sprintf
  with_copy-Leads result query none s =
      bind-Leads (λ u. Unit {0}) IsNone (free result s) _ (any-Leads (free result s)) (λ u t h. tt)
  with_copy-Leads result query (some copy) s =
      let more = length-append base_search_url (modified_query query) in
      let same = length-modified_query query in
      let full : leb (length (base_search_url ++ modified_query query) + 1)
            (length base_search_url + length query)
          ≡ false =
        ground (arith, more, same) in
      rw full tt

  url-Leads : (query : Bytes) (s : Memory) → Leads IsNone (create_search_request_url a query s)
  unfolding create_search_request_url with_result
  url-Leads query s =
      bind-Leads (λ i. Unit {0}) IsNone (malloc a s) _ (any-Leads (malloc a s))
        (λ i t h. resulted i t)
    where
      resulted : (i : Option ℕ) (t : Memory) → Leads IsNone (with_result a query i t)
      resulted none t = unfold with_result in tt
      resulted (some i) t =
          unfold with_result in
          (bind-Leads (λ j. Unit {0}) IsNone (malloc a t) _ (any-Leads (malloc a t))
            (λ j u h. with_copy-Leads i query j u))

  search-Leads :
      (web : Web) (query : Bytes) (s : Memory) → Leads IsNone (youtube_search a web query s)
  unfolding youtube_search with_url
  search-Leads web query s =
      bind-Leads IsNone IsNone (create_search_request_url a query s) _ (url-Leads query s) searched
    where
      searched :
          (url : Option Block) (t : Memory) → IsNone url → Leads IsNone (with_url a web url t)
      searched none t h = unfold with_url in tt
      searched (some b) t h = absurd h

-- A run with no result at all is a fault.
Leads-fault : {A : Type 0} (r : Run A) → Leads (λ a. ⊥) r → (s : Memory) × (r ≡ fault s)
Leads-fault (done a s) h = absurd h
Leads-fault (fault s) h = (s, refl)

-- With one argument `main` never gets through: whatever libcurl, myhtml and the memory do, the end of
-- the URL is written behind its buffer, or the search fails and variables that it has not set are
-- read. With any other number of arguments it returns 1.
pub main-fault :
    (a : Allocator) (web : Web) (args : List Bytes) (s : Memory)
    → ((t : Memory) × (main a web args s ≡ fault t) × (length args ≡ 1))
      ⊎ ((main a web args s ≡ done 1 s) × (length args ≢ 1))
unfolding main show_results
main-fault a web [] s = inr (refl, λ e. absurd (omega (arith, e)))
main-fault a web (query ∷ []) s =
    let (t, e) = Leads-fault (main a web (query ∷ []) s) (
      bind-Leads IsNone (λ c. ⊥) (youtube_search a web query s) _ (search-Leads a web query s)
        shown) in
    inl (t, e, refl)
  where
    shown : (r : Option Results) (t : Memory) → IsNone r → Leads (λ c. ⊥) (show_results a web r t)
    shown none t h = unfold show_results in tt
    shown (some r) t h = absurd h
main-fault a web (query ∷ other ∷ others) s = inr (refl, λ e. absurd (omega (arith, e)))
