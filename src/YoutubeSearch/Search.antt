-- ===== src/YoutubeSearch/Search.antt =====
-- youtube_search, youtube_destroy_search_results, youtube_get_absolute_address and main of
-- ytsearch.c. What libcurl and myhtml give is the record `Web`.
use code_samples.Base.{
  ℕ, ◌+◌, Option, none, some, List, [], ◌∷◌, ◌++◌, if◌then◌else◌, Bytes, codes, length,
}
use code_samples.YoutubeSearch.Memory.{
  Allocator, Block, fault, Command, pure, ◌>>=◌, ◌>>◌, free, free_if, malloc, sprintf,
}
use code_samples.YoutubeSearch.Request.{Transfer, create_search_request_url, http_get}
use code_samples.YoutubeSearch.Page.{Description, Link, Results, parse_youtube_search_result_page}

pub record Web : Type 0 where
  pub fetch : Bytes → Option Transfer
  pub nodes : Bytes → Option (List Link)

abbrev pub youtube_base_url : Bytes
youtube_base_url = codes "https://www.youtube.com"

abbrev pub youtube_base_url_length : ℕ
youtube_base_url_length = 23

unfoldable pub destroy_items : List (Option Description) → Command (Unit {0})
destroy_items [] = pure tt
destroy_items (none ∷ items) = fault
destroy_items (some item ∷ items) = do
  free item.title.id
  free item.address.id
  free item.id
  destroy_items items

unfoldable pub youtube_destroy_search_results :
    Option ℕ → List (Option Description) → Command (Unit {0})
unfolding destroy_items
youtube_destroy_search_results none items = pure tt
youtube_destroy_search_results (some array) items = do destroy_items items; free array

module _ (a : Allocator) (web : Web) where
  -- No results are an error; the two output variables stay as they were.
  unfoldable pub with_page : Option Block → Command (Option Results)
  with_page none = pure none
  with_page (some page) = do
    results ← parse_youtube_search_result_page a web.nodes page.text
    free page.id
    pure (some results)

  unfoldable pub with_url : Option Block → Command (Option Results)
  unfolding with_page
  with_url none = pure none
  with_url (some url) = do
    page ← http_get a (web.fetch url.text)
    result ← with_page page
    free url.id
    pure result

  unfoldable pub youtube_search : Bytes → Command (Option Results)
  unfolding with_url
  youtube_search query = do url ← create_search_request_url a query; with_url url

  -- The text in a block of the size, if there is one.
  unfoldable pub printed : (size : ℕ) → Bytes → Option ℕ → Command (Option Block)
  printed size text none = pure none
  printed size text (some id) = do sprintf size text; pure (some (record { id = id; text = text }))

  -- For a null pointer the result is not initialised.
  unfoldable pub youtube_get_absolute_address : Option Description → Command (Option Block)
  unfolding printed
  youtube_get_absolute_address none = fault
  youtube_get_absolute_address (some item) = do
    id ← malloc a
    if item.is_relative_address
        then printed (youtube_base_url_length + length item.address.text + 1)
            (youtube_base_url ++ item.address.text) id
        else printed (length item.address.text + 1) item.address.text id

  -- An address that was not allocated is printed as the C library prints it, and not freed.
  unfoldable pub print_items : List (Option Description) → Command (Unit {0})
  unfolding youtube_get_absolute_address
  print_items [] = pure tt
  print_items (none ∷ items) = fault
  print_items (some item ∷ items) = do
    url ← youtube_get_absolute_address (some item)
    free_if (elim url [ none ↦ none | some b ↦ some b.id ])
    print_items items

  -- Without an array the items are read through a null pointer.
  unfoldable pub print_results : Option ℕ → List (Option Description) → Command (Unit {0})
  unfolding print_items
  print_results (some array) items = print_items items
  print_results none [] = pure tt
  print_results none (item ∷ items) = fault

  -- After an error the two variables are not initialised.
  unfoldable pub show_results : Option Results → Command ℕ
  unfolding print_results youtube_destroy_search_results
  show_results none = fault
  show_results (some r) = do
    print_results r.array r.items
    youtube_destroy_search_results r.array r.items
    pure 0

  -- The arguments behind the program's name.
  unfoldable pub main : List Bytes → Command ℕ
  unfolding youtube_search show_results
  main [] = pure 1
  main (query ∷ []) = do results ← youtube_search query; show_results results
  main (query ∷ other ∷ others) = pure 1
