-- ===== src/YoutubeSearch/Examples.antt =====
-- The theorems on ytsearch.c at a page with a link to a video and one without a title.
use code_samples.Base.{
  ℕ, ◌+◌, ◌≡◌, ◌≢◌, ◌⊎◌, refl, true, Option, some, List, [], ◌∷◌, Bytes, codes, length, All, arith,
}
use code_samples.YoutubeSearch.Memory.{Allocator, Memory, done, fault, added, ◌>>=◌, strlen}
use code_samples.YoutubeSearch.Page.{
  Attribute, Link, Description, watch, Results, find_media_item_result,
  parse_youtube_search_result_page,
}
use code_samples.YoutubeSearch.Search.{
  Web, youtube_destroy_search_results, youtube_get_absolute_address, main,
}
use code_samples.YoutubeSearch.Ownership.{one}
use code_samples.YoutubeSearch.Ownership.Release.{destroy-parse}
use code_samples.YoutubeSearch.Selection.{IsSimple, times, views, selection}
use code_samples.YoutubeSearch.Selection.Pages.{parse-selection}
use code_samples.YoutubeSearch.Address.{youtube_get_absolute_address-absolute}
use code_samples.YoutubeSearch.Outcome.{main-fault}

abbrev generous : Allocator
generous = record { mallocs = λ n. true; reallocs = λ n. true }

abbrev empty_memory : Memory
empty_memory = record { next = 0; live = λ x. 0 }

abbrev attribute : Bytes → Bytes → Attribute
attribute key value = record { key = some key; value = some value }

abbrev links : List Link
links =
    (attribute (codes "href") (codes "/watch?v=1") ∷ attribute (codes "title") (codes "One") ∷ [])
    ∷ (attribute (codes "href") (codes "/about") ∷ [])
    ∷ []

abbrev nodes : Bytes → Option (List Link)
nodes page = some links

abbrev page : Bytes
page = 60 ∷ 97 ∷ 0 ∷ []

page_end : strlen page ≡ some 2
unfolding strlen
page_end = refl

abbrev web : Web
web = record { fetch = λ url. some (record { pieces = page ∷ []; succeeds = true }); nodes = nodes }

find_media_item_result_run :
    find_media_item_result (codes "<p><a class=yt-uix-tile-address>") ≡ some 3
unfolding find_media_item_result
find_media_item_result_run = refl

destroy-parse_example :
    (t : Memory) × ((parse_youtube_search_result_page generous nodes page >>= λ r.
    youtube_destroy_search_results r.array r.items)
        empty_memory
      ≡ done tt t)
    × ((x : ℕ) → t.live x ≡ 0 + one 0 x + one 1 x + one 2 x)
destroy-parse_example =
    destroy-parse generous nodes page 2 links empty_memory (λ k. refl) refl refl refl page_end refl

links-IsSimple : All IsSimple links
unfolding times
links-IsSimple = ((omega arith, omega arith), ((omega arith, omega arith), tt))

parse-selection_example :
    (r : Results) × (t : Memory) × (parse_youtube_search_result_page generous nodes page
        empty_memory
      ≡ done r t)
    × (views r.items ≡ selection links)
parse-selection_example =
    parse-selection generous nodes page 2 links empty_memory (λ k. refl) (λ k. refl) page_end refl
      links-IsSimple

abbrev video : Description
video = record {
  id = 0;
  type = watch;
  title = record { id = 1; text = codes "One" };
  address = record { id = 2; text = codes "/watch?v=1" };
  is_relative_address = true;
}

youtube_get_absolute_address-absolute_example :
    youtube_get_absolute_address generous web (some video) empty_memory
    ≡ done
        (some (record { id = 0; text = codes "https://www.youtube.com/watch?v=1" }))
        (record { next = 1; live = added 0 (λ x. 0) })
youtube_get_absolute_address-absolute_example =
    youtube_get_absolute_address-absolute generous web video empty_memory

main-fault_example :
    ((t : Memory) × (main generous web (codes "cats" ∷ []) empty_memory ≡ fault t)
      × (length (codes "cats" ∷ []) ≡ 1))
    ⊎ ((main generous web (codes "cats" ∷ []) empty_memory ≡ done 1 empty_memory)
        × (length (codes "cats" ∷ []) ≢ 1))
main-fault_example = main-fault generous web (codes "cats" ∷ []) empty_memory
