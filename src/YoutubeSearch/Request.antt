-- ===== src/YoutubeSearch/Request.antt =====
-- create_search_request_url, curl_write_function_cb and http_get of ytsearch.c. What libcurl
-- delivers is an argument.
use code_samples.Base.{
  ℕ, ◌+◌, ◌==◌, Bool, Option, none, some, List, [], ◌∷◌, ◌++◌, if◌then◌else◌, Bytes, codes, length,
  take,
}
use code_samples.YoutubeSearch.Memory.{
  Allocator, Block, fault, Command, pure, ◌>>=◌, ◌>>◌, free, free_if, malloc, realloc, sprintf,
  strlen,
}

abbrev pub base_search_url : Bytes
base_search_url = codes "https://www.youtube.com/results?search_query="

-- A blank becomes a plus sign.
unfoldable pub modified_query : Bytes → Bytes
modified_query [] = []
modified_query (c ∷ cs) = (if c == 32 then 43 else c) ∷ modified_query cs

-- What `curl_easy_init` and `curl_easy_perform` do: no handle, or the pieces that the callback gets
-- and whether the code is CURLE_OK.
pub record Transfer : Type 0 where
  pub pieces : List Bytes
  pub succeeds : Bool

module _ (a : Allocator) where
  -- The query is copied, so that the copy can be changed.
  unfoldable pub with_copy : (result : ℕ) → Bytes → Option ℕ → Command (Option Block)
  with_copy result query none = do free result; pure none
  with_copy result query (some copy) = do
    sprintf (length base_search_url + length query) (base_search_url ++ modified_query query)
    free copy
    pure (some (record { id = result; text = base_search_url ++ modified_query query }))

  unfoldable pub with_result : Bytes → Option ℕ → Command (Option Block)
  unfolding with_copy
  with_result query none = pure none
  with_result query (some result) = do copy ← malloc a; with_copy result query copy

  unfoldable pub create_search_request_url : Bytes → Command (Option Block)
  unfolding with_result
  create_search_request_url query = do result ← malloc a; with_result query result

  -- The content so far has to end in a zero for strlen.
  unfoldable pub original_length : Option Block → Command ℕ
  original_length none = pure 0
  original_length (some b) = elim (strlen b.text) [ none ↦ fault | some n ↦ pure n ]

  -- Where realloc fails, the content is lost.
  unfoldable pub curl_write_function_cb : Bytes → Option Block → Command (Option Block)
  unfolding original_length
  curl_write_function_cb piece content = do
    n ← original_length content
    block ← realloc a (elim content [ none ↦ none | some b ↦ some b.id ])
    pure (elim block as (λ x. Option Block) [
      | none ↦ none
      | some i ↦
          some (record {
            id = i;
            text = take n (elim content [ none ↦ [] | some b ↦ b.text ]) ++ piece;
          })
    ])

  unfoldable pub receive : List Bytes → Option Block → Command (Option Block)
  unfolding curl_write_function_cb
  receive [] content = pure content
  receive (p ∷ ps) content = do content' ← curl_write_function_cb p content; receive ps content'

  unfoldable pub http_get : Option Transfer → Command (Option Block)
  unfolding receive
  http_get none = pure none
  http_get (some t) = do
    content ← receive t.pieces none
    if t.succeeds
        then pure content
        else do free_if (elim content [ none ↦ none | some b ↦ some b.id ]); pure none
