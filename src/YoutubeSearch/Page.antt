-- ===== src/YoutubeSearch/Page.antt =====
-- find_media_item_result, youtube_media_description_create and parse_youtube_search_result_page of
-- ytsearch.c. The nodes that myhtml finds in a page are an argument.
use code_samples.Base.{
  ℕ, zero, suc, ◌==◌, Bool, true, false, not, ◌&&◌, Option, none, some, List, [], ◌∷◌, ◌++◌, map,
  ltb, if◌then◌else◌, Bytes, codes, take,
}
use code_samples.YoutubeSearch.Memory.{
  Allocator, Block, fault, Command, pure, ◌>>=◌, ◌>>◌, free, malloc, realloc, strlen,
}

-- `strcmp`, for equality.
unfoldable pub equal_text : Bytes → Bytes → Bool
equal_text [] [] = true
equal_text [] (d ∷ ds) = false
equal_text (c ∷ cs) [] = false
equal_text (c ∷ cs) (d ∷ ds) = c == d && equal_text cs ds

unfoldable pub starts_with : (prefix text : Bytes) → Bool
starts_with [] text = true
starts_with (p ∷ ps) [] = false
starts_with (p ∷ ps) (c ∷ cs) = p == c && starts_with ps cs

-- `strstr`: the offset of the first occurrence.
unfoldable pub find : (text needle : Bytes) → Option ℕ
unfolding starts_with
find [] needle = if starts_with needle [] then some 0 else none
find (c ∷ cs) needle =
    let rest = find cs needle in
    if starts_with needle (c ∷ cs)
    then some 0
    else elim rest [ none ↦ none | some n ↦ some (suc n) ]

abbrev pub contains : (text needle : Bytes) → Bool
contains text needle = elim (find text needle) [ none ↦ false | some n ↦ true ]

-- The offsets are from the link on; a null pointer is below every other.
abbrev is_tile : Option ℕ → Option ℕ → Bool
is_tile none tag_end = false
is_tile (some target_type) none = false
is_tile (some target_type) (some tag_end) = not (ltb tag_end target_type)

unfoldable skip : ℕ → Bytes → Bytes
skip zero cs = cs
skip (suc n) [] = []
skip (suc n) (c ∷ cs) = skip n cs

unfoldable pub find_media_item_result : Bytes → Option ℕ
unfolding find skip
find_media_item_result content = elim (find content (codes "<a")) [
  | none ↦ none
  | some result ↦
      let link = skip result content in
      if is_tile (find link (codes "yt-uix-tile-address")) (find link (codes ">"))
      then some result
      else none
]

pub data MediaType : Type 0 where
  watch playlist channel : MediaType

unfoldable pub media_type : Bytes → Option MediaType
unfolding find
media_type address =
    if contains address (codes "/watch?")
    then some watch
    else if contains address (codes "/playlist?")
    then some playlist
    else if contains address (codes "/channel/")
    then some channel
    else none

pub record Description : Type 0 where
  pub id : ℕ
  pub type : MediaType
  pub title : Block
  pub address : Block
  pub is_relative_address : Bool

-- An attribute of a node, whose key or value may be missing.
pub record Attribute : Type 0 where
  pub key : Option Bytes
  pub value : Option Bytes

abbrev pub Link : Type 0
Link = List Attribute

-- The pointers found in a node so far.
pub record Found : Type 0 where
  pub href : Option Bytes
  pub title : Option Bytes

abbrev pub nothing_found : Found
nothing_found = record { href = none; title = none }

-- The array with its entries; an entry that nothing was written to is none.
pub record Results : Type 0 where
  pub array : Option ℕ
  pub items : List (Option Description)

abbrev pub no_results : Results
no_results = record { array = none; items = [] }

unfoldable pub note : (key value : Bytes) → Found → Found
unfolding equal_text
note key value f =
    if equal_text (codes "href") key
    then record f { href = some value }
    else if equal_text (codes "title") key
    then record f { title = some value }
    else f

module _ (a : Allocator) where
  unfoldable pub with_address :
      (id title_id : ℕ)
      → MediaType
      → (address title : Bytes) → Option ℕ
      → Command (Option Description)
  with_address id title_id type address title none = do free title_id; free id; pure none
  with_address id title_id type address title (some address_id) = pure (
      some (record {
        id = id;
        type = type;
        title = record { id = title_id; text = title };
        address = record { id = address_id; text = address };
        is_relative_address = not (contains address (codes "youtube.com"));
      }))

  unfoldable pub with_title :
      (id : ℕ) → MediaType → (address title : Bytes) → Option ℕ → Command (Option Description)
  unfolding with_address
  with_title id type address title none = do free id; pure none
  with_title id type address title (some title_id) = do
    address_id ← malloc a
    with_address id title_id type address title address_id

  unfoldable pub with_description :
      MediaType → (address title : Bytes) → Option ℕ → Command (Option Description)
  unfolding with_title
  with_description type address title none = pure none
  with_description type address title (some id) = do
    title_id ← malloc a
    with_title id type address title title_id

  unfoldable pub create_of_type :
      (address title : Bytes) → Option MediaType → Command (Option Description)
  unfolding with_description
  create_of_type address title none = pure none
  create_of_type address title (some type) = do
    id ← malloc a
    with_description type address title id

  unfoldable pub youtube_media_description_create :
      (address title : Bytes) → Command (Option Description)
  unfolding create_of_type media_type
  youtube_media_description_create address title = create_of_type address title (media_type address)

  -- Where realloc fails, the array is lost and the count stays.
  unfoldable pub with_space : Description → Results → Option ℕ → Command Results
  with_space item r none = do
    free item.id
    pure (record { array = none; items = map (λ (x : Option Description). none) r.items })
  with_space item r (some array) =
      pure (record { array = some array; items = r.items ++ some item ∷ [] })

  unfoldable pub append : Results → Option Description → Command Results
  unfolding with_space
  append r none = pure r
  append r (some item) = do space ← realloc a r.array; with_space item r space

  -- With both at hand the other attributes are not looked at.
  unfoldable pub when_found :
      Results → (href title : Option Bytes) → Command Results → Command Results
  unfolding youtube_media_description_create append
  when_found r (some href) (some title) rest = do
    item ← youtube_media_description_create href title
    append r item
  when_found r (some href) none rest = rest
  when_found r none title rest = rest

  unfoldable pub attribute_step :
      Found → Results → (key value : Option Bytes) → (Found → Command Results) → Command Results
  unfolding when_found note
  attribute_step f r none value rest = rest f
  attribute_step f r (some key) none rest = rest f
  attribute_step f r (some key) (some value) rest =
      when_found r (note key value f).href (note key value f).title (rest (note key value f))

  unfoldable pub attributes_loop : Link → Found → Results → Command Results
  unfolding attribute_step
  attributes_loop [] f r = pure r
  attributes_loop (b ∷ bs) f r = attribute_step f r b.key b.value (λ f'. attributes_loop bs f' r)

  unfoldable pub nodes_loop : List Link → Results → Command Results
  unfolding attributes_loop
  nodes_loop [] r = pure r
  nodes_loop (n ∷ ns) r = do r' ← attributes_loop n nothing_found r; nodes_loop ns r'

  -- An object of the library is one block of the memory; the library reads through the pointer.
  unfoldable pub create_object : Command (Unit {0})
  create_object = do object ← malloc a; elim object [ none ↦ fault | some i ↦ pure tt ]

  unfoldable pub parse_collection : Option (List Link) → Command Results
  unfolding create_object nodes_loop
  parse_collection none = fault
  parse_collection (some ns) = do create_object; nodes_loop ns no_results

  -- The library's object, then the tree, then the collection. The content has to be a string; where
  -- the collection is missing, a null pointer is read. None of the three is destroyed.
  unfoldable pub parse_youtube_search_result_page :
      (nodes : Bytes → Option (List Link)) → Bytes → Command Results
  unfolding create_object parse_collection
  parse_youtube_search_result_page nodes content = do
    create_object
    create_object
    elim (strlen content) [ none ↦ fault | some n ↦ parse_collection (nodes (take n content)) ]
