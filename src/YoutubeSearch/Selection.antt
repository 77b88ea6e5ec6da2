-- ===== src/YoutubeSearch/Selection.antt =====
-- The results that parse_youtube_search_result_page of ytsearch.c gives, against a selection of the
-- links by their attributes.
pub mod Append
pub mod Attributes
pub mod Pages
use code_samples.Base.{
  ℕ, zero, suc, ◌+◌, ◌≤◌, ◌==◌, ◌≡◌, refl, Bool, true, false, Bool-cases, inl, inr, not, ◌&&◌,
  Option, none, some, List, [], ◌∷◌, ◌++◌, append_assoc, append-nil, Bytes, codes, take,
  if◌then◌else◌, All, arith, eq_of_test, sym, ap, ◌∙◌,
}
use code_samples.YoutubeSearch.Memory.{
  Allocator, Memory, Block, Run, done, fault, Command, allocate, malloc, realloc, free_if, strlen,
  ◌>>=◌, Leads, bind-Leads, any-Leads,
}
use code_samples.YoutubeSearch.Page.{
  equal_text, contains, MediaType, media_type, Description, Attribute, Link, Found, nothing_found,
  Results, no_results, note, with_address, with_title, with_description, create_of_type,
  youtube_media_description_create, with_space, append, when_found, attribute_step, attributes_loop,
  nodes_loop, parse_youtube_search_result_page,
}

-- A description without its memory.
pub record Item : Type 0 where
  pub type : MediaType
  pub title : Bytes
  pub address : Bytes
  pub is_relative_address : Bool

abbrev pub view : Description → Item
view d = record {
  type = d.type;
  title = d.title.text;
  address = d.address.text;
  is_relative_address = d.is_relative_address;
}

abbrev pub views : List (Option Description) → List (Option Item)
views [] = []
views (none ∷ ds) = none ∷ views ds
views (some d ∷ ds) = some (view d) ∷ views ds

-- Whether an attribute has a key, and a value.
abbrev pub is_value : Bytes → Option Bytes → Option Bytes → Bool
is_value name none value = false
is_value name (some key) none = false
is_value name (some key) (some value) = equal_text name key

-- The value of the first attribute with a key, and how many there are.
unfoldable pub value_of : Bytes → Link → Option Bytes
unfolding equal_text
value_of name [] = none
value_of name (b ∷ bs) = if is_value name b.key b.value then b.value else value_of name bs

unfoldable pub times : Bytes → Link → ℕ
unfolding equal_text
times name [] = 0
times name (b ∷ bs) =
    let rest = times name bs in if is_value name b.key b.value then suc rest else rest

-- A link of a known kind with an address and a title.
abbrev pub item_of : (address title : Bytes) → Option MediaType → Option Item
item_of address title none = none
item_of address title (some type) = some (record {
  type = type;
  title = title;
  address = address;
  is_relative_address = not (contains address (codes "youtube.com"));
})

abbrev pub describe : (href title : Option Bytes) → Option Item
describe (some href) (some title) = item_of href title (media_type href)
describe (some href) none = none
describe none title = none

abbrev pub item_list : Option Item → List (Option Item)
item_list none = []
item_list (some i) = some i ∷ []

unfoldable pub selection : List Link → List (Option Item)
unfolding value_of
selection [] = []
selection (n ∷ ns) =
    item_list (describe (value_of (codes "href") n) (value_of (codes "title") n)) ++ selection ns

-- No attribute is given twice.
abbrev pub IsSimple : Link → Type 0
IsSimple n = (times (codes "href") n ≤ 1) × (times (codes "title") n ≤ 1)
