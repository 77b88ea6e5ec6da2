-- ===== src/YoutubeSearch/Address.antt =====
-- The addresses that youtube_get_absolute_address of ytsearch.c prints.
use code_samples.Base.{
  ℕ, ◌+◌, ◌≤◌, ◌≡◌, refl, Bool, true, false, Bool-cases, inl, inr, Option, none, some, ◌++◌, Bytes,
  length, length-append, leb, if◌then◌else◌, arith,
}
use code_samples.YoutubeSearch.Memory.{Allocator, Memory, Block, done, added, allocate, sprintf}
use code_samples.YoutubeSearch.Page.{Description}
use code_samples.YoutubeSearch.Search.{
  Web, youtube_base_url, youtube_base_url_length, printed, youtube_get_absolute_address,
}

-- The address with the site in front where it is relative.
abbrev pub absolute : Description → Bytes
absolute item =
    if item.is_relative_address then youtube_base_url ++ item.address.text else item.address.text

sprintf-fits :
    (size : ℕ) (text : Bytes) (s : Memory)
    → length text + 1 ≤ size
    → sprintf size text s ≡ done tt s
unfolding sprintf
sprintf-fits size text s fits =
    let fits' : leb (length text + 1) size ≡ true = ground arith in rw fits' refl

-- The text in a block, if there is one.
boxed : Bytes → Option ℕ → Option Block
boxed text none = none
boxed text (some id) = some (record { id = id; text = text })

module _ (a : Allocator) (web : Web) where
  printed-fits :
      (size : ℕ) (text : Bytes) (i : Option ℕ) (s : Memory)
      → length text + 1 ≤ size
      → printed a web size text i s ≡ done (boxed text i) s
  unfolding printed boxed
  printed-fits size text none s fits = refl
  printed-fits size text (some id) s fits = rw (sprintf-fits size text s fits) refl

  -- Both sizes leave room for the end.
  chosen-fits :
      (relative : Bool) (address : Bytes) (i : Option ℕ) (s : Memory)
      → (if relative
            then printed a web
                (youtube_base_url_length + length address + 1)
                (youtube_base_url ++ address)
                i
            else printed a web (length address + 1) address i)
          s
        ≡ done (boxed (if relative then youtube_base_url ++ address else address) i) s
  chosen-fits true address i s =
      let more = length-append youtube_base_url address in
      printed-fits (youtube_base_url_length + length address + 1) (youtube_base_url ++ address) i s
        (omega (arith, more))
  chosen-fits false address i s = printed-fits (length address + 1) address i s (omega arith)

-- Where the memory is there, youtube_get_absolute_address gives a fresh block with the absolute address
-- of a description, which fits into the block with its end; otherwise it gives none.
pub youtube_get_absolute_address-absolute :
    (a : Allocator) (web : Web) (item : Description) (s : Memory)
    → youtube_get_absolute_address a web (some item) s ≡ (
        if a.mallocs s.next
        then done
            (some (record { id = s.next; text = absolute item }))
            (record { next = s.next + 1; live = added s.next s.live })
        else done none (record s { next = s.next + 1 }))
unfolding youtube_get_absolute_address allocate boxed
youtube_get_absolute_address-absolute a web item s = elim (Bool-cases (a.mallocs s.next)) [
  | inl fresh ↦ rw fresh (
      chosen-fits a web item.is_relative_address item.address.text (some s.next)
        (record { next = s.next + 1; live = added s.next s.live }))
  | inr full ↦ rw full (
      chosen-fits a web item.is_relative_address item.address.text none
        (record s { next = s.next + 1 }))
]
