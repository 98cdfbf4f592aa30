-- ===== src/Torznab/Category.antt =====
-- internal/torznab/category.go: the two categories and the `cat` filter.
pub mod Selects
use anilibria_torznab.Prelude.{
  ℕ, Bool, true, false, ◌||◌, Option, none, some, List, [], ◌∷◌, ◌==◌, if◌then◌else◌,
}
use anilibria_torznab.Text.{
  Bytes, codes, same, has_prefix, split, all_bytes, is_digit, is_empty, trim_space, trim_zeros,
}
use anilibria_torznab.Torznab.Parameter.{Parameter}

-- `ReleaseType`; `unknown` is any other string.
pub data ReleaseType : Type 0 where
  tv ona web ova oad movie dorama special unknown : ReleaseType

-- `ReleaseType.known` of title.go
unfoldable pub known : ReleaseType → Bool
known unknown = false
known _ = true

-- `Category`: `CategoryTV` and `CategoryAnime`
pub data Category : Type 0 where
  category_tv category_anime : Category

-- `CategoryFor`
unfoldable pub category_for : ReleaseType → Option Category
unfolding known
category_for dorama = some category_tv
category_for t = if known t then some category_anime else none

pub record CategoryFilter : Type 0 where
  pub all : Bool
  pub tv : Bool
  pub anime : Bool
  pub present : Bool

-- `positiveDecimal`
unfoldable pub positive_decimal : Bytes → Option Bytes
positive_decimal raw =
    if all_bytes is_digit raw
    then (let normalized = trim_zeros raw in if is_empty normalized then none else some normalized)
    else none

-- The `switch` on the id, in the loop of `ParseCategoryFilter`
unfoldable pub add_id : Bytes → CategoryFilter → CategoryFilter
add_id id f =
    if same id (codes "5000")
    then record f { tv = true }
    else if same id (codes "5070")
    then record f { anime = true }
    else f

-- One part of the list; `none` is its error.
unfoldable pub parse_part : Bytes → Option Bytes
unfolding positive_decimal
parse_part raw =
    let part = trim_space raw in
    if is_empty part || has_prefix part (codes "+") || has_prefix part (codes "-")
    then none
    else positive_decimal part

unfoldable pub parse_parts : List Bytes → CategoryFilter → Option CategoryFilter
unfolding parse_part add_id
parse_parts [] f = some f
parse_parts (raw ∷ parts) f = elim (parse_part raw) [
  | none ↦ none
  | some id ↦ parse_parts parts (add_id id f)
]

-- `ParseCategoryFilter`; `none` is its error, which names the parameter `cat`.
unfoldable pub parse_category_filter : Option Bytes → Option CategoryFilter
unfolding parse_parts
parse_category_filter none =
    some (record { all = true; tv = false; anime = false; present = false })
parse_category_filter (some raw) =
    parse_parts (split b',' raw) (record { all = false; tv = false; anime = false; present = true })

-- `CategoryFilter.Matches`
unfoldable pub matches : CategoryFilter → Category → Bool
matches f c = if f.all then true else by_category c
  where
    by_category : Category → Bool
    by_category category_tv = f.tv
    by_category category_anime = f.tv || f.anime
