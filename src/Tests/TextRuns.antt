-- ===== src/Tests/TextRuns.antt =====
-- Parameters, numbers and categories on small inputs.
use anilibria_torznab.Prelude.{◌≡◌, refl, true, false, none, some, [], ◌∷◌, if◌then◌else◌}
use anilibria_torznab.Text.{codes, split}
use anilibria_torznab.Torznab.Category.{CategoryFilter, parse_category_filter}
use anilibria_torznab.Torznab.Category.Selects.{all_valid, lists_id, parse_category_filter_lem}
use anilibria_torznab.HttpApi.Values.{Values, single}
use anilibria_torznab.HttpApi.Numbers.{parse_limit}
use anilibria_torznab.HttpApi.Numbers.Bounds.{limit_spec, parse_limit_lem}
use anilibria_torznab.Torznab.Title.{
  TitleMetadata, roman_loop, roman_season, english_ordinal_suffix,
}

abbrev both_categories : CategoryFilter
both_categories = record { all = false; tv = true; anime = true; present = true }

parse_category_filter_lem_example : parse_category_filter (some (codes " 05070,5000")) ≡ (
    if all_valid (split b',' (codes " 05070,5000"))
    then some (record {
      all = false;
      tv = lists_id 5000 (split b',' (codes " 05070,5000"));
      anime = lists_id 5070 (split b',' (codes " 05070,5000"));
      present = true;
    })
    else none)
parse_category_filter_lem_example = parse_category_filter_lem (codes " 05070,5000")

abbrev values : Values
values = (codes "limit", codes "0099" ∷ []) ∷ (codes "offset", codes "7" ∷ []) ∷ []

parse_limit_lem_example : parse_limit values ≡ limit_spec (single values (codes "limit"))
parse_limit_lem_example = parse_limit_lem values

abbrev second_season : TitleMetadata
second_season = record {
  season = some 2;
  episodes = some (record { start = 1; end = 12 });
  title = codes "T";
}

roman_season_14 : roman_season (codes "XIV") ≡ some 14
unfolding roman_season roman_loop
roman_season_14 = refl

english_ordinal_suffix_112 : english_ordinal_suffix 112 ≡ codes "th"
unfolding english_ordinal_suffix
english_ordinal_suffix_112 = refl
