-- ===== src/Search/Tests.antt =====
-- The theorems on searches at one of three matches.
use aku.Base.{if◌then◌else◌, str_eq, String, some}
use aku.Search.{SearchState, search, Compiled, expression, refused}

abbrev last_of_three : SearchState String
last_of_three = record {
  pattern = "error";
  mode = search;
  re = some "(?i)error";
  match_count = 3;
  current_idx = 2;
}

-- An engine that refuses an open bracket.
abbrev regexp : String → Compiled String String
regexp text = if str_eq text "(?i)[" then refused "missing closing ]" else expression text
