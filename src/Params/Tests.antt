-- ===== src/Params/Tests.antt =====
-- pkg/params: runs.
use riposo.Prelude.{◌≡◌, refl, Text, bytes, has_prefix}
use riposo.Params.{
  ℤ, pos, negsuc, not_negative, parse_limit, operator_contains_any, prefix_map, find_prefix,
}

-- A number that no limit can be.
abbrev atoi : Text → ℤ
atoi s = negsuc 4

no_number : parse_limit atoi (bytes "-5") (pos 100) ≡ 100
unfolding parse_limit not_negative
no_number = refl

longest_first :
    find_prefix prefix_map (bytes "contains_any_tags") ≡ (operator_contains_any, bytes "tags")
unfolding find_prefix prefix_map has_prefix
longest_first = refl
