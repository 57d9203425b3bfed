-- ===== src/Params/Limits.antt =====
-- pkg/params/params.go: the bounds of the limit.
use riposo.Prelude.{ℕ, ◌≤◌, ◌≡◌, arith, Text}
use riposo.Params.{ℤ, pos, not_negative, parse_limit}

-- Where there is a greatest limit, the limit is between 1 and that, whatever the text, and a limit
-- within these bounds is the text's number.
pub parse_limit_bounds :
    (atoi : Text → ℤ) (s : Text) (max : ℕ)
    → 1 ≤ max
    → (1 ≤ parse_limit atoi s (pos max))
      × (parse_limit atoi s (pos max) ≤ max)
      × ((n : ℕ) → atoi s ≡ pos n → 1 ≤ n → n ≤ max → parse_limit atoi s (pos max) ≡ n)
unfolding parse_limit not_negative
parse_limit_bounds atoi s max h = (ground arith, ground arith, λ n e low high. ground arith)
