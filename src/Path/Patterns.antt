-- ===== src/Path/Patterns.antt =====
-- pkg/riposo/path.go: `Match` against its reading as "the last pattern that matches decides".
use mathlib.Core.Option
use riposo.Prelude.{
  ◌≡◌, refl, Bool, true, false, not, Option, none, some, List, [], ◌∷◌, arith, if◌then◌else◌, drop,
  Text, bytes, has_prefix,
}
use riposo.Path.{match, match_step, match_from, same}

-- A pattern without a leading ! includes what it matches.
abbrev pub includes : Text → Bool
includes pat = not (has_prefix pat (bytes "!"))

-- The pattern that is matched is what follows the !.
abbrev pub bare : Text → Text
bare pat = if includes pat then pat else drop 1 pat

module _ (path_match : Text → Text → Bool) where
  -- What the last of the patterns that match says.
  pub decision : List Text → Text → Option Bool
  decision [] s = none
  decision (pat ∷ patterns) s = elim (decision patterns s) [
    | some b ↦ some b
    | none ↦ if path_match (bare pat) s then some (includes pat) else none
  ]

  -- The answer where no pattern matches: the opposite of what the first pattern says.
  pub default : List Text → Bool
  default [] = false
  default (pat ∷ patterns) = not (includes pat)

  later_step :
      (matched : Bool) (pat s : Text)
      → match_step path_match false matched pat s
        ≡ (if path_match (bare pat) s then includes pat else matched)
  unfolding match_step same
  later_step matched pat s = ground arith

  later_steps :
      (matched : Bool) (patterns : List Text) (s : Text)
      → match_from path_match false matched patterns s ≡ Option.get_or (decision patterns s) matched
  unfolding match_from decision
  later_steps matched [] s = refl
  later_steps matched (pat ∷ patterns) s = ground (
    arith,
    later_step matched pat s,
    later_steps (match_step path_match false matched pat s) patterns s,
  )

  -- The last pattern that matches decides; where none matches, the first pattern does.
  pub match-decision :
      (p : Text) (patterns : List Text)
      → match path_match p patterns ≡ Option.get_or (decision patterns p) (default patterns)
  unfolding match decision default
  match-decision p [] = refl
  match-decision p (pat ∷ patterns) =
      ground (arith, later_steps (match_step path_match true false pat p) patterns p)
