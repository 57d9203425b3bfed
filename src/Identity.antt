-- ===== src/Identity.antt =====
-- pkg/identity/identity.go: which IDs are valid. The loop over the runes of an ID is one over its
-- bytes: a byte of a rune that is not ASCII is refused as the rune is. The random IDs are made by
-- third-party packages, and the registry of their factories is not modelled.
pub mod Ids
mod Tests
use riposo.Prelude.{
  ℕ, Bool, true, false, ◌&&◌, ◌||◌, not, List, [], ◌∷◌, ltb, ◌==◌, if◌then◌else◌, length, Text,
  bytes,
}

unfoldable pub any_of : ℕ → Text → Bool
any_of c [] = false
any_of c (d ∷ s) = (c == d) || any_of c s

-- The case of the switch that is OK.
abbrev pub marks : Text
marks = bytes "!#$%&()+-.@[]^_{|}~"

-- Whether the loop goes on after a character.
unfoldable pub is_allowed : ℕ → Bool
is_allowed c =
    if any_of c marks
    then true
    else not
        ((ltb c b'a' || ltb b'z' c) && (ltb c b'A' || ltb b'Z' c) && (ltb c b'0' || ltb b'9' c))

unfoldable pub all_allowed : Text → Bool
all_allowed [] = true
all_allowed (c ∷ id) = if is_allowed c then all_allowed id else false

unfoldable pub is_valid : Text → Bool
is_valid id = let sz = length id in if ltb sz 1 || ltb 255 sz then false else all_allowed id
