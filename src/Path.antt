-- ===== src/Path.antt =====
-- pkg/riposo/path.go: object paths such as /buckets/foo/collections/bar, and wildcard paths such
-- as /buckets/foo/collections/*. A path is its bytes. The loops of Go that walk a path by runes
-- compare with ASCII characters only, which a walk by bytes decides alike.
pub mod Segments
pub mod Norm
pub mod Ancestors
pub mod Patterns
mod Tests
use riposo.Prelude.{
  ℕ, zero, suc, ◌+◌, ◌%◌, Bool, true, false, not, ◌&&◌, ◌||◌, Option, none, some, List, [], ◌∷◌,
  ◌++◌, ltb, ◌==◌, if◌then◌else◌, get_or, take, drop, is_empty, Text, bytes, text_eq, has_prefix,
  last_index_byte, count_byte, length,
}

abbrev pub slash : ℕ
slash = b'/'

-- The loop of `trimPathPrefix` over path[2:]; `path` is the whole path.
trim_loop : Text → Text → Text
trim_loop path [] = []
trim_loop path (r ∷ rest) =
    let next = trim_loop path rest in
    if r == slash then r ∷ rest else if ltb r b'0' || ltb b'9' r then path else next

unfoldable pub trim_path_prefix : Text → Text
unfolding trim_loop
trim_path_prefix path =
    if not (has_prefix path (bytes "/v")) then path else trim_loop path (drop 2 path)

norm_trimmed : Text → Text
norm_trimmed path =
    if is_empty path
    then []
    else if count_byte slash path % 2 == 0
    then path
    else path ++ bytes "/*"

unfoldable pub norm_path : Text → Text
unfolding norm_trimmed
norm_path path = norm_trimmed (trim_path_prefix path)

-- strings.TrimLeft and strings.TrimRight of "/", and strings.Trim
trim_left : Text → Text
trim_left [] = []
trim_left (c ∷ s) = let rest = trim_left s in if c == slash then rest else c ∷ s

trim_right : Text → Text
trim_right [] = []
trim_right (c ∷ s) =
    let rest = trim_right s in if is_empty rest && (c == slash) then [] else c ∷ rest

unfoldable pub trim : Text → Text
unfolding trim_left trim_right
trim s = trim_right (trim_left s)

-- strings.Join(parts, "/") after the loop that trims all parts but the first
join_tail : List Text → Text
join_tail [] = []
join_tail (part ∷ parts) = slash ∷ (trim part ++ join_tail parts)

join_parts : List Text → Text
join_parts [] = []
join_parts (part ∷ parts) = part ++ join_tail parts

unfoldable pub join_path : List Text → Text
unfolding join_tail join_parts
join_path parts = norm_path (join_parts parts)

-- The loop of `Parent`, from index i - 1 down; `seen` is the loop's `xx`.
parent_loop : ℕ → Bool → Text → Text
parent_loop zero seen p = []
parent_loop (suc i) seen p =
    let next = parent_loop i true p in
    let skip = parent_loop i seen p in
    if get_or p i 0 == slash then (if seen then take i p else next) else skip

unfoldable pub parent : Text → Text
unfolding parent_loop
parent p = parent_loop (length p) false p

-- s[:i] for the last slash, or all of s
pub before_last : Text → Text
before_last s = elim (last_index_byte s slash) [ some i ↦ take i s | none ↦ s ]

-- s[i+1:] for the last slash, or all of s
after_last : Text → Text
after_last s = elim (last_index_byte s slash) [ some i ↦ drop (suc i) s | none ↦ s ]

unfoldable pub with_object_id : Text → Text → Text
unfolding before_last
with_object_id p object_id = before_last p ++ slash ∷ object_id

unfoldable pub split : Text → Text × Text
split p = elim (last_index_byte p slash) [ some i ↦ (take i p, drop (suc i) p) | none ↦ ([], []) ]

unfoldable pub object_id : Text → Text
object_id p = (split p).1

unfoldable pub namespace : Text → Text
namespace p = (split p).0

-- strings.TrimSuffix(s, "s")
trim_suffix_s : Text → Text
trim_suffix_s [] = []
trim_suffix_s (c ∷ s) =
    let rest = trim_suffix_s s in if is_empty s && (c == b's') then [] else c ∷ rest

unfoldable pub resource_name : Text → Text
unfolding after_last trim_suffix_s
resource_name p = trim_suffix_s (after_last (namespace p))

-- strings.HasSuffix(p, "*")
unfoldable pub is_node : Text → Bool
is_node [] = false
is_node (c ∷ s) = if is_empty s then c == b'*' else is_node s

unfoldable pub contains : Text → Text → Bool
contains p other = if is_node p then text_eq (namespace p) (namespace other) else text_eq p other

-- `Traverse`, with the variables that the iterator's closure changes as a state; fuel bounds the
-- rounds, and `none` means that it ran out.
unfoldable pub traverse {ℓ} : {S : Type ℓ} → ℕ → (Text → S → Bool × S) → Text → S → Option S
traverse zero iterator p s = none
traverse (suc fuel) iterator p s =
    let (go_on, s') = iterator p s in
    let next = traverse fuel iterator (parent p) s' in
    if not go_on || is_empty p then some s' else next

-- a == b
same : Bool → Bool → Bool
same true b = b
same false b = not b

-- One round of the loop of `Match`. `path_match` is doublestar.PathMatch, whose error is ignored:
-- it reports false with an error. `first` is i == 0.
match_step : (Text → Text → Bool) → Bool → Bool → Text → Text → Bool
match_step path_match first matched pat s =
    let excludes = has_prefix pat (bytes "!") in
    let inclusion = not excludes in
    let pat' = if excludes then drop 1 pat else pat in
    if not first && same matched inclusion
    then matched
    else if path_match pat' s
    then inclusion
    else not inclusion

match_from : (Text → Text → Bool) → Bool → Bool → List Text → Text → Bool
match_from path_match first matched [] s = matched
match_from path_match first matched (pat ∷ patterns) s =
    match_from path_match false (match_step path_match first matched pat s) patterns s

unfoldable pub match : (Text → Text → Bool) → Text → List Text → Bool
unfolding match_step match_from same
match path_match p patterns = match_from path_match true false patterns p
