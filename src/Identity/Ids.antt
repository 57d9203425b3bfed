-- ===== src/Identity/Ids.antt =====
-- pkg/identity/identity.go with pkg/riposo/path.go: what the valid IDs are as parts of paths.
use riposo.Prelude.{
  ℕ, ◌≡◌, ◌<◌, refl, ◌∙◌, ◌≤◌, ◌==◌, true, false, [], ◌∷◌, ◌++◌, arith, is_empty, length, Text,
  count_byte,
}
use riposo.Path.{slash, is_node, before_last, with_object_id, object_id, namespace}
use riposo.Path.Segments.{HasNoSlash, with_object_id_lem}
use riposo.Identity.{any_of, is_allowed, all_allowed, is_valid}

not_slash : (c : ℕ) → is_allowed c ≡ true → (c == slash) ≡ false
unfolding is_allowed any_of
not_slash c h = ground arith

no_slash : (id : Text) → all_allowed id ≡ true → HasNoSlash id
unfolding all_allowed count_byte
no_slash [] h = refl
no_slash (c ∷ id) h = ground (arith, not_slash c, no_slash id)

not_star : (c : ℕ) → is_allowed c ≡ true → (c == b'*') ≡ false
unfolding is_allowed any_of
not_star c h = ground arith

is_node_allowed : (id : Text) → all_allowed id ≡ true → is_node id ≡ false
unfolding all_allowed is_node
is_node_allowed [] h = refl
is_node_allowed (c ∷ id) h = ground (arith, not_star c, is_node_allowed id)

is_node-append : (u : Text) (c : ℕ) (v : Text) → is_node (u ++ c ∷ v) ≡ is_node (c ∷ v)
unfolding is_node
is_node-append [] c v = refl
is_node-append (a ∷ []) c v = refl
is_node-append (a ∷ b ∷ u) c v = is_node-append (b ∷ u) c v

is_node-slash : (v : Text) → is_empty v ≡ false → is_node (slash ∷ v) ≡ is_node v
unfolding is_node
is_node-slash v h = rw h refl

-- A valid ID has 1 to 255 bytes, and put into a path with a slash it gives the path of an object, not
-- one of a collection, in whose namespace it can be read back.
pub is_valid-object :
    (p id : Text)
    → 0 < count_byte slash p
    → is_valid id ≡ true
    → (1 ≤ length id)
      × (length id ≤ 255)
      × (is_node (with_object_id p id) ≡ false)
      × (object_id (with_object_id p id) ≡ id)
      × (namespace (with_object_id p id) ≡ namespace p)
unfolding is_valid with_object_id
is_valid-object p id h valid =
    let allowed : all_allowed id ≡ true = ground arith in
    let (there, same, again) = with_object_id_lem p id id h (no_slash id allowed) in
    let leaf : is_node (before_last p ++ slash ∷ id) ≡ false =
      is_node-append (before_last p) slash id
      ∙ is_node-slash id (ground arith)
      ∙ is_node_allowed id allowed in
    (ground arith, ground arith, leaf, there, same)
