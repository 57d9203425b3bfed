-- ===== src/Permission/Access.antt =====
-- internal/conn/memory/permission/permission.go: the principals that a user has, and the paths that
-- principals have access to.
use riposo.Prelude.{
  ◌≡◌, ◌∙◌, ◌↔◌, ◌⊎◌, Bool, true, false, not, ◌&&◌, ◌||◌, List, [], arith, Bool-cases, inl, inr,
  is_empty, Text, text_eq, Dict, lookup, keys, elem, ok,
}
use riposo.Set
use riposo.Set.{Set, has, has_any, slice, sort_strings, merge, add}
use riposo.Set.Members.{has-new, has-add, has-merge, elem-values}
use riposo.Set.Slices.{elem-sort_strings}
use riposo.Permission.{
  Transaction, everyone, authenticated, or_empty, principals_of, get_user_principals,
}
use riposo.Permission.Aces.{Ace, accessible, get_accessible_paths}
use riposo.Permission.Holds.{holds}
use riposo.Permission.Reaches.{HoldMaps, Reaches, granted, elem-accessible, granted_iff}

pub elem-slice : (v : Text) (s : Set) → elem v (slice s) ≡ has s v
unfolding slice
elem-slice v s = elem-sort_strings v (keys s) ∙ elem-values s v

-- What a user has by being that user, and what the sets give to everyone and to those who
-- authenticated.
unfoldable pub inherits : Text → Text → Dict Set → Bool
inherits user_id v users =
    text_eq user_id v
    || holds v (lookup user_id users)
    || (not (text_eq user_id everyone)
        && (text_eq everyone v
            || holds v (lookup everyone users)
            || (not (text_eq user_id authenticated)
                && (text_eq authenticated v || holds v (lookup authenticated users)))))

has-principals_of :
    (user_id v : Text) (users : Dict Set)
    → has (principals_of user_id users) v ≡ inherits user_id v users
unfolding principals_of inherits
has-principals_of user_id v users =
    let own = or_empty (lookup user_id users) in
    let s = add user_id (Set.copy own) in
    let all = or_empty (lookup everyone users) in
    let known = or_empty (lookup authenticated users) in
    ground (
      arith,
      (has-new [] [] own v).2,
      has-add (Set.copy own) user_id v,
      has-add s everyone v,
      has-merge (add everyone s) all v,
      has-add s authenticated v,
      has-add (add authenticated s) everyone v,
      has-merge (add everyone (add authenticated s)) known v,
      has-merge (merge (add everyone (add authenticated s)) known) all v,
    )

-- In an open transaction `GetUserPrincipals` lists the user, the user's principals, and those that
-- everyone and, but for system.Everyone, the authenticated have, and nothing else.
pub get_user_principals_lem :
    (user_id : Text) (t : Transaction)
    → t.done ≡ false
    → (out : List Text) × (get_user_principals user_id t ≡ ok out)
      × ((v : Text) → elem v out ≡ inherits user_id v t.b.users)
unfolding get_user_principals
get_user_principals_lem user_id t open_yet = (
  slice (principals_of user_id t.b.users),
  ground arith,
  λ v. elem-slice v (principals_of user_id t.b.users) ∙ has-principals_of user_id v t.b.users,
)

-- In an open transaction, with principals and entries given, `GetAccessiblePaths` lists the paths
-- that it was given and those on which one of the principals has a permission that one of the
-- entries asks for, and no others.
pub get_accessible_paths_lem :
    (dst principals : List Text) (ents : List Ace) (t : Transaction)
    → t.done ≡ false
    → (is_empty principals || is_empty ents) ≡ false
    → HoldMaps t.b.perms
    → (out : List Text) × (get_accessible_paths dst principals ents t ≡ ok out)
      × ((path : Text)
          → (elem path out ≡ true)
            ↔ ((elem path dst ≡ true) ⊎ Reaches principals ents path (lookup path t.b.perms)))
unfolding get_accessible_paths
get_accessible_paths_lem dst principals ents t open_yet some_given n =
    let all = accessible principals ents t.b.perms dst in
    let found : (path : Text)
        → elem path (sort_strings all)
          ≡ (elem path dst || granted principals ents path (lookup path t.b.perms)) =
      λ path. elem-sort_strings path all ∙ elem-accessible principals ents t.b.perms dst path n in
    (
      sort_strings all,
      ground arith,
      λ path.
          let (sound, complete) = granted_iff principals ents path t.b.perms n in
          (
            λ h. elim (Bool-cases (elem path dst)) [
              | inl e ↦ inl e
              | inr e ↦ inr (sound (ground (arith, found path)))
            ],
            λ c. elim c [
              | inl e ↦ ground (arith, found path)
              | inr r ↦ ground (arith, found path, complete r)
            ],
          ),
    )
