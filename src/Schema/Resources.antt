-- ===== src/Schema/Resources.antt =====
-- pkg/schema/schema.go: resources, which are objects with their permissions, and the sets of
-- permissions.
use riposo.Prelude.{Option, none, some, [], ◌∷◌, ◌++◌, if◌then◌else◌, Text, lookup, insert, elem}
use riposo.Set.{sort_strings}
use riposo.Schema.{Object}
use riposo.Permission.Aces.{PermissionSet}

-- A resource with an object, whose `Data` is not nil. Its `StatusCode` is given where it is rendered.
pub record Resource : Type 0 where
  pub object : Object
  -- a nil permission set is none
  pub permissions : Option PermissionSet

-- p.Add(perm, principal)
unfoldable pub add_principal : Text → Text → PermissionSet → PermissionSet
add_principal perm principal p = elim (lookup perm p) [
  | none ↦ insert perm (sort_strings (principal ∷ [])) p
  | some perms ↦
      if elem principal perms then p else insert perm (sort_strings (perms ++ principal ∷ [])) p
]
