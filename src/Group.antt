-- ===== src/Group.antt =====
-- internal/model/group/group.go: the model of groups, whose members have the group as a principal. The
-- JSON of the members is a record of parameters.
pub mod Members
pub mod Changes
mod Tests
use riposo.Prelude.{
  ℕ, Bool, true, false, ◌&&◌, Option, none, some, List, [], ◌∷◌, map, if◌then◌else◌, is_empty, Text,
  text_eq, Result, ok, err, Effect, reads, pure, ◌>>=◌, ◌>>◌, map_ok,
}
use riposo.Path.{with_object_id}
use riposo.Set.{sort_strings}
use riposo.Schema
use riposo.Schema.{Object}
use riposo.Schema.Patch.{Codec}
use riposo.Schema.Resources.{Resource}
use riposo.Permission.{add_user_principal, purge_user_principals}
use riposo.Api.Errors.{Error}
use riposo.Api.Txn.{Txn, on_perms}
use riposo.Api.Model
use riposo.Api.Model.{Env, Fault, blame, patch_object}

-- encoding/json on the members: a nil slice is none, and the error of decoding is BadRequest's.
pub record Json : Type 0 where
  pub decode : Text → Result Error (Option (List Text))
  pub encode : Option (List Text) → Text

-- The loop of `norm`, after the member that was kept last, if any.
unfoldable pub is_last : Text → Option Text → Bool
is_last v none = false
is_last v (some w) = text_eq w v

unfoldable pub keep_new : Option Text → List Text → List Text
keep_new last [] = []
keep_new last (v ∷ members) =
    if is_empty v
    then keep_new last members
    else if is_last v last
    then keep_new last members
    else v ∷ keep_new (some v) members

unfoldable pub norm : List Text → List Text
norm members = keep_new none (sort_strings members)

abbrev pub norm_option : Option (List Text) → Option (List Text)
norm_option none = none
norm_option (some members) = some (norm members)

-- A nil slice of members in a request that sets them is an empty one.
abbrev pub provisioned : Bool → Option (List Text) → Option (List Text)
provisioned true none = some []
provisioned true (some members) = some members
provisioned false members = members

abbrev pub or_nil : Option (List Text) → List Text
or_nil none = []
or_nil (some members) = members

module _ (json : Json) where
  unfoldable pub parse_group : Object → Result Error (Option (List Text))
  parse_group obj = json.decode (Schema.norm obj).extra

  -- The members, and the object with them as its extra fields.
  unfoldable pub norm_group : Object → Bool → Result Error (List Text × Object)
  norm_group obj provision =
      map_ok
        (λ p.
          let members = norm_option (provisioned provision p) in
          (or_nil members, record obj { extra = json.encode members }))
        (parse_group obj)

  module _ (env : Env) where
    unfoldable pub create : Text → Resource → Effect Txn Fault Resource
    create path payload = do
      group ←
          blame (record payload { object = Schema.norm payload.object })
            (reads (λ txn. norm_group payload.object true))
      created ← Model.create env path (record payload { object = group.1 })
      blame created (on_perms (add_user_principal (with_object_id path created.object.id) group.0))
      pure created

    -- An action on an object, and then its path as principal of the members.
    unfoldable pub with_members :
        Text → List Text → Effect Txn Error Object → Effect Txn Error Object
    with_members path members action = do
      exst ← action
      on_perms (add_user_principal path members)
      pure exst

    -- The rest of `Update`, with the members and the normalised object.
    unfoldable pub update_group :
        Text → Object → Resource → List Text × Object → Effect Txn Error Object
    update_group path exst payload group = do
      on_perms (purge_user_principals (path ∷ []))
      with_members path group.0 (Model.update env path exst (record payload { object = group.1 }))

    unfoldable pub update : Text → Object → Resource → Effect Txn Error Object
    update path exst payload = do
      group ← reads (λ txn. norm_group payload.object true)
      update_group path exst payload group

    unfoldable pub patch : Codec → Text → Object → Resource → Effect Txn Error Object
    patch codec path exst payload = do
      group ← reads (λ txn. norm_group payload.object false)
      on_perms (purge_user_principals (path ∷ []))
      patched ← patch_object env codec path exst (record payload { object = group.1 })
      extra ← reads (λ txn. parse_group patched)
      on_perms (add_user_principal path (or_nil extra))
      pure patched

    unfoldable pub delete : Text → Effect Txn Error Object
    delete path = do on_perms (purge_user_principals (path ∷ [])); Model.delete env path

    unfoldable pub purge_groups : Text → List Object → Effect Txn Error (Unit {0})
    purge_groups path [] = pure tt
    purge_groups path (obj ∷ objs) =
        on_perms (purge_user_principals (map (λ o. with_object_id path o.id) (obj ∷ objs)))

    unfoldable pub delete_all : Text → List Object → Effect Txn Error (ℕ × List Text)
    delete_all path objs = do purge_groups path objs; Model.delete_all env path objs
