-- ===== src/Group/Tests.antt =====
-- internal/model/group/group.go: runs, and instances of the theorems.
use riposo.Prelude.{
  ◌≡◌, refl, false, not, ◌&&◌, none, some, List, [], ◌∷◌, if◌then◌else◌, is_empty, Text, bytes,
  text_eq, text_lt, lookup, elem, ok,
}
use riposo.Set.{sort_strings, insert_sorted}
use riposo.Set.Slices.{Ascending}
use riposo.Schema.{Object}
use riposo.Schema.Resources.{Resource}
use riposo.Storage.Backend
use riposo.Permission
use riposo.Permission.Holds.{holds}
use riposo.Cache
use riposo.Storage.Txn as Store
use riposo.Api.Txn.{Txn, new_txn}
use riposo.Api.Model.{Env}
use riposo.Group.{Json, norm, keep_new, is_last, norm_group, parse_group, update}
use riposo.Group.Members.{norm_lem}
use riposo.Group.Changes.{update-members}

abbrev json : Json
json = record {
  decode = λ t. ok (some (bytes "bob" ∷ bytes "alice" ∷ [] ∷ bytes "bob" ∷ []));
  encode = λ o. bytes "{}";
}

abbrev members : List Text
members = bytes "bob" ∷ bytes "alice" ∷ [] ∷ bytes "bob" ∷ []

abbrev env : Env
env = record { now = 9; next_id = [] }

abbrev devs : Object
devs = record { id = bytes "devs"; mod_time = 3; deleted = false; extra = bytes "{}" }

abbrev payload : Resource
payload = record { object = devs; permissions = none }

abbrev txn : Txn
txn = new_txn (record { store = Backend.new; perms = Permission.new; cache = Cache.new })

abbrev path : Text
path = bytes "/buckets/foo/groups/devs"

normalised : norm members ≡ bytes "alice" ∷ bytes "bob" ∷ []
unfolding norm keep_new is_last sort_strings insert_sorted text_lt text_eq
normalised = refl

norm_lem_example :
    Ascending (norm members)
    × ((u : Text) → elem u (norm members) ≡ (elem u members && not (is_empty u)))
norm_lem_example = norm_lem members

update-members_example :
    (out : Object) × ((update json env path devs payload txn).0 ≡ ok out)
    × ((u v : Text)
        → holds v (lookup u (update json env path devs payload txn).1.perms.b.users) ≡ (
            if text_eq path v then elem u (norm members) else holds v (lookup u txn.perms.b.users)))
unfolding new_txn Store.begin Permission.begin norm_group parse_group
update-members_example =
    update-members json env path devs payload txn (norm members) devs refl refl refl
