-- ===== src/Api/Model/Tests.antt =====
-- pkg/api/model.go: instances of the theorems.
use riposo.Prelude.{
  ◌≡◌, refl, true, false, none, some, [], ◌∷◌, Text, bytes, text_eq, lookup, ok, last_index_byte,
}
use riposo.Path.{is_node, namespace, object_id, split, with_object_id}
use riposo.Schema.{Object}
use riposo.Storage.Tree
use riposo.Storage.Tree.{get_node, get_object}
use riposo.Storage.Backend
use riposo.Storage.Txn as Store
use riposo.Cache
use riposo.Api.Txn.{Txn}
use riposo.Schema.Resources.{Resource}
use riposo.Storage.Txn.Writes.{IsWritten, named}
use riposo.Permission
use riposo.Permission.Aces.{PermissionSet, set_at}
use riposo.Permission.Holds.{holds}
use riposo.Api.Model.{Env, create, delete}
use riposo.Api.Model.Resources.{create-writer}
use riposo.Api.Model.Deletes.{delete-forgets}

abbrev alice : Text
alice = bytes "account:alice"

abbrev plain : Object
plain = record { id = bytes "foo"; mod_time = 3; deleted = false; extra = bytes "{}" }

abbrev stored : Backend.Backend
stored = record {
  tree = (bytes "/buckets", record { objects = (bytes "foo", plain) ∷ []; mod_time = 3 }) ∷ [];
  dead = [];
  locked = false;
}

abbrev open_both : Backend.Backend → Txn
open_both b = record {
  store = Store.begin b;
  perms = Permission.begin Permission.new;
  cache = Cache.begin Cache.new;
  user = record { id = alice; principals = [] };
}

abbrev env : Env
env = record { now = 9; next_id = [] }

abbrev bucket : Resource
bucket = record { object = plain; permissions = none }

create-writer_example :
    (out : Object) × (ps : PermissionSet) × ((create env
        (bytes "/buckets/*")
        bucket
        (open_both Backend.new)).0
      ≡ ok (record { object = out; permissions = some ps }))
    × IsWritten
        (namespace (bytes "/buckets/*"))
        9
        (named plain [])
        out
        (open_both Backend.new).store.b
        (create env (bytes "/buckets/*") bucket (open_both Backend.new)).1.store.b
    × (holds alice (
          set_at
            (with_object_id (bytes "/buckets/*") out.id)
            (bytes "write")
            (create env (bytes "/buckets/*") bucket (open_both Backend.new)).1.perms.b.perms)
        ≡ true)
unfolding text_eq lookup is_node Tree.get get_node get_object Store.begin Permission.begin
create-writer_example =
    create-writer env (bytes "/buckets/*") bucket (open_both Backend.new) refl refl refl refl refl

delete-forgets_example :
    (out : Object) × ((delete env (bytes "/buckets/foo") (open_both stored)).0 ≡ ok out)
    × (out.deleted ≡ true)
    × (Tree.get
          (namespace (bytes "/buckets/foo"))
          (object_id (bytes "/buckets/foo"))
          (delete env (bytes "/buckets/foo") (open_both stored)).1.store.b.tree
        ≡ none)
    × ((perm v : Text)
        → holds v (
            set_at
              (bytes "/buckets/foo")
              perm
              (delete env (bytes "/buckets/foo") (open_both stored)).1.perms.b.perms)
          ≡ false)
unfolding text_eq lookup last_index_byte is_node namespace object_id split Tree.get get_node
    get_object Store.begin Permission.begin
delete-forgets_example =
    delete-forgets env (bytes "/buckets/foo") (open_both stored) refl refl refl refl
