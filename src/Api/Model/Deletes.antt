-- ===== src/Api/Model/Deletes.antt =====
-- pkg/api/model.go with the backends in memory: what `Delete` of the default model takes away.
use riposo.Prelude.{
  ◌≡◌, refl, ap, ◌∙◌, true, false, none, [], ◌∷◌, arith, is_some, Text, bind-ok, map_err, lookup,
  text_eq_refl, ok,
}
use riposo.Path.{is_node, namespace, object_id}
use riposo.Schema.{Object}
use riposo.Storage.Tree
use riposo.Storage.Backend.Deletion.{targets}
use riposo.Storage.Txn as Store
use riposo.Storage.Txn.Deletes.{delete_object-found}
use riposo.Permission
use riposo.Permission.Aces.{set_at, delete_permissions}
use riposo.Permission.Holds.{holds}
use riposo.Permission.Grants.{Users, Entries, covered, own_or_below, expect_entries, Shows}
use riposo.Permission.Grants.Deletes.{delete-Shows}
use riposo.Api.Errors.{store_error, perms_error}
use riposo.Api.Txn.{Txn, on_store, on_perms}
use riposo.Api.Model.{Env, delete}

own_or_below_refl : (path : Text) → own_or_below path path ≡ true
unfolding own_or_below
own_or_below_refl [] = refl
own_or_below_refl (c ∷ path) = ground (arith, own_or_below_refl path)

permissions_deleted :
    (path : Text) (t : Permission.Transaction)
    → t.done ≡ false
    → (delete_permissions (path ∷ []) t).0 ≡ ok tt
unfolding delete_permissions
permissions_deleted path t open_yet = ground arith

-- The answer of `Delete` where both transactions are open.
delete-open :
    (env : Env) (path : Text) (txn : Txn) (out : Object)
    → txn.perms.done ≡ false
    → (Store.delete_object path env.now txn.store).0 ≡ ok out
    → delete env path txn ≡ (
      ok out,
      record txn {
        store = (Store.delete_object path env.now txn.store).1;
        perms = (delete_permissions (path ∷ []) txn.perms).1;
      },
    )
unfolding delete
delete-open env path txn out open_perms e =
    let perms = (delete_permissions (path ∷ []) txn.perms).1 in
    bind-ok (on_perms (delete_permissions (path ∷ [])))
      (λ u. on_store (Store.delete_object path env.now)) txn tt
      (ap (map_err perms_error) (permissions_deleted path txn.perms open_perms))
    ∙ ap
        (λ r. (
          map_err store_error r,
          record txn { store = (Store.delete_object path env.now txn.store).1; perms = perms },
        ))
        e

no_permissions :
    (path perm v : Text) (t : Permission.Transaction)
    → t.done ≡ false
    → holds v (set_at path perm (delete_permissions (path ∷ []) t).1.b.perms) ≡ false
no_permissions path perm v t open_yet =
    let f : Users = λ u v. holds v (lookup u t.b.users) in
    let g : Entries = λ path perm v. holds v (set_at path perm t.b.perms) in
    let start : Shows f g t = record {
      open_yet = open_yet;
      users = λ u v. refl;
      entries = λ path perm v. refl;
    } in
    (delete-Shows (path ∷ []) t f g start).entries path perm v
    ∙ unfold expect_entries covered in ground (arith, own_or_below_refl path)

-- With both transactions open, `Delete` of the default model of an object that exists returns it,
-- and leaves neither the object nor any permission on its path.
pub delete-forgets :
    (env : Env) (path : Text) (txn : Txn)
    → is_node path ≡ false
    → txn.store.done ≡ false
    → txn.perms.done ≡ false
    → is_some (Tree.get (namespace path) (object_id path) txn.store.b.tree) ≡ true
    → (out : Object) × ((delete env path txn).0 ≡ ok out)
      × (out.deleted ≡ true)
      × (Tree.get (namespace path) (object_id path) (delete env path txn).1.store.b.tree ≡ none)
      × ((perm v : Text) → holds v (set_at path perm (delete env path txn).1.perms.b.perms) ≡ false)
delete-forgets env path txn leaf open_store open_perms there =
    let (out, e, marked, after, later, gone) =
      delete_object-found path env.now txn.store leaf open_store there in
    let whole = delete-open env path txn out open_perms e in
    (
      out,
      ap (λ r. r.0) whole,
      marked,
      rw whole (
          gone (namespace path) (object_id path)
          ∙ unfold targets in
            ground (arith, text_eq_refl (namespace path), text_eq_refl (object_id path))),
      λ perm v. rw whole (no_permissions path perm v txn.perms open_perms),
    )
