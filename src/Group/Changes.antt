-- ===== src/Group/Changes.antt =====
-- internal/model/group/group.go with the backends in memory: who has a group as a principal after an update.
use riposo.Prelude.{
  ◌≡◌, refl, ap, ◌∙◌, true, false, Option, none, some, List, [], ◌∷◌, arith, if◌then◌else◌, Text,
  text_eq, lookup, elem, ok, map_err, bind-ok, reads, pure, ◌>>=◌, continue, Effect,
}
use riposo.Schema
use riposo.Schema.{Object}
use riposo.Schema.Resources.{Resource}
use riposo.Storage.Txn as Store
use riposo.Storage.Txn.Writes.{update-IsWritten}
use riposo.Permission
use riposo.Permission.{add_user_principal, purge_user_principals, add_each, purge_each}
use riposo.Permission.Aces.{PermissionSet, set_at, merge_permissions, write_perms, backup_perms}
use riposo.Permission.Holds.{holds}
use riposo.Permission.Grants.{Users, Entries, Shows, added, purged}
use riposo.Permission.Grants.Users.{add_each-Shows, purge_each-Shows}
use riposo.Api.Errors.{Error, store_error, perms_error}
use riposo.Api.Txn.{Txn, on_store, on_perms}
use riposo.Api.Model
use riposo.Api.Model.{Env, with_writer, update_permissions, update_stored}
use riposo.Group.{Json, norm_group, with_members, update_group, update}

-- The transaction t' has the same users as t, and both are open.
record SameUsers (t t' : Permission.Transaction) : Type 0 where
  open_yet : t'.done ≡ false
  users : t'.b.users ≡ t.b.users

merge-SameUsers :
    (path : Text) (ps : PermissionSet) (t : Permission.Transaction)
    → t.done ≡ false
    → ((merge_permissions path ps t).0 ≡ ok tt) × SameUsers t (merge_permissions path ps t).1
unfolding merge_permissions write_perms backup_perms
merge-SameUsers path ps t h =
    (simp h refl, record { open_yet = ground arith; users = ground arith })

-- What the end of an update leaves of the permissions, with both transactions open.
permissions-SameUsers :
    (env : Env) (path : Text) (ps : Option PermissionSet) (txn : Txn)
    → txn.perms.done ≡ false
    → (perms : Permission.Transaction) × SameUsers txn.perms perms
      × (update_permissions env path ps txn ≡ (ok tt, record txn { perms = perms }))
unfolding update_permissions
permissions-SameUsers env path none txn h = (txn.perms, record { open_yet = h; users = refl }, refl)
permissions-SameUsers env path (some ps) txn h =
    let set = with_writer txn.user.id ps in
    let (e, same) = merge-SameUsers path set txn.perms h in
    let perms = (merge_permissions path set txn.perms).1 in
    (perms, same, ap (λ r. (map_err perms_error r, record txn { perms = perms })) e)

update_stored-SameUsers :
    (env : Env) (path : Text) (exst : Object) (ps : Option PermissionSet) (txn : Txn)
    → txn.store.done ≡ false
    → txn.perms.done ≡ false
    → (out : Object) × (txn' : Txn) × SameUsers txn.perms txn'.perms
      × (update_stored env path exst ps txn ≡ (ok out, txn'))
unfolding update_stored
update_stored-SameUsers env path exst ps txn open_store open_perms =
    let (out, e, _) = update-IsWritten path exst env.now txn.store open_store in
    let txn1 : Txn = record txn { store = (Store.update path exst env.now txn.store).1 } in
    let (perms, same, e') = permissions-SameUsers env path ps txn1 open_perms in
    let rest : Object → Effect Txn Error Object =
      λ obj. update_permissions env path ps >>= λ u. pure obj in
    (
      out,
      record txn1 { perms = perms },
      same,
      bind-ok (on_store (Store.update path exst env.now)) rest txn out (ap (map_err store_error) e)
          ∙ bind-ok (update_permissions env path ps) (λ u. pure out) txn1 tt (ap (λ r. r.0) e')
          ∙ ap (λ r. (ok out, r.1)) e',
    )

purge-open :
    (path : Text) (t : Permission.Transaction)
    → t.done ≡ false
    → purge_user_principals (path ∷ []) t ≡ (ok tt, purge_each (path ∷ []) t)
unfolding purge_user_principals
purge-open path t h = simp h refl

add-open :
    (path : Text) (members : List Text) (t : Permission.Transaction)
    → t.done ≡ false
    → add_user_principal path members t ≡ (ok tt, add_each path members t)
unfolding add_user_principal
add-open path members t h = simp h refl

shows_itself :
    (t : Permission.Transaction)
    → t.done ≡ false
    → Shows
        (λ u v. holds v (lookup u t.b.users))
        (λ path perm v. holds v (set_at path perm t.b.perms))
        t
shows_itself t h = record { open_yet = h; users = λ u v. refl; entries = λ path perm v. refl }

-- The principals of the users after a group was purged, and its members were added.
members_only :
    (path : Text) (members : List Text) (t t' : Permission.Transaction)
    → t.done ≡ false
    → SameUsers (purge_each (path ∷ []) t) t'
    → (u v : Text)
    → holds v (lookup u (add_each path members t').b.users)
      ≡ (if text_eq path v then elem u members else holds v (lookup u t.b.users))
unfolding added purged elem
members_only path members t t' h same u v =
    let f : Users = λ u v. holds v (lookup u t'.b.users) in
    let g : Entries = λ path perm v. holds v (set_at path perm t'.b.perms) in
    let after = (add_each-Shows path members t' f g (shows_itself t' same.open_yet)).users u v in
    let before = (purge_each-Shows (path ∷ []) t _ _ (shows_itself t h)).users u v in
    let kept : f u v ≡ holds v (lookup u (purge_each (path ∷ []) t).b.users) =
      ap (λ us. holds v (lookup u us)) same.users in
    after ∙ ground (arith, kept, before)

-- With both transactions open, an update of a group with a payload that can be decoded succeeds, and after
-- it a user has the group as a principal if and only if the user is among the members, whoever had it before;
-- all other principals stay as they are.
pub update-members :
    (json : Json) (env : Env) (path : Text) (exst : Object) (payload : Resource) (txn : Txn)
    (members : List Text) (obj : Object)
    → txn.store.done ≡ false
    → txn.perms.done ≡ false
    → norm_group json payload.object true ≡ ok (members, obj)
    → (out : Object) × ((update json env path exst payload txn).0 ≡ ok out)
      × ((u v : Text)
          → holds v (lookup u (update json env path exst payload txn).1.perms.b.users)
            ≡ (if text_eq path v then elem u members else holds v (lookup u txn.perms.b.users)))
unfolding update update_group with_members
update-members json env path exst payload txn members obj open_store open_perms decoded =
    let perms1 = purge_each (path ∷ []) txn.perms in
    let txn1 : Txn = record txn { perms = perms1 } in
    let purged_open : perms1.done ≡ false =
      (purge_each-Shows (path ∷ []) txn.perms _ _ (shows_itself txn.perms open_perms)).open_yet in
    let named : Resource = record payload { object = obj } in
    let action = Model.update env path exst named in
    let add : Object → Effect Txn Error Object =
      λ o. on_perms (add_user_principal path members) >>= λ u. pure o in
    let (out, txn2, same, e) =
      update_stored-SameUsers env path (Schema.update exst obj) named.permissions txn1 open_store
        purged_open in
    let added_to = add-open path members txn2.perms same.open_yet in
    let last : add out txn2 ≡ (ok out, record txn2 { perms = add_each path members txn2.perms }) =
      ap (λ r. continue (λ u. pure out) (map_err perms_error r.0, record txn2 { perms = r.1 }))
        added_to in
    let middle : (action >>= add) txn1 ≡ add out txn2 =
      unfold Model.update in ap (continue add) e in
    let first : update json env path exst payload txn ≡ (action >>= add) txn1 =
      bind-ok (reads (λ txn. norm_group json payload.object true))
        (update_group json env path exst payload) txn (members, obj) decoded
      ∙ ap
          (λ r.
            continue (λ u. action >>= add) (map_err perms_error r.0, record txn { perms = r.1 }))
          (purge-open path txn.perms open_perms) in
    let whole = first ∙ middle ∙ last in
    (
      out,
      ap (λ r. r.0) whole,
      λ u v.
          ap (λ r. holds v (lookup u r.1.perms.b.users)) whole
          ∙ members_only path members txn.perms txn2.perms open_perms same u v,
    )
