-- ===== src/Api/Model/Resources.antt =====
-- pkg/api/model.go with the backends in memory: what `Create` and `Delete` of the default model do to
-- objects and permissions together.
use riposo.Prelude.{
  ◌≡◌, refl, ap, ◌∙◌, true, false, not, ◌||◌, some, List, [], ◌∷◌, ◌++◌, arith, Bool-cases,
  Option-cases, inl, inr, is_empty, is_some, Text, bytes, text_eq, text_eq_refl, lookup, insert,
  elem, ok, pure, bind-ok, map_err,
}
use riposo.Path.{is_node, namespace, with_object_id}
use riposo.Set.{sort_strings}
use riposo.Set.Slices.{elem-sort_strings}
use riposo.Schema.{Object}
use riposo.Storage.Tree
use riposo.Storage.Txn as Store
use riposo.Storage.Txn.Writes.{IsWritten, named, create-IsWritten}
use riposo.Permission
use riposo.Permission.{everyone, or_empty}
use riposo.Permission.Aces.{PermissionSet, set_at, create_permissions}
use riposo.Permission.Holds.{holds}
use riposo.Permission.Grants.{Users, Entries, listed, expect_entries, Shows}
use riposo.Permission.Grants.Entries.{create-Shows}
use riposo.Permission.Reaches.{elem-snoc}
use riposo.Schema.Resources.{Resource, add_principal}
use riposo.Api.Errors.{store_error, perms_error}
use riposo.Api.Txn.{Txn, on_store, on_perms}
use riposo.Api.Model.{Env, blame, with_writer, create_stored, create}

listed-lookup :
    (set : PermissionSet) (perm v : Text) (vv : List Text)
    → lookup perm set ≡ some vv
    → elem v vv ≡ true
    → listed set perm v ≡ true
unfolding listed lookup
listed-lookup [] perm v vv e h = absurd (ground arith)
listed-lookup ((k, ww) ∷ set) perm v vv e h = elim (Bool-cases (text_eq k perm)) [
  | inl here ↦ ground arith
  | inr there ↦ ground (arith, listed-lookup set perm v vv (ground arith) h)
]

listed-insert :
    (set : PermissionSet) (perm v : Text) (vv : List Text)
    → elem v vv ≡ true
    → listed (insert perm vv set) perm v ≡ true
unfolding listed insert
listed-insert [] perm v vv h = ground (arith, text_eq_refl perm)
listed-insert ((k, ww) ∷ set) perm v vv h =
    ground (arith, text_eq_refl perm, listed-insert set perm v vv h)

listed-add_principal :
    (perm v : Text) (set : PermissionSet) → listed (add_principal perm v set) perm v ≡ true
unfolding add_principal
listed-add_principal perm v set = elim (Option-cases (lookup perm set)) [
  | inl e ↦
      rw (e, add_principal)
        (listed-insert set perm v (sort_strings (v ∷ []))
          (elem-sort_strings v (v ∷ []) ∙ unfold elem in ground (arith, text_eq_refl v)))
  | inr (vv, e) ↦ elim (Bool-cases (elem v vv)) [
    | inl h ↦ rw (e, add_principal) (rw h (listed-lookup set perm v vv e h))
    | inr h ↦
        rw (e, add_principal)
          (rw h (
            listed-insert set perm v (sort_strings (vv ++ v ∷ [])) (
              elem-sort_strings v (vv ++ v ∷ [])
              ∙ elem-snoc v v vv
              ∙ ground (arith, text_eq_refl v))))
  ]
]

-- The answer of `Create` where the storage created the object and the permissions are open.
create-open :
    (env : Env) (path : Text) (payload : Resource) (txn : Txn) (out : Object)
    → txn.perms.done ≡ false
    → text_eq txn.user.id everyone ≡ false
    → (Store.create path payload.object env.now env.next_id txn.store).0 ≡ ok out
    → let ps = add_principal (bytes "write") txn.user.id (or_empty payload.permissions) in
      create env path payload txn ≡ (
        ok (record { object = out; permissions = some ps }),
        record txn {
          store = (Store.create path payload.object env.now env.next_id txn.store).1;
          perms = (create_permissions (with_object_id path out.id) ps txn.perms).1;
        },
      )
unfolding create create_stored with_writer
create-open env path payload txn out open_yet known e =
    let ps = add_principal (bytes "write") txn.user.id (or_empty payload.permissions) in
    let k = with_object_id path out.id in
    let made : (create_permissions k ps txn.perms).0 ≡ ok tt =
      unfold create_permissions in simp open_yet refl in
    let created : Resource = record { object = out; permissions = some ps } in
    let stored = Store.create path payload.object env.now env.next_id in
    bind-ok (blame payload (on_store stored)) (create_stored env path payload.permissions) txn out
      (ap (λ r. map_err (λ e. record { error = e; payload = payload }) (map_err store_error r)) e)
    ∙ rw known (
        bind-ok (blame created (on_perms (create_permissions k ps))) (λ u. pure created)
          (record txn { store = (stored txn.store).1 }) tt
          (ap (λ r. map_err (λ e. record { error = e; payload = created }) (map_err perms_error r))
            made))

-- Who has the write permission after permissions were created with one more writer.
create_permissions-writer :
    (k id : Text) (set : PermissionSet) (t : Permission.Transaction)
    → t.done ≡ false
    → holds id (
        set_at k
          (bytes "write")
          (create_permissions k (add_principal (bytes "write") id set) t).1.b.perms)
      ≡ true
create_permissions-writer k id set t open_yet =
    let f : Users = λ u v. holds v (lookup u t.b.users) in
    let g : Entries = λ path perm v. holds v (set_at path perm t.b.perms) in
    let ps = add_principal (bytes "write") id set in
    let start : Shows f g t = record {
      open_yet = open_yet;
      users = λ u v. refl;
      entries = λ path perm v. refl;
    } in
    (create-Shows k ps t f g start).entries k (bytes "write") id
    ∙ unfold expect_entries in
      ground (arith, text_eq_refl k, listed-add_principal (bytes "write") id set)

-- With both transactions open, `Create` of the default model stores the object as `Create` of the
-- storage does, and the user who asked for it, if it is not system.Everyone, has the write permission
-- on its path, whatever permissions came with it.
pub create-writer :
    (env : Env) (path : Text) (payload : Resource) (txn : Txn)
    → is_node path ≡ true
    → txn.store.done ≡ false
    → txn.perms.done ≡ false
    → (is_empty payload.object.id
        || not (is_some (Tree.get (namespace path) payload.object.id txn.store.b.tree)))
      ≡ true
    → text_eq txn.user.id everyone ≡ false
    → (out : Object) × (ps : PermissionSet) × ((create env path payload txn).0
        ≡ ok (record { object = out; permissions = some ps }))
      × IsWritten
          (namespace path)
          env.now
          (named payload.object env.next_id)
          out
          txn.store.b
          (create env path payload txn).1.store.b
      × (holds txn.user.id (
            set_at
              (with_object_id path out.id)
              (bytes "write")
              (create env path payload txn).1.perms.b.perms)
          ≡ true)
create-writer env path payload txn node open_store open_perms free known =
    let (out, e, w) =
      create-IsWritten path payload.object env.now env.next_id txn.store node open_store free in
    let k = with_object_id path out.id in
    let set = or_empty payload.permissions in
    let whole = create-open env path payload txn out open_perms known e in
    (
      out,
      add_principal (bytes "write") txn.user.id set,
      ap (λ r. r.0) whole,
      rw whole w,
      rw whole (create_permissions-writer k txn.user.id set txn.perms open_perms),
    )
