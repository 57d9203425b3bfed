-- ===== src/Storage/Txn/Writes.antt =====
-- internal/conn/memory/storage/storage.go: what `Create` and `Update` write, and the errors of
-- `Create`.
use mathlib.Core.Path.{subst}
use riposo.Prelude.{
  ℕ, ◌≤◌, ◌<◌, ◌≡◌, sym, ap, ◌∙◌, true, false, not, ◌&&◌, ◌||◌, none, some, arith, if◌then◌else◌,
  is_empty, is_some, Text, text_eq, text_eq_refl, ok, err,
}
use riposo.Path.{is_node, namespace}
use riposo.Schema.{Object, norm}
use riposo.Storage.Tree
use riposo.Storage.Tree.{get_node, put_at, unlink, next_epoch, put}
use riposo.Storage.Tree.Laws.{
  node_at, epoch_at, get-put_at, get-unlink, lookup-put_at, object-put_at, next_epoch_lem,
}
use riposo.Storage.Backend.{Backend}
use riposo.Storage.Txn.{
  Transaction, invalid_path, object_exists, tx_done, write, create, create_in, update, backup_ns,
}

-- `out` is `obj` as it was stored in the namespace: in normal form, with an epoch that is at least
-- the clock's and later than every earlier one of the namespace. It is live and not dead, and all
-- other objects are as before.
pub record IsWritten (ns : Text) (now : ℕ) (obj out : Object) (before after : Backend)
    : Type 0 where
  pub same_id : out.id ≡ obj.id
  pub normed : out.extra ≡ (norm obj).extra
  pub same_mark : out.deleted ≡ obj.deleted
  pub later : epoch_at ns before.tree < out.mod_time
  pub timely : now ≤ out.mod_time
  pub epoch : epoch_at ns after.tree ≡ out.mod_time
  pub live :
      (k object_id : Text)
      → Tree.get k object_id after.tree ≡ (
          if text_eq ns k && text_eq obj.id object_id
          then some out
          else Tree.get k object_id before.tree)
  pub dead :
      (k object_id : Text)
      → Tree.get k object_id after.dead ≡ (
          if text_eq ns k && text_eq obj.id object_id
          then none
          else Tree.get k object_id before.dead)

norm-id : (o : Object) → (norm o).id ≡ o.id
unfolding norm
norm-id o = ground arith

norm-deleted : (o : Object) → (norm o).deleted ≡ o.deleted
unfolding norm
norm-deleted o = ground arith

epoch-put_at :
    (ns : Text) (obj : Object) (now : ℕ) (t : Tree.Tree)
    → epoch_at ns (put_at ns obj now t).1 ≡ next_epoch now (node_at ns t)
unfolding epoch_at node_at put
epoch-put_at ns obj now t = ground (arith, lookup-put_at ns ns obj now t, text_eq_refl ns)

write-IsWritten :
    (ns : Text) (obj : Object) (now : ℕ) (t : Transaction)
    → IsWritten ns now obj (write ns obj now t).0 t.b (write ns obj now t).1.b
unfolding write
write-IsWritten ns obj now t =
    let tree = t.b.tree in
    let e = object-put_at ns (norm obj) now tree in
    let (after, since) = next_epoch_lem now (node_at ns tree) in
    record {
      same_id = ap (λ (o : Object). o.id) e ∙ norm-id obj;
      normed = ap (λ (o : Object). o.extra) e;
      same_mark = ap (λ (o : Object). o.deleted) e ∙ norm-deleted obj;
      later = unfold epoch_at in rw e after;
      timely = rw e since;
      epoch = epoch-put_at ns (norm obj) now tree ∙ sym (ap (λ (o : Object). o.mod_time) e);
      live = λ k object_id.
          get-put_at ns k object_id (norm obj) now tree
          ∙ ap
              (λ i.
                if text_eq ns k && text_eq i object_id
                then some (put_at ns (norm obj) now tree).0
                else Tree.get k object_id tree)
              (norm-id obj);
      dead = λ k object_id. get-unlink ns k object_id obj.id t.b.dead;
    }

backup_ns-b : (ns : Text) (t : Transaction) → (backup_ns ns t).b ≡ t.b
unfolding backup_ns
backup_ns-b ns t = ground arith

-- The object under the ID that `Create` gives it.
unfoldable pub named : Object → Text → Object
named obj next_id = if is_empty obj.id then record obj { id = next_id } else obj

module _ (path : Text) (obj : Object) (now : ℕ) (next_id : Text) (t : Transaction) where
  -- What `Create` does where no guard stops it.
  create-write :
      is_node path ≡ true
      → t.done ≡ false
      → (is_empty obj.id || not (is_some (Tree.get (namespace path) obj.id t.b.tree))) ≡ true
      → let w = write (namespace path) (named obj next_id) now (backup_ns (namespace path) t) in
        create path obj now next_id t ≡ (ok w.0, w.1)
  unfolding create create_in named
  create-write node open_yet free = ground (arith, backup_ns-b (namespace path) t)

  -- In an open transaction `Create` stores an object in a collection, under a new ID if it brings
  -- none, and under its own if that is not taken.
  pub create-IsWritten :
      is_node path ≡ true
      → t.done ≡ false
      → (is_empty obj.id || not (is_some (Tree.get (namespace path) obj.id t.b.tree))) ≡ true
      → (out : Object) × ((create path obj now next_id t).0 ≡ ok out)
        × IsWritten
            (namespace path)
            now
            (named obj next_id)
            out
            t.b
            (create path obj now next_id t).1.b
  create-IsWritten node open_yet free =
      let ns = namespace path in
      let t' = backup_ns ns t in
      let e = create-write node open_yet free in
      let w = write-IsWritten ns (named obj next_id) now t' in
      (
        (write ns (named obj next_id) now t').0,
        ap (λ r. r.0) e,
        rw e (
            subst
              (λ b.
                IsWritten ns now (named obj next_id) (write ns (named obj next_id) now t').0 b
                  (write ns (named obj next_id) now t').1.b)
              (backup_ns-b ns t) w),
      )

  -- `Create` refuses a path that is no collection, a transaction that is done and an ID that is
  -- taken, in this order, and then changes no object.
  pub create_errors :
      (is_node path ≡ false → create path obj now next_id t ≡ (err invalid_path, t))
      × (is_node path ≡ true → t.done ≡ true → create path obj now next_id t ≡ (err tx_done, t))
      × (is_node path ≡ true
          → t.done ≡ false
          → is_empty obj.id ≡ false
          → is_some (Tree.get (namespace path) obj.id t.b.tree) ≡ true
          → ((create path obj now next_id t).0 ≡ err object_exists)
            × ((create path obj now next_id t).1.b ≡ t.b))
  unfolding create create_in
  create_errors = (
    λ a. ground arith,
    λ a d. ground arith,
    λ a d i h. (
      ground (arith, backup_ns-b (namespace path) t),
      ground (arith, backup_ns-b (namespace path) t),
    ),
  )

-- In an open transaction `Update` stores the object under its ID, whether or not one was there.
pub update-IsWritten :
    (path : Text) (obj : Object) (now : ℕ) (t : Transaction)
    → t.done ≡ false
    → (out : Object) × ((update path obj now t).0 ≡ ok out)
      × IsWritten (namespace path) now obj out t.b (update path obj now t).1.b
update-IsWritten path obj now t open_yet =
    let ns = namespace path in
    let t' = backup_ns ns t in
    let e : update path obj now t ≡ (ok (write ns obj now t').0, (write ns obj now t').1) =
      unfold update in ground arith in
    let w = write-IsWritten ns obj now t' in
    (
      (write ns obj now t').0,
      ap (λ r. r.0) e,
      rw e (
          subst (λ b. IsWritten ns now obj (write ns obj now t').0 b (write ns obj now t').1.b)
            (backup_ns-b ns t) w),
    )
