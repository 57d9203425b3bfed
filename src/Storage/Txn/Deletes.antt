-- ===== src/Storage/Txn/Deletes.antt =====
-- internal/conn/memory/storage/storage.go: the results of `Delete`, what a deletion takes away, and
-- what a rollback does not bring back.
use riposo.Prelude.{
  ℕ, ◌≤◌, ◌<◌, ◌≡◌, refl, ap, ◌∙◌, true, false, Option, none, some, List, [], ◌∷◌, ◌++◌, arith,
  if◌then◌else◌, Bool-cases, Option-cases, inl, inr, is_some, Text, text_eq, lookup, has_prefix, ok,
  err, keys,
}
use riposo.Path.{is_node, namespace, object_id}
use riposo.Undo.{Log, restore, backup}
use riposo.Undo.Laws.{lookup-restore, lookup-backup}
use riposo.Schema.{Object}
use riposo.Storage.Tree
use riposo.Storage.Tree.{Node, del, next_epoch, copy_node}
use riposo.Storage.Tree.Laws.{next_epoch_lem, epoch_at, node_at}
use riposo.Storage.Backend
use riposo.Storage.Backend.{Backend, Report, drain, delete_nested, delete_below}
use riposo.Storage.Backend.Deletion.{
  targets, removed, without, get-delete, delete-found, delete_missing,
}
use riposo.Storage.Txn.{
  Transaction, not_found, invalid_path, tx_done, backup_ns, finish, rollback, exact, delete_object,
  delete_at, or_missing,
}

exact-append :
    (xs ys : List Report) (d : Option Object) → exact (xs ++ ys) d ≡ exact ys (exact xs d)
unfolding exact
exact-append [] ys d = refl
exact-append ((ns, obj, true) ∷ xs) ys d = exact-append xs ys (some obj)
exact-append ((ns, obj, false) ∷ xs) ys d = exact-append xs ys d

-- None of the nested objects is reported as the one that was asked for.
exact-drain :
    (ns : Text) (epoch : ℕ) (ids : List Text) (node : Node) (dead : Tree.Tree) (d : Option Object)
    → exact (drain ns epoch ids node dead).0 d ≡ d
unfolding drain exact
exact-drain ns epoch [] node dead d = refl
exact-drain ns epoch (id ∷ ids) node dead d = elim (Option-cases (del id epoch node).0) [
  | inl e ↦ rw (e, drain) (exact-drain ns epoch ids (del id epoch node).1 dead d)
  | inr (obj, e) ↦
      rw (e, drain)
        (exact-drain ns epoch ids (del id epoch node).1 (Tree.force_put_at ns obj dead) d)
]

exact-delete_nested :
    (path : Text) (epoch : ℕ) (tree dead : Tree.Tree) (d : Option Object)
    → exact (delete_nested path epoch tree dead).0 d ≡ d
unfolding delete_nested
exact-delete_nested path epoch [] dead d = unfold exact in refl
exact-delete_nested path epoch ((ns, node) ∷ tree) dead d = elim (Bool-cases (has_prefix ns path)) [
  | inl below ↦
      let r = drain ns epoch (keys node.objects) node dead in
      rw below (
        exact-append r.0 (delete_nested path epoch tree r.2).0 d
        ∙ exact-delete_nested path epoch tree r.2 (exact r.0 d)
        ∙ exact-drain ns epoch (keys node.objects) node dead d)
  | inr aside ↦ rw aside (exact-delete_nested path epoch tree dead d)
]

backup_ns-b : (ns : Text) (t : Transaction) → (backup_ns ns t).b ≡ t.b
unfolding backup_ns
backup_ns-b ns t = ground arith

exact-delete_below :
    (path : Text) (epoch : ℕ) (b : Backend) (d : Option Object)
    → exact (delete_below path epoch b).0 d ≡ d
unfolding delete_below
exact-delete_below path epoch b d = exact-delete_nested path epoch b.tree b.dead d

exact-head :
    (ns : Text) (obj : Object) (reports : List Report)
    → exact ((ns, obj, true) ∷ reports) none ≡ exact reports (some obj)
unfolding exact
exact-head ns obj reports = refl

or_missing-some : (o : Object) → or_missing (some o) ≡ ok o
unfolding or_missing
or_missing-some o = refl

epoch_before :
    (ns : Text) (tree : Tree.Tree) (node : Node) (now : ℕ)
    → lookup ns tree ≡ some node
    → epoch_at ns tree < next_epoch now node
unfolding epoch_at node_at
epoch_before ns tree node now e = ground (arith, next_epoch_lem now node)

-- A namespace that was not logged stays as it is when the log is put back.
get-restore :
    (k j : Text) (log : Log Node) (m : Tree.Tree)
    → lookup k log ≡ none
    → Tree.get k j (restore log m) ≡ Tree.get k j m
unfolding Tree.get Tree.get_node
get-restore k j log m h = rw (lookup-restore, h) refl

module _ (path : Text) (now : ℕ) (t : Transaction) where
  delete_object-open :
      is_node path ≡ false
      → t.done ≡ false
      → let r = Backend.delete path now true t.b in
        ((delete_object path now t).0 ≡ or_missing (exact r.0 none))
        × ((delete_object path now t).1.b ≡ r.1)
  unfolding delete_object delete_at
  delete_object-open leaf open_yet = ground (arith, backup_ns-b (namespace path) t)

  -- In an open transaction `Delete` of an object that exists returns it, marked as deleted and with
  -- a new epoch that is at least the clock's, and takes away that object and exactly the objects
  -- of the namespaces that begin with the path.
  pub delete_object-found :
      is_node path ≡ false
      → t.done ≡ false
      → is_some (Tree.get (namespace path) (object_id path) t.b.tree) ≡ true
      → (out : Object) × ((delete_object path now t).0 ≡ ok out)
        × (out.deleted ≡ true)
        × (now ≤ out.mod_time)
        × (epoch_at (namespace path) t.b.tree < out.mod_time)
        × ((k j : Text)
            → Tree.get k j (delete_object path now t).1.b.tree
              ≡ (if targets path k j then none else Tree.get k j t.b.tree))
  delete_object-found leaf open_yet there =
      let ns = namespace path in
      let (node, o, e, f, d) = delete-found path now true t.b there in
      let (r, b) = delete_object-open leaf open_yet in
      let (after, since) = next_epoch_lem now node in
      let out = removed o now node in
      let rest = delete_below path now (without path now node o t.b) in
      let found : exact (Backend.delete path now true t.b).0 none ≡ some out =
        ap (λ x. exact x.0 none) d
        ∙ exact-head ns out rest.0
        ∙ exact-delete_below path now (without path now node o t.b) (some out) in
      (
        out,
        r ∙ ap or_missing found ∙ or_missing-some out,
        unfold removed in refl,
        unfold removed in since,
        unfold removed in epoch_before ns t.b.tree node now e,
        λ k j. ap (λ (c : Backend). Tree.get k j c.tree) b ∙ get-delete path k j now true t.b there,
      )

  -- `Delete` refuses a collection and a transaction that is done, in this order, and reports an
  -- object that does not exist; then no object changes.
  pub delete_object_errors :
      (is_node path ≡ true → delete_object path now t ≡ (err invalid_path, t))
      × (is_node path ≡ false → t.done ≡ true → delete_object path now t ≡ (err tx_done, t))
      × (is_node path ≡ false
          → t.done ≡ false
          → Tree.get (namespace path) (object_id path) t.b.tree ≡ none
          → ((delete_object path now t).0 ≡ err not_found) × ((delete_object path now t).1.b ≡ t.b))
  delete_object_errors = (
    λ a. unfold delete_object in ground arith,
    λ a d. unfold delete_object in ground arith,
    λ leaf open_yet h.
        let (r, b) = delete_object-open leaf open_yet in
        let e = delete_missing path now t.b h in
        (
          r ∙ ap (λ x. or_missing (exact x.0 none)) e ∙ unfold exact or_missing in refl,
          b ∙ ap (λ x. x.1) e,
        ),
  )

-- The log after a deletion.
deleted-log :
    (path : Text) (now : ℕ) (t : Transaction)
    → is_node path ≡ false
    → t.done ≡ false
    → t.flushed ≡ false
    → let t' = (delete_object path now t).1 in
      (t'.done ≡ false)
      × (t'.flushed ≡ false)
      × (t'.xtree ≡ backup copy_node (namespace path) t.b.tree t.xtree)
unfolding delete_object delete_at backup_ns
deleted-log path now t leaf open_yet unflushed = (ground arith, ground arith, ground arith)

-- Where a transaction has not logged another namespace that begins with the path, a rollback does not bring
-- back what `Delete` took from it: its objects are gone for good.
pub rollback-delete_object :
    (path k j : Text) (now : ℕ) (t : Transaction)
    → is_node path ≡ false
    → t.done ≡ false
    → t.flushed ≡ false
    → is_some (Tree.get (namespace path) (object_id path) t.b.tree) ≡ true
    → text_eq (namespace path) k ≡ false
    → has_prefix k path ≡ true
    → lookup k t.xtree ≡ none
    → Tree.get k j (rollback (delete_object path now t).1).1.b.tree ≡ none
rollback-delete_object path k j now t leaf open_yet unflushed there apart below unlogged =
    let t' = (delete_object path now t).1 in
    let (open_still, unflushed_still, log) = deleted-log path now t leaf open_yet unflushed in
    let e : (rollback t').1.b.tree ≡ restore t'.xtree t'.b.tree =
      unfold rollback finish in ground arith in
    let missing : lookup k t'.xtree ≡ none =
      ap (lookup k) log
      ∙ ground (arith, lookup-backup copy_node (namespace path) k t.b.tree t.xtree) in
    ap (Tree.get k j) e
    ∙ get-restore k j t'.xtree t'.b.tree missing
    ∙ ap (λ (c : Backend). Tree.get k j c.tree) (delete_object-open path now t leaf open_yet).1
    ∙ get-delete path k j now true t.b there
    ∙ unfold targets in ground arith
