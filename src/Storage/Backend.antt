-- ===== src/Storage/Backend.antt =====
-- internal/conn/memory/storage/storage.go: the backend, which holds the tree of the live objects
-- and the tree of the deleted ones, and its `delete`. The calls of the callback of `delete` are
-- returned in their order.
pub mod Unreached
pub mod Deletion
use riposo.Prelude.{
  ℕ, Bool, true, false, Option, none, some, List, [], ◌∷◌, ◌++◌, if◌then◌else◌, Text, Dict, lookup,
  insert, keys, has_prefix,
}
use riposo.Path.{split}
use riposo.Schema.{Object}
use riposo.Storage.Tree.{Node, Tree, del, get_node, force_put_at}

pub record Backend : Type 0 where
  pub tree : Tree
  pub dead : Tree
  pub locked : Bool

abbrev pub new : Backend
new = record { tree = []; dead = []; locked = false }

-- A call of the callback: the namespace, the object, and whether it is the one that was asked for.
abbrev pub Report : Type 0
Report = Text × Object × Bool

-- The loop over the objects of a node: the calls, the node, and the tree of the deleted objects.
unfoldable pub drain : Text → ℕ → List Text → Node → Tree → List Report × Node × Tree
drain ns epoch [] node dead = ([], node, dead)
drain ns epoch (object_id ∷ ids) node dead =
    let (removed, node') = del object_id epoch node in
    elim removed [
      | none ↦ drain ns epoch ids node' dead
      | some obj ↦
          let (reports, node'', dead') = drain ns epoch ids node' (force_put_at ns obj dead) in
          ((ns, obj, false) ∷ reports, node'', dead')
    ]

-- The loop over the tree: the calls, the tree, and the tree of the deleted objects.
unfoldable pub delete_nested : Text → ℕ → Tree → Tree → List Report × Tree × Tree
delete_nested path epoch [] dead = ([], [], dead)
delete_nested path epoch ((ns, node) ∷ tree) dead =
    let (found, node', dead') =
      if has_prefix ns path
      then drain ns epoch (keys node.objects) node dead
      else ([], node, dead) in
    let (reports, tree', dead'') = delete_nested path epoch tree dead' in
    (found ++ reports, (ns, node') ∷ tree', dead'')

unfoldable pub delete_below : Text → ℕ → Backend → List Report × Backend
delete_below path epoch b =
    let (reports, tree, dead) = delete_nested path epoch b.tree b.dead in
    (reports, record b { tree = tree; dead = dead })

-- What `delete` does with the node of the namespace.
unfoldable pub delete_in :
    Text → ℕ → Bool → Text → Option Object × Node → Backend → List Report × Backend
delete_in path epoch require_exact ns (none, node) b =
    if require_exact then ([], b) else delete_below path epoch b
delete_in path epoch require_exact ns (some obj, node) b =
    let b' = record b { tree = insert ns node b.tree; dead = force_put_at ns obj b.dead } in
    let (reports, b'') = delete_below path epoch b' in ((ns, obj, true) ∷ reports, b'')

unfoldable pub delete : Text → ℕ → Bool → Backend → List Report × Backend
delete path epoch require_exact b =
    let (ns, object_id) = split path in
    elim (get_node ns b.tree) [
      | none ↦ ([], b)
      | some node ↦ delete_in path epoch require_exact ns (del object_id epoch node) b
    ]
