-- ===== src/Storage/Tree.antt =====
-- internal/conn/memory/storage/store.go: nodes, which hold the objects of a namespace and the
-- epoch of its last change, and trees, which are maps of nodes. A node that is changed in place
-- is put back under its namespace. Objects are copied by value, so `copyObject` leaves no trace.
pub mod Laws
use riposo.Prelude.{
  ℕ, ◌+◌, Bool, true, false, Option, none, some, List, [], ◌∷◌, ◌++◌, leb, if◌then◌else◌, length,
  is_empty, Text, Dict, lookup, insert, delete,
}
use riposo.Schema.{Object, copy}

pub record Node : Type 0 where
  pub objects : Dict Object
  pub mod_time : ℕ

unfoldable pub len : Option Node → ℕ
len none = 0
len (some n) = length n.objects

copy_objects : Dict Object → Dict Object
copy_objects [] = []
copy_objects ((object_id, o) ∷ objects) = (object_id, copy o) ∷ copy_objects objects

-- `Copy` of a node that may be nil
unfoldable pub copy_node : Option Node → Option Node
unfolding copy_objects copy
copy_node none = none
copy_node (some n) = some (record { objects = copy_objects n.objects; mod_time = n.mod_time })

-- `Get` of a node that may be nil
unfoldable pub get_object : Text → Option Node → Option Object
get_object object_id none = none
get_object object_id (some n) = lookup object_id n.objects

-- An epoch after that of the node.
unfoldable pub next_epoch : ℕ → Node → ℕ
next_epoch mod_time n = if leb mod_time n.mod_time then n.mod_time + 1 else mod_time

-- `Put`: the object as the caller has it afterwards, and the node.
unfoldable pub put : Object → ℕ → Node → Object × Node
put obj mod_time n =
    let epoch = next_epoch mod_time n in
    let obj' = record obj { mod_time = epoch } in
    (obj', record n { objects = insert obj.id (copy obj') n.objects; mod_time = epoch })

unfoldable pub force_put : Object → Node → Node
force_put obj n = record n { objects = insert obj.id (copy obj) n.objects }

-- `Del`: the object that was removed, if there was one, and the node.
unfoldable pub del : Text → ℕ → Node → Option Object × Node
del object_id mod_time n = elim (lookup object_id n.objects) [
  | none ↦ (none, n)
  | some o ↦
      let epoch = next_epoch mod_time n in
      (
        some (record o { mod_time = epoch; deleted = true }),
        record n { objects = delete object_id n.objects; mod_time = epoch },
      )
]

abbrev pub Tree : Type 0
Tree = Dict Node

unfoldable pub tree_len : Tree → ℕ
unfolding len
tree_len [] = 0
tree_len ((ns, node) ∷ t) = len (some node) + tree_len t

unfoldable pub get_node : Text → Tree → Option Node
get_node ns t = lookup ns t

unfoldable pub fetch_node : Text → ℕ → Tree → Node × Tree
fetch_node ns mod_time t = elim (lookup ns t) [
  | some node ↦ (node, t)
  | none ↦
      let node : Node = record { objects = []; mod_time = mod_time } in (node, insert ns node t)
]

unfoldable pub get : Text → Text → Tree → Option Object
get ns object_id t = get_object object_id (get_node ns t)

unfoldable pub unlink : Text → Text → Tree → Tree
unlink ns object_id t = elim (get_node ns t) [
  | none ↦ t
  | some node ↦
      let objects = delete object_id node.objects in
      if is_empty objects then delete ns t else insert ns (record node { objects = objects }) t
]

unfoldable pub matching : (Object → Bool) → Dict Object → List Object
matching matches [] = []
matching matches ((object_id, o) ∷ objects) =
    let rest = matching matches objects in if matches o then o ∷ rest else rest

-- `Each`: the objects that the callback is called with. `matches` is `conditionMatch` with the
-- condition.
unfoldable pub each : Text → (Object → Bool) → Tree → List Object
unfolding matching
each ns matches t = elim (get_node ns t) [ none ↦ [] | some node ↦ matching matches node.objects ]

-- t.FetchNode(ns, 0).Put(obj, modTime)
unfoldable pub put_at : Text → Object → ℕ → Tree → Object × Tree
put_at ns obj mod_time t =
    let (node, t') = fetch_node ns 0 t in
    let (obj', node') = put obj mod_time node in (obj', insert ns node' t')

-- t.FetchNode(ns, 0).ForcePut(obj)
unfoldable pub force_put_at : Text → Object → Tree → Tree
force_put_at ns obj t = let (node, t') = fetch_node ns 0 t in insert ns (force_put obj node) t'
