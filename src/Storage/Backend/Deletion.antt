-- ===== src/Storage/Backend/Deletion.antt =====
-- internal/conn/memory/storage/storage.go: what `delete` hands over and which objects it
-- takes away.
use riposo.Prelude.{
  ℕ, ◌≡◌, refl, sym, ◌∙◌, Bool, true, ◌&&◌, ◌||◌, none, some, List, [], ◌∷◌, arith, if◌then◌else◌,
  Bool-cases, Option-cases, inl, inr, Text, text_eq, text_eq_iff, lookup, insert, keys, elem,
  elem-keys, is_some, lookup-insert, lookup-delete, has_prefix,
}
use riposo.Path.{namespace, object_id}
use riposo.Schema.{Object}
use riposo.Storage.Tree
use riposo.Storage.Tree.{Node, Tree, del, get_node, get_object, force_put, force_put_at, next_epoch}
use riposo.Storage.Backend.{Backend, drain, delete_nested, delete_below, delete_in, delete}

lookup-del :
    (id j : Text) (epoch : ℕ) (node : Node)
    → lookup j (del id epoch node).1.objects
      ≡ (if text_eq id j then none else lookup j node.objects)
unfolding del
lookup-del id j epoch node = ground (arith, lookup-delete id j node.objects, text_eq_iff id j)

is_some-del :
    (id : Text) (epoch : ℕ) (node : Node)
    → is_some (del id epoch node).0 ≡ is_some (lookup id node.objects)
unfolding del
is_some-del id epoch node = ground arith

lookup-drain :
    (ns j : Text) (epoch : ℕ) (ids : List Text) (node : Node) (dead : Tree)
    → lookup j (drain ns epoch ids node dead).1.objects
      ≡ (if elem j ids then none else lookup j node.objects)
unfolding drain elem
lookup-drain ns j epoch [] node dead = refl
lookup-drain ns j epoch (id ∷ ids) node dead = elim (Option-cases (del id epoch node).0) [
  | inl e ↦
      rw (e, drain)
        (ground (
          arith,
          lookup-drain ns j epoch ids (del id epoch node).1 dead,
          lookup-del id j epoch node,
        ))
  | inr (obj, e) ↦
      rw (e, drain)
        (ground (
          arith,
          lookup-drain ns j epoch ids (del id epoch node).1 (force_put_at ns obj dead),
          lookup-del id j epoch node,
        ))
]

-- The tree with one more node in front.
get-cons :
    (ns k j : Text) (node : Node) (t : Tree)
    → Tree.get k j ((ns, node) ∷ t)
      ≡ (if text_eq ns k then lookup j node.objects else Tree.get k j t)
unfolding Tree.get get_node get_object lookup
get-cons ns k j node t = ground arith

get-delete_nested :
    (path k j : Text) (epoch : ℕ) (tree dead : Tree)
    → Tree.get k j (delete_nested path epoch tree dead).1
      ≡ (if has_prefix k path then none else Tree.get k j tree)
unfolding delete_nested
get-delete_nested path k j epoch [] dead =
    unfold Tree.get get_node get_object lookup in ground arith
get-delete_nested path k j epoch ((ns, node) ∷ tree) dead = elim (Bool-cases (has_prefix ns path)) [
  | inl below ↦
      let d = drain ns epoch (keys node.objects) node dead in
      rw (below, get-cons, get-cons, get-delete_nested path k j epoch tree d.2)
        (ground (
          arith,
          lookup-drain ns j epoch (keys node.objects) node dead,
          elem-keys node.objects j,
          text_eq_iff ns k,
        ))
  | inr aside ↦
      rw (aside, get-cons, get-cons, get-delete_nested path k j epoch tree dead)
        (ground (arith, text_eq_iff ns k))
]

get-delete_below :
    (path k j : Text) (epoch : ℕ) (b : Backend)
    → Tree.get k j (delete_below path epoch b).1.tree
      ≡ (if has_prefix k path then none else Tree.get k j b.tree)
unfolding delete_below
get-delete_below path k j epoch b = get-delete_nested path k j epoch b.tree b.dead

-- The tree after the node of a namespace was changed.
get-insert :
    (ns k j : Text) (node : Node) (t : Tree)
    → Tree.get k j (insert ns node t)
      ≡ (if text_eq ns k then lookup j node.objects else Tree.get k j t)
unfolding Tree.get get_node get_object
get-insert ns k j node t = ground (arith, lookup-insert ns k node t)

at_node :
    (ns j : Text) (t : Tree) (node : Node)
    → lookup ns t ≡ some node
    → Tree.get ns j t ≡ lookup j node.objects
unfolding Tree.get get_node get_object
at_node ns j t node e = ground arith

-- Whether `delete` takes away an object that stands at a namespace and an ID.
unfoldable pub targets : Text → Text → Text → Bool
targets path k j = (text_eq (namespace path) k && text_eq (object_id path) j) || has_prefix k path

-- The object as `delete` hands it over.
unfoldable pub removed : Object → ℕ → Node → Object
removed o epoch node = record o { mod_time = next_epoch epoch node; deleted = true }

-- The backend after the object itself was deleted.
unfoldable pub without : Text → ℕ → Node → Object → Backend → Backend
without path epoch node o b = record b {
  tree = insert (namespace path) (del (object_id path) epoch node).1 b.tree;
  dead = force_put_at (namespace path) (removed o epoch node) b.dead;
}

object_parts :
    (ns id : Text) (t : Tree)
    → is_some (Tree.get ns id t) ≡ true
    → (node : Node) × (o : Object) × (lookup ns t ≡ some node) × (lookup id node.objects ≡ some o)
unfolding Tree.get get_node get_object
object_parts ns id t h = elim (Option-cases (lookup ns t)) [
  | inl e ↦ absurd (ground arith)
  | inr (node, e) ↦ elim (Option-cases (lookup id node.objects)) [
    | inl f ↦ absurd (ground arith)
    | inr (o, f) ↦ (node, o, e, f)
  ]
]

-- What `delete` does where the object exists.
pub delete-found :
    (path : Text) (epoch : ℕ) (require_exact : Bool) (b : Backend)
    → is_some (Tree.get (namespace path) (object_id path) b.tree) ≡ true
    → (node : Node) × (o : Object) × (lookup (namespace path) b.tree ≡ some node)
      × (lookup (object_id path) node.objects ≡ some o)
      × (delete path epoch require_exact b ≡ (
        (namespace path, removed o epoch node, true)
            ∷ (delete_below path epoch (without path epoch node o b)).0,
        (delete_below path epoch (without path epoch node o b)).1,
      ))
unfolding delete namespace object_id delete_in
delete-found path epoch require_exact b h =
    let (node, o, e, f) = object_parts (namespace path) (object_id path) b.tree h in
    (node, o, e, f, unfold get_node del removed without in ground arith)

-- Deleting an object that exists takes it away, and with it exactly the objects of the namespaces
-- that begin with its path; all other objects stay.
pub get-delete :
    (path k j : Text) (epoch : ℕ) (require_exact : Bool) (b : Backend)
    → is_some (Tree.get (namespace path) (object_id path) b.tree) ≡ true
    → Tree.get k j (delete path epoch require_exact b).1.tree
      ≡ (if targets path k j then none else Tree.get k j b.tree)
get-delete path k j epoch require_exact b there =
    let ns = namespace path in
    let (node, o, e, f, d) = delete-found path epoch require_exact b there in
    let b' = without path epoch node o b in
    rw d (
      get-delete_below path k j epoch b'
      ∙ unfold targets without in
        ground (
          arith,
          get-insert ns k j (del (object_id path) epoch node).1 b.tree,
          lookup-del (object_id path) j epoch node,
          text_eq_iff ns k,
          at_node ns j b.tree node e,
        ))

-- Where the object does not exist and has to, nothing is deleted.
pub delete_missing :
    (path : Text) (epoch : ℕ) (b : Backend)
    → Tree.get (namespace path) (object_id path) b.tree ≡ none
    → delete path epoch true b ≡ ([], b)
unfolding delete namespace object_id get_node
delete_missing path epoch b h = elim (Option-cases (lookup (namespace path) b.tree)) [
  | inl e ↦ rw (e, delete) refl
  | inr (node, e) ↦
      let f : lookup (object_id path) node.objects ≡ none =
        sym (at_node (namespace path) (object_id path) b.tree node e) ∙ h in
      unfold del delete_in in ground arith
]
