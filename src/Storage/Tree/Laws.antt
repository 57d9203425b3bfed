-- ===== src/Storage/Tree/Laws.antt =====
-- internal/conn/memory/storage/store.go: what the operations on trees change, object by object.
use riposo.Prelude.{
  ℕ, ◌≤◌, ◌<◌, ◌≡◌, refl, ap, ◌∙◌, true, false, ◌&&◌, Option, none, some, [], ◌∷◌, arith,
  if◌then◌else◌, Bool-cases, Option-cases, inl, inr, is_empty, Text, text_eq, text_eq_iff, Dict,
  lookup, insert, delete, lookup-insert, lookup-delete,
}
use riposo.Schema.{Object, copy}
use riposo.Storage.Tree.{
  Node, Tree, copy_node, copy_objects, get_object, next_epoch, put, force_put, get_node, fetch_node,
  get, unlink, put_at, force_put_at,
}

pub copy-eq : (o : Object) → copy o ≡ o
unfolding copy
copy-eq o = refl

copy_objects-eq : (m : Dict Object) → copy_objects m ≡ m
unfolding copy_objects
copy_objects-eq [] = refl
copy_objects-eq ((k, o) ∷ m) = λ i. (k, copy-eq o i) ∷ copy_objects-eq m i

pub copy_node-eq : (n : Option Node) → copy_node n ≡ n
unfolding copy_node
copy_node-eq none = refl
copy_node-eq (some n) = λ i. some (record n { objects = copy_objects-eq n.objects i })

-- The node of a namespace, or the new one that `FetchNode` makes.
unfoldable pub node_at : Text → Tree → Node
node_at ns t = elim (lookup ns t) [
  | some node ↦ node
  | none ↦ record { objects = []; mod_time = 0 }
]

-- The epoch of the last change of a namespace.
unfoldable pub epoch_at : Text → Tree → ℕ
unfolding node_at
epoch_at ns t = (node_at ns t).mod_time

pub get-node_at :
    (ns object_id : Text) (t : Tree) → get ns object_id t ≡ lookup object_id (node_at ns t).objects
unfolding get get_node get_object node_at
get-node_at ns object_id t = elim (Option-cases (lookup ns t)) [
  | inl e ↦ rw (e, get_object, node_at) (unfold lookup in refl)
  | inr (node, e) ↦ rw (e, get_object, node_at) refl
]

fetch_node-node : (ns : Text) (t : Tree) → (fetch_node ns 0 t).0 ≡ node_at ns t
unfolding fetch_node node_at
fetch_node-node ns t = ground arith

fetch_node-tree :
    (ns k : Text) (t : Tree) → text_eq ns k ≡ false → lookup k (fetch_node ns 0 t).1 ≡ lookup k t
unfolding fetch_node
fetch_node-tree ns k t h =
    ground (arith, lookup-insert ns k (record { objects = []; mod_time = 0 }) t)

-- What stands at a namespace after its node was fetched and changed.
insert-fetch_node :
    (ns k : Text) (node : Node) (t : Tree)
    → lookup k (insert ns node (fetch_node ns 0 t).1)
      ≡ (if text_eq ns k then some node else lookup k t)
insert-fetch_node ns k node t =
    ground (arith, lookup-insert ns k node (fetch_node ns 0 t).1, fetch_node-tree ns k t)

pub lookup-put_at :
    (ns k : Text) (obj : Object) (now : ℕ) (t : Tree)
    → lookup k (put_at ns obj now t).1
      ≡ (if text_eq ns k then some (put obj now (node_at ns t)).1 else lookup k t)
unfolding put_at
lookup-put_at ns k obj now t =
    insert-fetch_node ns k (put obj now (fetch_node ns 0 t).0).1 t
    ∙ ap (λ n. if text_eq ns k then some (put obj now n).1 else lookup k t) (fetch_node-node ns t)

pub object-put_at :
    (ns : Text) (obj : Object) (now : ℕ) (t : Tree)
    → (put_at ns obj now t).0 ≡ record obj { mod_time = next_epoch now (node_at ns t) }
unfolding put_at put
object-put_at ns obj now t =
    ap (λ n. record obj { mod_time = next_epoch now n }) (fetch_node-node ns t)

pub lookup-force_put_at :
    (ns k : Text) (obj : Object) (t : Tree)
    → lookup k (force_put_at ns obj t)
      ≡ (if text_eq ns k then some (force_put obj (node_at ns t)) else lookup k t)
unfolding force_put_at
lookup-force_put_at ns k obj t =
    insert-fetch_node ns k (force_put obj (fetch_node ns 0 t).0) t
    ∙ ap (λ n. if text_eq ns k then some (force_put obj n) else lookup k t) (fetch_node-node ns t)

get-at :
    (ns k object_id : Text) (t t' : Tree) (node : Node)
    → lookup k t' ≡ (if text_eq ns k then some node else lookup k t)
    → get k object_id t'
      ≡ (if text_eq ns k then lookup object_id node.objects else get k object_id t)
unfolding get get_node get_object
get-at ns k object_id t t' node l = ground (arith, l)

-- The object of a put is found at its place, and the others as before.
pub get-put_at :
    (ns k object_id : Text) (obj : Object) (now : ℕ) (t : Tree)
    → get k object_id (put_at ns obj now t).1 ≡ (
        if text_eq ns k && text_eq obj.id object_id
        then some (put_at ns obj now t).0
        else get k object_id t)
get-put_at ns k object_id obj now t =
    let obj' = record obj { mod_time = next_epoch now (node_at ns t) } in
    get-at ns k object_id t (put_at ns obj now t).1 (put obj now (node_at ns t)).1
      (lookup-put_at ns k obj now t)
    ∙ rw (object-put_at ns obj now t) (
        unfold put copy in
        ground (
          arith,
          lookup-insert obj.id object_id obj' (node_at ns t).objects,
          text_eq_iff ns k,
          get-node_at k object_id t,
        ))

pub get-force_put_at :
    (ns k object_id : Text) (obj : Object) (t : Tree)
    → get k object_id (force_put_at ns obj t)
      ≡ (if text_eq ns k && text_eq obj.id object_id then some obj else get k object_id t)
get-force_put_at ns k object_id obj t =
    get-at ns k object_id t (force_put_at ns obj t) (force_put obj (node_at ns t))
      (lookup-force_put_at ns k obj t)
    ∙ unfold force_put copy in
      ground (
        arith,
        lookup-insert obj.id object_id obj (node_at ns t).objects,
        text_eq_iff ns k,
        get-node_at k object_id t,
      )

lookup-is_empty : (k : Text) (m : Dict Object) → is_empty m ≡ true → lookup k m ≡ none
unfolding lookup
lookup-is_empty k [] h = refl
lookup-is_empty k (e ∷ m) h = cc

pub get-unlink :
    (ns k object_id gone : Text) (t : Tree)
    → get k object_id (unlink ns gone t)
      ≡ (if text_eq ns k && text_eq gone object_id then none else get k object_id t)
unfolding get get_node get_object unlink
get-unlink ns k object_id gone t = elim (Option-cases (lookup ns t)) [
  | inl e ↦ rw (e, unlink) (ground (arith, text_eq_iff ns k))
  | inr (node, e) ↦
      rw (e, unlink)
        (elim (Bool-cases (is_empty (delete gone node.objects))) [
          | inl last ↦ ground (
            arith,
            lookup-delete ns k t,
            text_eq_iff ns k,
            lookup-delete gone object_id node.objects,
            lookup-is_empty object_id (delete gone node.objects) last,
          )
          | inr more ↦ ground (
            arith,
            text_eq_iff ns k,
            lookup-delete gone object_id node.objects,
            lookup-insert ns k (record node { objects = delete gone node.objects }) t,
          )
        ])
]

pub lookup-unlink_ne :
    (ns k gone : Text) (t : Tree) → text_eq ns k ≡ false → lookup k (unlink ns gone t) ≡ lookup k t
unfolding unlink get_node
lookup-unlink_ne ns k gone t apart = elim (Option-cases (lookup ns t)) [
  | inl e ↦ rw (e, unlink) refl
  | inr (node, e) ↦
      rw (e, unlink)
        (ground (
          arith,
          lookup-delete ns k t,
          lookup-insert ns k (record node { objects = delete gone node.objects }) t,
        ))
]

-- A write moves the epoch of its namespace forward, to the clock's or beyond.
pub next_epoch_lem :
    (now : ℕ) (n : Node) → (n.mod_time < next_epoch now n) × (now ≤ next_epoch now n)
unfolding next_epoch
next_epoch_lem now n = ground arith
