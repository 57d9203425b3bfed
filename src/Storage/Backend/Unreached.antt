-- ===== src/Storage/Backend/Unreached.antt =====
-- internal/conn/memory/storage/storage.go: the namespaces that `delete` leaves as they are.
use riposo.Prelude.{
  ℕ, ◌≡◌, refl, ap, ◌∙◌, Bool, true, false, Option, none, some, List, [], ◌∷◌, arith, if◌then◌else◌,
  Bool-cases, Option-cases, inl, inr, Text, text_eq, text_eq_iff, lookup, insert, keys,
  lookup-insert, has_prefix,
}
use riposo.Path.{namespace}
use riposo.Schema.{Object}
use riposo.Storage.Tree.{Node, Tree, del, get_node, force_put, force_put_at}
use riposo.Storage.Tree.Laws.{node_at, lookup-force_put_at}
use riposo.Storage.Backend.{Backend, drain, delete_nested, delete_below, delete_in, delete}

-- The nodes of namespaces that a deletion does not reach stay as they are, live and dead.
lookup-drain_dead :
    (ns k : Text) (epoch : ℕ) (ids : List Text) (node : Node) (dead : Tree)
    → text_eq ns k ≡ false
    → lookup k (drain ns epoch ids node dead).2 ≡ lookup k dead
unfolding drain
lookup-drain_dead ns k epoch [] node dead h = refl
lookup-drain_dead ns k epoch (id ∷ ids) node dead h = elim (Option-cases (del id epoch node).0) [
  | inl e ↦ rw (e, drain) (lookup-drain_dead ns k epoch ids (del id epoch node).1 dead h)
  | inr (obj, e) ↦
      rw (e, drain)
        (lookup-drain_dead ns k epoch ids (del id epoch node).1 (force_put_at ns obj dead) h
          ∙ lookup-force_put_at ns k obj dead
          ∙ ap (λ b. if b then some (force_put obj (node_at ns dead)) else lookup k dead) h)
]

lookup-cons :
    (ns k : Text) (node : Node) (t : Tree)
    → lookup k ((ns, node) ∷ t) ≡ (if text_eq ns k then some node else lookup k t)
unfolding lookup
lookup-cons ns k node t = refl

lookup-delete_nested :
    (path k : Text) (epoch : ℕ) (tree dead : Tree)
    → has_prefix k path ≡ false
    → (lookup k (delete_nested path epoch tree dead).1 ≡ lookup k tree)
      × (lookup k (delete_nested path epoch tree dead).2 ≡ lookup k dead)
unfolding delete_nested
lookup-delete_nested path k epoch [] dead h = (refl, refl)
lookup-delete_nested path k epoch ((ns, node) ∷ tree) dead h =
    elim (Bool-cases (has_prefix ns path)) [
      | inl below ↦
          let d = drain ns epoch (keys node.objects) node dead in
          let (live, gone) = lookup-delete_nested path k epoch tree d.2 h in
          let apart : text_eq ns k ≡ false = ground (arith, text_eq_iff ns k) in
          rw (below) (
            rw (lookup-cons, lookup-cons, apart) live,
            gone ∙ lookup-drain_dead ns k epoch (keys node.objects) node dead apart,
          )
      | inr aside ↦
          let (live, gone) = lookup-delete_nested path k epoch tree dead h in
          rw (aside) (
            rw (lookup-cons, lookup-cons) (ap (λ n. if text_eq ns k then some node else n) live),
            gone,
          )
    ]

-- Two backends have the same nodes at a namespace.
abbrev pub SameAt : Text → Backend → Backend → Type 0
SameAt k b c = (lookup k b.tree ≡ lookup k c.tree) × (lookup k b.dead ≡ lookup k c.dead)

delete_in-SameAt :
    (path k ns : Text) (epoch : ℕ) (require_exact : Bool) (found : Option Object × Node)
    (b : Backend)
    → text_eq ns k ≡ false
    → has_prefix k path ≡ false
    → SameAt k (delete_in path epoch require_exact ns found b).1 b
unfolding delete_in delete_below
delete_in-SameAt path k ns epoch true (none, node) b apart aside = (refl, refl)
delete_in-SameAt path k ns epoch false (none, node) b apart aside =
    lookup-delete_nested path k epoch b.tree b.dead aside
delete_in-SameAt path k ns epoch require_exact (some obj, node) b apart aside =
    let (live, gone) =
      lookup-delete_nested path k epoch (insert ns node b.tree) (force_put_at ns obj b.dead)
        aside in
    (
      live ∙ ground (arith, lookup-insert ns k node b.tree),
      gone ∙ ground (arith, lookup-force_put_at ns k obj b.dead),
    )

pub delete-SameAt :
    (path k : Text) (epoch : ℕ) (require_exact : Bool) (b : Backend)
    → text_eq (namespace path) k ≡ false
    → has_prefix k path ≡ false
    → SameAt k (delete path epoch require_exact b).1 b
unfolding delete namespace get_node
delete-SameAt path k epoch require_exact b apart aside =
    elim (Option-cases (lookup (namespace path) b.tree)) [
      | inl e ↦ rw (e, delete) (refl, refl)
      | inr (node, e) ↦
          rw (e, delete)
            (delete_in-SameAt path k (namespace path) epoch require_exact _ b apart aside)
    ]
