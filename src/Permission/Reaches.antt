-- ===== src/Permission/Reaches.antt =====
-- internal/conn/memory/permission/permission.go: the loop of GetAccessiblePaths over the permissions of paths.
use riposo.Prelude.{
  ◌≡◌, refl, sym, ap, ◌∙◌, ◌↔◌, Bool, true, false, ◌&&◌, ◌||◌, Option, none, some, List, [], ◌∷◌,
  ◌++◌, arith, if◌then◌else◌, Bool-cases, Option-cases, inl, inr, Text, text_eq, text_eq_iff,
  text_eq_refl, Dict, lookup, elem, IsMap,
}
use riposo.Set.{Set, has, has_any}
use riposo.Set.Members.{has_any_iff}
use riposo.Permission.{or_empty}
use riposo.Permission.Aces.{Ace, match, grants, accessible}
use riposo.Permission.Holds.{holds}

-- Each permission of each path is kept once, as in any maps of Go.
abbrev pub HoldMaps : Dict (Dict Set) → Type 0
HoldMaps [] = Unit
HoldMaps ((path, m) ∷ perms) = (lookup path perms ≡ none) × IsMap m × HoldMaps perms

-- One of the principals has a permission on a path that one of the entries asks for.
abbrev pub Reaches : List Text → List Ace → Text → Option (Dict Set) → Type 0
Reaches principals ents path o =
    (perm : Text) × (v : Text) × (match ents path perm ≡ true)
    × (elem v principals ≡ true)
    × (holds v (lookup perm (or_empty o)) ≡ true)

lookup_nothing : (perm v : Text) → holds v (lookup {V = Set} perm []) ≡ false
unfolding lookup has
lookup_nothing perm v = refl

grants_sound :
    (principals : List Text) (ents : List Ace) (path : Text) (m : Dict Set)
    → IsMap m
    → grants principals ents path m ≡ true
    → Reaches principals ents path (some m)
unfolding grants lookup
grants_sound principals ents path [] n h = absurd (ground arith)
grants_sound principals ents path ((perm, allowed) ∷ m) n h =
    elim (Bool-cases (match ents path perm && has_any allowed principals)) [
      | inl e ↦
          let (v, p, q) = (has_any_iff allowed principals).0 (ground arith) in
          (perm, v, ground arith, p, ground (arith, text_eq_refl perm))
      | inr e ↦
          let (k, v, a, p, q) = grants_sound principals ents path m n.1 (ground arith) in
          (k, v, a, p, at_key k v q)
    ]
  where
    at_key :
        (k v : Text)
        → holds v (lookup k m) ≡ true
        → holds v (if text_eq perm k then some allowed else lookup k m) ≡ true
    at_key k v q = elim (Bool-cases (text_eq perm k)) [
      | inl e ↦ absurd (
          ground (
            arith,
            ap (λ x. holds v (lookup x m)) ((text_eq_iff perm k).0 e),
            ap (holds v) n.0,
            lookup_nothing perm v,
          ))
      | inr e ↦ rw e q
    ]

grants_complete :
    (principals : List Text) (ents : List Ace) (path : Text) (m : Dict Set)
    → Reaches principals ents path (some m)
    → grants principals ents path m ≡ true
unfolding grants lookup
grants_complete principals ents path [] (k, v, a, p, q) =
    absurd (ground (arith, lookup_nothing k v))
grants_complete principals ents path ((perm, allowed) ∷ m) (k, v, a, p, q) =
    elim (Bool-cases (text_eq perm k)) [
      | inl e ↦
          let found = (has_any_iff allowed principals).1 (v, p, here e) in
          ground (arith, text_eq_iff perm k)
      | inr e ↦ ground (arith, grants_complete principals ents path m (k, v, a, p, there e))
    ]
  where
    here : text_eq perm k ≡ true → has allowed v ≡ true
    here e = sym (ap (λ b. holds v (if b then some allowed else lookup k m)) e) ∙ q

    there : text_eq perm k ≡ false → holds v (lookup k m) ≡ true
    there e = sym (ap (λ b. holds v (if b then some allowed else lookup k m)) e) ∙ q

pub elem-snoc : (p q : Text) (xs : List Text) → elem p (xs ++ q ∷ []) ≡ (elem p xs || text_eq q p)
unfolding elem
elem-snoc p q [] = ground arith
elem-snoc p q (x ∷ xs) = ground (arith, elem-snoc p q xs)

-- Whether the permissions of a path that may be missing grant access.
pub granted : List Text → List Ace → Text → Option (Dict Set) → Bool
granted principals ents path none = false
granted principals ents path (some m) = grants principals ents path m

pub elem-accessible :
    (principals : List Text) (ents : List Ace) (perms : Dict (Dict Set)) (dst : List Text)
    (p : Text)
    → HoldMaps perms
    → elem p (accessible principals ents perms dst)
      ≡ (elem p dst || granted principals ents p (lookup p perms))
unfolding accessible lookup granted
elem-accessible principals ents [] dst p n = ground arith
elem-accessible principals ents ((path, m) ∷ perms) dst p n =
    let yes = grants principals ents path m in
    let dst' = if yes then dst ++ path ∷ [] else dst in
    elem-accessible principals ents perms dst' p n.2 ∙ elim (Bool-cases (text_eq path p)) [
      | inl e ↦ rw e (at_path e)
      | inr e ↦ rw e (elim (Bool-cases yes) [
        | inl y ↦ rw y (ground (arith, elem-snoc p path dst))
        | inr y ↦ rw y refl
      ])
    ]
  where
    at_path :
        text_eq path p ≡ true
        → (elem p (if grants principals ents path m then dst ++ path ∷ [] else dst)
            || granted principals ents p (lookup p perms))
          ≡ (elem p dst || grants principals ents p m)
    at_path e =
        let same = (text_eq_iff path p).0 e in
        let gone : lookup p perms ≡ none = ap (λ x. lookup x perms) (sym same) ∙ n.0 in
        let as_p : grants principals ents path m ≡ grants principals ents p m =
          ap (λ x. grants principals ents x m) same in
        elim (Bool-cases (grants principals ents path m)) [
          | inl y ↦ rw (y, gone) (ground (arith, elem-snoc p path dst))
          | inr y ↦ rw (y, gone) (ground arith)
        ]

HoldMaps-lookup :
    (path : Text) (perms : Dict (Dict Set)) (m : Dict Set)
    → HoldMaps perms
    → lookup path perms ≡ some m
    → IsMap m
unfolding lookup
HoldMaps-lookup path [] m n e = absurd (ground arith)
HoldMaps-lookup path ((k, m') ∷ perms) m n e = elim (Bool-cases (text_eq k path)) [
  | inl here ↦ ground arith
  | inr there ↦ HoldMaps-lookup path perms m n.2 (ground arith)
]

pub granted_iff :
    (principals : List Text) (ents : List Ace) (path : Text) (perms : Dict (Dict Set))
    → HoldMaps perms
    → (granted principals ents path (lookup path perms) ≡ true)
      ↔ Reaches principals ents path (lookup path perms)
unfolding granted
granted_iff principals ents path perms n = elim (Option-cases (lookup path perms)) [
  | inl e ↦
      rw (e, granted)
        (λ h. absurd (ground arith), λ (k, v, a, p, q). absurd (ground (arith, lookup_nothing k v)))
  | inr (m, e) ↦
      rw (e, granted)
        (
          grants_sound principals ents path m (HoldMaps-lookup path perms m n e),
          grants_complete principals ents path m,
        )
]
