-- ===== src/Permission/Grants/Deletes.antt =====
-- internal/conn/memory/permission/permission.go: what `DeletePermissions` takes away.
use riposo.Permission.Grants.Users.{has_nothing}
use riposo.Permission.Grants.Entries.{drop_perms-done, drop_perms-b}
use riposo.Prelude.{
  ◌≡◌, has_prefix, refl, sym, ap, ◌∙◌, false, ◌&&◌, List, [], ◌∷◌, arith, if◌then◌else◌, Bool-cases,
  Option-cases, inl, inr, Text, text_eq, text_eq_iff, lookup, delete, keys, elem, elem-keys,
  lookup-delete,
}
use riposo.Set.{Set}
use riposo.Permission.{Backend, Transaction, or_empty}
use riposo.Permission.Aces.{
  set_at, covers, drop_perms, drop_covered, delete_each, delete_permissions,
}
use riposo.Permission.Calls.{delete_call}
use riposo.Permission.Holds.{holds}
use riposo.Permission.Grants.{
  Users, Entries, covered, own_or_below, expect_entries, Shows, same-Shows,
}

-- The entries without those of one path.
unfoldable pub without_path : Text → Entries → Entries
without_path k g path perm v = if text_eq k path then false else g path perm v

-- The entries without those of the paths of a list that the patterns cover.
unfoldable pub without_paths : List Text → List Text → Entries → Entries
without_paths patterns paths g path perm v =
    if elem path paths && covered patterns path then false else g path perm v

drop_perms-Shows :
    (k : Text) (t : Transaction) (f : Users) (g : Entries)
    → Shows f g t
    → Shows f (without_path k g) (drop_perms k t)
unfolding set_at without_path
drop_perms-Shows k t f g h = record {
  open_yet = drop_perms-done k t ∙ h.open_yet;
  users = λ u v. ap (λ (b : Backend). holds v (lookup u b.users)) (drop_perms-b k t) ∙ h.users u v;
  entries = λ path perm v.
      ap (λ (b : Backend). holds v (set_at path perm b.perms)) (drop_perms-b k t)
      ∙ at_path path perm v;
}
  where
    nothing_at : (perm v : Text) → holds v (lookup {V = Set} perm []) ≡ false
    nothing_at perm v = unfold lookup in has_nothing v

    at_path :
        (path perm v : Text)
        → holds v (set_at path perm (delete k t.b.perms)) ≡ without_path k g path perm v
    at_path path perm v = elim (Bool-cases (text_eq k path)) [
      | inl e ↦ rw (lookup-delete, e) (nothing_at perm v)
      | inr e ↦ rw (lookup-delete, e) (h.entries path perm v)
    ]

covers-lem : (pattern path : Text) → covers pattern path ≡ own_or_below pattern path
unfolding covers text_eq has_prefix own_or_below
covers-lem [] [] = refl
covers-lem [] (c ∷ path) = ground arith
covers-lem (p ∷ pattern) [] = ground arith
covers-lem (p ∷ pattern) (c ∷ path) = ground (arith, covers-lem pattern path)

drop_covered-Shows :
    (patterns : List Text) (k : Text) (t : Transaction) (f : Users) (g : Entries)
    → Shows f g t
    → Shows f (without_paths patterns (k ∷ []) g) (drop_covered patterns k t)
unfolding drop_covered
drop_covered-Shows [] k t f g h =
    same-Shows f f g _ t (λ u v. refl)
      (λ path perm v. unfold without_paths covered elem in ground arith) h
drop_covered-Shows (pattern ∷ patterns) k t f g h = elim (Bool-cases (covers pattern k)) [
  | inl e ↦ rw e (
      same-Shows f f (without_paths patterns (k ∷ []) (without_path k g)) _
        (drop_covered patterns k (drop_perms k t)) (λ u v. refl)
        (λ path perm v.
          unfold without_paths without_path covered elem in
          ground (arith, text_eq_iff k path, covers-lem pattern k))
        (drop_covered-Shows patterns k (drop_perms k t) f (without_path k g)
          (drop_perms-Shows k t f g h)))
  | inr e ↦ rw e (
      same-Shows f f (without_paths patterns (k ∷ []) g) _ (drop_covered patterns k t) (λ u v. refl)
        (λ path perm v.
          unfold without_paths covered elem in
          ground (arith, text_eq_iff k path, covers-lem pattern k))
        (drop_covered-Shows patterns k t f g h))
]

delete_each-Shows :
    (patterns paths : List Text) (t : Transaction) (f : Users) (g : Entries)
    → Shows f g t
    → Shows f (without_paths patterns paths g) (delete_each patterns paths t)
unfolding delete_each
delete_each-Shows patterns [] t f g h =
    same-Shows f f g _ t (λ u v. refl) (λ path perm v. unfold without_paths elem in ground arith) h
delete_each-Shows patterns (k ∷ paths) t f g h =
    let t' = drop_covered patterns k t in
    let g' = without_paths patterns (k ∷ []) g in
    same-Shows f f (without_paths patterns paths g') _ (delete_each patterns paths t') (λ u v. refl)
      (λ path perm v. unfold without_paths elem in ground arith)
      (delete_each-Shows patterns paths t' f g' (drop_covered-Shows patterns k t f g h))

-- A path that is not in the map has no principals.
shown_absent :
    (path perm v : Text) (t : Transaction) (f : Users) (g : Entries)
    → Shows f g t
    → elem path (keys t.b.perms) ≡ false
    → g path perm v ≡ false
unfolding set_at
shown_absent path perm v t f g h absent = elim (Option-cases (lookup path t.b.perms)) [
  | inl e ↦
      sym (h.entries path perm v)
      ∙ ap (λ m. holds v (lookup perm (or_empty m))) e
      ∙ unfold lookup in has_nothing v
  | inr (s, e) ↦ absurd (ground (arith, elem-keys t.b.perms path))
]

delete_all-Shows :
    (patterns : List Text) (t : Transaction) (f : Users) (g : Entries)
    → Shows f g t
    → Shows f (expect_entries (delete_call patterns) g) (delete_each patterns (keys t.b.perms) t)
delete_all-Shows patterns t f g h =
    let paths = keys t.b.perms in
    same-Shows f f (without_paths patterns paths g) _ (delete_each patterns paths t) (λ u v. refl)
      (λ path perm v. elim (Bool-cases (elem path paths)) [
        | inl e ↦ unfold without_paths expect_entries in ground arith
        | inr e ↦
            unfold without_paths expect_entries in
            ground (arith, shown_absent path perm v t f g h e)
      ])
      (delete_each-Shows patterns paths t f g h)

pub delete-Shows :
    (patterns : List Text) (t : Transaction) (f : Users) (g : Entries)
    → Shows f g t
    → Shows f (expect_entries (delete_call patterns) g) (delete_permissions patterns t).1
unfolding delete_permissions
delete-Shows [] t f g h =
    simp (h.open_yet)
      (same-Shows f f g _ t (λ u v. refl) (λ path perm v. unfold expect_entries covered in refl) h)
delete-Shows (pattern ∷ patterns) t f g h =
    simp (h.open_yet) (delete_all-Shows (pattern ∷ patterns) t f g h)
