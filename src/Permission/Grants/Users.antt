-- ===== src/Permission/Grants/Users.antt =====
-- internal/conn/memory/permission/permission.go: what the methods on the principals of users change.
use riposo.Prelude.{
  ◌≡◌, refl, sym, ap, ◌∙◌, false, ◌||◌, Option, none, some, List, [], ◌∷◌, arith, if◌then◌else◌,
  Bool-cases, Option-cases, inl, inr, Text, text_eq, text_eq_iff, lookup, insert, keys, elem,
  elem-keys, lookup-insert,
}
use riposo.Set.{Set, has, remove}
use riposo.Set.Members.{has-new, has-add, has-remove}
use riposo.Permission.{
  Backend, Transaction, backup_user, write_user, with_principal, add_each, remove_one, remove_each,
  purge_each,
}
use riposo.Permission.Aces.{set_at}
use riposo.Permission.Holds.{holds}
use riposo.Permission.Grants.{Users, Entries, added, taken, purged, Shows, same-Shows}

pub has_nothing : (v : Text) → has [] v ≡ false
unfolding has lookup
has_nothing v = refl

pub has-with_principal :
    (principal v : Text) (o : Option Set)
    → has (with_principal principal o) v ≡ (holds v o || text_eq principal v)
unfolding with_principal elem
has-with_principal principal v none =
    ground (arith, (has-new (principal ∷ []) [] [] v).0, has_nothing v)
has-with_principal principal v (some s) = ground (arith, has-add s principal v)

write_user-done : (k : Text) (s : Set) (t : Transaction) → (write_user k s t).done ≡ t.done
unfolding write_user backup_user
write_user-done k s t = ground arith

write_user-b :
    (k : Text) (s : Set) (t : Transaction)
    → (write_user k s t).b ≡ record t.b { users = insert k s t.b.users }
unfolding write_user backup_user
write_user-b k s t = ground arith

write_user-Shows :
    (k : Text) (s : Set) (t : Transaction) (f f' : Users) (g : Entries)
    → ((u v : Text) → (if text_eq k u then has s v else f u v) ≡ f' u v)
    → Shows f g t
    → Shows f' g (write_user k s t)
write_user-Shows k s t f f' g p h = record {
  open_yet = write_user-done k s t ∙ h.open_yet;
  users = λ u v.
      ap (λ (b : Backend). holds v (lookup u b.users)) (write_user-b k s t)
      ∙ ap (holds v) (lookup-insert k u s t.b.users)
      ∙ at_user u v
      ∙ p u v;
  entries = λ path perm v.
      ap (λ (b : Backend). holds v (set_at path perm b.perms)) (write_user-b k s t)
      ∙ h.entries path perm v;
}
  where
    at_user :
        (u v : Text)
        → holds v (if text_eq k u then some s else lookup u t.b.users)
          ≡ (if text_eq k u then has s v else f u v)
    at_user u v = elim (Bool-cases (text_eq k u)) [ inl e ↦ rw e refl | inr e ↦ rw e (h.users u v) ]

pub add_each-Shows :
    (principal : Text) (ids : List Text) (t : Transaction) (f : Users) (g : Entries)
    → Shows f g t
    → Shows (added principal ids f) g (add_each principal ids t)
unfolding add_each
add_each-Shows principal [] t f g h =
    same-Shows f _ g g t (λ u v. unfold added elem in ground arith) (λ path perm v. refl) h
add_each-Shows principal (id ∷ ids) t f g h =
    let s = with_principal principal (lookup id t.b.users) in
    let h' =
      write_user-Shows id s t f (added principal (id ∷ []) f) g
        (λ u v.
          unfold added elem in
          ground (
            arith,
            has-with_principal principal v (lookup id t.b.users),
            h.users id v,
            text_eq_iff id u,
          ))
        h in
    same-Shows (added principal ids (added principal (id ∷ []) f)) _ g g
      (add_each principal ids (write_user id s t)) (λ u v. unfold added elem in ground arith)
      (λ path perm v. refl)
      (add_each-Shows principal ids (write_user id s t) (added principal (id ∷ []) f) g h')

remove_one-Shows :
    (principal id : Text) (o : Option Set) (t : Transaction) (f : Users) (g : Entries)
    → lookup id t.b.users ≡ o
    → Shows f g t
    → Shows (taken principal (id ∷ []) f) g (remove_one principal id o t)
unfolding remove_one
remove_one-Shows principal id none t f g e h =
    same-Shows f _ g g t
      (λ u v.
        unfold taken elem in
        ground (arith, sym (h.users id v) ∙ ap (holds v) e ∙ has_nothing v, text_eq_iff id u))
      (λ path perm v. refl) h
remove_one-Shows principal id (some s) t f g e h =
    write_user-Shows id (remove principal s) t f _ g
      (λ u v.
        unfold taken elem in
        ground
          (arith, has-remove s principal v, sym (h.users id v) ∙ ap (holds v) e, text_eq_iff id u))
      h

pub remove_each-Shows :
    (principal : Text) (ids : List Text) (t : Transaction) (f : Users) (g : Entries)
    → Shows f g t
    → Shows (taken principal ids f) g (remove_each principal ids t)
unfolding remove_each
remove_each-Shows principal [] t f g h =
    same-Shows f _ g g t (λ u v. unfold taken elem in ground arith) (λ path perm v. refl) h
remove_each-Shows principal (id ∷ ids) t f g h =
    let t' = remove_one principal id (lookup id t.b.users) t in
    let f' = taken principal (id ∷ []) f in
    same-Shows (taken principal ids f') _ g g (remove_each principal ids t')
      (λ u v. unfold taken elem in ground arith) (λ path perm v. refl)
      (remove_each-Shows principal ids t' f' g
        (remove_one-Shows principal id (lookup id t.b.users) t f g refl h))

-- A user who is not in the map has no principals.
shown_absent :
    (u v : Text) (t : Transaction) (f : Users) (g : Entries)
    → Shows f g t
    → elem u (keys t.b.users) ≡ false
    → f u v ≡ false
shown_absent u v t f g h absent = elim (Option-cases (lookup u t.b.users)) [
  | inl e ↦ sym (h.users u v) ∙ ap (holds v) e ∙ has_nothing v
  | inr (s, e) ↦ absurd (ground (arith, elem-keys t.b.users u))
]

pub purge_each-Shows :
    (principals : List Text) (t : Transaction) (f : Users) (g : Entries)
    → Shows f g t
    → Shows (purged principals f) g (purge_each principals t)
unfolding purge_each
purge_each-Shows [] t f g h =
    same-Shows f _ g g t (λ u v. unfold purged elem in ground arith) (λ path perm v. refl) h
purge_each-Shows (principal ∷ principals) t f g h =
    let t' = remove_each principal (keys t.b.users) t in
    let f' = taken principal (keys t.b.users) f in
    same-Shows (purged principals f') _ g g (purge_each principals t')
      (λ u v. elim (Bool-cases (elem u (keys t.b.users))) [
        | inl e ↦ unfold purged taken elem in ground arith
        | inr e ↦ unfold purged taken elem in ground (arith, shown_absent u v t f g h e)
      ])
      (λ path perm v. refl)
      (purge_each-Shows principals t' f' g (remove_each-Shows principal (keys t.b.users) t f g h))
