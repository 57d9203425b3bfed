-- ===== src/Permission/Grants/Entries.antt =====
-- internal/conn/memory/permission/permission.go: what the methods on access control entries and on
-- the permissions of paths change.
use riposo.Permission.Grants.Users.{has_nothing, has-with_principal}
use riposo.Prelude.{
  ◌≡◌, refl, sym, ap, ◌∙◌, false, ◌&&◌, ◌||◌, Option, none, some, [], ◌∷◌, arith, if◌then◌else◌,
  Bool-cases, Option-cases, inl, inr, Text, text_eq, text_eq_iff, Dict, lookup, insert, delete,
  elem, IsMap, lookup-insert, lookup-delete,
}
use riposo.Set.{Set, remove, new_set, merge_slice}
use riposo.Set.Members.{has-new, has-remove, has-merge_slice}
use riposo.Permission.{Backend, Transaction, or_empty, with_principal}
use riposo.Permission.Aces.{
  Ace, PermissionSet, set_at, backup_perms, write_perms, add_ace_principal, without_principal,
  remove_ace, create_each, create_permissions, merge_each, merge_permissions, drop_perms,
}
use riposo.Permission.Calls.{add_ace_call, remove_ace_call, create_call, merge_call}
use riposo.Permission.Holds.{holds}
use riposo.Permission.Grants.{Users, Entries, listed, replaced, expect_entries, Shows, same-Shows}

write_perms-done : (k : Text) (m : Dict Set) (t : Transaction) → (write_perms k m t).done ≡ t.done
unfolding write_perms backup_perms
write_perms-done k m t = ground arith

write_perms-b :
    (k : Text) (m : Dict Set) (t : Transaction)
    → (write_perms k m t).b ≡ record t.b { perms = insert k m t.b.perms }
unfolding write_perms backup_perms
write_perms-b k m t = ground arith

pub drop_perms-done : (k : Text) (t : Transaction) → (drop_perms k t).done ≡ t.done
unfolding drop_perms backup_perms
drop_perms-done k t = ground arith

pub drop_perms-b :
    (k : Text) (t : Transaction) → (drop_perms k t).b ≡ record t.b { perms = delete k t.b.perms }
unfolding drop_perms backup_perms
drop_perms-b k t = ground arith

pub write_perms-Shows :
    (k : Text) (m : Dict Set) (t : Transaction) (f : Users) (g g' : Entries)
    → ((path perm v : Text)
        → (if text_eq k path then holds v (lookup perm m) else g path perm v) ≡ g' path perm v)
    → Shows f g t
    → Shows f g' (write_perms k m t)
unfolding set_at
write_perms-Shows k m t f g g' p h = record {
  open_yet = write_perms-done k m t ∙ h.open_yet;
  users =
      λ u v. ap (λ (b : Backend). holds v (lookup u b.users)) (write_perms-b k m t) ∙ h.users u v;
  entries = λ path perm v.
      ap (λ (b : Backend). holds v (set_at path perm b.perms)) (write_perms-b k m t)
      ∙ at_path path perm v
      ∙ p path perm v;
}
  where
    at_path :
        (path perm v : Text)
        → holds v (set_at path perm (insert k m t.b.perms))
          ≡ (if text_eq k path then holds v (lookup perm m) else g path perm v)
    at_path path perm v = elim (Bool-cases (text_eq k path)) [
      | inl e ↦ rw (lookup-insert, e) refl
      | inr e ↦ rw (lookup-insert, e) (h.entries path perm v)
    ]

-- What a path has, as its permissions are looked up.
pub shown_at :
    (path perm v : Text) (t : Transaction) (f : Users) (g : Entries)
    → Shows f g t
    → holds v (lookup perm (or_empty (lookup path t.b.perms))) ≡ g path perm v
shown_at path perm v t f g h = unfold set_at in h.entries path perm v

pub add_ace-Shows :
    (principal : Text) (ent : Ace) (t : Transaction) (f : Users) (g : Entries)
    → Shows f g t
    → Shows f (expect_entries (add_ace_call principal ent) g) (add_ace_principal principal ent t).1
unfolding add_ace_principal
add_ace-Shows principal ent t f g h =
    let perms = or_empty (lookup ent.path t.b.perms) in
    let s = with_principal principal (lookup ent.perm perms) in
    simp (h.open_yet) (
      write_perms-Shows ent.path (insert ent.perm s perms) t f g _
        (λ path perm v.
          unfold expect_entries in
          ground (
            arith,
            ap (holds v) (lookup-insert ent.perm perm s perms),
            has-with_principal principal v (lookup ent.perm perms),
            shown_at ent.path ent.perm v t f g h,
            shown_at ent.path perm v t f g h,
            text_eq_iff ent.path path,
            text_eq_iff ent.perm perm,
          ))
        h)

create_each-lem :
    (set : PermissionSet) (m : Dict Set) (perm v : Text)
    → holds v (lookup perm (create_each set m)) ≡ (holds v (lookup perm m) || listed set perm v)
unfolding create_each listed
create_each-lem [] m perm v = ground arith
create_each-lem ((k, principals) ∷ set) m perm v =
    let s = merge_slice principals (or_empty (lookup k m)) in
    create_each-lem set (insert k s m) perm v
    ∙ ground (
      arith,
      ap (holds v) (lookup-insert k perm s m),
      has-merge_slice principals (or_empty (lookup k m)) v,
      text_eq_iff k perm,
    )

merge_each-lem :
    (set : PermissionSet) (m : Dict Set) (perm v : Text)
    → IsMap set
    → holds v (lookup perm (merge_each set m))
      ≡ replaced v (lookup perm set) (holds v (lookup perm m))
unfolding merge_each replaced
merge_each-lem [] m perm v n = unfold lookup in refl
merge_each-lem ((k, []) ∷ set) m perm v n =
    merge_each-lem set (delete k m) perm v n.1
    ∙ unfold lookup elem in
      ground (arith, ap (holds v) (lookup-delete k perm m), has_nothing v, text_eq_iff k perm, n.0)
merge_each-lem ((k, p ∷ ps) ∷ set) m perm v n =
    merge_each-lem set (insert k (new_set (p ∷ ps)) m) perm v n.1
    ∙ unfold lookup in
      ground (
        arith,
        ap (holds v) (lookup-insert k perm (new_set (p ∷ ps)) m),
        (has-new (p ∷ ps) [] [] v).0,
        text_eq_iff k perm,
        n.0,
      )

without_principal-lem :
    (principal k perm v : Text) (m : Dict Set)
    → holds v (lookup perm (without_principal principal k m))
      ≡ (if text_eq k perm && text_eq principal v then false else holds v (lookup perm m))
unfolding without_principal
without_principal-lem principal k perm v m = elim (Option-cases (lookup k m)) [
  | inl e ↦ rw (e, without_principal) (ground (arith, text_eq_iff k perm, has_nothing v))
  | inr (s, e) ↦
      rw (e, without_principal)
        (ground (
          arith,
          ap (holds v) (lookup-insert k perm (remove principal s) m),
          has-remove s principal v,
          text_eq_iff k perm,
        ))
]

pub remove_ace-Shows :
    (principal : Text) (ent : Ace) (o : Option (Dict Set)) (t : Transaction) (f : Users)
    (g : Entries)
    → lookup ent.path t.b.perms ≡ o
    → Shows f g t
    → Shows f (expect_entries (remove_ace_call principal ent) g) (remove_ace principal ent o t)
unfolding remove_ace
remove_ace-Shows principal ent none t f g e h =
    same-Shows f f g _ t (λ u v. refl)
      (λ path perm v.
        unfold expect_entries in
        ground (
          arith,
          sym (shown_at ent.path perm v t f g h)
              ∙ ap (λ m. holds v (lookup perm (or_empty m))) e
              ∙ nothing_at perm v,
          text_eq_iff ent.path path,
        ))
      h
  where
    nothing_at : (perm v : Text) → holds v (lookup {V = Set} perm []) ≡ false
    nothing_at perm v = unfold lookup in has_nothing v
remove_ace-Shows principal ent (some m) t f g e h =
    write_perms-Shows ent.path (without_principal principal ent.perm m) t f g _
      (λ path perm v.
        unfold expect_entries in
        ground (
          arith,
          without_principal-lem principal ent.perm perm v m,
          sym (shown_at ent.path perm v t f g h) ∙ ap (λ m. holds v (lookup perm (or_empty m))) e,
          text_eq_iff ent.path path,
        ))
      h

pub create-Shows :
    (k : Text) (set : PermissionSet) (t : Transaction) (f : Users) (g : Entries)
    → Shows f g t
    → Shows f (expect_entries (create_call k set) g) (create_permissions k set t).1
unfolding create_permissions
create-Shows k set t f g h =
    let m = or_empty (lookup k t.b.perms) in
    simp (h.open_yet) (
      write_perms-Shows k (create_each set m) t f g _
        (λ path perm v.
          unfold expect_entries in
          ground
            (arith, create_each-lem set m perm v, shown_at k perm v t f g h, text_eq_iff k path))
        h)

pub merge-Shows :
    (k : Text) (set : PermissionSet) (t : Transaction) (f : Users) (g : Entries)
    → IsMap set
    → Shows f g t
    → Shows f (expect_entries (merge_call k set) g) (merge_permissions k set t).1
unfolding merge_permissions
merge-Shows k set t f g n h =
    let m = or_empty (lookup k t.b.perms) in
    simp (h.open_yet) (
      write_perms-Shows k (merge_each set m) t f g _
        (λ path perm v.
          unfold expect_entries in
          ground
            (arith, merge_each-lem set m perm v n, shown_at k perm v t f g h, text_eq_iff k path))
        h)
