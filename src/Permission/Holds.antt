-- ===== src/Permission/Holds.antt =====
-- internal/conn/memory/permission/permission.go: who stands in the sets of the maps, and what logging keeps.
use riposo.Prelude.{
  ◌≡◌, refl, Bool, false, Option, [], ◌∷◌, arith, Bool-cases, inl, inr, Text, text_eq, Dict, lookup,
}
use riposo.Undo.{backup}
use riposo.Set.{Set, has}
use riposo.Set.Members.{has-new}
use riposo.Permission.{Transaction, or_empty, copy_user, backup_user}
use riposo.Permission.Aces.{copy_sets, copy_perms, backup_perms}

-- Whether a principal stands in a set that may be missing.
abbrev pub holds : Text → Option Set → Bool
holds v o = has (or_empty o) v

-- Whether a principal has a permission in what is kept for a path.
abbrev pub allows : Text → Text → Option (Dict Set) → Bool
allows perm v o = holds v (lookup perm (or_empty o))

pub holds-copy_user : (v : Text) (o : Option Set) → holds v (copy_user o) ≡ holds v o
unfolding copy_user
holds-copy_user v o = (has-new [] [] (or_empty o) v).2

holds-copy_sets :
    (perm v : Text) (m : Dict Set) → holds v (lookup perm (copy_sets m)) ≡ holds v (lookup perm m)
unfolding copy_sets lookup
holds-copy_sets perm v [] = refl
holds-copy_sets perm v ((k, s) ∷ m) = elim (Bool-cases (text_eq k perm)) [
  | inl e ↦ rw e ((has-new [] [] s v).2)
  | inr e ↦ rw e (holds-copy_sets perm v m)
]

pub allows-copy_perms :
    (perm v : Text) (o : Option (Dict Set)) → allows perm v (copy_perms o) ≡ allows perm v o
unfolding copy_perms
allows-copy_perms perm v o = holds-copy_sets perm v (or_empty o)

pub backup_user-unflushed :
    (k : Text) (t : Transaction)
    → t.flushed ≡ false
    → backup_user k t ≡ record t { xusers = backup copy_user k t.b.users t.xusers }
unfolding backup_user
backup_user-unflushed k t h = ground arith

pub backup_perms-unflushed :
    (k : Text) (t : Transaction)
    → t.flushed ≡ false
    → backup_perms k t ≡ record t { xperms = backup copy_perms k t.b.perms t.xperms }
unfolding backup_perms
backup_perms-unflushed k t h = ground arith
