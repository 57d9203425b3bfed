-- ===== src/Api/Controller/Guards.antt =====
-- pkg/api/ctrl.go: what the guards of the handlers ask for.
use mathlib.Core.List.{append_assoc, append-nil}
use riposo.Prelude.{
  suc, ◌≡◌, refl, sym, ap, ◌∙◌, Bool, true, false, ◌||◌, List, [], ◌∷◌, ◌++◌, map, arith,
  if◌then◌else◌, length, Text, text_eq, ok, err, map_err,
}
use riposo.Path.Ancestors.{
  Segments, render, AreClean, ancestors, visit, traverse-visit, length-render,
}
use riposo.Permission.{everyone}
use riposo.Permission.Aces.{Ace}
use riposo.Api.Authz.{Authz}
use riposo.Api.Authz.Access.{one_of, is_static, is_stored, verify_lem}
use riposo.Api.Errors.{Error, missing_auth_token, forbidden, perms_error}
use riposo.Api.Txn.{Txn}
use riposo.Api.Controller.{entries, or_nothing, verdict, is_forbidden, check_permission}

-- The entries for a permission on each of some paths.
unfoldable pub entries_on : List Text → List Text → List Ace
entries_on perms [] = []
entries_on perms (part ∷ parts) =
    map (λ perm. record { perm = perm; path = part }) perms ++ entries_on perms parts

visit_entries :
    (perms parts : List Text) (ents : List Ace)
    → visit
        (λ part ents. (true, ents ++ map (λ perm. record { perm = perm; path = part }) perms))
        parts
        ents
      ≡ ents ++ entries_on perms parts
unfolding visit entries_on
visit_entries perms [] ents = sym (append-nil ents)
visit_entries perms (part ∷ parts) ents =
    let on : List Ace = map (λ perm. record { perm = perm; path = part }) perms in
    visit_entries perms parts (ents ++ on) ∙ append_assoc ents on (entries_on perms parts)

pub entries_lem :
    (perms : List Text) (segments : Segments) (ents : List Ace)
    → AreClean segments
    → entries perms (render segments) ents ≡ ents ++ entries_on perms (ancestors segments)
unfolding entries
entries_lem perms segments ents clean =
    ap or_nothing (
      traverse-visit
        (λ part ents. (true, ents ++ map (λ perm. record { perm = perm; path = part }) perms))
        (suc (length (render segments))) segments ents clean (length-render segments))
    ∙ visit_entries perms (ancestors segments) ents

-- The error for a user without a permission.
abbrev pub denial : Text → Error
denial id = if text_eq id everyone then missing_auth_token else forbidden

-- Whether one of the user's principals has a permission on a path, by the configuration or by what is
-- stored.
unfoldable pub may : Authz → Txn → List Ace → Bool
may authz txn ents =
    one_of (λ v. is_static authz ents v || is_stored txn.perms.b.perms ents v) txn.user.principals

verdict_lem : (id : Text) (b : Bool) → verdict id (ok b) ≡ (if b then ok tt else err (denial id))
unfolding verdict
verdict_lem id true = refl
verdict_lem id false = ground arith

pub is_forbidden_lem :
    (authz : Authz) (ents : List Ace) (txn : Txn)
    → txn.perms.done ≡ false
    → is_forbidden authz ents txn ≡ (if may authz txn ents then ok tt else err (denial txn.user.id))
unfolding is_forbidden may
is_forbidden_lem authz ents txn open_yet =
    ap (λ r. verdict txn.user.id (map_err perms_error r))
      (verify_lem authz txn.user.principals ents txn.perms open_yet)
    ∙ verdict_lem txn.user.id (may authz txn ents)

-- In an open transaction, for a path made of pairs of names without slashes, `checkPermission` passes
-- if one of the user's principals has one of the permissions on the path or on one of its parents, up
-- to the empty path, and refuses otherwise: with 401 for system.Everyone and with 403 for any other.
pub check_permission_lem :
    (authz : Authz) (perms : List Text) (segments : Segments) (txn : Txn)
    → AreClean segments
    → txn.perms.done ≡ false
    → check_permission authz perms (render segments) txn ≡ (
        if may authz txn (entries_on perms (ancestors segments))
        then ok tt
        else err (denial txn.user.id))
unfolding check_permission
check_permission_lem authz perms segments txn clean open_yet =
    rw (entries_lem perms segments [] clean)
      (is_forbidden_lem authz (entries_on perms (ancestors segments)) txn open_yet)
