-- ===== src/Api/Authz/Access.antt =====
-- pkg/api/authz.go with the permissions in memory: to whom `Verify` gives access.
use riposo.Prelude.{
  ◌≡◌, refl, sym, ap, ◌∙◌, Bool, false, ◌||◌, Option, none, some, List, [], ◌∷◌, arith, Bool-cases,
  inl, inr, Text, text_eq_iff, Dict, lookup, elem, ok,
}
use riposo.Set.{Set, has, slice, merge}
use riposo.Set.Members.{has-merge}
use riposo.Permission.{Transaction, or_empty}
use riposo.Permission.Aces.{Ace, set_at, merge_aces, get_all_ace_principals}
use riposo.Permission.Holds.{holds}
use riposo.Permission.Access.{elem-slice}
use riposo.Api.Authz.{
  Authz, contains_text, contains_loop, contains_one_of, allows_static, static_loop, verify_stored,
  verify,
}

-- Whether a test holds of one of the texts.
unfoldable pub one_of : (Text → Bool) → List Text → Bool
one_of test [] = false
one_of test (v ∷ vv) = test v || one_of test vv

abbrev pub listed : Text → Option (List Text) → Bool
listed v none = false
listed v (some allowed) = elem v allowed

-- Whether a principal is static for the permission of one of the entries.
unfoldable pub is_static : Authz → List Ace → Text → Bool
is_static authz [] v = false
is_static authz (ent ∷ target) v = listed v (lookup ent.perm authz) || is_static authz target v

-- Whether a principal is stored under one of the entries.
unfoldable pub is_stored : Dict (Dict Set) → List Ace → Text → Bool
is_stored perms [] v = false
is_stored perms (ent ∷ target) v =
    holds v (set_at ent.path ent.perm perms) || is_stored perms target v

one_of-or :
    (f g : Text → Bool) (vv : List Text)
    → (one_of f vv || one_of g vv) ≡ one_of (λ v. f v || g v) vv
unfolding one_of
one_of-or f g [] = refl
one_of-or f g (v ∷ vv) = ground (arith, one_of-or f g vv)

one_of-same :
    (f g : Text → Bool) (vv : List Text) → ((v : Text) → f v ≡ g v) → one_of f vv ≡ one_of g vv
unfolding one_of
one_of-same f g [] h = refl
one_of-same f g (v ∷ vv) h = ground (arith, h v, one_of-same f g vv h)

one_of-none : (vv : List Text) → one_of (λ v. false) vv ≡ false
unfolding one_of
one_of-none [] = refl
one_of-none (v ∷ vv) = one_of-none vv

contains_text-elem : (v : Text) (ww : List Text) → contains_text v ww ≡ elem v ww
unfolding contains_text elem
contains_text-elem v [] = refl
contains_text-elem v (w ∷ ww) =
    ground (arith, contains_text-elem v ww, text_eq_iff v w, text_eq_iff w v)

contains_loop-one_of : (vv ww : List Text) → contains_loop vv ww ≡ one_of (λ v. elem v ww) vv
unfolding contains_loop one_of
contains_loop-one_of [] ww = refl
contains_loop-one_of (v ∷ vv) ww =
    ground (arith, contains_text-elem v ww, contains_loop-one_of vv ww)

contains_one_of-lem : (vv ww : List Text) → contains_one_of vv ww ≡ one_of (λ v. elem v ww) vv
unfolding contains_one_of
contains_one_of-lem vv [] =
    sym (one_of-same (λ v. elem v []) (λ v. false) vv (λ v. unfold elem in refl) ∙ one_of-none vv)
contains_one_of-lem vv (w ∷ ww) = contains_loop-one_of vv (w ∷ ww)

allows_static-lem :
    (vv : List Text) (o : Option (List Text)) → allows_static vv o ≡ one_of (λ v. listed v o) vv
unfolding allows_static
allows_static-lem vv none = sym (one_of-none vv)
allows_static-lem vv (some allowed) = contains_one_of-lem vv allowed

static_loop-lem :
    (authz : Authz) (vv : List Text) (target : List Ace)
    → static_loop authz vv target ≡ one_of (is_static authz target) vv
unfolding static_loop
static_loop-lem authz vv [] = sym (
    one_of-same (is_static authz []) (λ v. false) vv (λ v. unfold is_static in refl)
    ∙ one_of-none vv)
static_loop-lem authz vv (ent ∷ target) =
    let o = lookup ent.perm authz in
    ground (
      arith,
      allows_static-lem vv o,
      static_loop-lem authz vv target,
      one_of-or (λ v. listed v o) (is_static authz target) vv
          ∙ one_of-same (λ v. listed v o || is_static authz target v)
              (is_static authz (ent ∷ target)) vv (λ v. unfold is_static in refl),
    )

has-merge_aces :
    (ents : List Ace) (perms : Dict (Dict Set)) (res : Set) (v : Text)
    → has (merge_aces ents perms res) v ≡ (has res v || is_stored perms ents v)
unfolding merge_aces is_stored
has-merge_aces [] perms res v = ground arith
has-merge_aces (ent ∷ ents) perms res v =
    let s = or_empty (set_at ent.path ent.perm perms) in
    ground (arith, has-merge_aces ents perms (merge res s) v, has-merge res s v)

verify_stored-lem :
    (vv : List Text) (target : List Ace) (t : Transaction)
    → t.done ≡ false
    → verify_stored vv (get_all_ace_principals target t)
      ≡ ok (one_of (is_stored t.b.perms target) vv)
unfolding get_all_ace_principals verify_stored
verify_stored-lem vv [] t open_yet = simp (open_yet) (
    ap ok (
      contains_one_of-lem vv []
      ∙ one_of-same (λ v. elem v []) (is_stored t.b.perms []) vv
          (λ v. unfold elem is_stored in refl)))
verify_stored-lem vv (ent ∷ target) t open_yet =
    let s = merge_aces (ent ∷ target) t.b.perms [] in
    simp (open_yet) (
      ap ok (
        contains_one_of-lem vv (slice s)
        ∙ one_of-same (λ v. elem v (slice s)) (is_stored t.b.perms (ent ∷ target)) vv
            (λ v.
              elem-slice v s
              ∙ has-merge_aces (ent ∷ target) t.b.perms [] v
              ∙ ap (λ b. b || is_stored t.b.perms (ent ∷ target) v) (has_nothing v))))
  where
    has_nothing : (v : Text) → has [] v ≡ false
    has_nothing v = unfold has lookup in refl

-- In an open transaction `Verify` says whether one of the principals is static for the permission
-- of one of the entries, or is stored under one of them.
pub verify_lem :
    (authz : Authz) (vv : List Text) (target : List Ace) (t : Transaction)
    → t.done ≡ false
    → verify authz t vv target
      ≡ ok (one_of (λ v. is_static authz target v || is_stored t.b.perms target v) vv)
unfolding verify
verify_lem authz [] target t open_yet = unfold one_of in refl
verify_lem authz (v ∷ vv) target t open_yet =
    let all = v ∷ vv in
    elim (Bool-cases (static_loop authz all target)) [
      | inl e ↦ rw e (ap ok (ground (arith, either, static_loop-lem authz all target)))
      | inr e ↦ rw e (
          verify_stored-lem all target t open_yet
          ∙ ap ok (ground (arith, either, static_loop-lem authz all target)))
    ]
  where
    either :
        (one_of (is_static authz target) (v ∷ vv) || one_of (is_stored t.b.perms target) (v ∷ vv))
        ≡ one_of (λ v. is_static authz target v || is_stored t.b.perms target v) (v ∷ vv)
    either = one_of-or (is_static authz target) (is_stored t.b.perms target) (v ∷ vv)
