-- ===== src/Api/Authz/Tests.antt =====
-- pkg/api/authz.go: an instance of the theorem.
use riposo.Prelude.{◌≡◌, refl, false, true, ◌||◌, List, [], ◌∷◌, Text, bytes, text_eq, lookup, ok}
use riposo.Permission.{Backend, begin}
use riposo.Permission.Aces.{Ace}
use riposo.Api.Authz.{
  Authz, contains_text, contains_loop, contains_one_of, allows_static, static_loop, verify,
}
use riposo.Api.Authz.Access.{one_of, is_static, is_stored, verify_lem}

abbrev alice : Text
alice = bytes "account:alice"

abbrev target : List Ace
target = record { perm = bytes "write"; path = bytes "/buckets/foo" } ∷ []

abbrev start : Backend
start = record {
  users = [];
  perms = (bytes "/buckets/foo", (bytes "write", (alice, tt) ∷ []) ∷ []) ∷ [];
  locked = false;
}

abbrev authz : Authz
authz = (bytes "write", bytes "account:admin" ∷ []) ∷ []

admin_may : verify authz (begin start) (bytes "account:admin" ∷ []) target ≡ ok true
unfolding text_eq lookup contains_text contains_loop contains_one_of allows_static static_loop
    verify begin
admin_may = refl

verify_lem_example :
    verify authz (begin start) (alice ∷ []) target
    ≡ ok (one_of (λ v. is_static authz target v || is_stored start.perms target v) (alice ∷ []))
unfolding begin
verify_lem_example = verify_lem authz (alice ∷ []) target (begin start) refl
