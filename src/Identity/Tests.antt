-- ===== src/Identity/Tests.antt =====
-- pkg/identity/identity.go: instances of the theorems.
use riposo.Prelude.{◌≡◌, ◌≤◌, refl, arith, false, length, Text, bytes, count_byte}
use riposo.Path.{is_node, with_object_id, object_id, namespace}
use riposo.Identity.{is_valid, all_allowed, is_allowed, any_of}
use riposo.Identity.Ids.{is_valid-object}

abbrev buckets : Text
buckets = bytes "/buckets/*"

is_valid-object_example :
    (1 ≤ length (bytes "foo"))
    × (length (bytes "foo") ≤ 255)
    × (is_node (with_object_id buckets (bytes "foo")) ≡ false)
    × (object_id (with_object_id buckets (bytes "foo")) ≡ bytes "foo")
    × (namespace (with_object_id buckets (bytes "foo")) ≡ namespace buckets)
unfolding is_valid all_allowed is_allowed any_of count_byte
is_valid-object_example = is_valid-object buckets (bytes "foo") (ground arith) refl
