-- ===== src/Schema/Tests.antt =====
-- pkg/schema/object.go: instances of the theorems.
use riposo.Prelude.{◌≡◌, refl, bytes, text_eq}
use riposo.Schema.Patch.{Members, no_members, member, null, other, object, find, rec_patch}
use riposo.Schema.Patch.Merges.{merged, find-rec_patch}

abbrev stored : Members
stored =
    member (bytes "name") (other (bytes "foo")) (
      member (bytes "tags") (object (member (bytes "a") (other (bytes "1")) no_members)) no_members)

abbrev patch : Members
patch =
    member (bytes "name") null (
      member (bytes "tags") (object (member (bytes "b") (other (bytes "2")) no_members)) no_members)

find-rec_patch_example :
    find (bytes "tags") (rec_patch stored patch)
    ≡ merged (find (bytes "tags") stored) (find (bytes "tags") patch)
unfolding find text_eq
find-rec_patch_example = find-rec_patch (bytes "tags") stored patch (refl, (refl, tt))
