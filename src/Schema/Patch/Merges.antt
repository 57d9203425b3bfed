-- ===== src/Schema/Patch/Merges.antt =====
-- pkg/schema/object.go: what a patch leaves at a key.
use riposo.Prelude.{
  ◌≡◌, refl, sym, ap, ◌∙◌, Option, none, some, arith, Bool-cases, inl, inr, Text, if◌then◌else◌,
  text_eq, text_eq_iff,
}
use riposo.Schema.Patch.{
  Json, null, other, object, Members, no_members, member, find, put, rec_patch, patch_key,
}

-- Every key stands once, as in any map of Go.
abbrev pub IsObject : Members → Type 0
IsObject no_members = Unit
IsObject (member k v o) = (find k o ≡ none) × IsObject o

-- The value after a merge, from those before it and in the patch.
pub merged : Option Json → Option Json → Option Json
merged v1 none = v1
merged v1 (some null) = v1
merged (some (object m1)) (some (object m2)) = some (object (rec_patch m1 m2))
merged v1 (some v2) = some v2

find-put :
    (k key : Text) (v : Json) (o : Members)
    → find k (put key v o) ≡ (if text_eq key k then some v else find k o)
unfolding find put
find-put k key v no_members = ground arith
find-put k key v (member j w o) =
    ground (arith, text_eq_iff key k, text_eq_iff j k, text_eq_iff j key, find-put k key v o)

-- One round of the loop, where v1 is at the key.
find-patch_key :
    (k key : Text) (v1 : Option Json) (v2 : Json) (o : Members)
    → find key o ≡ v1
    → find k (patch_key key v1 v2 o) ≡ (if text_eq key k then merged v1 (some v2) else find k o)
unfolding patch_key merged
find-patch_key k key v1 null o e = elim (Bool-cases (text_eq key k)) [
  | inl h ↦ ground (arith, text_eq_iff key k)
  | inr h ↦ simp h refl
]
find-patch_key k key none (other t) o e = find-put k key (other t) o
find-patch_key k key (some null) (other t) o e = find-put k key (other t) o
find-patch_key k key (some (other s)) (other t) o e = find-put k key (other t) o
find-patch_key k key (some (object m)) (other t) o e = find-put k key (other t) o
find-patch_key k key none (object m2) o e = find-put k key (object m2) o
find-patch_key k key (some null) (object m2) o e = find-put k key (object m2) o
find-patch_key k key (some (other t)) (object m2) o e = find-put k key (object m2) o
find-patch_key k key (some (object m1)) (object m2) o e =
    find-put k key (object (rec_patch m1 m2)) o

-- Where the patch holds each key once, a key of the merged object has the value that it has in the
-- patch, and where it is absent or null there, the value that it had before; where both are objects,
-- they are merged in the same way.
pub find-rec_patch :
    (k : Text) (o1 o2 : Members)
    → IsObject o2
    → find k (rec_patch o1 o2) ≡ merged (find k o1) (find k o2)
unfolding rec_patch find merged
find-rec_patch k o1 no_members h = refl
find-rec_patch k o1 (member key v2 o2) h =
    let here = find-patch_key k key (find key o1) v2 o1 refl in
    let rest = find-rec_patch k (patch_key key (find key o1) v2 o1) o2 h.1 in
    elim (Bool-cases (text_eq key k)) [
      | inl e ↦
          let same : key ≡ k = (text_eq_iff key k).0 e in
          let gone : find k o2 ≡ none = ap (λ j. find j o2) (sym same) ∙ h.0 in
          let now : find k (patch_key key (find key o1) v2 o1) ≡ merged (find k o1) (some v2) =
            here ∙ rw e (ap (λ j. merged (find j o1) (some v2)) same) in
          rw (e, rest, gone) (now)
      | inr e ↦ rw (e, rest) (ap (λ v. merged v (find k o2)) (here ∙ rw e refl))
    ]
