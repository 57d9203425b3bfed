-- ===== src/Schema/Patch.antt =====
-- pkg/schema/object.go: `Patch`, which merges the extra fields of one object into those of another.
-- encoding/json is a record of parameters; the extra fields are a JSON object, never null.
pub mod Merges
use riposo.Prelude.{
  Bool, true, false, Option, none, some, ltb, if◌then◌else◌, length, Text, text_eq, Result, ok, err,
}
use riposo.Schema
use riposo.Schema.{Object}

-- What json.Unmarshal makes of a value: a map[string]interface{}, nil, or anything else, by its text.
mutual
  pub data Json : Type 0 where
    null : Json
    other : Text → Json
    object : Members → Json

  pub data Members : Type 0 where
    no_members : Members
    member : Text → Json → Members → Members

-- v, ok := o[key]
unfoldable pub find : Text → Members → Option Json
find key no_members = none
find key (member k v o) = let rest = find key o in if text_eq k key then some v else rest

-- o[key] = v
unfoldable pub put : Text → Json → Members → Members
put key v no_members = member key v no_members
put key v (member k w o) =
    let rest = put key v o in if text_eq k key then member key v o else member k w rest

-- recPatch(o1, o2), where the order of the members stands for that of the loop, and the body of the
-- loop, for the value v1 at the key in o1.
unfoldable mutual
  pub rec_patch : Members → Members → Members
  rec_patch o1 no_members = o1
  rec_patch o1 (member key v2 o2) = rec_patch (patch_key key (find key o1) v2 o1) o2

  pub patch_key : Text → Option Json → Json → Members → Members
  patch_key key v1 null o1 = o1
  patch_key key v1 (other t) o1 = put key (other t) o1
  patch_key key none (object tv2) o1 = put key (object tv2) o1
  patch_key key (some null) (object tv2) o1 = put key (object tv2) o1
  patch_key key (some (other t)) (object tv2) o1 = put key (object tv2) o1
  patch_key key (some (object tv1)) (object tv2) o1 = put key (object (rec_patch tv1 tv2)) o1

-- encoding/json: `decode` is json.Unmarshal into a map, with the message of its error.
pub record Codec : Type 0 where
  pub decode : Text → Result Text Members
  pub encode : Members → Text

module _ (json : Codec) where
  -- The object with new extra fields, after both decoded.
  unfoldable pub encoded : Object → Result Text Members → Members → Result Text Object
  encoded o (err e) m2 = err e
  encoded o (ok m1) m2 = ok (record o { extra = json.encode (rec_patch m1 m2) })

  unfoldable pub patch_with : Object → Result Text Members → Result Text Object
  patch_with o (err e) = err e
  patch_with o (ok m2) =
      if ltb (length o.extra) 3
      then ok (record o { extra = json.encode m2 })
      else encoded o (json.decode o.extra) m2

  -- o.Patch(x)
  unfoldable pub patch : Object → Object → Result Text Object
  patch o x =
      if ltb (length x.extra) 3 then ok (Schema.norm o) else patch_with o (json.decode x.extra)
