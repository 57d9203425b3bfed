-- ===== src/Schema.antt =====
-- pkg/schema/object.go: stored objects. Epochs are milliseconds since 1970, as natural numbers;
-- the extra fields are JSON text.
pub mod Resources
pub mod Patch
mod Tests
use riposo.Prelude.{ℕ, Bool, true, ltb, if◌then◌else◌, is_empty, Text, bytes}

pub record Object : Type 0 where
  pub id : Text
  pub mod_time : ℕ
  pub deleted : Bool
  pub extra : Text

-- `Copy` of the object, and `copyObject` of the storage: new bytes with the same values.
unfoldable pub copy : Object → Object
copy o = record { id = o.id; mod_time = o.mod_time; deleted = o.deleted; extra = o.extra }

unfoldable pub norm : Object → Object
norm o = if is_empty o.extra then record o { extra = bytes "{}" } else o

-- o.Update(x)
unfoldable pub update : Object → Object → Object
unfolding norm
update o x =
    let o' = record o {
      id = if is_empty x.id then o.id else x.id;
      mod_time = if ltb o.mod_time x.mod_time then x.mod_time else o.mod_time;
      deleted = if x.deleted then true else o.deleted;
    } in
    if is_empty x.extra then norm o' else record o' { extra = x.extra }
