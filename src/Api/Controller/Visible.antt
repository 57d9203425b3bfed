-- ===== src/Api/Controller/Visible.antt =====
-- pkg/api/ctrl.go: the objects that a user may see, and the condition that lets only those through.
use riposo.Prelude.{
  ◌≡◌, refl, sym, ◌∙◌, inl, inr, true, false, Bool-cases, List, [], ◌∷◌, ◌++◌, map, arith, is_empty,
  Text, bytes, text_eq, text_eq_refl, lookup, elem, ok,
}
use riposo.Path.{object_id}
use riposo.Schema.{Object}
use riposo.Params.{Filter, Condition, operator_in}
use riposo.Params.Parse.{Values, Params}
use riposo.Storage.Filters.{Gjson, get, is_equal, equals_one, match_as, match, condition_match}
use riposo.Permission
use riposo.Permission.{everyone}
use riposo.Permission.Aces.{Ace, get_accessible_paths}
use riposo.Permission.Reaches.{HoldMaps, Reaches}
use riposo.Permission.Access.{get_accessible_paths_lem}
use riposo.Api.Txn.{Txn}

-- The permissions to read, and the entries that ask for the objects of a collection.
abbrev pub reading : List Text
reading = bytes "read" ∷ bytes "write" ∷ []

abbrev pub of_collection : Text → List Ace
of_collection path =
    record { perm = bytes "read"; path = path } ∷ record { perm = bytes "write"; path = path } ∷ []

-- One of the user's principals has a permission on the path of an object with this ID.
abbrev pub IsVisible : Text → Txn → Object → Type 0
IsVisible path txn o =
    (p : Text) × (object_id p ≡ o.id)
    × Reaches txn.user.principals (of_collection path) p (lookup p txn.perms.b.perms)

none_in : (p : Text) → elem p [] ≡ true → ⊥
unfolding elem
none_in p h = ground arith

none_reached :
    (principals : List Text) (ents : List Ace) (t : Permission.Transaction)
    → t.done ≡ false
    → is_empty principals ≡ true
    → get_accessible_paths [] principals ents t ≡ ok []
unfolding get_accessible_paths
none_reached principals ents t open_yet e = ground arith

pub reached :
    (path : Text) (txn : Txn)
    → txn.perms.done ≡ false
    → HoldMaps txn.perms.b.perms
    → (out : List Text) × (get_accessible_paths [] txn.user.principals
          (of_collection path)
          txn.perms
        ≡ ok out)
      × ((p : Text)
          → elem p out ≡ true
          → Reaches txn.user.principals (of_collection path) p (lookup p txn.perms.b.perms))
reached path txn open_yet maps = elim (Bool-cases (is_empty txn.user.principals)) [
  | inl e ↦ (
    [],
    none_reached txn.user.principals (of_collection path) txn.perms open_yet e,
    λ p h. absurd (none_in p h),
  )
  | inr e ↦
      let (out, listed, exactly) =
        get_accessible_paths_lem [] txn.user.principals (of_collection path) txn.perms open_yet
          (ground arith) maps in
      (out, listed, λ p h. elim ((exactly p).0 h) [ inl x ↦ absurd (none_in p x) | inr r ↦ r ])
]

module _ {V : Type 0} (json : Gjson V) (values : Values V) where
  -- Values made of two strings are equal only where the strings are.
  abbrev pub TellsStrings : Type 0
  TellsStrings =
      (s t : Text) → is_equal json (json.string_value s) (values.string_value t) ≡ true → s ≡ t

  condition_match-snoc :
      (o : Object) (condition : Condition V) (f : Filter V)
      → condition_match json o (condition ++ f ∷ []) ≡ true
      → match json o f ≡ true
  unfolding condition_match
  condition_match-snoc o [] f h = ground arith
  condition_match-snoc o (g ∷ condition) f h = condition_match-snoc o condition f (ground arith)

  one_of_paths :
      (id : Text) (paths : List Text)
      → TellsStrings
      → equals_one json
          (json.string_value id)
          (map (λ path. values.string_value (object_id path)) paths)
        ≡ true
      → (p : Text) × (object_id p ≡ id) × (elem p paths ≡ true)
  unfolding equals_one elem
  one_of_paths id [] tells h = absurd (ground arith)
  one_of_paths id (path ∷ paths) tells h =
      elim (Bool-cases
        (is_equal json (json.string_value id) (values.string_value (object_id path)))) [
          | inl e ↦ (path, sym (tells id (object_id path) e), ground (arith, text_eq_refl path))
          | inr e ↦
              let (p, same, there) = one_of_paths id paths tells (ground arith) in
              (p, same, ground arith)
        ]

  -- The condition only lets objects through that are visible.
  abbrev pub Hides : Text → Txn → Params V → Type 0
  Hides path txn params =
      (o : Object) → condition_match json o params.condition ≡ true → IsVisible path txn o

  -- The condition that `restrict` adds.
  abbrev by_ids : List Text → Filter V
  by_ids out = record {
    field = bytes "id";
    operator = operator_in;
    values = map (λ path. values.string_value (object_id path)) out;
  }

  match-by_ids :
      (o : Object) (out : List Text)
      → match json o (by_ids out)
        ≡ equals_one json
            (json.string_value o.id)
            (map (λ path. values.string_value (object_id path)) out)
  unfolding match match_as get text_eq
  match-by_ids o out = refl

  pub by_ids-Hides :
      (path : Text) (txn : Txn) (out : List Text) (condition : Condition V)
      → TellsStrings
      → ((p : Text)
          → elem p out ≡ true
          → Reaches txn.user.principals (of_collection path) p (lookup p txn.perms.b.perms))
      → (o : Object) → condition_match json o (condition ++ by_ids out ∷ []) ≡ true
      → IsVisible path txn o
  by_ids-Hides path txn out condition tells reaches o h =
      let (p, same, there) =
        one_of_paths o.id out tells
          (sym (match-by_ids o out) ∙ condition_match-snoc o condition (by_ids out) h) in
      (p, same, reaches p there)
