-- ===== src/Storage/Lists.antt =====
-- internal/conn/memory/storage/storage.go: `ListAll` and `CountAll`, with the order of filters.go.
-- sort.Sort leaves the order of equal objects open; here they keep the order they have.
pub mod Matches
use riposo.Prelude.{
  ℕ, suc, ◌<◌, ◌≤◌, ◌≡◌, refl, ap, ◌∙◌, Bool, true, false, not, ◌&&◌, List, [], ◌∷◌, ◌++◌, arith,
  ltb, if◌then◌else◌, is_empty, length, take, length-take-le, Text, Result, ok, err,
}
use riposo.Path.{is_node, namespace}
use riposo.Schema.{Object}
use riposo.Params.{SortOrder, Condition, ConditionSet, compact}
use riposo.Storage.Tree.{each}
use riposo.Storage.Filters.{
  Gjson, Comparison, less, equal, greater, get, compare, condition_match, pagination_filter,
}
use riposo.Storage.Txn.{Transaction, Error, invalid_path, tx_done}

-- storage.ListOptions
pub record ListOptions (V : Type 0) : Type 0 where
  pub condition : Condition V
  pub pagination : ConditionSet V
  pub sort : List SortOrder
  -- a negative limit is as none, which 0 is
  pub limit : ℕ
  -- Include == IncludeAll
  pub include_all : Bool

-- The result of a comparison that is not 0, in the direction of a sort order.
unfoldable pub before : Bool → Comparison → Bool → Bool
before descending less rest = not descending
before descending greater rest = descending
before descending equal rest = rest

module _ {V : Type 0} (json : Gjson V) where
  unfoldable pub precedes : List SortOrder → Object → Object → Bool
  precedes [] o p = false
  precedes (so ∷ sort) o p =
      before so.descending (compare json (get json o so.field) (get json p so.field))
        (precedes sort o p)

  unfoldable pub insert_object : List SortOrder → Object → List Object → List Object
  insert_object sort o [] = o ∷ []
  insert_object sort o (p ∷ objs) =
      let rest = insert_object sort o objs in if precedes sort p o then p ∷ rest else o ∷ p ∷ objs

  unfoldable pub sort_objects : List SortOrder → List Object → List Object
  sort_objects sort [] = []
  sort_objects sort (o ∷ objs) = insert_object sort o (sort_objects sort objs)

  -- What `ListAll` finds before it sorts.
  unfoldable pub found : Text → ListOptions V → Transaction → List Object
  found path opt t =
      let matches : Object → Bool = λ o. condition_match json o opt.condition in
      let objs = each (namespace path) matches t.b.tree in
      let dead = if opt.include_all then each (namespace path) matches t.b.dead else [] in
      pagination_filter json (objs ++ dead) opt.pagination

  unfoldable pub limited : ℕ → List Object → List Object
  limited limit objs = if ltb 0 limit && ltb limit (length objs) then take limit objs else objs

  unfoldable pub list_all : Text → ListOptions V → Transaction → Result Error (List Object)
  list_all path opt t =
      if not (is_node path)
      then err invalid_path
      else if t.done
      then err tx_done
      else let objs = found path opt t in
        ok (limited opt.limit (if is_empty opt.sort then objs else sort_objects opt.sort objs))

  unfoldable pub count_all : Text → Condition V → Transaction → Result Error ℕ
  count_all path condition t =
      if not (is_node path)
      then err invalid_path
      else if t.done
      then err tx_done
      else ok (length (each (namespace path) (λ o. condition_match json o condition) t.b.tree))

  length-insert_object :
      (sort : List SortOrder) (o : Object) (objs : List Object)
      → length (insert_object sort o objs) ≡ suc (length objs)
  unfolding insert_object
  length-insert_object sort o [] = refl
  length-insert_object sort o (p ∷ objs) = ground (arith, length-insert_object sort o objs)

  length-sort_objects :
      (sort : List SortOrder) (objs : List Object) → length (sort_objects sort objs) ≡ length objs
  unfolding sort_objects
  length-sort_objects sort [] = refl
  length-sort_objects sort (o ∷ objs) =
      ground
        (arith, length-insert_object sort o (sort_objects sort objs), length-sort_objects sort objs)

  length-limited :
      (limit : ℕ) (objs : List Object)
      → (limit ≡ 0 → length (limited limit objs) ≡ length objs)
        × (0 < limit → length (limited limit objs) ≤ limit)
  unfolding limited
  length-limited limit objs = (λ e. ground arith, λ h. ground (arith, length-take-le limit objs))

  sorted : List SortOrder → List Object → List Object
  sorted sort objs = if is_empty sort then objs else sort_objects sort objs

  length-sorted :
      (sort : List SortOrder) (objs : List Object) → length (sorted sort objs) ≡ length objs
  unfolding sorted
  length-sorted [] objs = refl
  length-sorted (so ∷ sort) objs = length-sort_objects (so ∷ sort) objs

  append_nothing : (xs : List Object) → xs ++ [] ≡ xs
  append_nothing [] = refl
  append_nothing (x ∷ xs) = ap (◌∷◌ x) (append_nothing xs)

  found_all :
      (path : Text) (opt : ListOptions V) (t : Transaction)
      → opt.pagination ≡ []
      → opt.include_all ≡ false
      → found path opt t
        ≡ each (namespace path) (λ o. condition_match json o opt.condition) t.b.tree
  unfolding found
  found_all path opt t no_page live =
      let objs = each (namespace path) (λ o. condition_match json o opt.condition) t.b.tree in
      simp (no_page, live) (no_filter (objs ++ []) ∙ append_nothing objs)
    where
      no_filter : (objs : List Object) → pagination_filter json objs [] ≡ objs
      no_filter objs = unfold pagination_filter compact in refl

  -- In an open transaction and for a collection, `ListAll` returns no more objects than the limit,
  -- if there is one; and with neither a limit nor pagination, and without the deleted objects, as
  -- many as `CountAll` counts under the same condition.
  pub list_all-count_all :
      (path : Text) (opt : ListOptions V) (t : Transaction)
      → is_node path ≡ true
      → t.done ≡ false
      → (objs : List Object) × (list_all path opt t ≡ ok objs)
        × (0 < opt.limit → length objs ≤ opt.limit)
        × (opt.limit ≡ 0
            → opt.pagination ≡ []
            → opt.include_all ≡ false
            → count_all path opt.condition t ≡ ok (length objs))
  unfolding list_all count_all sorted
  list_all-count_all path opt t node open_yet =
      let objs = found path opt t in
      let out = sorted opt.sort objs in
      let (unlimited, bounded) = length-limited opt.limit out in
      (
        limited opt.limit out,
        ground arith,
        bounded,
        λ e no_page live.
            let all : length (limited opt.limit out)
                ≡ length
                    (each (namespace path) (λ o. condition_match json o opt.condition) t.b.tree) =
              unlimited e
              ∙ length-sorted opt.sort objs
              ∙ ap length (found_all path opt t no_page live) in
            ground (arith, all),
      )
