-- ===== src/Storage/Lists/Matches.antt =====
-- internal/conn/memory/storage/storage.go: every object that `ListAll` returns meets the condition.
use riposo.Prelude.{
  ℕ, zero, suc, ◌≡◌, Bool, true, not, ◌&&◌, Bool-cases, inl, inr, List, [], ◌∷◌, ◌++◌, is_empty,
  either, length, take, ltb, Text, Dict, IfOk, Option-cases,
}
use riposo.Path.{is_node, namespace}
use riposo.Schema.{Object}
use riposo.Params.{SortOrder, ConditionSet, compact}
use riposo.Storage.Tree.{Tree, each, get_node, matching}
use riposo.Storage.Filters.{
  Gjson, condition_match, pagination_filter, pagination_match, matching_page,
}
use riposo.Storage.Lists.{
  ListOptions, precedes, insert_object, sort_objects, found, limited, list_all,
}
use riposo.Storage.Txn.{Transaction}

abbrev pub Every : {A : Type 0} → (A → Type 0) → List A → Type 0
Every P [] = Unit
Every P (x ∷ xs) = P x × Every P xs

module _ {A : Type 0} (P : A → Type 0) where
  Every-append : (xs ys : List A) → Every P xs → Every P ys → Every P (xs ++ ys)
  Every-append [] ys h k = k
  Every-append (x ∷ xs) ys h k = (h.0, Every-append xs ys h.1 k)

  pub Every-take : (n : ℕ) (xs : List A) → Every P xs → Every P (take n xs)
  Every-take zero xs h = tt
  Every-take (suc n) [] h = tt
  Every-take (suc n) (x ∷ xs) h = (h.0, Every-take n xs h.1)

module _ {V : Type 0} (json : Gjson V) (P : Object → Type 0) where
  Every-insert_object :
      (sort : List SortOrder) (o : Object) (objs : List Object)
      → P o
      → Every P objs
      → Every P (insert_object json sort o objs)
  unfolding insert_object
  Every-insert_object sort o [] p h = (p, tt)
  Every-insert_object sort o (x ∷ objs) p h =
      either (Every P) (precedes json sort x o) (h.0, Every-insert_object sort o objs p h.1) (p, h)

  Every-sort_objects :
      (sort : List SortOrder) (objs : List Object)
      → Every P objs
      → Every P (sort_objects json sort objs)
  unfolding sort_objects
  Every-sort_objects sort [] h = tt
  Every-sort_objects sort (o ∷ objs) h =
      Every-insert_object sort o (sort_objects json sort objs) h.0
        (Every-sort_objects sort objs h.1)

  Every-matching_page :
      (cnds : ConditionSet V) (objs : List Object)
      → Every P objs
      → Every P (matching_page json cnds objs)
  unfolding matching_page
  Every-matching_page cnds [] h = tt
  Every-matching_page cnds (o ∷ objs) h =
      let rest = Every-matching_page cnds objs h.1 in
      either (Every P) (pagination_match json o cnds) (h.0, rest) rest

  Every-pagination_filter :
      (cnds : ConditionSet V) (objs : List Object)
      → Every P objs
      → Every P (pagination_filter json objs cnds)
  unfolding pagination_filter
  Every-pagination_filter cnds objs h =
      either (Every P) (is_empty (compact cnds)) h (Every-matching_page (compact cnds) objs h)

  Every-limited :
      (limit : ℕ) (objs : List Object) → Every P objs → Every P (limited json limit objs)
  unfolding limited
  Every-limited limit objs h =
      either (Every P) (ltb 0 limit && ltb limit (length objs)) (Every-take P limit objs h) h

  Every-matching :
      (matches : Object → Bool) (objects : Dict Object)
      → ((o : Object) → matches o ≡ true → P o)
      → Every P (matching matches objects)
  unfolding matching
  Every-matching matches [] h = tt
  Every-matching matches ((id, o) ∷ objects) h =
      let rest = Every-matching matches objects h in
      elim (Bool-cases (matches o)) [ inl e ↦ rw e (h o e, rest) | inr e ↦ rw e rest ]

  Every-each :
      (ns : Text) (matches : Object → Bool) (t : Tree)
      → ((o : Object) → matches o ≡ true → P o)
      → Every P (each ns matches t)
  unfolding each
  Every-each ns matches t h = elim (Option-cases (get_node ns t)) [
    | inl e ↦ rw (e, each) tt
    | inr (node, e) ↦ rw (e, each) (Every-matching matches node.objects h)
  ]

  -- What holds for all objects that meet the condition holds for all that are listed.
  pub Every-list_all :
      (path : Text) (opt : ListOptions V) (t : Transaction)
      → ((o : Object) → condition_match json o opt.condition ≡ true → P o)
      → IfOk (Every P) (list_all json path opt t)
  unfolding list_all found
  Every-list_all path opt t h =
      let matches : Object → Bool = λ o. condition_match json o opt.condition in
      let live = Every-each (namespace path) matches t.b.tree h in
      let dead = Every-each (namespace path) matches t.b.dead h in
      let all = found json path opt t in
      let listed : Every P all =
        Every-pagination_filter opt.pagination _
          (Every-append P _ _ live (either (Every P) opt.include_all dead tt)) in
      either (IfOk (Every P)) (not (is_node path)) tt (
        either (IfOk (Every P)) t.done tt (
          Every-limited opt.limit _
            (either (Every P) (is_empty opt.sort) listed (Every-sort_objects opt.sort all listed))))
