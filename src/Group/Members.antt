-- ===== src/Group/Members.antt =====
-- internal/model/group/group.go: the members of a group after `norm`.
use riposo.Prelude.{
  ◌≡◌, refl, ap, ◌∙◌, true, false, not, ◌&&◌, ◌||◌, none, some, List, [], ◌∷◌, arith, Bool-cases,
  inl, inr, is_empty, Text, text_eq, text_eq_iff, text_lt, text_lt_total, text_lt_irrefl,
  text_lt_trans, elem,
}
use riposo.Set.{sort_strings, insert_sorted}
use riposo.Set.Slices.{AllAfter, Ascending, AllAfter-trans, elem-sort_strings}
use riposo.Group.{is_last, keep_new, norm}

-- No value of the list comes before v.
abbrev NoneBefore : Text → List Text → Type 0
NoneBefore v [] = Unit
NoneBefore v (w ∷ ws) = (text_lt w v ≡ false) × NoneBefore v ws

abbrev IsSorted : List Text → Type 0
IsSorted [] = Unit
IsSorted (v ∷ vv) = NoneBefore v vv × IsSorted vv

not_before_trans : (u v w : Text) → text_lt v u ≡ false → text_lt w v ≡ false → text_lt w u ≡ false
not_before_trans u v w h k =
    ground (arith, text_lt_total v u h, text_lt_trans w u v, text_eq_iff v u)

text_lt_asym : (v w : Text) → text_lt v w ≡ true → text_lt w v ≡ false
text_lt_asym v w h = ground (arith, text_lt_trans v w v h, text_lt_irrefl v)

NoneBefore-trans :
    (u v : Text) (ws : List Text) → text_lt v u ≡ false → NoneBefore v ws → NoneBefore u ws
NoneBefore-trans u v [] h a = tt
NoneBefore-trans u v (w ∷ ws) h a = (not_before_trans u v w h a.0, NoneBefore-trans u v ws h a.1)

NoneBefore-insert_sorted :
    (u v : Text) (ws : List Text)
    → text_lt v u ≡ false
    → NoneBefore u ws
    → NoneBefore u (insert_sorted v ws)
unfolding insert_sorted
NoneBefore-insert_sorted u v [] h a = (h, tt)
NoneBefore-insert_sorted u v (w ∷ ws) h a = elim (Bool-cases (text_lt w v)) [
  | inl e ↦ rw e (a.0, NoneBefore-insert_sorted u v ws h a.1)
  | inr e ↦ rw e (h, a)
]

insert_sorted-IsSorted : (v : Text) (ws : List Text) → IsSorted ws → IsSorted (insert_sorted v ws)
unfolding insert_sorted
insert_sorted-IsSorted v [] h = (tt, tt)
insert_sorted-IsSorted v (w ∷ ws) h = elim (Bool-cases (text_lt w v)) [
  | inl e ↦
      rw e
        (NoneBefore-insert_sorted w v ws (text_lt_asym w v e) h.0, insert_sorted-IsSorted v ws h.1)
  | inr e ↦ rw e ((e, NoneBefore-trans v w ws e h.0), h)
]

sort_strings-IsSorted : (vv : List Text) → IsSorted (sort_strings vv)
unfolding sort_strings
sort_strings-IsSorted [] = tt
sort_strings-IsSorted (v ∷ vv) =
    insert_sorted-IsSorted v (sort_strings vv) (sort_strings-IsSorted vv)

-- After a member l, those that are kept come after it, each once.
keep_new-Ascending :
    (l : Text) (vv : List Text)
    → IsSorted (l ∷ vv)
    → AllAfter l (keep_new (some l) vv) × Ascending (keep_new (some l) vv)
unfolding keep_new is_last
keep_new-Ascending l [] h = (tt, tt)
keep_new-Ascending l (v ∷ vv) h =
    let rest = keep_new-Ascending l vv (h.0.1, h.1.1) in
    elim (Bool-cases (is_empty v)) [
      | inl e ↦ rw e rest
      | inr e ↦ elim (Bool-cases (text_eq l v)) [
        | inl same ↦ rw e (rw same rest)
        | inr other ↦
            let (after, up) = keep_new-Ascending v vv h.1 in
            let next : text_lt l v ≡ true =
              text_lt_total v l h.0.0 (ground (arith, text_eq_iff l v, text_eq_iff v l)) in
            rw e
              (rw other ((next, AllAfter-trans l v (keep_new (some v) vv) next after), (after, up)))
      ]
    ]

norm_sorted : (vv : List Text) → IsSorted vv → Ascending (keep_new none vv)
unfolding keep_new is_last
norm_sorted [] h = tt
norm_sorted (v ∷ vv) h = elim (Bool-cases (is_empty v)) [
  | inl e ↦ rw e (norm_sorted vv h.1)
  | inr e ↦ rw e (keep_new-Ascending v vv h)
]

elem-keep_new :
    (u l : Text) (vv : List Text)
    → (elem u (keep_new (some l) vv) || text_eq l u)
      ≡ ((elem u vv && not (is_empty u)) || text_eq l u)
unfolding keep_new is_last elem
elem-keep_new u l [] = refl
elem-keep_new u l (v ∷ vv) = ground (
  arith,
  text_eq_iff l u,
  text_eq_iff l v,
  text_eq_iff v u,
  elem-keep_new u l vv,
  elem-keep_new u v vv,
)

elem-norm :
    (u : Text) (vv : List Text) → elem u (keep_new none vv) ≡ (elem u vv && not (is_empty u))
unfolding keep_new is_last elem
elem-norm u [] = refl
elem-norm u (v ∷ vv) = ground (arith, text_eq_iff v u, elem-keep_new u v vv, elem-norm u vv)

-- The members of a group after `norm` are those before it without the empty text, in ascending order and
-- each once.
pub norm_lem :
    (members : List Text)
    → Ascending (norm members)
      × ((u : Text) → elem u (norm members) ≡ (elem u members && not (is_empty u)))
unfolding norm
norm_lem members = (
  norm_sorted (sort_strings members) (sort_strings-IsSorted members),
  λ u.
      elem-norm u (sort_strings members)
      ∙ ap (λ b. b && not (is_empty u)) (elem-sort_strings u members),
)
