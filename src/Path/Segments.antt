-- ===== src/Path/Segments.antt =====
-- pkg/riposo/path.go: `Split`, `WithObjectID` and `Parent` against the segments of a path.
use riposo.Prelude.{
  ℕ, zero, suc, ◌+◌, ◌-◌, ◌≤◌, ◌<◌, ◌≡◌, refl, sym, ap, ◌∙◌, Bool, true, false, [], ◌∷◌, ◌++◌,
  arith, ◌==◌, length, get_or, take, take-append, drop-suc-append, get_or-append_right,
  get_or-append_left, length-append, if◌then◌else◌, Text, count_byte, count_byte-append,
  last_index_byte_absent, last_index_byte_last, text_parts, get_or_absent,
}
use native.Mathlib.Decide.{dec_lt}
use mathlib.Core.List.{append_assoc, append-nil}
use riposo.Path.{
  slash, split, namespace, object_id, with_object_id, before_last, parent, parent_loop,
}

abbrev pub HasNoSlash : Text → Type 0
HasNoSlash s = count_byte slash s ≡ 0

pub split-append : (u v : Text) → HasNoSlash v → split (u ++ slash ∷ v) ≡ (u, v)
unfolding split
split-append u v h =
    rw (last_index_byte_last u v slash h, split)
      (λ i. (take-append u (slash ∷ v) i, drop-suc-append u v slash i))

split_absent : (p : Text) → HasNoSlash p → split p ≡ ([], [])
unfolding split
split_absent p h = rw (last_index_byte_absent p slash h, split)

-- A path with a slash is its namespace, a slash and its object ID, which has no slash; any other
-- path has neither part.
pub split_lem :
    (p : Text)
    → (0 < count_byte slash p → (p ≡ namespace p ++ slash ∷ object_id p) × HasNoSlash (object_id p))
      × (count_byte slash p ≡ 0 → (namespace p ≡ []) × (object_id p ≡ []))
unfolding namespace object_id
split_lem p = (
  λ h. let (u, v, e, z) = text_parts p slash h in ground (arith, split-append u v z),
  λ h. ground (arith, split_absent p h),
)

before_last-append : (u v : Text) → HasNoSlash v → before_last (u ++ slash ∷ v) ≡ u
unfolding before_last
before_last-append u v h =
    rw (last_index_byte_last u v slash h, before_last) (take-append u (slash ∷ v))

-- Another object ID in place of the last one: it can be read back, the namespace stays, and the
-- last replacement counts.
pub with_object_id_lem :
    (p a b : Text)
    → 0 < count_byte slash p
    → HasNoSlash a
    → (object_id (with_object_id p a) ≡ a)
      × (namespace (with_object_id p a) ≡ namespace p)
      × (with_object_id (with_object_id p a) b ≡ with_object_id p b)
unfolding namespace object_id with_object_id
with_object_id_lem p a b h na =
    let (u, v, e, z) = text_parts p slash h in
    ground (
      arith,
      before_last-append u v z,
      split-append u a na,
      split-append u v z,
      before_last-append u a na,
    )

-- The loop of `Parent` passes over a part with no slash.
parent_loop_skip :
    (m k : ℕ) (seen : Bool) (p : Text)
    → k ≤ m
    → ((i : ℕ) → k ≤ i → i < m → (get_or p i 0 == slash) ≡ false)
    → parent_loop m seen p ≡ parent_loop k seen p
unfolding parent_loop
parent_loop_skip zero zero seen p h clear = refl
parent_loop_skip zero (suc k) seen p h clear = absurd (omega arith)
parent_loop_skip (suc m) k seen p h clear = elim (dec_lt m k) [
  | yes l ↦ ap (λ j. parent_loop j seen p) {x = suc m} {y = k} (omega arith)
  | no l ↦
      rw (clear m (omega arith) (omega arith))
        (parent_loop_skip m k seen p (omega arith) (λ i a b. clear i a (omega arith)))
]

-- The part of u ++ s ++ t that is s has no slash.
skip-append :
    (u s t : Text) (seen : Bool) {p : Text}
    → p ≡ u ++ (s ++ t)
    → HasNoSlash s
    → parent_loop (length u + length s) seen p ≡ parent_loop (length u) seen p
skip-append u s t seen {p} q h =
    parent_loop_skip (length u + length s) (length u) seen p (omega arith) λ i a b.
      let e : get_or p i 0 ≡ get_or s (i - length u) 0 =
        ap (λ x. get_or x i 0) q
        ∙ get_or-append_right u (s ++ t) i 0 a
        ∙ get_or-append_left s t (i - length u) 0 (omega arith) in
      ap (λ c. c == slash) e ∙ get_or_absent s slash (i - length u) h (omega arith)

-- A round at a slash.
round-append :
    (u t : Text) (seen : Bool) {p : Text}
    → p ≡ u ++ slash ∷ t
    → parent_loop (suc (length u)) seen p ≡ (if seen then u else parent_loop (length u) true p)
unfolding parent_loop
round-append u t seen {p} q =
    let e : get_or p (length u) 0 ≡ slash =
      ap (λ x. get_or x (length u) 0) q
      ∙ get_or-append_right u (slash ∷ t) (length u) 0 (omega arith)
      ∙ ap (λ j. get_or (slash ∷ t) j 0) {y = 0} (omega arith) in
    let f : take (length u) p ≡ u = ap (take (length u)) q ∙ take-append u (slash ∷ t) in
    rw (e, f) refl

-- The rounds over a last part with no slash and over the slash before it.
last_rounds :
    (u v t : Text) (seen : Bool) {p : Text}
    → p ≡ u ++ slash ∷ (v ++ t)
    → HasNoSlash v
    → parent_loop (suc (length u + length v)) seen p
      ≡ (if seen then u else parent_loop (length u) true p)
last_rounds u v t seen {p} q h =
    ap (λ n. parent_loop n seen p) {y = length (u ++ slash ∷ []) + length v}
      (omega (arith, length-append u (slash ∷ [])))
    ∙ skip-append (u ++ slash ∷ []) v t seen (q ∙ sym (append_assoc u (slash ∷ []) (v ++ t))) h
    ∙ ap (λ n. parent_loop n seen p) {y = suc (length u)}
        (omega (arith, length-append u (slash ∷ [])))
    ∙ round-append u (v ++ t) seen q

-- `Parent` drops the last two segments.
pub parent-append :
    (u a b : Text) → HasNoSlash a → HasNoSlash b → parent (u ++ slash ∷ (a ++ slash ∷ b)) ≡ u
unfolding parent
parent-append u a b na nb =
    let p : Text = u ++ slash ∷ (a ++ slash ∷ b) in
    let w : Text = u ++ slash ∷ a in
    let q : p ≡ w ++ slash ∷ b = sym (append_assoc u (slash ∷ a) (slash ∷ b)) in
    let q' : p ≡ w ++ slash ∷ (b ++ []) = q ∙ ap (λ x. w ++ slash ∷ x) (sym (append-nil b)) in
    let n : length p ≡ suc (length w + length b) =
      ap length q ∙ omega (arith, length-append w (slash ∷ b)) in
    ap (λ n. parent_loop n false p) n
    ∙ last_rounds w b [] false q' nb
    ∙ ap (λ n. parent_loop n true p) {y = suc (length u + length a)}
        (omega (arith, length-append u (slash ∷ a)))
    ∙ last_rounds u a (slash ∷ b) true refl na

-- The loop passes over a first part with no slash.
skip-first :
    (s t : Text) (seen : Bool) {p : Text}
    → p ≡ s ++ t
    → HasNoSlash s
    → parent_loop (length s) seen p ≡ []
unfolding parent_loop
skip-first s t seen {p} q h =
    ap (λ n. parent_loop n seen p) {y = 0 + length s} (omega arith) ∙ skip-append [] s t seen q h

parent_absent : (p : Text) → HasNoSlash p → parent p ≡ []
unfolding parent
parent_absent p h = skip-first p [] false (sym (append-nil p)) h

parent_single : (u v : Text) → HasNoSlash u → HasNoSlash v → parent (u ++ slash ∷ v) ≡ []
unfolding parent
parent_single u v nu nv =
    let p : Text = u ++ slash ∷ v in
    let n : length p ≡ suc (length u + length v) = omega (arith, length-append u (slash ∷ v)) in
    ap (λ n. parent_loop n false p) n
    ∙ last_rounds u v [] false (ap (λ x. u ++ slash ∷ x) (sym (append-nil v))) nv
    ∙ skip-first u (slash ∷ v) true refl nu

two_parts :
    (p : Text)
    → 1 < count_byte slash p
    → (u : Text) × (a : Text) × (b : Text) × (p ≡ u ++ slash ∷ (a ++ slash ∷ b))
      × HasNoSlash a
      × HasNoSlash b
two_parts p h =
    let (w, b, e, nb) = text_parts p slash (omega arith) in
    let n : count_byte slash p ≡ count_byte slash w + suc (count_byte slash b) =
      ap (count_byte slash) e
      ∙ count_byte-append slash w (slash ∷ b)
      ∙ ap (λ k. count_byte slash w + k) (unfold count_byte in refl) in
    let (u, a, e', na) = text_parts w slash (omega arith) in
    (u, a, b, e ∙ ap (λ x. x ++ slash ∷ b) e' ∙ append_assoc u (slash ∷ a) (slash ∷ b), na, nb)

parent_short : (p : Text) → count_byte slash p ≤ 1 → parent p ≡ []
parent_short p h = elim (dec_lt 0 (count_byte slash p)) [
  | no z ↦ parent_absent p (omega arith)
  | yes pos ↦
      let (u, v, e, nv) = text_parts p slash pos in
      let n : count_byte slash p ≡ count_byte slash u + suc (count_byte slash v) =
        ap (count_byte slash) e
        ∙ count_byte-append slash u (slash ∷ v)
        ∙ ap (λ k. count_byte slash u + k) (unfold count_byte in refl) in
      ap parent e ∙ parent_single u v (omega arith) nv
]

-- The parent of a path with two slashes or more is what stands before its last two segments; that
-- of any other path is empty.
pub parent_lem :
    (p : Text)
    → (1 < count_byte slash p
        → (a : Text) × (b : Text) × (p ≡ parent p ++ slash ∷ (a ++ slash ∷ b))
          × HasNoSlash a
          × HasNoSlash b)
      × (count_byte slash p ≤ 1 → parent p ≡ [])
parent_lem p = (
  λ h.
      let (u, a, b, e, na, nb) = two_parts p h in
      let q : parent p ≡ u = ap parent e ∙ parent-append u a b na nb in
      (a, b, e ∙ ap (λ x. x ++ slash ∷ (a ++ slash ∷ b)) (sym q), na, nb),
  parent_short p,
)
