-- ===== src/Path/Norm.antt =====
-- pkg/riposo/path.go: `NormPath` and `JoinPath`.
use mathlib.Core.List.{append-nil}
use riposo.Prelude.{
  ℕ, ◌%◌, ◌≤◌, ◌<◌, ◌≡◌, refl, sym, ap, ◌∙◌, false, [], ◌∷◌, ◌++◌, arith, ◌==◌, Text, bytes,
  count_byte, count_byte-append, has_prefix, Bool-cases, ==_iff, inl, inr, ◌≢◌,
}
use riposo.Path.{
  slash, norm_path, norm_trimmed, trim_path_prefix, trim_loop, trim, trim_left, trim_right,
  join_path, join_parts, namespace, object_id,
}
use riposo.Path.Segments.{HasNoSlash, split_lem}

norm_trimmed_even : (p : Text) → count_byte slash (norm_trimmed p) % 2 ≡ 0
unfolding norm_trimmed
norm_trimmed_even [] = unfold count_byte in refl
norm_trimmed_even (c ∷ p) = elim (Bool-cases (count_byte slash (c ∷ p) % 2 == 0)) [
  | inl e ↦ rw e (omega (arith, (==_iff (count_byte slash (c ∷ p) % 2) 0).0 e))
  | inr n ↦ rw n (odd (c ∷ p) n)
]
  where
    odd :
        (s : Text)
        → (count_byte slash s % 2 == 0) ≡ false
        → count_byte slash (s ++ bytes "/*") % 2 ≡ 0
    odd s n =
        let one : count_byte slash (bytes "/*") ≡ 1 = unfold count_byte in refl in
        ground (arith, count_byte-append slash s (bytes "/*"))

-- A normalised path has an even number of slashes: it is made of pairs of a resource name and an
-- object ID, or of a resource name and the wildcard.
pub norm_path_even : (p : Text) → count_byte slash (norm_path p) % 2 ≡ 0
unfolding norm_path
norm_path_even p = norm_trimmed_even (trim_path_prefix p)

norm_trimmed_of_even : (s : Text) → count_byte slash s % 2 ≡ 0 → norm_trimmed s ≡ s
unfolding norm_trimmed
norm_trimmed_of_even [] h = refl
norm_trimmed_of_even (c ∷ s) h = rw h

norm_path_plain : (p : Text) → has_prefix p (bytes "/v") ≡ false → norm_path p ≡ norm_trimmed p
unfolding norm_path trim_path_prefix
norm_path_plain p h = rw h

-- A normalised path that begins with no version prefix is normalised once and for all.
pub norm_path_idem :
    (p : Text)
    → has_prefix (norm_path p) (bytes "/v") ≡ false
    → norm_path (norm_path p) ≡ norm_path p
norm_path_idem p h =
    norm_path_plain (norm_path p) h ∙ norm_trimmed_of_even (norm_path p) (norm_path_even p)

abbrev pub IsDigit : ℕ → Type 0
IsDigit c = (b'0' ≤ c) × (c ≤ b'9')

abbrev pub AreDigits : Text → Type 0
AreDigits [] = Unit {0}
AreDigits (c ∷ s) = IsDigit c × AreDigits s

trim_loop_digits :
    (path digits rest : Text)
    → AreDigits digits
    → trim_loop path (digits ++ rest) ≡ trim_loop path rest
unfolding trim_loop
trim_loop_digits path [] rest h = refl
trim_loop_digits path (c ∷ digits) rest h = ground (arith, trim_loop_digits path digits rest)

-- A version prefix, which is /v and digits, is dropped where a slash or the end follows it; where
-- another character follows, the path stays.
pub trim_path_prefix_lem :
    (digits rest : Text) (c : ℕ)
    → AreDigits digits
    → (trim_path_prefix (bytes "/v" ++ (digits ++ slash ∷ rest)) ≡ slash ∷ rest)
      × (trim_path_prefix (bytes "/v" ++ digits) ≡ [])
      × (¬ IsDigit c
          → c ≢ slash
          → trim_path_prefix (bytes "/v" ++ (digits ++ c ∷ rest))
            ≡ bytes "/v" ++ (digits ++ c ∷ rest))
unfolding trim_path_prefix trim_loop has_prefix
trim_path_prefix_lem digits rest c h = (
  trim_loop_digits _ digits (slash ∷ rest) h,
  ap (trim_loop _) (sym (append-nil digits)) ∙ trim_loop_digits _ digits [] h,
  λ nd ns. trim_loop_digits _ digits (c ∷ rest) h ∙ ground arith,
)

trim_right_absent : (s : Text) → HasNoSlash s → trim_right s ≡ s
unfolding trim_right count_byte
trim_right_absent [] h = refl
trim_right_absent (c ∷ s) h = ground (arith, trim_right_absent s)

trim_left_absent : (s : Text) → HasNoSlash s → trim_left s ≡ s
unfolding trim_left count_byte
trim_left_absent [] h = refl
trim_left_absent (c ∷ s) h = ground arith

trim_absent : (s : Text) → HasNoSlash s → trim s ≡ s
unfolding trim
trim_absent s h = ap trim_right (trim_left_absent s h) ∙ trim_right_absent s h

-- `JoinPath` puts together what `Split` took apart, for a normalised path without a version prefix.
pub join_path-split :
    (p : Text)
    → 0 < count_byte slash p
    → count_byte slash p % 2 ≡ 0
    → has_prefix p (bytes "/v") ≡ false
    → join_path (namespace p ∷ object_id p ∷ []) ≡ p
unfolding join_path
join_path-split p some_slash even plain =
    let (whole, absent) = (split_lem p).0 some_slash in
    let joined : join_parts (namespace p ∷ object_id p ∷ []) ≡ p =
      ap (λ x. namespace p ++ slash ∷ x) (append-nil (trim (object_id p)) ∙ trim_absent _ absent)
      ∙ sym whole in
    ap norm_path joined ∙ norm_path_plain p plain ∙ norm_trimmed_of_even p even
