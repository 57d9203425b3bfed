-- ===== src/Prelude/Strings.antt =====
-- Go's strings: lists of bytes, with the functions of the package `strings` that the code calls.
use Prim.Native.Nat.{ℕ, zero, suc, ◌+◌, ◌-◌, ◌*◌, ◌≤◌, ◌<◌}
use Prim.Native.Char.{code}
use Prim.Native.String.{String}
use mathlib.Core.Path.{◌≡◌, refl, ap}
use mathlib.Core.Logic.{◌↔◌}
use mathlib.Core.Bool.{Bool, true, false, ◌&&◌}
use mathlib.Core.List.{List, [], ◌∷◌, ◌++◌}
use mathlib.Core.Option.{Option, none, some}
use native.Mathlib.Decide.{ℕ_discrete}
use native.Mathlib.Omega.{arith}
use riposo.Prelude.Tests.{ltb, leb, ◌==◌, if◌then◌else◌}
use riposo.Prelude.Lists.{length, get_or, drop}

abbrev pub Text : Type 0
Text = List ℕ

-- The bytes of a literal, which is ASCII wherever it stands here.
abbrev pub bytes : String → Text
bytes String.[] = []
bytes (String.◌∷◌ c s) = code c ∷ bytes s

-- s == t
unfoldable pub text_eq : Text → Text → Bool
text_eq [] [] = true
text_eq [] (b ∷ t) = false
text_eq (a ∷ s) [] = false
text_eq (a ∷ s) (b ∷ t) = (a == b) && text_eq s t

eq_of_text_eq : (s t : Text) → text_eq s t ≡ true → s ≡ t
unfolding text_eq
eq_of_text_eq [] [] h = refl
eq_of_text_eq [] (b ∷ t) h = cc
eq_of_text_eq (a ∷ s) [] h = cc
eq_of_text_eq (a ∷ s) (b ∷ t) h = ground (arith, eq_of_text_eq s t)

pub text_eq_refl : (s : Text) → text_eq s s ≡ true
unfolding text_eq
text_eq_refl [] = refl
text_eq_refl (a ∷ s) = ground (arith, text_eq_refl s)

pub text_eq_iff : (s t : Text) → (text_eq s t ≡ true) ↔ (s ≡ t)
text_eq_iff s t = (eq_of_text_eq s t, λ e. rw e (text_eq_refl t))

-- strings.HasPrefix(s, prefix)
unfoldable pub has_prefix : Text → Text → Bool
has_prefix s [] = true
has_prefix [] (c ∷ prefix) = false
has_prefix (a ∷ s) (c ∷ prefix) = (a == c) && has_prefix s prefix

pub has_prefix-append : (prefix s : Text) → has_prefix (prefix ++ s) prefix ≡ true
unfolding has_prefix
has_prefix-append [] s = refl
has_prefix-append (c ∷ prefix) s = ground (arith, has_prefix-append prefix s)

pub append-drop_of_has_prefix :
    (s prefix : Text) → has_prefix s prefix ≡ true → s ≡ prefix ++ drop (length prefix) s
unfolding has_prefix
append-drop_of_has_prefix s [] h = refl
append-drop_of_has_prefix [] (c ∷ prefix) h = cc
append-drop_of_has_prefix (a ∷ s) (c ∷ prefix) h =
    ground (arith, append-drop_of_has_prefix s prefix)

-- strings.LastIndexByte(s, c), with `none` for -1
unfoldable pub last_index_byte : Text → ℕ → Option ℕ
last_index_byte [] c = none
last_index_byte (a ∷ s) c = elim (last_index_byte s c) [
  | some i ↦ some (suc i)
  | none ↦ if a == c then some 0 else none
]

-- How often a byte stands in a text.
unfoldable pub count_byte : ℕ → Text → ℕ
count_byte c [] = 0
count_byte c (a ∷ s) = if a == c then suc (count_byte c s) else count_byte c s

pub count_byte-append :
    (c : ℕ) (s t : Text) → count_byte c (s ++ t) ≡ count_byte c s + count_byte c t
unfolding count_byte
count_byte-append c [] t = omega arith
count_byte-append c (a ∷ s) t = ground (arith, count_byte-append c s t)

pub last_index_byte_absent : (s : Text) (c : ℕ) → count_byte c s ≡ 0 → last_index_byte s c ≡ none
unfolding last_index_byte count_byte
last_index_byte_absent [] c h = refl
last_index_byte_absent (a ∷ s) c h = ground (arith, last_index_byte_absent s c)

pub last_index_byte_last :
    (s t : Text) (c : ℕ) → count_byte c t ≡ 0 → last_index_byte (s ++ c ∷ t) c ≡ some (length s)
unfolding last_index_byte
last_index_byte_last [] t c h = ground (arith, last_index_byte_absent t c h)
last_index_byte_last (a ∷ s) t c h = rw (last_index_byte_last s t c h)

-- A text with the byte in it parts at the last one.
pub text_parts :
    (s : Text) (c : ℕ)
    → 0 < count_byte c s
    → (u : Text) × (v : Text) × (s ≡ u ++ c ∷ v) × (count_byte c v ≡ 0)
unfolding count_byte
text_parts [] c h = absurd (omega arith)
text_parts (a ∷ s) c h = elim (ℕ_discrete (count_byte c s) 0) [
  | yes e ↦ ([], s, ap (λ b. b ∷ s) (ground arith), e)
  | no n ↦ let (u, v, e, z) = text_parts s c (omega arith) in (a ∷ u, v, ap (◌∷◌ a) e, z)
]

-- No byte of a text without c is c; the default of a read out of range is no such byte either.
pub get_or_absent : (s : Text) (c i : ℕ) → count_byte c s ≡ 0 → 0 < c → (get_or s i 0 == c) ≡ false
unfolding count_byte
get_or_absent [] c i h pos = ground arith
get_or_absent (a ∷ s) c zero h pos = ground arith
get_or_absent (a ∷ s) c (suc i) h pos = ground (arith, get_or_absent s c i)

-- s < t, byte by byte
unfoldable pub text_lt : Text → Text → Bool
text_lt [] [] = false
text_lt [] (b ∷ t) = true
text_lt (a ∷ s) [] = false
text_lt (a ∷ s) (b ∷ t) = if a == b then text_lt s t else ltb a b

pub text_lt_trans : (s t u : Text) → text_lt s t ≡ true → text_lt t u ≡ true → text_lt s u ≡ true
unfolding text_lt
text_lt_trans [] [] u h k = cc
text_lt_trans [] (b ∷ t) [] h k = cc
text_lt_trans [] (b ∷ t) (c ∷ u) h k = refl
text_lt_trans (a ∷ s) [] u h k = cc
text_lt_trans (a ∷ s) (b ∷ t) [] h k = cc
text_lt_trans (a ∷ s) (b ∷ t) (c ∷ u) h k = ground (arith, text_lt_trans s t u)

pub text_lt_total : (s t : Text) → text_lt s t ≡ false → text_eq s t ≡ false → text_lt t s ≡ true
unfolding text_lt text_eq
text_lt_total [] [] h k = cc
text_lt_total [] (b ∷ t) h k = cc
text_lt_total (a ∷ s) [] h k = refl
text_lt_total (a ∷ s) (b ∷ t) h k = ground (arith, text_lt_total s t)

pub text_lt_irrefl : (s : Text) → text_lt s s ≡ false
unfolding text_lt
text_lt_irrefl [] = refl
text_lt_irrefl (a ∷ s) = ground (arith, text_lt_irrefl s)

-- utf8.RuneCountInString: an ill-formed byte counts as a rune of its own.
between : ℕ → ℕ → ℕ → Bool
between lo hi c = leb lo c && leb c hi

-- The size of the rune at the head, whose other bytes are in s.
rune_size : ℕ → Text → ℕ
rune_size c s =
    let second = get_or s 0 0 in
    let third = between 0x80 0xBF (get_or s 1 0) in
    let fourth = between 0x80 0xBF (get_or s 2 0) in
    if between 0xC2 0xDF c
    then (if between 0x80 0xBF second then 2 else 1)
    else if between 0xE0 0xEF c
    then (if between (if c == 0xE0 then 0xA0 else 0x80) (if c == 0xED then 0x9F else 0xBF) second
          && third
        then 3
        else 1)
    else if between 0xF0 0xF4 c
    then (if between (if c == 0xF0 then 0x90 else 0x80) (if c == 0xF4 then 0x8F else 0xBF) second
          && (third && fourth)
        then 4
        else 1)
    else 1

-- The first bytes, so many as `skip` says, belong to a rune that is counted already.
count_runes : ℕ → Text → ℕ
count_runes skip [] = 0
count_runes zero (c ∷ s) = suc (count_runes (rune_size c s - 1) s)
count_runes (suc skip) (c ∷ s) = count_runes skip s

unfoldable pub rune_count : Text → ℕ
unfolding between rune_size count_runes
rune_count s = count_runes 0 s

rune_size_bounds : (c : ℕ) (s : Text) → (1 ≤ rune_size c s) × (rune_size c s ≤ 4)
unfolding rune_size
rune_size_bounds c s = ground arith

count_runes_bounds :
    (skip : ℕ) (s : Text)
    → (count_runes skip s ≤ length s) × (length s ≤ skip + 4 * count_runes skip s)
unfolding count_runes
count_runes_bounds skip [] = omega arith
count_runes_bounds zero (c ∷ s) =
    omega (arith, count_runes_bounds (rune_size c s - 1) s, rune_size_bounds c s)
count_runes_bounds (suc skip) (c ∷ s) = omega (arith, count_runes_bounds skip s)

-- A rune takes one to four bytes.
pub rune_count_bounds : (s : Text) → (rune_count s ≤ length s) × (length s ≤ 4 * rune_count s)
unfolding rune_count
rune_count_bounds s = omega (arith, count_runes_bounds 0 s)
