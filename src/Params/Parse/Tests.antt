-- ===== src/Params/Parse/Tests.antt =====
-- pkg/params: instances of the theorems.
use riposo.Prelude.{◌≡◌, refl, arith, true, false, List, [], ◌∷◌, Text, bytes, Dict, err}
use riposo.Params.{pos}
use riposo.Params.Parse.{Values, prepend, split_func, parse}
use riposo.Params.Parse.Shape.{Outcome, parse-Outcome}

abbrev values : Values Text
values = record {
  null_value = bytes "null";
  valid = λ t. false;
  parse = λ t. t;
  has_raw = λ v. true;
  string_value = λ t. t;
  atoi = λ t. pos 77;
  decode_token = λ t. err t;
}

abbrev query : Dict (List Text)
query =
    (bytes "_limit", bytes "77" ∷ [])
    ∷ (bytes "_sort", bytes "-age,name,age" ∷ [])
    ∷ (bytes "in_id", bytes "a,b" ∷ [])
    ∷ []

pieces : split_func (bytes "a,,b,") b',' ≡ bytes "a" ∷ [] ∷ bytes "b" ∷ []
unfolding split_func prepend
pieces = refl

parse-Outcome_example : Outcome values 50 query (parse values query (pos 50))
parse-Outcome_example = parse-Outcome values 50 query (ground arith)
