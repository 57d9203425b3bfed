-- ===== src/Cache/Reads.antt =====
-- internal/conn/memory/cache/cache.go: the transactions against a cache that is a function from
-- keys to values; the end of a transaction; and the reaper.
use mathlib.Core.Path.{ap₂}
use riposo.Prelude.{
  ℕ, ◌≤◌, ◌≡◌, refl, Bool, false, ◌&&◌, Option, none, some, List, [], ◌∷◌, arith, leb,
  if◌then◌else◌, Bool-cases, inl, inr, Text, text_eq, text_eq_iff, text_eq_refl, Dict, IsMap,
  lookup, lookup-insert, lookup-delete, Result, ok, err, rune_count, length, rune_count_bounds, ◌<◌,
}
use riposo.Cache.{
  Backend, Transaction, Item, Error, not_found, invalid_key, begin, flush, get, set, del, store,
  drop_key, backup_key, validate_key, fresh, removed, expired, reap_expired, reap,
}
use riposo.Cache.Steps.{backup_key-b, backup_key-done, set-valid, set-invalid, del-open, get-same}
use riposo.Cache.Calls.{
  Call, get_call, set_call, del_call, flush_call, Reply, bytes_of, done, reply, step, run, replies,
}

-- What a client may know of the cache: the value and the last time of every key.
abbrev pub View : Type 0
View = Text → Option Item

-- An entry counts up to its time, included.
live : ℕ → Option Item → Option Item
live now none = none
live now (some it) = if leb now it.exp then some it else none

-- A key of 1 to 256 characters.
valid : Text → Bool
valid key = leb 1 (rune_count key) && leb (rune_count key) 256

or_not_found : Option Item → (Item → Reply) → Result Error Reply
or_not_found none f = err not_found
or_not_found (some it) f = ok (f it)

unfoldable pub expect_reply : Call → View → Result Error Reply
unfolding live valid or_not_found
expect_reply (get_call key now) v = or_not_found (live now (v key)) (λ it. bytes_of it.val)
expect_reply (set_call key val exp) v = if valid key then ok done else err invalid_key
expect_reply (del_call key now) v = or_not_found (live now (v key)) (λ it. done)
expect_reply flush_call v = ok done

unfoldable pub expect_view : Call → View → View
unfolding valid
expect_view (get_call key now) v = v
expect_view (set_call key val exp) v =
    λ j. if valid key && text_eq key j then some (record { val = val; exp = exp }) else v j
expect_view (del_call key now) v = λ j. if text_eq key j then none else v j
expect_view flush_call v = λ j. none

pub expect_replies : List Call → View → List (Result Error Reply)
expect_replies [] v = []
expect_replies (call ∷ calls) v = expect_reply call v ∷ expect_replies calls (expect_view call v)

pub expect_run : List Call → View → View
expect_run [] v = v
expect_run (call ∷ calls) v = expect_run calls (expect_view call v)

-- An open transaction whose keys are as the view says.
pub record Shows (t : Transaction) (v : View) : Type 0 where
  pub open_yet : t.done ≡ false
  pub same : (j : Text) → lookup j t.b.keys ≡ v j

validate_key-valid :
    (key : Text) → validate_key key ≡ (if valid key then ok tt else err invalid_key)
unfolding validate_key valid
validate_key-valid key = ground arith

reply-expect :
    (call : Call) (t : Transaction) (v : View) → Shows t v → reply call t ≡ expect_reply call v
unfolding reply expect_reply
reply-expect (get_call key now) t v h = unfold get fresh expired in ground (arith, h.same key)
reply-expect (set_call key val exp) t v h = unfold set in ground (arith, validate_key-valid key)
reply-expect (del_call key now) t v h = unfold del removed expired in ground (arith, h.same key)
reply-expect flush_call t v h = unfold flush in ground arith

step-Shows :
    (call : Call) (t : Transaction) (v : View)
    → Shows t v
    → Shows (step call t) (expect_view call v)
unfolding step expect_view
step-Shows (get_call key now) t v h = rw (get-same key now t) h
step-Shows (set_call key val exp) t v h = elim (Bool-cases (valid key)) [
  | inl good ↦
      let e : validate_key key ≡ ok tt = rw (validate_key-valid, good) refl in
      rw (set-valid key val exp t h.open_yet e) (record {
        open_yet = unfold store in ground (arith, backup_key-done key t);
        same =
            λ j. unfold store in rw (backup_key-b, lookup-insert, good) (ground (arith, h.same j));
      })
  | inr bad ↦
      let e : validate_key key ≡ err invalid_key = rw (validate_key-valid, bad) refl in
      rw (set-invalid key val exp t e)
        (record { open_yet = h.open_yet; same = λ j. rw bad (h.same j) })
]
step-Shows (del_call key now) t v h = rw (del-open key now t h.open_yet) (record {
  open_yet = unfold drop_key in ground (arith, backup_key-done key t);
  same = λ j. unfold drop_key in rw (backup_key-b, lookup-delete) (ground (arith, h.same j));
})
step-Shows flush_call t v h =
    unfold flush in record { open_yet = ground arith; same = λ j. ground (arith, lookup_empty j) }
  where
    lookup_empty : (j : Text) → lookup {V = Item} j [] ≡ none
    lookup_empty j = unfold lookup in refl

run-Shows :
    (calls : List Call) (t : Transaction) (v : View)
    → Shows t v
    → Shows (run calls t) (expect_run calls v)
unfolding run expect_run
run-Shows [] t v h = h
run-Shows (call ∷ calls) t v h =
    run-Shows calls (step call t) (expect_view call v) (step-Shows call t v h)

replies-expect :
    (calls : List Call) (t : Transaction) (v : View)
    → Shows t v
    → replies calls t ≡ expect_replies calls v
unfolding replies expect_replies
replies-expect [] t v h = refl
replies-expect (call ∷ calls) t v h =
    ap₂ ◌∷◌ (reply-expect call t v h)
      (replies-expect calls (step call t) (expect_view call v) (step-Shows call t v h))

-- Whatever is called in a transaction, the replies are those of a cache that is a function from
-- keys to values, and the keys are left as in that function.
pub run-refines :
    (b : Backend) (calls : List Call)
    → (replies calls (begin b) ≡ expect_replies calls (λ j. lookup j b.keys))
      × Shows (run calls (begin b)) (expect_run calls (λ j. lookup j b.keys))
run-refines b calls =
    let h : Shows (begin b) (λ j. lookup j b.keys) =
      unfold begin in record { open_yet = refl; same = λ j. refl } in
    (replies-expect calls (begin b) _ h, run-Shows calls (begin b) _ h)

-- A key that was deleted is not found again, whatever the times: a token is spent once.
pub del-del :
    (key : Text) (now later : ℕ) (t : Transaction)
    → t.done ≡ false
    → (del key later (del key now t).1).0 ≡ err not_found
del-del key now later t h = rw (del-open key now t h) (again (backup_key-b key t))
  where
    again : (backup_key key t).b ≡ t.b → (del key later (drop_key key t)).0 ≡ err not_found
    again e =
        unfold del drop_key removed in
        ground (
          arith,
          backup_key-done key t,
          lookup-delete key key (backup_key key t).b.keys,
          text_eq_refl key,
        )

reap-lookup :
    (now later : ℕ) (key : Text) (m : Dict Item)
    → now ≤ later
    → IsMap m
    → fresh later (lookup key (reap now m)) ≡ fresh later (lookup key m)
unfolding fresh reap lookup expired
reap-lookup now later key [] h d = refl
reap-lookup now later key ((k, it) ∷ m) h d =
    ground (arith, reap-lookup now later key m h d.1, text_eq_iff k key, d.0)

-- The reaper takes away nothing that a later `Get` could return.
pub get-reap_expired :
    (now later : ℕ) (key : Text) (b : Backend)
    → now ≤ later
    → IsMap b.keys
    → (get key later (begin (reap_expired now b))).0 ≡ (get key later (begin b)).0
unfolding get begin reap_expired
get-reap_expired now later key b h d = reap-lookup now later key b.keys h d

-- A key of 1 to 256 bytes is valid, and one of more than 1024 bytes is not.
pub validate_key_bounds :
    (key : Text)
    → (1 ≤ length key → length key ≤ 256 → validate_key key ≡ ok tt)
      × (1024 < length key → validate_key key ≡ err invalid_key)
unfolding validate_key
validate_key_bounds key =
    let (low, high) = rune_count_bounds key in (λ a b. ground arith, λ a. ground arith)
