-- ===== src/Api/Actions/Nesting.antt =====
-- pkg/api/actions.go: the order of the callbacks.
use mathlib.Core.List.{append-nil}
use riposo.Prelude.{
  ℕ, ◌≡◌, refl, sym, ap, ◌∙◌, Option, none, some, List, [], ◌∷◌, ◌++◌, Text, Result, ok, err,
  Effect, pure, ◌>>=◌, continue, continue-continue,
}
use riposo.Schema.{Object}
use riposo.Schema.Resources.{Resource}
use riposo.Api.Errors.{Error}
use riposo.Api.Txn.{Txn}
use riposo.Api.Model.{Model}
use riposo.Api.Actions.{
  Callback, Callbacks, Deletion, append_some, act_after, prepare_each, prepare_callbacks,
  run_before, run_after, around, with_permissions, create, update, patch, delete, deletion,
  delete_all, optional_callback,
}

abbrev pub cons_some : {C : Type 0} → Option C → List C → List C
cons_some none cs = cs
cons_some (some c) cs = c ∷ cs

module _ {C : Type 0} where
  -- The callbacks that the plugins give, in their order: each plugin is asked once, after those before it.
  pub given : (Callbacks → Txn → Option C × Txn) → List Callbacks → Txn → List C × Txn
  given fn [] txn = ([], txn)
  given fn (cb ∷ cbs) txn =
      let (cm, txn') = fn cb txn in let (cs, txn'') = given fn cbs txn' in (cons_some cm cs, txn'')

  append-cons_some :
      (slice : List C) (cm : Option C) (cs : List C)
      → append_some slice cm ++ cs ≡ slice ++ cons_some cm cs
  append-cons_some slice none cs = refl
  append-cons_some [] (some c) cs = refl
  append-cons_some (x ∷ slice) (some c) cs = ap (◌∷◌ x) (append-cons_some slice (some c) cs)

  prepare_each-given :
      (fn : Callbacks → Txn → Option C × Txn) (slice : List C) (cbs : List Callbacks) (txn : Txn)
      → prepare_each fn slice cbs txn ≡ (slice ++ (given fn cbs txn).0, (given fn cbs txn).1)
  unfolding prepare_each given
  prepare_each-given fn slice [] txn = ap (λ cs. (cs, txn)) (sym (append-nil slice))
  prepare_each-given fn slice (cb ∷ cbs) txn =
      let (cm, txn') = fn cb txn in
      let (cs, txn'') = given fn cbs txn' in
      prepare_each-given fn (append_some slice cm) cbs txn'
      ∙ ap (λ r. (r, txn'')) (append-cons_some slice cm cs)

  -- Whatever follows the preparation of the callbacks gets those that the plugins give.
  prepared-given :
      {E A : Type 0} (fn : Callbacks → Txn → Option C × Txn) (cbs : List Callbacks)
      (k : List C → Effect Txn E A) (txn : Txn)
      → (prepare_callbacks cbs fn >>= k) txn ≡ k (given fn cbs txn).0 (given fn cbs txn).1
  unfolding prepare_callbacks
  prepared-given fn cbs k txn = ap (λ p. k p.0 p.1) (prepare_each-given fn [] cbs txn)

run_nothing : {E T : Type 0} (p : Result E T × Txn) → continue (run_after []) p ≡ p
unfolding run_after
run_nothing (ok t, txn) = refl
run_nothing (err e, txn) = refl

module _ {E S T : Type 0} where
  -- Callbacks as layers: each stands around all that follow it and the action.
  pub nest : List (Callback E S T) → (S → Effect Txn E T) → S → Effect Txn E T
  nest [] act s = act s
  nest (c ∷ cs) act s = c.before s >>= λ first. nest cs act first.0 >>= first.1

  inner_layer :
      (act : S → Effect Txn E T) (after : T → Effect Txn E T)
      (p : Result E (S × List (T → Effect Txn E T)) × Txn)
      → continue (act_after act) (continue (λ rest. pure (rest.0, after ∷ rest.1)) p)
        ≡ continue after (continue (act_after act) p)
  unfolding run_after act_after
  inner_layer act after (ok (s, afters), txn) =
      sym (continue-continue (run_after afters) after (act s txn))
  inner_layer act after (err e, txn) = refl

  layer :
      (cs : List (Callback E S T)) (act : S → Effect Txn E T)
      (p : Result E (S × (T → Effect Txn E T)) × Txn)
      → ((s : S) (txn : Txn) → around cs act s txn ≡ nest cs act s txn)
      → continue
          (act_after act)
          (continue (λ first. run_before cs first.0 >>= λ rest. pure (rest.0, first.1 ∷ rest.1)) p)
        ≡ continue (λ first. nest cs act first.0 >>= first.1) p
  unfolding around
  layer cs act (ok (s, after), txn) ih =
      inner_layer act after (run_before cs s txn) ∙ ap (continue after) (ih s txn)
  layer cs act (err e, txn) ih = refl

  around-nest :
      (cs : List (Callback E S T)) (act : S → Effect Txn E T) (s : S) (txn : Txn)
      → around cs act s txn ≡ nest cs act s txn
  unfolding around run_before nest act_after
  around-nest [] act s txn = run_nothing (act s txn)
  around-nest (c ∷ cs) act s txn = layer cs act (c.before s txn) (λ s txn. around-nest cs act s txn)

  nested :
      (fn : Callbacks → Txn → Option (Callback E S T) × Txn) (cbs : List Callbacks)
      (act : S → Effect Txn E T) (s : S) (txn : Txn)
      → (prepare_callbacks cbs fn >>= λ cs. around cs act s) txn
        ≡ nest (given fn cbs txn).0 act s (given fn cbs txn).1
  nested fn cbs act s txn =
      prepared-given fn cbs (λ cs. around cs act s) txn
      ∙ around-nest (given fn cbs txn).0 act s (given fn cbs txn).1

-- Each action asks every plugin for a callback, in the order of the plugins, and runs those that it gets
-- as layers around the method of the model: what comes before a layer goes in, what comes after it goes
-- out, from the last plugin to the first, and an error ends the action at once, with the transaction as it
-- is then.
pub actions-nest :
    (m : Model) (cbs : List Callbacks) (path : Text) (exst : Object) (payload : Resource)
    (objs : List Object) (txn : Txn)
    → (let (cs, txn') = given (λ cb. cb.on_create path) cbs txn in
        create m cbs path payload txn ≡ nest cs (m.create path) payload txn')
      × (let (cs, txn') = given (λ cb. cb.on_update path) cbs txn in
          update m cbs path exst payload txn
          ≡ nest cs (λ s. with_permissions path (m.update path s.0 s.1)) (exst, payload) txn')
      × (let (cs, txn') = given (λ cb. cb.on_patch path) cbs txn in
          patch m cbs path exst payload txn
          ≡ nest cs (λ s. with_permissions path (m.patch path s.0 s.1)) (exst, payload) txn')
      × (let (cs, txn') = given (λ cb. cb.on_delete path) cbs txn in
          delete m cbs path exst txn ≡ nest cs (m.delete path) exst txn')
      × (let (cs, txn') = given (λ cb txn. optional_callback (cb.on_delete_all path txn)) cbs txn in
          delete_all m cbs path objs txn
          ≡ continue (λ d. pure (d.mod_time, d.objs)) (nest cs (deletion m cbs path) objs txn'))
unfolding create update patch delete delete_all
actions-nest m cbs path exst payload objs txn =
    let updated = λ (s : Object × Resource). with_permissions path (m.update path s.0 s.1) in
    let patched = λ (s : Object × Resource). with_permissions path (m.patch path s.0 s.1) in
    let all = λ (cb : Callbacks) (txn : Txn). optional_callback (cb.on_delete_all path txn) in
    let answer : Deletion → Effect Txn Error (ℕ × List Object) = λ d. pure (d.mod_time, d.objs) in
    (
      nested (λ cb. cb.on_create path) cbs (m.create path) payload txn,
      nested (λ cb. cb.on_update path) cbs updated (exst, payload) txn,
      nested (λ cb. cb.on_patch path) cbs patched (exst, payload) txn,
      nested (λ cb. cb.on_delete path) cbs (m.delete path) exst txn,
      prepared-given all cbs (λ cs. around cs (deletion m cbs path) objs >>= answer) txn
          ∙ ap (continue answer)
              (around-nest (given all cbs txn).0 (deletion m cbs path) objs (given all cbs txn).1),
    )
