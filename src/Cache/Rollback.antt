-- ===== src/Cache/Rollback.antt =====
-- internal/conn/memory/cache/cache.go: what a rollback brings back.
use riposo.Prelude.{
  ℕ, ◌≡◌, refl, ◌∙◌, true, false, Option, none, some, List, [], ◌∷◌, ◌++◌, arith, inl, inr, Text,
  Dict, SameMap, lookup-insert, lookup-delete, ok, Result-cases,
}
use riposo.Undo.{values}
use riposo.Undo.Laws.{Restores, Restores-start, Restores-write, values-pointers}
use riposo.Cache.{
  Backend, Transaction, Item, copy_item, begin, rollback, flush, get, set, del, store, drop_key,
  backup_key, validate_key, finish,
}
use riposo.Cache.Steps.{backup_key-unflushed, set-valid, set-invalid, del-open, get-same}
use riposo.Cache.Calls.{Call, get_call, set_call, del_call, flush_call, step, run, NoFlush}

abbrev seen : Option Item → Option Item
seen o = o

-- A transaction that has not been flushed, and that a rollback takes back to `start`.
record IsLogged (start : Dict Item) (t : Transaction) : Type 0 where
  open_yet : t.done ≡ false
  unflushed : t.flushed ≡ false
  restores : Restores seen start t.xkeys t.b.keys

copy_item-eq : (o : Option Item) → copy_item o ≡ o
copy_item-eq none = refl
copy_item-eq (some it) = refl

begin-IsLogged : (b : Backend) → IsLogged b.keys (begin b)
unfolding begin
begin-IsLogged b = record {
  open_yet = refl;
  unflushed = refl;
  restores = Restores-start seen b.keys;
}

module _ (start : Dict Item) (t : Transaction) (h : IsLogged start t) where
  store-IsLogged : (key val : Text) (exp : ℕ) → IsLogged start (store key val exp t)
  unfolding store
  store-IsLogged key val exp = rw (backup_key-unflushed key t h.unflushed) (record {
    open_yet = h.open_yet;
    unflushed = h.unflushed;
    restores =
        Restores-write seen copy_item key start t.b.keys _ t.xkeys copy_item-eq h.restores
          λ j e. rw (lookup-insert, e) refl;
  })

  drop_key-IsLogged : (key : Text) → IsLogged start (drop_key key t)
  unfolding drop_key
  drop_key-IsLogged key = rw (backup_key-unflushed key t h.unflushed) (record {
    open_yet = h.open_yet;
    unflushed = h.unflushed;
    restores =
        Restores-write seen copy_item key start t.b.keys _ t.xkeys copy_item-eq h.restores
          λ j e. rw (lookup-delete, e) refl;
  })

  set-IsLogged : (key val : Text) (exp : ℕ) → IsLogged start (set key val exp t).1
  set-IsLogged key val exp = elim (Result-cases (validate_key key)) [
    | inl (u, valid) ↦ rw (set-valid key val exp t h.open_yet valid) (store-IsLogged key val exp)
    | inr (e, invalid) ↦ rw (set-invalid key val exp t invalid) h
  ]

  del-IsLogged : (key : Text) (now : ℕ) → IsLogged start (del key now t).1
  del-IsLogged key now = rw (del-open key now t h.open_yet) (drop_key-IsLogged key)

  get-IsLogged : (key : Text) (now : ℕ) → IsLogged start (get key now t).1
  get-IsLogged key now = rw (get-same key now t) h

run-IsLogged :
    (start : Dict Item) (calls : List Call) (t : Transaction)
    → NoFlush calls
    → IsLogged start t
    → IsLogged start (run calls t)
unfolding run step
run-IsLogged start [] t n h = h
run-IsLogged start (get_call key now ∷ calls) t n h =
    run-IsLogged start calls (get key now t).1 n (get-IsLogged start t h key now)
run-IsLogged start (set_call key val exp ∷ calls) t n h =
    run-IsLogged start calls (set key val exp t).1 n (set-IsLogged start t h key val exp)
run-IsLogged start (del_call key now ∷ calls) t n h =
    run-IsLogged start calls (del key now t).1 n (del-IsLogged start t h key now)
run-IsLogged start (flush_call ∷ calls) t n h = absurd n

-- Without a flush a rollback succeeds, releases the mutex, and every key has the value, or the
-- lack of one, that it had when the transaction began.
pub rollback-begin :
    (b : Backend) (calls : List Call)
    → NoFlush calls
    → let t = run calls (begin b) in
      ((rollback t).0 ≡ ok tt)
      × SameMap (rollback t).1.b.keys b.keys
      × ((rollback t).1.b.locked ≡ false)
unfolding rollback finish
rollback-begin b calls n =
    let h = run-IsLogged b.keys calls (begin b) n (begin-IsLogged b) in
    simp (h.open_yet, h.unflushed) (refl, h.restores, refl)

-- A transaction that was flushed when the map was `start`, and that keeps it.
record IsFlushed (start : Dict Item) (t : Transaction) : Type 0 where
  open_yet : t.done ≡ false
  flushed : t.flushed ≡ true
  kept : values t.xkeys ≡ start

flush-IsFlushed :
    (t : Transaction) → t.done ≡ false → t.flushed ≡ false → IsFlushed t.b.keys (flush t).1
unfolding flush
flush-IsFlushed t o u = ground (arith, values-pointers t.b.keys)

step-IsFlushed :
    (start : Dict Item) (call : Call) (t : Transaction)
    → IsFlushed start t
    → IsFlushed start (step call t)
unfolding step
step-IsFlushed start (get_call key now) t h = rw (get-same key now t) h
step-IsFlushed start (set_call key val exp) t h = elim (Result-cases (validate_key key)) [
  | inl (u, valid) ↦
      rw (set-valid key val exp t h.open_yet valid) (unfold store backup_key in ground arith)
  | inr (e, invalid) ↦ rw (set-invalid key val exp t invalid) h
]
step-IsFlushed start (del_call key now) t h =
    rw (del-open key now t h.open_yet) (unfold drop_key backup_key in ground arith)
step-IsFlushed start flush_call t h = unfold flush in ground arith

run-IsFlushed :
    (start : Dict Item) (calls : List Call) (t : Transaction)
    → IsFlushed start t
    → IsFlushed start (run calls t)
unfolding run
run-IsFlushed start [] t h = h
run-IsFlushed start (call ∷ calls) t h =
    run-IsFlushed start calls (step call t) (step-IsFlushed start call t h)

run-append :
    (before after : List Call) (t : Transaction)
    → run (before ++ after) t ≡ run after (run before t)
unfolding run
run-append [] after t = refl
run-append (call ∷ before) after t = run-append before after (step call t)

run-flush :
    (after : List Call) (t : Transaction) → run (flush_call ∷ after) t ≡ run after (flush t).1
unfolding run step
run-flush after t = refl

rollback-IsFlushed :
    (start : Dict Item) (t : Transaction) → IsFlushed start t → (rollback t).1.b.keys ≡ start
unfolding rollback finish
rollback-IsFlushed start t h = ground arith

-- After a flush a rollback puts back exactly the map that the first flush found: what the calls
-- before that flush had written stays written.
pub rollback-flush :
    (b : Backend) (before after : List Call)
    → NoFlush before
    → (rollback (run (before ++ flush_call ∷ after) (begin b))).1.b.keys
      ≡ (run before (begin b)).b.keys
rollback-flush b before after n =
    let t = run before (begin b) in
    let h = run-IsLogged b.keys before (begin b) n (begin-IsLogged b) in
    let f = run-IsFlushed t.b.keys after (flush t).1 (flush-IsFlushed t h.open_yet h.unflushed) in
    let e : run (before ++ flush_call ∷ after) (begin b) ≡ run after (flush t).1 =
      run-append before (flush_call ∷ after) (begin b) ∙ run-flush after t in
    rw e (rollback-IsFlushed t.b.keys (run after (flush t).1) f)
