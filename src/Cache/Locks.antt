-- ===== src/Cache/Locks.antt =====
-- internal/conn/memory/cache/cache.go: only `Commit` and `Rollback` end a transaction and release the
-- mutex.
use riposo.Prelude.{
  ℕ, ◌≡◌, refl, ◌∙◌, List, [], ◌∷◌, Bool, false, either, either_when, Text, Result, Result-cases,
  inl, inr,
}
use riposo.Locks.{Keeps, IsReleased, HasEnded, unchanged, released}
use riposo.Cache.{
  Transaction, Error, commit, rollback, finish, flush, get, backup_key, validate_key, store, set,
  drop_key, del,
}
use riposo.Cache.Calls.{Call, get_call, set_call, del_call, flush_call, step, run}

abbrev done : Transaction → Bool
done t = t.done

abbrev locked : Transaction → Bool
locked t = t.b.locked

abbrev Kept : Transaction → Transaction → Type 0
Kept = Keeps done locked

abbrev Beside : {A : Type 0} → Transaction → A × Transaction → Type 0
Beside t r = Kept t r.1

backup_key-Keeps : (key : Text) (t : Transaction) → Kept t (backup_key key t)
unfolding backup_key
backup_key-Keeps key t =
    either (Kept t) t.flushed (unchanged done locked t)
      (record { same_done = refl; same_lock = refl })

store-Keeps : (key val : Text) (exp : ℕ) (t : Transaction) → Kept t (store key val exp t)
unfolding store
store-Keeps key val exp t =
    let h = backup_key-Keeps key t in record { same_done = h.same_done; same_lock = h.same_lock }

set-Keeps : (key val : Text) (exp : ℕ) (t : Transaction) → Kept t (set key val exp t).1
unfolding set
set-Keeps key val exp t = elim (Result-cases (validate_key key)) [
  | inl (u, e) ↦
      rw (e, set) (either (Beside t) t.done (unchanged done locked t) (store-Keeps key val exp t))
  | inr (x, e) ↦ rw (e, set) (unchanged done locked t)
]

del-Keeps : (key : Text) (now : ℕ) (t : Transaction) → Kept t (del key now t).1
unfolding del drop_key
del-Keeps key now t =
    let h = backup_key-Keeps key t in
    either (Beside t) t.done (unchanged done locked t)
      (record { same_done = h.same_done; same_lock = h.same_lock })

step-Keeps : (call : Call) (t : Transaction) → Kept t (step call t)
unfolding step get flush
step-Keeps (get_call key now) t =
    either (Beside t) t.done (unchanged done locked t) (unchanged done locked t)
step-Keeps (set_call key val exp) t = set-Keeps key val exp t
step-Keeps (del_call key now) t = del-Keeps key now t
step-Keeps flush_call t =
    either (Beside t) t.done (unchanged done locked t)
      (record { same_done = refl; same_lock = refl })

-- What the calls, a commit and a rollback leave behind.
pub run-open : (calls : List Call) (t : Transaction) → t.done ≡ false → (run calls t).done ≡ false
unfolding run
run-open [] t h = h
run-open (call ∷ calls) t h = run-open calls (step call t) ((step-Keeps call t).same_done ∙ h)

pub step-IsReleased :
    (call : Call) (t : Transaction)
    → IsReleased done locked t
    → IsReleased done locked (step call t)
step-IsReleased call t = released done locked t (step call t) (step-Keeps call t)

pub commit-HasEnded :
    (t : Transaction) → IsReleased done locked t → HasEnded done locked (commit t).1
unfolding commit finish
commit-HasEnded t h =
    either_when (λ (r : Result Error (Unit {0}) × Transaction). HasEnded done locked r.1) t.done
      (λ e. (e, h e)) (λ e. (refl, refl))

pub rollback-HasEnded :
    (t : Transaction) → IsReleased done locked t → HasEnded done locked (rollback t).1
unfolding rollback finish
rollback-HasEnded t h =
    let P : Result Error (Unit {0}) × Transaction → Type 0 = λ r. HasEnded done locked r.1 in
    either_when P t.done (λ e. (e, h e)) (λ e. either P t.flushed (refl, refl) (refl, refl))
