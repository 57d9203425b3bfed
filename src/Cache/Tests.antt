-- ===== src/Cache/Tests.antt =====
-- internal/conn/memory/cache/cache.go: a run, and instances of the theorems.
use riposo.Prelude.{
  ◌≡◌, refl, false, List, [], ◌∷◌, ◌++◌, arith, Text, bytes, text_eq, SameMap, lookup, insert,
  delete, ok, err, rune_count,
}
use riposo.Undo.{restore, backup, pointers, values}
use riposo.Cache.{
  Backend, not_found, new, begin, commit, rollback, flush, get, set, del, store, drop_key,
  backup_key, validate_key, finish, fresh, removed, expired, reap_expired,
}
use riposo.Cache.Calls.{
  Call, get_call, set_call, del_call, flush_call, bytes_of, done, reply, step, run, replies,
}
use riposo.Cache.Rollback.{rollback-begin, rollback-flush}
use riposo.Cache.Reads.{Shows, expect_replies, expect_run, run-refines, get-reap_expired}

program : Unit {0}
unfolding text_eq lookup insert delete rune_count restore backup pointers values begin commit
    rollback flush get set del store drop_key backup_key validate_key finish fresh removed expired
    reap_expired reply step run replies
program = tt

abbrev key : Text
key = bytes "token"

abbrev one : Backend
one = record new { keys = (key, record { val = bytes "1"; exp = 10 }) ∷ [] }

abbrev calls : List Call
calls = get_call key 10 ∷ set_call key (bytes "2") 20 ∷ get_call key 15 ∷ del_call key 21 ∷ []

run_calls :
    replies calls (begin one)
    ≡ ok (bytes_of (bytes "1")) ∷ ok done ∷ ok (bytes_of (bytes "2")) ∷ err not_found ∷ []
unfolding program
run_calls = refl

rolled_back : (rollback (run calls (begin one))).1.b ≡ one
unfolding program
rolled_back = refl

-- What was written before a flush survives the rollback.
not_rolled_back :
    (rollback (run (set_call key (bytes "2") 20 ∷ flush_call ∷ []) (begin one))).1.b.keys
    ≡ (key, record { val = bytes "2"; exp = 20 }) ∷ []
unfolding program
not_rolled_back = refl

rollback-begin_example :
    ((rollback (run calls (begin one))).0 ≡ ok tt)
    × SameMap (rollback (run calls (begin one))).1.b.keys one.keys
    × ((rollback (run calls (begin one))).1.b.locked ≡ false)
rollback-begin_example = rollback-begin one calls tt

rollback-flush_example :
    (rollback (run (calls ++ flush_call ∷ calls) (begin one))).1.b.keys
    ≡ (run calls (begin one)).b.keys
rollback-flush_example = rollback-flush one calls calls tt

run-refines_example :
    (replies calls (begin one) ≡ expect_replies calls (λ j. lookup j one.keys))
    × Shows (run calls (begin one)) (expect_run calls (λ j. lookup j one.keys))
run-refines_example = run-refines one calls

get-reap_expired_example : (get key 12 (begin (reap_expired 11 one))).0 ≡ (get key 12 (begin one)).0
unfolding program
get-reap_expired_example = get-reap_expired 11 12 key one (omega arith) (refl, tt)
