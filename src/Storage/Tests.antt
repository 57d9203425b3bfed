-- ===== src/Storage/Tests.antt =====
-- internal/conn/memory/storage: runs, and instances of the theorems.
use riposo.Prelude.{
  ℕ, ◌≤◌, ◌<◌, ◌≡◌, refl, true, false, none, List, [], ◌∷◌, Text, bytes, text_eq, lookup, insert,
  delete, ok, if◌then◌else◌, has_prefix, last_index_byte,
}
use riposo.Path.{is_node, namespace, object_id, split}
use riposo.Undo.{restore, backup}
use riposo.Schema.{Object, copy, norm}
use riposo.Storage.Tree
use riposo.Storage.Tree.{
  Node, Tree, copy_node, next_epoch, put, force_put, del, get_node, get_object, fetch_node, unlink,
  put_at, force_put_at,
}
use riposo.Storage.Tree.Laws.{epoch_at}
use riposo.Storage.Backend
use riposo.Storage.Backend.{Backend, drain, delete_nested, delete_below, delete_in}
use riposo.Storage.Backend.Deletion.{targets}
use riposo.Storage.Backend.Unreached.{SameAt}
use riposo.Storage.Txn.{
  Transaction, begin, commit, rollback, flush, finish, backup_ns, write, create, create_in, update,
  delete_object, delete_at, exact,
}
use riposo.Storage.Txn.Calls.{
  Call, create_call, update_call, delete_call, delete_all_call, purge_call, step, run, below,
}
use riposo.Storage.Txn.Writes.{IsWritten, named, create-IsWritten, update-IsWritten}
use riposo.Storage.Txn.Rollback.{rollback-begin_at}
use riposo.Storage.Txn.Deletes.{delete_object-found, rollback-delete_object}

program : Unit {0}
unfolding text_eq last_index_byte has_prefix lookup insert delete is_node namespace object_id split
    restore backup copy norm Tree.get copy_node next_epoch put force_put del get_node get_object
    fetch_node unlink put_at force_put_at drain delete_nested delete_below delete_in Backend.delete
    begin commit rollback flush finish backup_ns write create create_in update delete_object
    delete_at exact step run
program = tt

abbrev plain : Text → ℕ → Object
plain id epoch = record { id = id; mod_time = epoch; deleted = false; extra = bytes "{}" }

abbrev holding : Text → Node
holding id = record { objects = (id, plain id 5) ∷ []; mod_time = 5 }

-- Buckets foo and foobar with a collection each.
abbrev start : Backend
start = record {
  tree =
      (
        bytes "/buckets",
        record {
          objects =
              (bytes "foo", plain (bytes "foo") 3)
              ∷ (bytes "foobar", plain (bytes "foobar") 4)
              ∷ [];
          mod_time = 4;
        },
      )
      ∷ (bytes "/buckets/foo/collections", holding (bytes "x"))
      ∷ (bytes "/buckets/foobar/collections", holding (bytes "y"))
      ∷ [];
  dead = [];
  locked = false;
}

abbrev foo : Text
foo = bytes "/buckets/foo"

abbrev calls : List Call
calls =
    create_call (bytes "/buckets/*") (plain (bytes "new") 0) 9 []
    ∷ update_call foo (plain (bytes "foo") 0) 9
    ∷ delete_call (bytes "/buckets/new") 9
    ∷ delete_all_call (bytes "/buckets/foo/collections/x" ∷ []) 9
    ∷ purge_call 0
    ∷ []

-- Deleting the bucket foo takes the collection of foobar with it.
sibling_deleted :
    Tree.get
      (bytes "/buckets/foobar/collections")
      (bytes "y")
      (delete_object foo 9 (begin start)).1.b.tree
    ≡ none
unfolding program
sibling_deleted = refl

sibling_kept :
    (delete_object foo 9 (begin start)).0 ≡ ok (record (plain (bytes "foo") 9) { deleted = true })
unfolding program
sibling_kept = refl

create-IsWritten_example :
    (out : Object) × ((create (bytes "/buckets/*") (plain (bytes "new") 0) 9 [] (begin start)).0
      ≡ ok out)
    × IsWritten
        (namespace (bytes "/buckets/*"))
        9
        (named (plain (bytes "new") 0) [])
        out
        (begin start).b
        (create (bytes "/buckets/*") (plain (bytes "new") 0) 9 [] (begin start)).1.b
unfolding program named
create-IsWritten_example =
    create-IsWritten (bytes "/buckets/*") (plain (bytes "new") 0) 9 [] (begin start) refl refl refl

update-IsWritten_example :
    (out : Object) × ((update foo (plain (bytes "foo") 0) 2 (begin start)).0 ≡ ok out)
    × IsWritten
        (namespace foo)
        2
        (plain (bytes "foo") 0)
        out
        (begin start).b
        (update foo (plain (bytes "foo") 0) 2 (begin start)).1.b
unfolding program
update-IsWritten_example = update-IsWritten foo (plain (bytes "foo") 0) 2 (begin start) refl

rollback-begin_at_example :
    ((rollback (run calls (begin start))).0 ≡ ok tt)
    × SameAt (bytes "/buckets") (rollback (run calls (begin start))).1.b start
    × ((rollback (run calls (begin start))).1.b.locked ≡ false)
unfolding has_prefix below
rollback-begin_at_example = rollback-begin_at (bytes "/buckets") start calls (refl, (refl, tt))

delete_object-found_example :
    (out : Object) × ((delete_object foo 9 (begin start)).0 ≡ ok out)
    × (out.deleted ≡ true)
    × (9 ≤ out.mod_time)
    × (epoch_at (namespace foo) start.tree < out.mod_time)
    × ((k j : Text)
        → Tree.get k j (delete_object foo 9 (begin start)).1.b.tree
          ≡ (if targets foo k j then none else Tree.get k j start.tree))
unfolding program
delete_object-found_example = delete_object-found foo 9 (begin start) refl refl refl

-- A transaction that has created a bucket.
abbrev created : Transaction
created = run (create_call (bytes "/buckets/*") (plain (bytes "new") 0) 9 [] ∷ []) (begin start)

rollback-delete_object_example :
    Tree.get
      (bytes "/buckets/foo/collections")
      (bytes "x")
      (rollback (delete_object foo 9 created).1).1.b.tree
    ≡ none
unfolding program
rollback-delete_object_example =
    rollback-delete_object foo (bytes "/buckets/foo/collections") (bytes "x") 9 created refl refl
      refl refl refl refl refl
