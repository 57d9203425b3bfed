-- ===== src/Storage/Txn.antt =====
-- internal/conn/memory/storage/storage.go: the transactions. A method that only reads returns its
-- result; any other also returns the transaction after it. `now` is the epoch of the clock and
-- `next_id` what `NextID` of the helpers returns.
pub mod Writes
pub mod Calls
pub mod Rollback
pub mod Deletes
pub mod Locks
use riposo.Prelude.{
  ℕ, ◌+◌, Bool, true, false, not, ◌||◌, Option, none, some, List, [], ◌∷◌, ◌++◌, map, ltb, leb,
  ◌==◌, if◌then◌else◌, is_empty, length, Text, Dict, lookup, insert, delete, keys, Result, ok, err,
  is_some,
}
use riposo.Path.{split, is_node, join_path, namespace}
use riposo.Undo.{Log, restore, backup, pointers, values}
use riposo.Schema.{Object, copy, norm}
use riposo.Storage.Tree
use riposo.Storage.Tree.{Node, Tree, copy_node, get_node, unlink, put_at, each}
use riposo.Storage.Backend
use riposo.Storage.Backend.{Backend, Report}

pub record Transaction : Type 0 where
  pub b : Backend
  pub xtree : Log Node
  pub xdead : Log Node
  pub done : Bool
  pub flushed : Bool

pub data Error : Type 0 where
  not_found object_exists invalid_path tx_done : Error

-- Waits for the mutex first: it is called where `locked` is false.
unfoldable pub begin : Backend → Transaction
begin b = record {
  b = record b { locked = true };
  xtree = [];
  xdead = [];
  done = false;
  flushed = false;
}

-- t.done = true, and the deferred unlock
unfoldable pub finish : Transaction → Tree → Tree → Transaction
finish t tree dead = record t {
  b = record t.b { tree = tree; dead = dead; locked = false };
  done = true;
}

unfoldable pub commit : Transaction → Result Error (Unit {0}) × Transaction
commit t = if t.done then (err tx_done, t) else (ok tt, finish t t.b.tree t.b.dead)

unfoldable pub rollback : Transaction → Result Error (Unit {0}) × Transaction
rollback t =
    if t.done
    then (err tx_done, t)
    else if t.flushed
    then (ok tt, finish t (values t.xtree) (values t.xdead))
    else (ok tt, finish t (restore t.xtree t.b.tree) (restore t.xdead t.b.dead))

unfoldable pub flush : Transaction → Result Error (Unit {0}) × Transaction
flush t = if t.done then (err tx_done, t) else (
  ok tt,
  record t {
    b = record t.b { tree = []; dead = [] };
    xtree = if t.flushed then t.xtree else pointers t.b.tree;
    xdead = if t.flushed then t.xdead else pointers t.b.dead;
    flushed = true;
  },
)

epoch_of : Option Node → ℕ
epoch_of none = 0
epoch_of (some node) = node.mod_time

unfoldable pub mod_time : Text → Transaction → Result Error ℕ
unfolding epoch_of
mod_time path t =
    if not (is_node path)
    then err invalid_path
    else if t.done
    then err tx_done
    else ok (epoch_of (get_node (namespace path) t.b.tree))

-- t.b.tree.Get(path.Split())
unfoldable pub object_at : Text → Tree → Option Object
object_at path tree = let (ns, object_id) = split path in Tree.get ns object_id tree

unfoldable pub exists : Text → Transaction → Result Error Bool
exists path t =
    if is_node path
    then err invalid_path
    else if t.done
    then err tx_done
    else ok (is_some (object_at path t.b.tree))

or_not_found : Option Object → Result Error Object
or_not_found none = err not_found
or_not_found (some o) = ok (copy o)

unfoldable pub get : Text → Transaction → Result Error Object
unfolding or_not_found
get path t =
    if is_node path
    then err invalid_path
    else if t.done
    then err tx_done
    else or_not_found (object_at path t.b.tree)

-- A round of the loop of `GetBatch`: an object that is not found leaves its place nil.
batch_item :
    Result Error Object → Result Error (List (Option Object)) → Result Error (List (Option Object))
batch_item (ok o) (ok objs) = ok (some o ∷ objs)
batch_item (ok o) (err e) = err e
batch_item (err not_found) (ok objs) = ok (none ∷ objs)
batch_item (err not_found) (err e) = err e
batch_item (err e) rest = err e

unfoldable pub get_batch : List Text → Transaction → Result Error (List (Option Object))
unfolding batch_item
get_batch [] t = ok []
get_batch (path ∷ paths) t = batch_item (get path t) (get_batch paths t)

unfoldable pub backup_ns : Text → Transaction → Transaction
backup_ns ns t = if t.flushed then t else record t {
  xtree = backup copy_node ns t.b.tree t.xtree;
  xdead = backup copy_node ns t.b.dead t.xdead;
}

-- The end of `Create` and of `Update`: the object as it was stored, and the transaction.
unfoldable pub write : Text → Object → ℕ → Transaction → Object × Transaction
write ns obj now t =
    let (obj', tree) = put_at ns (norm obj) now t.b.tree in
    (obj', record t { b = record t.b { tree = tree; dead = unlink ns obj.id t.b.dead } })

-- `Create` after its guards and the backup.
unfoldable pub create_in :
    Text → Object → ℕ → Text → Transaction → Result Error Object × Transaction
create_in ns obj now next_id t =
    if not (is_empty obj.id)
    then (if is_some (Tree.get ns obj.id t.b.tree)
        then (err object_exists, t)
        else let (obj', t') = write ns obj now t in (ok obj', t'))
    else let (obj', t') = write ns (record obj { id = next_id }) now t in (ok obj', t')

unfoldable pub create : Text → Object → ℕ → Text → Transaction → Result Error Object × Transaction
create path obj now next_id t =
    if not (is_node path)
    then (err invalid_path, t)
    else if t.done
    then (err tx_done, t)
    else create_in (namespace path) obj now next_id (backup_ns (namespace path) t)

unfoldable pub update : Text → Object → ℕ → Transaction → Result Error Object × Transaction
update path obj now t =
    if t.done
    then (err tx_done, t)
    else let (obj', t') = write (namespace path) obj now (backup_ns (namespace path) t) in
      (ok obj', t')

-- The variable that the callback of `Delete` sets.
unfoldable pub exact : List Report → Option Object → Option Object
exact [] deleted = deleted
exact ((ns, obj, true) ∷ reports) deleted = exact reports (some obj)
exact ((ns, obj, false) ∷ reports) deleted = exact reports deleted

or_missing : Option Object → Result Error Object
or_missing none = err not_found
or_missing (some o) = ok o

-- `Delete` after its guards.
unfoldable pub delete_at : Text → ℕ → Transaction → Result Error Object × Transaction
unfolding or_missing
delete_at path now t =
    let t' = backup_ns (namespace path) t in
    let (reports, b) = Backend.delete path now true t'.b in
    (or_missing (exact reports none), record t' { b = b })

unfoldable pub delete_object : Text → ℕ → Transaction → Result Error Object × Transaction
delete_object path now t =
    if is_node path
    then (err invalid_path, t)
    else if t.done
    then (err tx_done, t)
    else delete_at path now t

-- The variables that the callback of `DeleteAll` changes: the greatest epoch and the paths.
unfoldable pub note_deleted : List Report → ℕ × List Text → ℕ × List Text
note_deleted [] acc = acc
note_deleted ((ns, obj, is_exact) ∷ reports) (epoch, deleted) = note_deleted reports (
  (if is_exact then (if ltb epoch obj.mod_time then obj.mod_time else epoch) else epoch),
  deleted ++ join_path (ns ∷ obj.id ∷ []) ∷ [],
)

unfoldable pub delete_each :
    List Text → ℕ → ℕ × List Text → Transaction → (ℕ × List Text) × Transaction
delete_each [] now acc t = (acc, t)
delete_each (path ∷ paths) now acc t =
    let t' = backup_ns (namespace path) t in
    let (reports, b) = Backend.delete path now false t'.b in
    delete_each paths now (note_deleted reports acc) (record t' { b = b })

unfoldable pub some_node : List Text → Bool
some_node [] = false
some_node (path ∷ paths) = if is_node path then true else some_node paths

unfoldable pub delete_all : List Text → ℕ → Transaction → Result Error (ℕ × List Text) × Transaction
delete_all paths now t =
    if some_node paths
    then (err invalid_path, t)
    else if t.done
    then (err tx_done, t)
    else if is_empty paths
    then (ok (0, []), t)
    else let (acc, t') = delete_each paths now (0, []) t in (ok acc, t')

-- The loop over the objects of a node in `Purge`: how many are deleted, and those that stay.
unfoldable pub purge_objects : ℕ → Dict Object → ℕ × Dict Object
purge_objects older_than [] = (0, [])
purge_objects older_than ((object_id, o) ∷ objects) =
    let (cnt, rest) = purge_objects older_than objects in
    if (older_than == 0) || ltb o.mod_time older_than
    then (cnt + 1, rest)
    else (cnt, (object_id, o) ∷ rest)

unfoldable pub purge_each : ℕ → Tree → ℕ → Transaction → ℕ × Transaction
purge_each older_than [] cnt t = (cnt, t)
purge_each older_than ((ns, node) ∷ nodes) cnt t =
    let t' = backup_ns ns t in
    let (purged, objects) = purge_objects older_than node.objects in
    let dead =
      if is_empty objects
      then delete ns t'.b.dead
      else insert ns (record node { objects = objects }) t'.b.dead in
    purge_each older_than nodes (cnt + purged) (record t' { b = record t'.b { dead = dead } })

unfoldable pub purge : ℕ → Transaction → Result Error ℕ × Transaction
purge older_than t =
    if t.done
    then (err tx_done, t)
    else let (cnt, t') = purge_each older_than t.b.dead 0 t in (ok cnt, t')
