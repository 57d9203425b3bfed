-- ===== src/Permission/Calls.antt =====
-- internal/conn/memory/permission/permission.go: the calls that change permissions, between `Begin`
-- and the end of a transaction, one after another. The methods that only read change nothing.
use riposo.Prelude.{List, [], ◌∷◌, Text}
use riposo.Permission.{
  Transaction, add_user_principal, remove_user_principal, purge_user_principals, flush,
}
use riposo.Permission.Aces.{
  Ace, PermissionSet, add_ace_principal, remove_ace_principal, create_permissions,
  merge_permissions, delete_permissions,
}

pub data Call : Type 0 where
  add_user_call : Text → List Text → Call
  remove_user_call : Text → List Text → Call
  purge_call : List Text → Call
  add_ace_call : Text → Ace → Call
  remove_ace_call : Text → Ace → Call
  create_call : Text → PermissionSet → Call
  merge_call : Text → PermissionSet → Call
  delete_call : List Text → Call
  flush_call : Call

unfoldable pub step : Call → Transaction → Transaction
step (add_user_call principal user_ids) t = (add_user_principal principal user_ids t).1
step (remove_user_call principal user_ids) t = (remove_user_principal principal user_ids t).1
step (purge_call principals) t = (purge_user_principals principals t).1
step (add_ace_call principal ent) t = (add_ace_principal principal ent t).1
step (remove_ace_call principal ent) t = (remove_ace_principal principal ent t).1
step (create_call path set) t = (create_permissions path set t).1
step (merge_call path set) t = (merge_permissions path set t).1
step (delete_call paths) t = (delete_permissions paths t).1
step flush_call t = (flush t).1

unfoldable pub run : List Call → Transaction → Transaction
run [] t = t
run (call ∷ calls) t = run calls (step call t)

-- None of the calls is a flush.
abbrev pub NoFlush : List Call → Type 0
NoFlush [] = Unit
NoFlush (flush_call ∷ calls) = ⊥
NoFlush (call ∷ calls) = NoFlush calls
