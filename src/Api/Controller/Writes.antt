-- ===== src/Api/Controller/Writes.antt =====
-- pkg/api/ctrl.go: the handlers that write refuse a user who lacks the permission, before anything is
-- changed.
use riposo.Prelude.{
  ◌≡◌, refl, false, not, ◌&&◌, none, some, List, [], ◌∷◌, is_empty, Option, Text, bytes, err,
  Effect, reads, ◌>>=◌, Refuses, reads_refused, refused_here, raise_if_refused,
}
use riposo.Path.{object_id, with_object_id}
use riposo.Identity.{is_valid}
use riposo.Schema.{Object}
use riposo.Schema.Resources.{Resource}
use riposo.Storage.Txn as Store
use riposo.Permission.Aces.{Ace}
use riposo.Api.Authz.{Authz}
use riposo.Api.Errors.{Error, invalid_body}
use riposo.Api.Actions.{Actions}
use riposo.Api.Conditions.{Http}
use riposo.Api.Controller.{Context, Request, Response, entries, check_permission, is_forbidden}
use riposo.Api.Controller.Guards.{may, denial, is_forbidden_lem}
use riposo.Api.Controller.Handlers.{
  create_entries, create_allowed, create_or_get, or_blank, create_parsed, create, found,
  update_allowed, update_existing, update_named, match_id, update_parsed, update, is_void,
  patch_allowed, patch_named, patch_parsed, patch, delete_allowed, delete, invalid_id,
}

pub data Write : Type 0 where
  creating updating patching deleting : Write

module _ (act : Actions) (authz : Authz) (http : Http) (req : Request) (c : Context) where
  -- The transaction is open, and no principal of the user has one of the permissions.
  abbrev pub IsDenied : List Ace → Type 0
  IsDenied ents = (c.txn.perms.done ≡ false) × (may authz c.txn ents ≡ false)

  denied :
      (ents : List Ace) → IsDenied ents → is_forbidden authz ents c.txn ≡ err (denial c.txn.user.id)
  denied ents (open_yet, h) = rw (is_forbidden_lem authz ents c.txn open_yet, h) refl

  -- The entries that the permission to write on the path of the request is looked up by.
  abbrev pub writing : List Ace
  writing = entries (bytes "write" ∷ []) req.path []

  create_or_get-Refuses :
      (path : Text) (payload : Resource)
      → IsDenied (create_entries path)
      → Refuses (create_or_get act authz http req path payload) c
  unfolding create_or_get
  create_or_get-Refuses path payload h =
      refused_here (λ c. is_forbidden authz (create_entries path) c.txn)
        (λ u. create_allowed act authz http req path payload) c (denial c.txn.user.id)
        (denied (create_entries path) h)

  create-Refuses : IsDenied (create_entries req.path) → Refuses (create act authz http req) c
  unfolding create create_parsed
  create-Refuses h =
      reads_refused (λ c. req.payload) (create_parsed act authz http req) c
        λ payload e.
          let obj = or_blank payload.object in
          let named : Resource = record { object = obj; permissions = payload.permissions } in
          raise_if_refused (not (is_empty obj.id) && not (is_valid obj.id)) invalid_id
            (create_or_get act authz http req req.path named) c
            (create_or_get-Refuses req.path named h)

  -- An update asks for the permission to write where the object exists, and otherwise for that to
  -- create it.
  update_existing-Refuses :
      (payload : Resource) (exst : Option Object)
      → IsDenied writing
      → IsDenied (create_entries (with_object_id req.path (bytes "*")))
      → Refuses (update_existing act authz http req payload exst) c
  unfolding update_existing check_permission
  update_existing-Refuses payload none h absent =
      create_or_get-Refuses (with_object_id req.path (bytes "*")) payload absent
  update_existing-Refuses payload (some exst) h absent =
      refused_here (λ c. is_forbidden authz writing c.txn)
        (λ u. update_allowed act authz http req payload exst) c (denial c.txn.user.id)
        (denied writing h)

  update-Refuses :
      IsDenied writing
      → IsDenied (create_entries (with_object_id req.path (bytes "*")))
      → Refuses (update act authz http req) c
  unfolding update update_parsed update_named
  update-Refuses h absent =
      raise_if_refused (not (is_valid (object_id req.path))) invalid_id
        (reads (λ c. req.payload) >>= update_parsed act authz http req) c
        (reads_refused (λ c. req.payload) (update_parsed act authz http req) c
          λ payload e.
            let named : Object → Resource =
              λ obj. record { object = obj; permissions = payload.permissions } in
            reads_refused (λ c. match_id (object_id req.path) payload.object)
              (λ obj. update_named act authz http req (named obj)) c
              λ obj e'.
                reads_refused (λ c. found (Store.get req.path c.txn.store))
                  (update_existing act authz http req (named obj)) c
                  λ exst e''. update_existing-Refuses (named obj) exst h absent)

  patch-Refuses : IsDenied writing → Refuses (patch act authz http req) c
  unfolding patch patch_parsed patch_named check_permission
  patch-Refuses h =
      raise_if_refused (not (is_valid (object_id req.path))) invalid_id
        (reads (λ c. req.payload) >>= patch_parsed act authz http req) c
        (reads_refused (λ c. req.payload) (patch_parsed act authz http req) c
          λ payload e.
            let named : Object → Resource =
              λ obj. record { object = obj; permissions = payload.permissions } in
            let rest : Object → Effect Context Error Response =
              λ obj. patch_named act authz http req (named obj) in
            raise_if_refused (is_void payload)
              (invalid_body [] (bytes "Provide at least one of data or permissions"))
              (reads (λ c. match_id (object_id req.path) payload.object) >>= rest) c
              (reads_refused (λ c. match_id (object_id req.path) payload.object) rest c
                λ obj e'.
                  refused_here (λ c. is_forbidden authz writing c.txn)
                    (λ u. patch_allowed act authz http req (named obj)) c (denial c.txn.user.id)
                    (denied writing h)))

  delete-Refuses : IsDenied writing → Refuses (delete act authz http req) c
  unfolding delete check_permission
  delete-Refuses h =
      raise_if_refused (not (is_valid (object_id req.path))) invalid_id
        (reads (λ c. is_forbidden authz writing c.txn) >>= λ u. delete_allowed act authz http req) c
        (refused_here (λ c. is_forbidden authz writing c.txn)
          (λ u. delete_allowed act authz http req) c (denial c.txn.user.id) (denied writing h))

  -- The handler of a request to change an object.
  abbrev pub handle : Write → Effect Context Error Response
  handle creating = create act authz http req
  handle updating = update act authz http req
  handle patching = patch act authz http req
  handle deleting = delete act authz http req

  -- The user lacks the permission: to create the object or to write to a parent, for `Create`; to write
  -- to the object or a parent, for `Patch` and `Delete`; and both, for `Update`.
  abbrev pub Lacks : Write → Type 0
  Lacks creating = IsDenied (create_entries req.path)
  Lacks updating =
      IsDenied writing × IsDenied (create_entries (with_object_id req.path (bytes "*")))
  Lacks patching = IsDenied writing
  Lacks deleting = IsDenied writing

  -- Whatever the actions are, a request to change an object by a user who lacks the permission fails,
  -- and leaves the transaction and the headers as they were.
  pub no_write : (w : Write) → Lacks w → Refuses (handle w) c
  no_write creating h = create-Refuses h
  no_write updating h = update-Refuses h.0 h.1
  no_write patching h = patch-Refuses h
  no_write deleting h = delete-Refuses h
