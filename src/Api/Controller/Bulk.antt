-- ===== src/Api/Controller/Bulk.antt =====
-- pkg/api/ctrl.go: the handlers of collections.
use riposo.Prelude.{
  ℕ, ◌+◌, Dict, ◌-◌, Bool, true, false, ◌&&◌, Option, none, some, List, [], ◌∷◌, ◌++◌, map, ltb,
  ◌==◌, if◌then◌else◌, is_empty, length, take, Text, bytes, text_eq, insert, Result, ok, err,
  Effect, reads, pure, modify, raise_if, ◌>>=◌, ◌>>◌, map_err, map_ok,
}
use riposo.Path.{parent, object_id}
use riposo.Schema.{Object}
use riposo.Params.{ℤ, ConditionSet, operator_in, conditions, inc, not_negative}
use riposo.Params.Parse.{Values, Params, Pagination, parse}
use riposo.Storage.Txn as Store
use riposo.Storage.Lists.{ListOptions, list_all, count_all}
use riposo.Storage.Filters.{Gjson}
use riposo.Permission.{everyone}
use riposo.Permission.Aces.{get_accessible_paths}
use riposo.Cache as Cache
use riposo.Api.Authz.{Authz, verify}
use riposo.Api.Errors.{
  Error, missing_auth_token, invalid_query, store_error, perms_error, cache_error, other_error,
}
use riposo.Api.Txn.{Txn, on_cache}
use riposo.Api.Actions.{Actions}
use riposo.Api.Conditions.{Http}
use riposo.Api.Controller.{
  Context, Request, Response, no_body, objects, in_txn, entries, check_permission, check_parent,
  cache_headers, render_conditional,
}

-- The configuration, and what the handlers take from outside: the clock of the cache, in its own
-- numbers, and the ID that `NextID` of the helpers returns; an epoch is `time.Now` in the numbers of
-- the cache.
pub record Setup (V : Type 0) : Type 0 where
  pub authz : Authz
  pub max_limit : ℤ
  pub token_validity : ℕ
  pub cache_now : ℕ
  pub time_now : ℕ
  pub next_id : Text
  -- the next page's URL, from the token for a nonce and the last object, or why it cannot be encoded
  pub next_page_url : Params V → Text → Object → Result Text Text

-- The conditions of a token, which may be nil.
abbrev pub token_conditions : {V : Type 0} → Option (Pagination V) → ConditionSet V
token_conditions none = []
token_conditions (some token) = conditions token.last_obj

-- obj.Deleted = true and obj.ModTime = modTime, for each object
abbrev pub mark_deleted : ℕ → List Object → List Object
mark_deleted mod_time = map {A = Object} (λ obj. record obj { deleted = true; mod_time = mod_time })

-- What `Cache.Del` answers for the nonce of a token.
unfoldable pub spent : Result Cache.Error (Unit {0}) → Result Error (Unit {0})
spent (ok u) = ok tt
spent (err Cache.not_found) = err (invalid_query (bytes "_token was already used or has expired"))
spent (err e) = err (cache_error e)

abbrev pub catch_spent :
    Effect Cache.Transaction Cache.Error (Unit {0}) → Effect Context Error (Unit {0})
catch_spent m c =
    let (r, cache) = m c.txn.cache in
    let txn : Txn = record c.txn { cache = cache } in (spent r, record c { txn = txn })

-- objs[n-1], where the list has n objects or more and n is not 0
unfoldable pub last_at : ℕ → List Object → Option Object
last_at n [] = none
last_at n (obj ∷ objs) = let rest = last_at (n - 1) objs in if n == 1 then some obj else rest

module _ {V : Type 0} (json : Gjson V) (values : Values V) (http : Http) (setup : Setup V) where
  -- The `Next-Page` header, and the nonce in the cache, if one is given.
  unfoldable pub set_next_page : Params V → Text → Option Object → Effect Context Error (Unit {0})
  set_next_page params nonce none = pure tt
  set_next_page params nonce (some last_obj) = do
    url ← reads (λ c. map_err other_error (setup.next_page_url params nonce last_obj))
    modify (λ c. record c { out = insert (bytes "Next-Page") url c.out })
    if is_empty nonce
        then pure tt
        else in_txn (on_cache (Cache.set nonce [] (setup.time_now + setup.token_validity)))

  -- The storage takes a negative limit as 0, which is none.
  unfoldable pub list_options : Params V → ListOptions V
  list_options params = record {
    condition = params.condition;
    pagination = token_conditions params.token;
    sort = params.sort;
    limit = not_negative (inc params.limit);
    include_all = false;
  }

  -- What follows `ListAll` in `paginate`.
  unfoldable pub page : Params V → Text → List Object → Effect Context Error (List Object)
  page params nonce objs =
      if ltb 0 (not_negative params.limit) && (length objs == not_negative params.limit + 1)
      then (do
        set_next_page params nonce (last_at (not_negative params.limit) objs)
        pure (take (not_negative params.limit) objs))
      else pure objs

  unfoldable pub paginate : Text → Params V → Text → Effect Context Error (List Object)
  paginate path params nonce = do
    objs ← reads (λ c. map_err store_error (list_all json path (list_options params) c.txn.store))
    page params nonce objs

  abbrev pub read_or_write : List Text
  read_or_write = bytes "read" ∷ bytes "write" ∷ []

  -- The condition that only lets the accessible objects through.
  abbrev pub only_accessible : List Text → Params V → Params V
  only_accessible accessible params = record params {
    condition =
        params.condition
        ++ record {
          field = bytes "id";
          operator = operator_in;
          values = map (λ path. values.string_value (object_id path)) accessible;
        }
          ∷ [];
  }

  -- The end of `parseBulkQuery`, by whether the user has inherited permissions.
  unfoldable pub restrict : Text → Params V → Bool → Txn → Result Error (Params V)
  restrict path params true txn = ok params
  restrict path params false txn = map_err perms_error (
      map_ok (λ accessible. only_accessible accessible params)
        (get_accessible_paths [] txn.user.principals
          (record { perm = bytes "read"; path = path }
            ∷ record { perm = bytes "write"; path = path }
            ∷ [])
          txn.perms))

  -- Whether the user has inherited permissions, and the condition if not.
  unfoldable pub with_access : Request → Params V → Effect Context Error (Params V)
  with_access req params = do
    inherited ← reads (λ c. map_err perms_error (
        verify setup.authz c.txn.perms c.txn.user.principals
          (entries read_or_write (parent req.path) [])))
    reads (λ c. restrict req.path params inherited c.txn)

  unfoldable pub parse_form : Request → Dict (List Text) → Effect Context Error (Params V)
  parse_form req form = do
    params ← reads (λ c. map_err invalid_query (parse values form setup.max_limit))
    with_access req params

  unfoldable pub parse_bulk_query : Request → Effect Context Error (Params V)
  parse_bulk_query req = do form ← reads (λ c. map_err invalid_query req.form); parse_form req form

  -- if parentPath := req.Path.Parent(); parentPath != "" { … }
  unfoldable pub check_readable : Text → Txn → Result Error (Unit {0})
  check_readable parent_path txn =
      if is_empty parent_path
      then ok tt
      else check_permission setup.authz read_or_write parent_path txn

  -- What follows the conditional request in `prepareBulkGet`.
  unfoldable pub check_bulk_get : Request → Effect Context Error (Params V)
  check_bulk_get req = do
    reads (λ c. check_readable (parent req.path) c.txn)
    reads (λ c. check_parent req.path c.txn)
    parse_bulk_query req

  unfoldable pub prepare_bulk_get : Request → Effect Context Error (Params V)
  prepare_bulk_get req = do
    mod_time ← reads (λ c. map_err store_error (Store.mod_time req.path c.txn.store))
    render_conditional http req.head mod_time none
    check_bulk_get req

  -- The end of `List`.
  unfoldable pub show : List Object → Effect Context Error Response
  show objs = reads (λ c.
      if is_empty objs && text_eq c.txn.user.id everyone
      then err missing_auth_token
      else ok (objects objs))

  unfoldable pub list_page : Request → Params V → Effect Context Error Response
  list_page req params = do objs ← paginate req.path params []; show objs

  unfoldable pub list : Request → Effect Context Error Response
  list req = do params ← prepare_bulk_get req; list_page req params

  unfoldable pub count : Request → Effect Context Error Response
  count req = do
    params ← prepare_bulk_get req
    count ← reads (λ c. map_err store_error (count_all json req.path params.condition c.txn.store))
    modify (λ c. record c {
      out =
          insert (bytes "Total-Records") (http.format_int count)
            (insert (bytes "Total-Objects") (http.format_int count) c.out);
    })
    pure no_body

  -- if params.Token != nil { … }
  unfoldable pub spend_token : Option (Pagination V) → Effect Context Error (Unit {0})
  spend_token none = pure tt
  spend_token (some token) = do
    raise_if (is_empty token.nonce) (invalid_query (bytes "_token has invalid content"))
    catch_spent (Cache.del token.nonce setup.cache_now)

  -- The end of `DeleteBulk`, with the objects.
  unfoldable pub delete_found : Actions → Request → List Object → Effect Context Error Response
  delete_found act req objs = do
    deletion ← in_txn (act.delete_all req.path objs)
    cache_headers http req.head deletion.0
    pure (objects (mark_deleted deletion.0 deletion.1))

  unfoldable pub delete_page : Actions → Request → Params V → Effect Context Error Response
  delete_page act req params = do
    objs ← paginate req.path params (bytes "pagination-token-" ++ setup.next_id)
    delete_found act req objs

  -- What follows the parameters in `DeleteBulk`.
  unfoldable pub delete_checked : Actions → Request → Params V → Effect Context Error Response
  delete_checked act req params = do
    spend_token params.token
    reads (λ c. check_parent req.path c.txn)
    delete_page act req params

  unfoldable pub delete_bulk : Actions → Request → Effect Context Error Response
  delete_bulk act req = do
    render_conditional http req.head 0 none
    params ← parse_bulk_query req
    delete_checked act req params
