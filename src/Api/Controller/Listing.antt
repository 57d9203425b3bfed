-- ===== src/Api/Controller/Listing.antt =====
-- pkg/api/ctrl.go: what List shows and what DeleteBulk deletes for a user without inherited permissions.
use riposo.Prelude.{
  After, IfOk, After-same, always_same, step_same, value_of, After-bind, After-step, After-any,
  After-reads, IfOk-map_err, ◌≡◌, ap, ◌∙◌, false, ◌&&◌, none, List, [], ◌++◌, ltb, ◌==◌, ◌+◌,
  is_empty, either, length, take, Text, bytes, text_eq, Dict, ok, Effect, reads, pure, ◌>>=◌,
  map_err,
}
use riposo.Path.{parent}
use riposo.Schema.{Object}
use riposo.Params.{not_negative}
use riposo.Params.Parse.{Values, Params, parse}
use riposo.Storage.Filters.{Gjson}
use riposo.Storage.Txn as Store
use riposo.Storage.Lists.Matches.{Every, Every-take, Every-list_all}
use riposo.Permission.{everyone}
use riposo.Permission.Reaches.{HoldMaps}
use riposo.Api.Authz.{verify}
use riposo.Api.Authz.Access.{verify_lem}
use riposo.Api.Errors.{Error, invalid_query, store_error}
use riposo.Api.Txn.{Txn}
use riposo.Api.Actions.{Actions}
use riposo.Api.Conditions.{Http, cond_status, set_cache_headers}
use riposo.Api.Controller.{
  Context, Request, Response, no_body, objects, resource, in_txn, entries, check_parent, or_ok,
  cache_headers, render_conditional,
}
use riposo.Api.Controller.Guards.{may}
use riposo.Api.Controller.Bulk.{
  Setup, restrict, parse_bulk_query, prepare_bulk_get, list_options, last_at, check_readable,
  set_next_page, page, paginate, with_access, parse_form, check_bulk_get, list_page, show, list,
  delete_found, delete_page, delete_checked, delete_bulk, spend_token, mark_deleted,
}
use riposo.Api.Controller.Visible.{reading, IsVisible, reached, TellsStrings, by_ids-Hides, Hides}

module _ {V : Type 0} (json : Gjson V) (values : Values V) (http : Http) (setup : Setup V)
    (req : Request) (txn : Txn) where
  -- The user has no inherited permission to read, and the transaction of the permissions is open.
  pub record IsUninherited : Type 0 where
    pub open_yet : txn.perms.done ≡ false
    pub maps : HoldMaps txn.perms.b.perms
    pub denied : may setup.authz txn (entries reading (parent req.path) []) ≡ false

  abbrev Shown : List Object → Type 0
  Shown = Every (IsVisible req.path txn)

  abbrev Hidden : Params V → Type 0
  Hidden = Hides json values req.path txn

  -- The response has no objects that the user may not see.
  abbrev pub ShowsVisible : Response → Type 0
  ShowsVisible (objects objs) = Shown objs
  ShowsVisible no_body = ⊥
  ShowsVisible (resource code res) = ⊥

  module _ (tells : TellsStrings json values) (un : IsUninherited) where
    restrict-Hides :
        (params : Params V)
        → IfOk Hidden (restrict json values http setup req.path params false txn)
    unfolding restrict
    restrict-Hides params =
        let (out, listed, reaches) = reached req.path txn un.open_yet un.maps in
        rw listed (by_ids-Hides json values req.path txn out params.condition tells reaches)

    verified :
        verify setup.authz txn.perms txn.user.principals (entries reading (parent req.path) [])
        ≡ ok false
    unfolding may
    verified =
        verify_lem setup.authz txn.user.principals (entries reading (parent req.path) []) txn.perms
          un.open_yet
        ∙ ap ok un.denied

    module _ (out : Dict Text) where
      abbrev here : Context
      here = record { txn = txn; out = out }

      with_access-Hides :
          (params : Params V) → After Hidden (with_access json values http setup req params here)
      unfolding with_access
      with_access-Hides params = rw verified (After-reads Hidden _ here (restrict-Hides params))

      parse_bulk_query-Hides : After Hidden (parse_bulk_query json values http setup req here)
      unfolding parse_bulk_query parse_form
      parse_bulk_query-Hides =
          After-step Hidden (parse_form json values http setup req) (map_err invalid_query req.form)
            here
            λ form.
              After-step Hidden (with_access json values http setup req)
                (map_err invalid_query (parse values form setup.max_limit)) here with_access-Hides

      check_bulk_get-Hides : After Hidden (check_bulk_get json values http setup req here)
      unfolding check_bulk_get
      check_bulk_get-Hides =
          After-step Hidden
            (λ u. reads (λ c. check_parent req.path c.txn) >>= λ u.
              parse_bulk_query json values http setup req)
            (check_readable json values http setup (parent req.path) txn) here
            λ u.
              After-step Hidden (λ u. parse_bulk_query json values http setup req)
                (check_parent req.path txn) here λ u. parse_bulk_query-Hides

    prepare_bulk_get-Hides :
        (out : Dict Text)
        → After Hidden
            (prepare_bulk_get json values http setup req (record { txn = txn; out = out }))
    unfolding prepare_bulk_get render_conditional cache_headers
    prepare_bulk_get-Hides out =
        After-step Hidden
          (λ mod_time. render_conditional http req.head mod_time none >>= λ u.
            check_bulk_get json values http setup req)
          (map_err store_error (Store.mod_time req.path txn.store)) (here out)
          λ mod_time.
            After-step Hidden (λ u. check_bulk_get json values http setup req)
              (or_ok (cond_status http req.head mod_time none))
              (here (set_cache_headers http req.head mod_time out))
              λ u. check_bulk_get-Hides (set_cache_headers http req.head mod_time out)

    page-Shows :
        (params : Params V) (nonce : Text) (objs : List Object) (c : Context)
        → Shown objs
        → After Shown (page json values http setup params nonce objs c)
    unfolding page
    page-Shows params nonce objs c h =
        let n = not_negative params.limit in
        either (λ (m : Effect Context Error (List Object)). After Shown (m c))
          (ltb 0 n && (length objs == n + 1))
          (After-any Shown (λ u. pure (take n objs))
            (set_next_page json values http setup params nonce (last_at n objs) c)
            λ u c'. Every-take (IsVisible req.path txn) n objs h)
          h

    paginate-Shows :
        (params : Params V) (nonce : Text) (c : Context)
        → Hidden params
        → After Shown (paginate json values http setup req.path params nonce c)
    unfolding paginate list_options
    paginate-Shows params nonce c h =
        After-bind Shown Shown (page json values http setup params nonce) _
          (After-reads Shown _ c (
            IfOk-map_err Shown store_error _ (
              Every-list_all json (IsVisible req.path txn) req.path
                (list_options json values http setup params) c.txn.store h)))
          λ objs c' shown. page-Shows params nonce objs c' shown

    list_page-Shows :
        (params : Params V) (c : Context)
        → Hidden params
        → After ShowsVisible (list_page json values http setup req params c)
    unfolding list_page show
    list_page-Shows params c h =
        After-bind Shown ShowsVisible (show json values http setup)
          (paginate json values http setup req.path params [] c) (paginate-Shows params [] c h)
          λ objs c' shown.
            After-reads ShowsVisible _ c' (
              either (IfOk ShowsVisible) (is_empty objs && text_eq c'.txn.user.id everyone) tt
                shown)

    list-Shows :
        (out : Dict Text)
        → After ShowsVisible (list json values http setup req (record { txn = txn; out = out }))
    unfolding list
    list-Shows out =
        After-bind Hidden ShowsVisible (list_page json values http setup req)
          (prepare_bulk_get json values http setup req (here out)) (prepare_bulk_get-Hides out)
          list_page-Shows

    module _ (act act' : Actions)
        (agree : (objs : List Object)
          → Shown objs
          → act.delete_all req.path objs ≡ act'.delete_all req.path objs) where
      delete_checked-same :
          (params : Params V) (c : Context)
          → Hidden params
          → delete_checked json values http setup act req params c
            ≡ delete_checked json values http setup act' req params c
      unfolding delete_checked delete_page delete_found
      delete_checked-same params c h =
          always_same _ _ (spend_token json values http setup params.token c) λ u c1.
            always_same _ _ (check_parent req.path c1.txn, c1)
              λ u c2.
                After-same Shown (delete_found json values http setup act req)
                  (delete_found json values http setup act' req)
                  (paginate json values http setup req.path params
                    (bytes "pagination-token-" ++ setup.next_id) c2)
                  (paginate-Shows params _ c2 h)
                  λ objs c3 shown.
                    ap
                      (λ m.
                        (in_txn m >>= λ deletion. cache_headers http req.head deletion.0 >>= λ u.
                        pure (objects (mark_deleted deletion.0 deletion.1)))
                          c3)
                      (agree objs shown)

      delete_bulk-same :
          (out : Dict Text)
          → delete_bulk json values http setup act req (here out)
            ≡ delete_bulk json values http setup act' req (here out)
      unfolding delete_bulk render_conditional cache_headers
      delete_bulk-same out =
          let out' = set_cache_headers http req.head 0 out in
          step_same _ _ (or_ok (cond_status http req.head 0 none)) (here out') λ u.
            After-same Hidden (delete_checked json values http setup act req)
              (delete_checked json values http setup act' req)
              (parse_bulk_query json values http setup req (here out'))
              (parse_bulk_query-Hides out') delete_checked-same

-- Where a user has no permission to read or write on a parent of a collection, and values made of different
-- strings differ, List shows no objects but those on whose paths one of the user's principals has the
-- permission to read or to write, if it does not fail; and DeleteBulk gives no others to DeleteAll: it does
-- the same with any two DeleteAll that agree on lists of such objects.
pub bulk-visible :
    {V : Type 0} (json : Gjson V) (values : Values V) (http : Http) (setup : Setup V)
    (req : Request) (txn : Txn) (out : Dict Text) (act act' : Actions)
    → TellsStrings json values
    → IsUninherited json values http setup req txn
    → ((objs : List Object)
        → Every (IsVisible req.path txn) objs
        → act.delete_all req.path objs ≡ act'.delete_all req.path objs)
    → let c : Context = record { txn = txn; out = out } in
      IfOk (ShowsVisible json values http setup req txn) (list json values http setup req c).0
      × (delete_bulk json values http setup act req c
          ≡ delete_bulk json values http setup act' req c)
bulk-visible json values http setup req txn out act act' tells un agree = (
  value_of (ShowsVisible json values http setup req txn)
      (list json values http setup req (record { txn = txn; out = out }))
      (list-Shows json values http setup req txn tells un out),
  delete_bulk-same json values http setup req txn tells un act act' agree out,
)
