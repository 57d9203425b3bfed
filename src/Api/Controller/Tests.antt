-- ===== src/Api/Controller/Tests.antt =====
-- pkg/api/ctrl.go: runs of the handlers, and instances of the theorems.
use riposo.Prelude.{
  IfOk, arith, text_eq_iff, ◌≡◌, refl, true, false, none, [], ◌∷◌, if◌then◌else◌, Text, bytes,
  text_eq, lookup, ok, err, Refuses, count_byte, elem,
}
use riposo.Path.{traverse, parent}
use riposo.Path.Ancestors.{Segments, render, ancestors}
use riposo.Schema.{Object}
use riposo.Schema.Patch.{no_members}
use riposo.Set.{has}
use riposo.Storage.Backend
use riposo.Storage.Txn as Store
use riposo.Permission
use riposo.Permission.Aces.{set_at}
use riposo.Cache
use riposo.Api.Authz.{Authz}
use riposo.Api.Authz.Access.{one_of, is_static, is_stored}
use riposo.Api.Txn.{Txn}
use riposo.Api.Model.{default_model}
use riposo.Api.Actions.{Actions, new_actions}
use riposo.Api.Conditions.{Http}
use riposo.Api.Controller.{objects, Context, Request, entries, check_permission}
use riposo.Api.Controller.Guards.{may, entries_on, entries_lem, denial, check_permission_lem}
use riposo.Params.{pos}
use riposo.Params.Parse.{Values}
use riposo.Storage.Filters.{Gjson, string_kind, is_equal, equal_as, same_kind}
use riposo.Api.Controller.Bulk.{Setup, list, delete_bulk}
use riposo.Api.Controller.Visible.{TellsStrings}
use riposo.Api.Controller.Listing.{IsUninherited, ShowsVisible, bulk-visible}
use riposo.Api.Controller.Writes.{deleting, handle, no_write}

abbrev bob : Text
bob = bytes "account:bob"

abbrev plain : Object
plain = record { id = bytes "foo"; mod_time = 3; deleted = false; extra = bytes "{}" }

abbrev stored : Backend.Backend
stored = record {
  tree = (bytes "/buckets", record { objects = (bytes "foo", plain) ∷ []; mod_time = 3 }) ∷ [];
  dead = [];
  locked = false;
}

abbrev txn : Txn
txn = record {
  store = Store.begin stored;
  perms = Permission.begin Permission.new;
  cache = Cache.begin Cache.new;
  user = record { id = bob; principals = bob ∷ [] };
}

abbrev context : Context
context = record { txn = txn; out = [] }

abbrev actions : Actions
actions =
    new_actions
      (default_model (record { now = 9; next_id = bytes "x" })
        (record { decode = λ t. ok no_members; encode = λ o. bytes "{}" }))
      []

abbrev http : Http
http = record {
  format_int = λ n. 48 ∷ n ∷ [];
  http_format = λ n. bytes "today";
  parse_time = λ t. none;
}

abbrev request : Request
request = record {
  head = record { method = bytes "DELETE"; header = λ name. [] };
  path = bytes "/buckets/foo";
  payload = ok (record { object = none; permissions = none });
  form = ok [];
}

abbrev foo : Segments
foo = (bytes "buckets", bytes "foo") ∷ []

abbrev authz : Authz
authz = (bytes "write", bytes "account:alice" ∷ []) ∷ []

check_permission_lem_example : check_permission authz (bytes "write" ∷ []) (render foo) txn ≡ (
    if may authz txn (entries_on (bytes "write" ∷ []) (ancestors foo))
    then ok tt
    else err (denial bob))
unfolding count_byte Permission.begin
check_permission_lem_example =
    check_permission_lem authz (bytes "write" ∷ []) foo txn (refl, refl, tt) refl

-- Bob is not among those who may write.
bob_may_not : may authz txn (entries (bytes "write" ∷ []) (render foo) []) ≡ false
unfolding may one_of is_static is_stored lookup text_eq elem entries_on ancestors count_byte set_at
    Permission.begin has
bob_may_not = rw (entries_lem (bytes "write" ∷ []) foo [] (refl, refl, tt)) refl

no_write_example : Refuses (handle actions authz http request context deleting) context
unfolding render Permission.begin
no_write_example = no_write actions authz http request context deleting (refl, bob_may_not)

-- Texts as values, all of them strings.
abbrev json : Gjson Text
json = record {
  kind = λ v. string_kind;
  raw = λ v. v;
  string = λ v. v;
  truth = λ v. false;
  exists = λ v. true;
  float_lt = λ v w. false;
  num_eq = λ v w. false;
  string_value = λ s. s;
  epoch_value = λ n. [];
  bool_value = λ b. [];
  get_bytes = λ extra field. [];
  zero_value = [];
  like_pattern = λ t. t;
  compile = λ t. none;
}

abbrev values : Values Text
values = record {
  null_value = [];
  valid = λ t. false;
  parse = λ t. t;
  has_raw = λ v. true;
  string_value = λ t. t;
  atoi = λ t. pos 0;
  decode_token = λ t. err t;
}

abbrev setup : Setup Text
setup = record {
  authz = authz;
  max_limit = pos 100;
  token_validity = 60;
  cache_now = 9;
  time_now = 9;
  next_id = bytes "x";
  next_page_url = λ params nonce obj. ok [];
}

-- The list of all buckets, for a user who may read foo.
abbrev listing : Request
listing = record request {
  path = bytes "/buckets/*";
  head = record { method = bytes "GET"; header = λ name. [] };
}

abbrev shared : Permission.Backend
shared = record {
  users = [];
  perms = (bytes "/buckets/foo", (bytes "read", (bob, tt) ∷ []) ∷ []) ∷ [];
  locked = false;
}

abbrev reader : Txn
reader = record txn { perms = Permission.begin shared }

tells_strings : TellsStrings json values
unfolding is_equal equal_as same_kind
tells_strings s t h = ground (arith, text_eq_iff s t)

is_uninherited : IsUninherited json values http setup listing reader
unfolding Permission.begin lookup may one_of is_static entries traverse parent text_eq elem
    is_stored has set_at
is_uninherited = record { open_yet = refl; maps = (refl, (refl, tt), tt); denied = refl }

-- The bucket foo is shown to a user who may read it.
shows_foo :
    (list json values http setup listing (record { txn = reader; out = [] })).0
    ≡ ok (objects (plain ∷ []))
unfolding list Store.begin Permission.begin riposo.Api.Controller.Bulk.list_page
    riposo.Api.Controller.Bulk.show riposo.Api.Controller.Bulk.prepare_bulk_get
    riposo.Api.Controller.Bulk.check_bulk_get riposo.Api.Controller.Bulk.check_readable
    riposo.Api.Controller.render_conditional riposo.Api.Controller.cache_headers
    riposo.Api.Conditions.set_cache_headers riposo.Api.Conditions.cond_status
    riposo.Api.Conditions.cond_if_match riposo.Api.Conditions.cond_if_none_match
    riposo.Api.Conditions.cond_if_unmodified_since riposo.Api.Conditions.check_if_modified_since
    riposo.Api.Conditions.compare_time riposo.Api.Conditions.before_next
    riposo.Api.Conditions.is_get riposo.Api.Conditions.names riposo.Api.Conditions.has_substring
    riposo.Api.Conditions.etag riposo.Api.Controller.check_parent
    riposo.Api.Controller.check_permission riposo.Api.Controller.is_forbidden
    riposo.Api.Controller.verdict riposo.Api.Controller.parent_exists
    riposo.Api.Controller.Bulk.parse_bulk_query riposo.Api.Controller.Bulk.parse_form
    riposo.Api.Controller.Bulk.with_access riposo.Params.Parse.parse riposo.Params.Parse.parse_keys
    riposo.Api.Authz.verify riposo.Api.Authz.static_loop riposo.Api.Authz.contains_one_of
    riposo.Permission.Aces.merge_aces riposo.Permission.Aces.get_all_ace_principals
    riposo.Api.Controller.Bulk.restrict riposo.Permission.Aces.get_accessible_paths
    riposo.Permission.Aces.accessible riposo.Permission.Aces.grants
    riposo.Api.Controller.Bulk.paginate riposo.Api.Controller.Bulk.page
    riposo.Api.Controller.Bulk.list_options riposo.Params.inc riposo.Params.not_negative
    riposo.Storage.Lists.list_all riposo.Storage.Lists.found riposo.Storage.Tree.each
    riposo.Storage.Tree.get_node riposo.Storage.Tree.matching riposo.Storage.Filters.condition_match
    riposo.Storage.Filters.match riposo.Permission.Aces.match riposo.Storage.Filters.match_as
    riposo.Storage.Filters.equals_one riposo.Storage.Filters.is_equal
    riposo.Storage.Filters.equal_as riposo.Storage.Filters.same_kind riposo.Storage.Filters.get
    riposo.Storage.Filters.pagination_filter riposo.Storage.Lists.limited
    riposo.Api.Controller.entries riposo.Path.traverse riposo.Path.parent
    riposo.Api.Controller.Guards.may riposo.Prelude.text_eq riposo.Prelude.elem
    riposo.Prelude.lookup riposo.Set.has riposo.Permission.Aces.set_at riposo.Path.object_id
    riposo.Path.namespace riposo.Path.split riposo.Prelude.last_index_byte riposo.Path.is_node
    riposo.Prelude.has_prefix riposo.Storage.Txn.mod_time riposo.Set.sort_strings
    riposo.Set.insert_sorted riposo.Prelude.text_lt riposo.Set.has_any riposo.Params.compact
    riposo.Params.conditions riposo.Storage.Lists.sort_objects riposo.Set.merge riposo.Set.slice
    riposo.Api.Authz.allows_static riposo.Api.Authz.contains_loop riposo.Api.Authz.contains_text
    riposo.Api.Authz.verify_stored riposo.Set.merge_slice riposo.Path.contains
shows_foo = refl

bulk-visible_example :
    IfOk
      (ShowsVisible json values http setup listing reader)
      (list json values http setup listing (record { txn = reader; out = [] })).0
    × (delete_bulk json values http setup actions listing (record { txn = reader; out = [] })
        ≡ delete_bulk json values http setup actions listing (record { txn = reader; out = [] }))
bulk-visible_example =
    bulk-visible json values http setup listing reader [] actions actions tells_strings
      is_uninherited λ objs visible. refl
