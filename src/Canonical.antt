-- ===== src/Canonical.antt =====
-- How `execute` of src/edition-actions/edition-actions.service.ts reads a request: `actionType`,
-- `idempotencyKey`, `requestHash` and `canonicalJson`. `sha` is the SHA-256 digest in hexadecimal, `quote` is
-- JSON.stringify on texts, `digits` on numbers, and `locale_leb` is localeCompare.
use Prim.Native.String.{◌++◌ as ◌<>◌}
use intereng_api.Base.{
  String, Bool, true, false, Option, none, some, List, [], ◌∷◌, ltb, if◌then◌else◌,
}
use intereng_api.Base.Sort.{sort}
use intereng_api.Base.Text
use intereng_api.Base.Text.{is_empty, trim}
use intereng_api.Http.{bad_request, Reply, ok, fail, ◌>>=◌}
use intereng_api.Json.{
  Number, Json, null, boolean, number, text, array, object, Items, no_items, item, Fields,
  no_fields, field,
}
use intereng_api.Validation.{Audit}
use intereng_api.Database.{User}
use intereng_api.Access.{RequestedRole, as_edition_admin, as_discipline_manager}
use intereng_api.Authority.Actions.{action_type}
use intereng_api.Receipts.{Request}

-- Texts with a comma between them.
unfoldable pub join : List String → String
join [] = ""
join (x ∷ []) = x
join (x ∷ xs) = x <> ("," <> join xs)

-- EditionActionDto and the headers, as they come in.
pub record Incoming : Type 0 where
  pub route : String
  pub key : Option String
  pub kind : String
  pub payload : Fields
  pub audit : Option Audit
  pub user : User
  pub role : Option RequestedRole
  pub selected : Option String
  pub device : Option String

-- `idempotencyKey`
unfoldable pub idempotency_key : Option String → Reply String
idempotency_key none = fail bad_request
idempotency_key (some k) =
    if is_empty (trim k)
    then fail bad_request
    else if ltb 128 (Text.length (trim k))
    then fail bad_request
    else ok (trim k)

abbrev pub text_or_null : Option String → Json
text_or_null none = null
text_or_null (some s) = text s

abbrev pub role_or_null : Option RequestedRole → Json
role_or_null none = null
role_or_null (some as_edition_admin) = text "EDITION_ADMIN"
role_or_null (some as_discipline_manager) = text "DISCIPLINE_MANAGER"

-- A field that is left out where its value is undefined.
abbrev pub optional_field : String → Option Json → Fields → Fields
optional_field key none fs = fs
optional_field key (some v) fs = field key v fs

abbrev pub text_json : Option String → Option Json
text_json none = none
text_json (some s) = some (text s)

abbrev pub audit_fields : Option Audit → Fields → Fields
audit_fields none fs = fs
audit_fields (some a) fs =
    field "audit"
      (object (
        field "action" (text a.action) (
          field "entity" (text a.entity) (
            optional_field "before" (text_json a.before) (
              optional_field "after" (text_json a.after)
                (optional_field "reason" (text_json a.reason) no_fields))))))
      fs

-- The body that `requestHash` hashes.
unfoldable pub hashed_body : Incoming → Json
hashed_body i = object (
    field "type" (text i.kind) (
      field "payload" (object i.payload) (
        audit_fields i.audit (
          field "role" (role_or_null i.role) (
            field "scope" (text_or_null i.selected)
              (field "operatorDeviceId" (text_or_null i.device) no_fields))))))

module _ (quote : String → String) (digits : Number → String)
    (locale_leb : String → String → Bool) where
  unfoldable pub written : List (String × String) → List String
  written [] = []
  written ((k, v) ∷ es) = (quote k <> (":" <> v)) ∷ written es

  -- `canonicalJson`: the fields of an object are written in the order of their keys.
  unfoldable mutual
    pub canonical_json : Json → String
    canonical_json null = "null"
    canonical_json (boolean true) = "true"
    canonical_json (boolean false) = "false"
    canonical_json (text s) = quote s
    canonical_json (number n) = digits n
    canonical_json (array vs) = "[" <> (join (canonical_items vs) <> "]")
    canonical_json (object fs) =
        "{"
        <> (join
              (written (sort (λ (a b : String × String). locale_leb a.0 b.0) (canonical_fields fs)))
            <> "}")

    pub canonical_items : Items → List String
    canonical_items no_items = []
    canonical_items (item v vs) = canonical_json v ∷ canonical_items vs

    pub canonical_fields : Fields → List (String × String)
    canonical_fields no_fields = []
    canonical_fields (field k v fs) = (k, canonical_json v) ∷ canonical_fields fs

  -- The request of what comes in: `actionType`, `idempotencyKey` and `requestHash`.
  unfoldable pub read_request : (String → String) → Incoming → Reply Request
  unfolding idempotency_key hashed_body action_type
  read_request sha i = do
    action ← action_type i.kind
    key ← idempotency_key i.key
    ok (record {
      route = i.route;
      key = key;
      hash = sha (canonical_json (hashed_body i));
      action = action;
      payload = i.payload;
      audit = i.audit;
      user = i.user;
      role = i.role;
      selected = i.selected;
      device = i.device;
    })
