-- ===== src/Handlers/Access.antt =====
-- internal/handlers/access.go: what a user may do.
pub mod Laws
use be_miawai.Base.{
  List, [], ◌∷◌, ◌++◌, Option, none, some, Bool, true, ◌||◌, Text, codes, text_eq, is_blank,
  if◌then◌else◌,
}
use be_miawai.Base.Strings.{folded}
use be_miawai.Base.Lists.{contains}
use be_miawai.Models.{User, SessionIdentity}

abbrev pub billing_write : Text
billing_write = codes "billing:write"

abbrev pub admin_permission : Text
admin_permission = codes "admin:access"

abbrev pub member_access : List Text
member_access =
    codes "runtime:read"
    ∷ codes "runtime:write"
    ∷ codes "conversations:read"
    ∷ codes "conversations:write"
    ∷ codes "conversations:delete"
    ∷ codes "chat:read"
    ∷ codes "chat:write"
    ∷ codes "billing:read"
    ∷ codes "whatsapp:read"
    ∷ codes "whatsapp:write"
    ∷ []

abbrev pub admin_access : List Text
admin_access = member_access ++ (billing_write ∷ admin_permission ∷ [])

abbrev pub viewer_access : List Text
viewer_access = codes "conversations:read" ∷ codes "chat:read" ∷ []

-- `devAccount`
pub record DevAccount : Type 0 where
  pub email : Text
  pub password : Text
  pub name : Text
  pub role : Text
  pub access : List Text

abbrev pub admin_account : DevAccount
admin_account = record {
  email = codes "admin@miaw.local";
  password = codes "admin123";
  name = codes "Miaw Admin";
  role = codes "admin";
  access = admin_access;
}

abbrev pub editor_account : DevAccount
editor_account = record {
  email = codes "editor@miaw.local";
  password = codes "editor123";
  name = codes "Miaw Editor";
  role = codes "editor";
  access = member_access;
}

abbrev pub viewer_account : DevAccount
viewer_account = record {
  email = codes "viewer@miaw.local";
  password = codes "viewer123";
  name = codes "Miaw Viewer";
  role = codes "viewer";
  access = viewer_access;
}

-- `normalizeEmail`
abbrev pub normalize_email : Text → Text
normalize_email email = folded email

-- `lookupDevAccount`, on the entries of `devAccountsByEmail`
unfoldable pub lookup_dev_account : Text → Option DevAccount
lookup_dev_account email =
    if text_eq (normalize_email email) (codes "admin@miaw.local")
    then some admin_account
    else if text_eq (normalize_email email) (codes "editor@miaw.local")
    then some editor_account
    else if text_eq (normalize_email email) (codes "viewer@miaw.local")
    then some viewer_account
    else none

abbrev pub decorated_by : Option DevAccount → User → User
decorated_by none user = record user { role = codes "member"; access = member_access }
decorated_by (some account) user = record user { role = account.role; access = account.access }

unfoldable pub decorate_user_access : User → User
decorate_user_access user = decorated_by (lookup_dev_account user.email) user

-- `mergeAccess`: the loop over `extra`, on what is out so far.
unfoldable pub merge_access : List Text → List Text → List Text
merge_access out [] = out
merge_access out (permission ∷ extra) =
    merge_access
      (if is_blank permission || contains out permission then out else out ++ (permission ∷ []))
      extra

abbrev pub with_role : Text → User → User
with_role [] user = user
with_role (c ∷ s) user = record user { role = c ∷ s }

abbrev pub apply_to : User → User → List Text → User
apply_to user decorated [] = decorated
apply_to user decorated (p ∷ ps) = record user {
  role = decorated.role;
  access = merge_access decorated.access (p ∷ ps);
}

unfoldable pub apply_session_access : User → SessionIdentity → User
unfolding decorate_user_access merge_access
apply_session_access user identity =
    let named = with_role identity.role user in
    apply_to named (decorate_user_access named) identity.access

unfoldable pub has_access : User → Text → Bool
has_access user permission = if is_blank permission then true else contains user.access permission
