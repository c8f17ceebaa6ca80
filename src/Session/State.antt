-- ===== src/Session/State.antt =====
-- The module variables of api.ts, the browser's storage, and the functions on them.
use subdux.Base.{
  Bool, List, Option, String, TextMap, false, if◌then◌else◌, none, not, set_text, some, str_eq,
  true, ℕ,
}

pub data Role : Type 0 where
  admin user : Role

pub data UserStatus : Type 0 where
  active disabled : UserStatus

pub record User : Type 0 where
  pub id : ℕ
  pub username : String
  pub email : String
  pub role : Role
  pub status : UserStatus
  pub totp_enabled : Bool

abbrev pub access_token_key : String
access_token_key = "token"

abbrev pub user_key : String
user_key = "user"

-- What the server answers to one `fetch`: nothing (the promise rejects), or a status, a content
-- type, and the object that `res.json()` makes of the body, none where it rejects or is null.
pub record Payload : Type 0 where
  pub access_token : Option String
  pub token : Option String
  pub user : Option User
  pub error : Option String

pub record Response : Type 0 where
  pub status : ℕ
  pub content_type : Option String
  pub body : Option Payload

pub record Headers : Type 0 where
  pub content_type : Option String
  pub authorization : Option String

-- A request that was sent.
pub record Sent : Type 0 where
  pub path : String
  pub headers : Headers

-- The variables of the module; the storage, which may be unusable; what the user sees; what was
-- sent; and the answers that the server will give, in order.
pub record Session : Type 0 where
  pub cached_access_token : Option String
  pub cached_user : Option User
  pub access_token_loaded : Bool
  pub user_loaded : Bool
  pub storage_usable : Bool
  pub storage : TextMap String
  pub toasts : List String
  pub location : String
  pub sent : List Sent
  pub replies : List (Option Response)

-- JSON of a user, `toLowerCase` and the translations are not the module's own; `decode_user` is none where
-- JSON.parse throws.
pub record Environment : Type 0 where
  pub encode_user : User → String
  pub decode_user : String → Option (Option User)
  pub to_lower_case : String → String
  pub t : String → String

unfoldable pub read_local_storage : String → Session → Option String
read_local_storage key s = if s.storage_usable then s.storage key else none

unfoldable pub write_local_storage : String → String → Session → Session
write_local_storage key value s =
    if s.storage_usable then (record s { storage = set_text key (some value) s.storage }) else s

unfoldable pub remove_local_storage : String → Session → Session
remove_local_storage key s =
    if s.storage_usable then (record s { storage = set_text key none s.storage }) else s

-- The truth of a string or null.
unfoldable pub truthy : Option String → Bool
truthy none = false
truthy (some s) = not (str_eq s "")

unfoldable pub get_token : Session → Session × Option String
get_token s = if s.access_token_loaded then (s, s.cached_access_token) else (
  record (remove_local_storage access_token_key s) {
    cached_access_token = none;
    access_token_loaded = true;
  },
  none,
)

unfoldable pub set_token : String → Session → Session
set_token token s =
    remove_local_storage access_token_key
      (record s { cached_access_token = some token; access_token_loaded = true })

unfoldable pub clear_token : Session → Session
clear_token s = remove_local_storage user_key (
    remove_local_storage access_token_key (record s {
      cached_access_token = none;
      cached_user = none;
      access_token_loaded = true;
      user_loaded = true;
    }))

unfoldable pub is_authenticated : Session → Session × Bool
is_authenticated s = let (s', token) = get_token s in (s', truthy token)

module _ (env : Environment) where
  unfoldable pub set_user : User → Session → Session
  set_user u s =
      write_local_storage user_key (env.encode_user u)
        (record s { cached_user = some u; user_loaded = true })

  -- The branches of `getUser` for a text that is stored and not empty.
  unfoldable pub parse_user : Option (Option User) → Session → Session
  parse_user none s = record (remove_local_storage user_key s) {
    cached_user = none;
    user_loaded = true;
  }
  parse_user (some u) s = record s { cached_user = u; user_loaded = true }

  unfoldable pub load_user : Option String → Session → Session
  load_user none s = record s { cached_user = none; user_loaded = true }
  load_user (some raw) s =
      if str_eq raw ""
      then (record s { cached_user = none; user_loaded = true })
      else parse_user (env.decode_user raw) s

  unfoldable pub get_user : Session → Session × Option User
  get_user s =
      if s.user_loaded
      then (s, s.cached_user)
      else (let s' = load_user (read_local_storage user_key s) s in (s', s'.cached_user))

  abbrev pub has_admin_role : Option User → Bool
  has_admin_role none = false
  has_admin_role (some u) = elim u.role [ admin ↦ true | user ↦ false ]

  unfoldable pub is_admin : Session → Session × Bool
  is_admin s = let (s', u) = get_user s in (s', has_admin_role u)

  unfoldable pub set_auth : String → User → Session → Session
  set_auth token u s = set_user u (set_token token s)

-- A reload of the page: the module's variables start anew, the storage stays.
unfoldable pub reload : Session → Session
reload s = record s {
  cached_access_token = none;
  cached_user = none;
  access_token_loaded = false;
  user_loaded = false;
}
