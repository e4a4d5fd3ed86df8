-- ===== src/Accounts.antt =====
-- accounts/accounts.go: users, groups, the errors of a failed search, and the provider interface.
use compute_user_accounts.Base.{
  ℕ, ◌-◌, ◌^◌, ◌%◌, Bool, true, false, List, [], ◌∷◌, ◌++◌, Bytes, codes, if◌then◌else◌,
}
use compute_user_accounts.Go.Strconv.{format_uint}

pub record User : Type 0 where
  pub name : Bytes
  pub uid : ℕ
  pub gid : ℕ
  pub gecos : Bytes
  pub home_directory : Bytes
  pub shell : Bytes

pub record Group : Type 0 where
  pub name : Bytes
  pub gid : ℕ
  pub members : List Bytes

-- What an `interface{}` identifier holds: a string or a uint32.
pub data Identifier : Type 0 where
  text : Bytes → Identifier
  number : ℕ → Identifier

-- `%v` of an identifier.
unfoldable pub format_identifier : Identifier → Bytes
format_identifier (text s) = s
format_identifier (number n) = format_uint n

pub record NotFoundError : Type 0 where
  pub has_details : Bool
  pub entity_name : Bytes
  pub identifier_name : Bytes
  pub identifier : Identifier

-- An `error` value: a `*NotFoundError`, or one of another type with its text.
pub data Error : Type 0 where
  not_found : NotFoundError → Error
  message : Bytes → Error

-- `NotFoundError{}`, whose identifier is nil: it is not printed.
abbrev pub zero_not_found : NotFoundError
zero_not_found = record {
  has_details = false;
  entity_name = [];
  identifier_name = [];
  identifier = text [];
}

-- `(e *NotFoundError) Error`.
unfoldable pub not_found_text : NotFoundError → Bytes
unfolding format_identifier
not_found_text e =
    if e.has_details
    then codes "unable to find "
      ++ (e.entity_name
          ++ (codes " with "
              ++ (e.identifier_name ++ (codes " " ++ format_identifier e.identifier))))
    else codes "unable to find user or group"

-- `err.Error()`.
unfoldable pub error_text : Error → Bytes
unfolding not_found_text
error_text (not_found e) = not_found_text e
error_text (message m) = m

-- `fmt.Sprintf("\"%v\"", name)`.
unfoldable pub quoted : Bytes → Bytes
quoted name = b'"' ∷ (name ++ b'"' ∷ [])

unfoldable pub username_not_found : Bytes → Error
unfolding quoted
username_not_found name = not_found (record {
  has_details = true;
  entity_name = codes "user";
  identifier_name = codes "name";
  identifier = text (quoted name);
})

unfoldable pub uid_not_found : ℕ → Error
uid_not_found uid = not_found (record {
  has_details = true;
  entity_name = codes "user";
  identifier_name = codes "UID";
  identifier = number uid;
})

unfoldable pub group_name_not_found : Bytes → Error
unfolding quoted
group_name_not_found name = not_found (record {
  has_details = true;
  entity_name = codes "group";
  identifier_name = codes "name";
  identifier = text (quoted name);
})

unfoldable pub gid_not_found : ℕ → Error
gid_not_found gid = not_found (record {
  has_details = true;
  entity_name = codes "group";
  identifier_name = codes "GID";
  identifier = number gid;
})

-- The results `(value, nil)` and `(_, err)`.
pub data Result (A : Type 0) : Type 0 where
  ok : A → Result A
  err : Error → Result A

-- The `AccountProvider` interface. A call may change the provider's state.
pub record AccountProvider (S : Type 0) : Type 0 where
  pub user_by_name : Bytes → S → Result User × S
  pub user_by_uid : ℕ → S → Result User × S
  pub users : S → Result (List User) × S
  pub group_by_name : Bytes → S → Result Group × S
  pub group_by_gid : ℕ → S → Result Group × S
  pub groups : S → Result (List Group) × S
  pub names : S → Result (List Bytes) × S
  pub is_name : Bytes → S → Result Bool × S
  pub authorized_keys : Bytes → S → Result (List Bytes) × S

-- The conversion `uint32(x)`.
abbrev pub uint32 : ℕ → ℕ
uint32 x = x % 2 ^ 32

abbrev pub max_uint32 : ℕ
max_uint32 = 2 ^ 32 - 1
