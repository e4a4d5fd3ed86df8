-- ===== src/Tests/Nss.antt =====
-- Runs of the plug-in, some of them from nssplugin/utils.h and nssplugin/utils_test.cc.
use compute_user_accounts.Base.{◌-◌, ◌^◌, ◌≤◌, ◌<◌, ◌⊎◌, ◌≡◌, refl, [], ◌∷◌, arith, codes, bytes_eq}
use compute_user_accounts.Go.Strconv.{parse_uint, parse_digits}
use compute_user_accounts.Accounts.{ok}
use compute_user_accounts.Testbase.{group2, jane, exp_users, mock_provider}
use compute_user_accounts.Server.Marshal.{marshal_user, marshal_group}
use compute_user_accounts.Nss.Outcome.{done, thrown, runtime_error, length_error}
use compute_user_accounts.Nss.Strings.{tokenize_string, parse_id}
use compute_user_accounts.Nss.Ids.{parse_id-parse_uint}
use compute_user_accounts.Nss.Buffer.{BufferManager, pointers, text, append_vector}
use compute_user_accounts.Nss.Convert.{
  Passwd, Group, group_line_to_group_struct, user_line_to_passwd_struct,
}
use compute_user_accounts.Nss.Calls.{getpwnam_r, setpwent}
use compute_user_accounts.Nss.Entries.{needed}
use compute_user_accounts.Nss.Answers.{daemon_socket, passwd_answer, getpwnam_r-answers}
use compute_user_accounts.Nss.Listing.{getpwent_calls, entries, getpwent_r-users}
use compute_user_accounts.Nss.Groups.{group_needed, IsGroupEntry, group_line-IsGroupEntry}
use compute_user_accounts.Nss.Held.{IsEntry, user_line-IsEntry}
use compute_user_accounts.Protocol.Safe.{IsSafeUser}
use compute_user_accounts.Tests.Protocol.{provider, group2-IsSafeGroup}

two_empty_tails : tokenize_string (codes "a:b::") b':' ≡ codes "a" ∷ codes "b" ∷ [] ∷ [] ∷ []
unfolding tokenize_string
two_empty_tails = refl

no_token : tokenize_string [] b':' ≡ []
unfolding tokenize_string
no_token = refl

-- 2 ^ 32 + 7 is not UINT32_MAX; what does not fit into 64 bits is.
overflowing_id : parse_id (codes "4294967303") ≡ done 7
unfolding parse_id
overflowing_id = refl

large_id : parse_id (codes "99999999999999999999") ≡ done (2 ^ 32 - 1)
unfolding parse_id
large_id = refl

signed_id : parse_id (codes "-1") ≡ thrown runtime_error
unfolding parse_id
signed_id = refl

fractional_id : parse_id (codes "1.2") ≡ thrown runtime_error
unfolding parse_id
fractional_id = refl

abbrev room : BufferManager
room = record { address = 0; size = 100; chunks = [] }

abbrev small : BufferManager
small = record { address = 0; size = 5; chunks = [] }

vector :
    append_vector (codes "a" ∷ codes "bc" ∷ []) room
    ≡ done (
      0,
      record {
        address = 29;
        size = 71;
        chunks =
            (0, pointers (24 ∷ 26 ∷ [])) ∷ (26, text (codes "bc")) ∷ (24, text (codes "a")) ∷ [];
      },
    )
unfolding append_vector
vector = refl

jane-IsSafeUser : IsSafeUser jane
jane-IsSafeUser = omega arith

parse_id-parse_uint_example : parse_id (codes "4294967303") ≡ done 7
unfolding parse_uint parse_digits
parse_id-parse_uint_example = parse_id-parse_uint (codes "4294967303") 4294967303 refl (omega arith)

user_line-IsEntry_example :
    ((needed jane ≤ 100)
      × (pwd : Passwd) × (b : BufferManager) × (user_line_to_passwd_struct (marshal_user jane) room
          ≡ done (pwd, b))
      × IsEntry jane room pwd b)
    ⊎ ((100 < needed jane)
        × (user_line_to_passwd_struct (marshal_user jane) room ≡ thrown length_error))
user_line-IsEntry_example = user_line-IsEntry jane room jane-IsSafeUser

group_line-IsGroupEntry_example :
    ((group_needed group2 ≤ 100)
      × (grp : Group) × (b : BufferManager) × (group_line_to_group_struct
            (marshal_group group2)
            room
          ≡ done (grp, b))
      × IsGroupEntry group2 room grp b)
    ⊎ ((100 < group_needed group2)
        × (group_line_to_group_struct (marshal_group group2) room ≡ thrown length_error))
group_line-IsGroupEntry_example = group_line-IsGroupEntry group2 room group2-IsSafeGroup

getpwnam_r-answers_example :
    getpwnam_r (daemon_socket provider tt) (codes "user2") room ≡ passwd_answer (ok jane) room
unfolding mock_provider bytes_eq
getpwnam_r-answers_example =
    getpwnam_r-answers provider tt (codes "user2") room (omega arith) (omega arith) jane-IsSafeUser

getpwent_r-users_example :
    getpwent_calls (small ∷ room ∷ room ∷ []) (setpwent (daemon_socket provider tt)).1
    ≡ entries (small ∷ room ∷ room ∷ []) exp_users
unfolding mock_provider
getpwent_r-users_example =
    getpwent_r-users provider tt (small ∷ room ∷ room ∷ []) exp_users (omega arith) refl
