-- ===== src/Tests/Cases.antt =====
-- The test cases of server/server_test.go, run: the client over the socket to a server of the mock
-- provider. A value is compared by the lines that stand for it.
use mathlib.Core.List.{map}
use compute_user_accounts.Base.{
  ◌≡◌, refl, List, [], ◌∷◌, Bool, true, false, ◌&&◌, Option, none, some, Bytes, codes, bytes_eq,
}
use compute_user_accounts.Accounts.{
  Error, message, Result, ok, err, AccountProvider, username_not_found, uid_not_found,
  group_name_not_found, gid_not_found, not_found_text,
}
use compute_user_accounts.Server.Marshal.{marshal_user, marshal_group, marshal_error, write_lines}
use compute_user_accounts.Server.Respond.{respond, dispatch, handle}
use compute_user_accounts.Server.Respond
use compute_user_accounts.Client.Send.{send, check_header}
use compute_user_accounts.Client.Calls
use compute_user_accounts.Go.Strings.{split, join}
use compute_user_accounts.Go.Strconv.{format_uint, parse_uint}
use compute_user_accounts.Client.Unmarshal.{unmarshal_user, unmarshal_group}
use compute_user_accounts.Testbase.{
  john, jane, group1, group2, exp_users, exp_groups, exp_names, exp_provider, mock_provider,
  machine1_key, machine2_key,
}
use compute_user_accounts.Testbase.Cases.{TestCase, success, failure, run_cases}
use compute_user_accounts.Protocol.Wire.{direct}

abbrev Lines : Type 0
Lines = List Bytes

abbrev same_lines : Lines → Lines → Bool
same_lines [] [] = true
same_lines (x ∷ xs) (y ∷ ys) = bytes_eq x y && same_lines xs ys
same_lines xs ys = false

abbrev pair_of : {A : Type 0} → (A → Lines) → Result A → Lines × Option Error
pair_of show (ok a) = (show a, none)
pair_of show (err e) = ([], some e)

abbrev TestCall : Type 0
TestCall = Unit {0} → (Lines × Option Error) × Unit {0}

abbrev shown : {A : Type 0} → (A → Lines) → (Unit {0} → Result A × Unit {0}) → TestCall
shown show call s = let (r, t) = call s in (pair_of show r, t)

abbrev bool_line : Bool → Lines
bool_line true = codes "true" ∷ []
bool_line false = codes "false" ∷ []

abbrev expects : Bytes → TestCall → Lines → TestCase Lines (Unit {0})
expects name call exp = success (record { name = name; call = call; exp = exp })

abbrev fails : Bytes → TestCall → Bytes → TestCase Lines (Unit {0})
fails name call exp = failure (record { name = name; call = call; exp = exp })

abbrev client_of : Option Error → AccountProvider (Unit {0})
client_of e = Calls.client (direct (mock_provider (record exp_provider { error = e })))

abbrev cases : List (TestCase Lines (Unit {0}))
cases =
    let c = client_of none in
    expects (codes "UserByName(user1)")
      (shown (λ u. marshal_user u ∷ []) (c.user_by_name (codes "user1"))) (marshal_user john ∷ [])
    ∷ expects (codes "UserByUID(1002)") (shown (λ u. marshal_user u ∷ []) (c.user_by_uid 1002))
        (marshal_user jane ∷ [])
    ∷ expects (codes "GroupByName(group1)")
        (shown (λ g. marshal_group g ∷ []) (c.group_by_name (codes "group1")))
        (marshal_group group1 ∷ [])
    ∷ expects (codes "GroupByGID(1001)") (shown (λ g. marshal_group g ∷ []) (c.group_by_gid 1001))
        (marshal_group group2 ∷ [])
    ∷ expects (codes "Users()") (shown (map marshal_user) c.users) (map marshal_user exp_users)
    ∷ expects (codes "Groups()") (shown (map marshal_group) c.groups) (map marshal_group exp_groups)
    ∷ expects (codes "Names()") (shown (λ ns. ns) c.names) exp_names
    ∷ expects (codes "IsName(user1)") (shown bool_line (c.is_name (codes "user1"))) (bool_line true)
    ∷ expects (codes "IsName(nil)") (shown bool_line (c.is_name (codes "nil"))) (bool_line false)
    ∷ expects (codes "AuthorizedKeys(user1)") (shown (λ ks. ks) (c.authorized_keys (codes "user1")))
        (machine1_key ∷ machine2_key ∷ [])
    ∷ expects (codes "AuthorizedKeys(user2)") (shown (λ ks. ks) (c.authorized_keys (codes "user2")))
        []
    ∷ fails (codes "UserByName(nil)")
        (shown (λ u. marshal_user u ∷ []) (c.user_by_name (codes "nil")))
        (codes "unable to find user or group")
    ∷ fails (codes "GroupByGID(1)") (shown (λ g. marshal_group g ∷ []) (c.group_by_gid 1))
        (codes "unable to find user or group")
    ∷ []

abbrev error_cases : List (TestCase Lines (Unit {0}))
error_cases =
    let c = client_of (some (message [])) in
    fails (codes "UserByName(user1)")
      (shown (λ u. marshal_user u ∷ []) (c.user_by_name (codes "user1"))) (codes "request failed")
    ∷ fails (codes "Groups()") (shown (map marshal_group) c.groups) (codes "request failed")
    ∷ fails (codes "IsName(user1)") (shown bool_line (c.is_name (codes "user1")))
        (codes "request failed")
    ∷ fails (codes "AuthorizedKeys(user1)") (shown (λ ks. ks) (c.authorized_keys (codes "user1")))
        (codes "request failed")
    ∷ []

cases_pass : (run_cases same_lines cases tt).0 ≡ []
unfolding run_cases Calls.client Calls.user_by_name Calls.user_by_uid Calls.group_by_name
    Calls.group_by_gid Calls.users Calls.groups Calls.names Calls.is_name Calls.authorized_keys
    Calls.user Calls.group Calls.found Calls.all_lines send handle check_header split join respond
    dispatch bytes_eq Respond.user_by_name Respond.user_by_uid Respond.group_by_name
    Respond.group_by_gid Respond.users Respond.groups Respond.names Respond.is_name
    Respond.authorized_keys Respond.reply_user Respond.reply_group Respond.reply_lines
    Respond.reply_is mock_provider marshal_user marshal_group marshal_error write_lines format_uint
    parse_uint unmarshal_user unmarshal_group username_not_found uid_not_found group_name_not_found
    gid_not_found not_found_text
cases_pass = refl

error_cases_pass : (run_cases same_lines error_cases tt).0 ≡ []
unfolding run_cases Calls.client Calls.user_by_name Calls.user_by_uid Calls.group_by_name
    Calls.group_by_gid Calls.users Calls.groups Calls.names Calls.is_name Calls.authorized_keys
    Calls.user Calls.group Calls.found Calls.all_lines send handle check_header split join respond
    dispatch bytes_eq Respond.user_by_name Respond.user_by_uid Respond.group_by_name
    Respond.group_by_gid Respond.users Respond.groups Respond.names Respond.is_name
    Respond.authorized_keys Respond.reply_user Respond.reply_group Respond.reply_lines
    Respond.reply_is mock_provider marshal_user marshal_group marshal_error write_lines format_uint
    parse_uint unmarshal_user unmarshal_group username_not_found uid_not_found group_name_not_found
    gid_not_found not_found_text
error_cases_pass = refl
