-- ===== src/Tests/Protocol.antt =====
-- The protocol over the provider of testbase/mockprovider.go.
use compute_user_accounts.Base.{
  ◌≡◌, List, some, none, refl, [], ◌∷◌, ◌++◌, true, false, arith, Bytes, codes, bytes_eq,
}
use compute_user_accounts.Go.Strings.{split, join}
use compute_user_accounts.Go.Strconv.{format_uint}
use compute_user_accounts.Accounts.{
  AccountProvider, username_not_found, group_name_not_found, ok, err, not_found, zero_not_found,
  message,
}
use compute_user_accounts.Testbase.{
  group1, john, jane, group2, exp_users, exp_groups, exp_names, exp_provider, mock_provider,
}
use compute_user_accounts.Server.Marshal.{marshal_error, marshal_user, marshal_group}
use compute_user_accounts.Server.Respond.{respond, dispatch, handle}
use compute_user_accounts.Server.Respond
use compute_user_accounts.Client.Send.{Network, received, send, check_header}
use compute_user_accounts.Client.Unmarshal.{unmarshal_user, unmarshal_group}
use compute_user_accounts.Client.Calls
use compute_user_accounts.Client.Calls.{client}
use compute_user_accounts.Protocol.Safe.{IsSafeUser, IsSafeGroup}
use compute_user_accounts.Protocol.Wire.{direct}
use compute_user_accounts.Protocol.RoundTrip.{unmarshal-marshal_user, unmarshal-marshal_group}
use compute_user_accounts.Protocol.Refinement.{IsSafeAt, client-refines}
use compute_user_accounts.Server.Serve.{
  Event, accept_failed, accepted, read, responded, wrote, written, serve,
}
use compute_user_accounts.Protocol.Serving.{IsRead, IsAnswered, serve_answers}
use compute_user_accounts.Protocol.Received.{client-IsSafe}
use compute_user_accounts.Protocol.Handling.{serve_handles}
use compute_user_accounts.Protocol.Limits.{user_by_uid-wrap}

john_line : marshal_user john ≡ codes "user1:1001:1000:John Doe:/home/user1:/bin/bash"
unfolding marshal_user join format_uint
john_line = refl

group2_line : marshal_group group2 ≡ codes "group2:1001:user2,user1"
unfolding marshal_group join format_uint
group2_line = refl

abbrev pub provider : AccountProvider (Unit {0})
provider = mock_provider exp_provider

no_such_user :
    (Calls.user_by_name (direct provider) (codes "zz") tt).0 ≡ err (not_found zero_not_found)
unfolding Calls.user_by_name Calls.user mock_provider respond split bytes_eq Respond.user_by_name
    dispatch handle send marshal_error username_not_found check_header Respond.reply_user
no_such_user = refl

missing_argument : respond provider (codes "keys") tt ≡ (codes "400", tt)
unfolding respond split bytes_eq dispatch Respond.authorized_keys
missing_argument = refl

john-IsSafeUser : IsSafeUser john
john-IsSafeUser = omega arith

group1-IsSafeGroup : IsSafeGroup group1
group1-IsSafeGroup = record {
  name = omega arith;
  members = tt;
  several = λ e. cc;
  gid = omega arith;
}

pub group2-IsSafeGroup : IsSafeGroup group2
group2-IsSafeGroup = record {
  name = omega arith;
  members = omega arith;
  several = λ e. cc;
  gid = omega arith;
}

unmarshal-marshal_user_example : unmarshal_user (marshal_user john) ≡ ok john
unmarshal-marshal_user_example = unmarshal-marshal_user john john-IsSafeUser

unmarshal-marshal_group_example : unmarshal_group (marshal_group group2) ≡ ok group2
unmarshal-marshal_group_example = unmarshal-marshal_group group2 group2-IsSafeGroup

user2_answers-IsSafeAt : IsSafeAt provider (codes "user2") 1001 tt
unfolding mock_provider bytes_eq
user2_answers-IsSafeAt = record {
  user_named = omega arith;
  user_numbered = omega arith;
  all_users = omega arith;
  group_named = tt;
  group_numbered = group2-IsSafeGroup;
  all_groups = (group1-IsSafeGroup, (group2-IsSafeGroup, tt));
  all_names = omega arith;
  keys = tt;
}

client-refines_example :
    let c = Calls.client (direct provider) in
    (c.user_by_name (codes "user2") tt ≡ (ok jane, tt))
    × (c.user_by_uid 1001 tt ≡ (ok john, tt))
    × (c.users tt ≡ (ok exp_users, tt))
    × (c.group_by_name (codes "user2") tt ≡ (err (not_found zero_not_found), tt))
    × (c.group_by_gid 1001 tt ≡ (ok group2, tt))
    × (c.groups tt ≡ (ok exp_groups, tt))
    × (c.names tt ≡ (ok exp_names, tt))
    × (c.is_name (codes "user2") tt ≡ (ok true, tt))
    × (c.authorized_keys (codes "user2") tt ≡ (ok [], tt))
unfolding mock_provider bytes_eq group_name_not_found
client-refines_example =
    client-refines provider (codes "user2") 1001 tt user2_answers-IsSafeAt (omega arith)
      (omega arith) (omega arith)

-- 2 ^ 32 + 1001 is answered as 1001.
user_by_uid-wrap_example :
    respond provider (codes "user_by_uid " ++ format_uint 4294968297) tt
    ≡ respond provider (codes "user_by_uid " ++ format_uint 1001) tt
user_by_uid-wrap_example = user_by_uid-wrap provider 4294968297 tt (omega arith)

-- Two connections, of which the second is asked and answered while the first one waits.
abbrev two_connections : List Event
two_connections =
    accepted 0
    ∷ accepted 1
    ∷ accept_failed
    ∷ read 1 (some (codes "is_name user1"))
    ∷ responded 1
    ∷ read 0 none
    ∷ wrote 1 true
    ∷ []

serve_answers_example :
    IsRead provider two_connections 1 (codes "is_name user1")
    × IsAnswered provider two_connections tt 1 (codes "is_name user1") (codes "200")
unfolding serve respond split dispatch bytes_eq Respond.is_name mock_provider Respond.reply_is
serve_answers_example =
    serve_answers provider two_connections tt 1 (codes "is_name user1") (codes "200") refl

-- A request that comes in on a connection while another is accepted, read and answered.
abbrev crossed_connections : List Event
crossed_connections =
    accepted 0
    ∷ accepted 1
    ∷ read 1 (some (codes "is_name user1"))
    ∷ read 0 (some (codes "is_name zz"))
    ∷ responded 1
    ∷ responded 0
    ∷ wrote 1 false
    ∷ wrote 0 true
    ∷ []

serve_handles_example :
    (response : Bytes) × ((serve provider none crossed_connections tt).1.connection 0
      ≡ written (codes "is_name zz") response)
    × IsAnswered provider crossed_connections tt 0 (codes "is_name zz") response
serve_handles_example =
    serve_handles provider 0 b'i' (codes "s_name zz") crossed_connections tt refl

-- The other end sends a line with a field too many, whatever it is asked.
abbrev stranger : Network (Unit {0})
stranger req timeout s = (received (codes "200\nroot:0:0:root:/:/bin/sh:x"), s)

client-IsSafe_example : IsSafeAt (client stranger) (codes "root") 0 tt
client-IsSafe_example = client-IsSafe stranger (codes "root") 0 tt

-- It is refused.
stranger_refused :
    (Calls.user_by_name stranger (codes "root") tt).0
    ≡ err (message (codes "invalid user in response: root:0:0:root:/:/bin/sh:x"))
unfolding Calls.user_by_name Calls.user send split check_header bytes_eq unmarshal_user
stranger_refused = refl
