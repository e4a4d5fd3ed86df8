-- ===== src/Nss/Convert.antt =====
-- `UserLineToPasswdStruct`, `GroupLineToGroupStruct` and `AccountNameToShadowStruct`. What an exception
-- leaves in the struct and in the buffer is not kept: its readers are told that there is no entry.
use compute_user_accounts.Base.{ℕ, List, [], ◌∷◌, none, some, Bytes, codes}
use compute_user_accounts.Nss.Outcome.{thrown, runtime_error}
use compute_user_accounts.Nss.Strings.{find, tokenize_string, parse_id}
use compute_user_accounts.Nss.Buffer.{Command, pure, lift, ◌>>=◌, append_string, append_vector}

-- Strings are their addresses.
pub record Passwd : Type 0 where
  pub pw_name : ℕ
  pub pw_passwd : ℕ
  pub pw_uid : ℕ
  pub pw_gid : ℕ
  pub pw_gecos : ℕ
  pub pw_dir : ℕ
  pub pw_shell : ℕ

pub record Group : Type 0 where
  pub gr_name : ℕ
  pub gr_passwd : ℕ
  pub gr_gid : ℕ
  pub gr_mem : ℕ

-- The other fields are -1.
pub record Spwd : Type 0 where
  pub sp_namp : ℕ
  pub sp_pwdp : ℕ

unfoldable pub passwd_fields : List Bytes → Command Passwd
unfolding append_string parse_id
passwd_fields (name ∷ uid ∷ gid ∷ gecos ∷ dir ∷ shell ∷ []) = do
  pw_name ← append_string name
  pw_passwd ← append_string (codes "x")
  pw_uid ← lift (parse_id uid)
  pw_gid ← lift (parse_id gid)
  pw_gecos ← append_string gecos
  pw_dir ← append_string dir
  pw_shell ← append_string shell
  pure (record {
    pw_name = pw_name;
    pw_passwd = pw_passwd;
    pw_uid = pw_uid;
    pw_gid = pw_gid;
    pw_gecos = pw_gecos;
    pw_dir = pw_dir;
    pw_shell = pw_shell;
  })
passwd_fields _ = λ b. thrown runtime_error

unfoldable pub user_line_to_passwd_struct : Bytes → Command Passwd
unfolding passwd_fields tokenize_string
user_line_to_passwd_struct line = passwd_fields (tokenize_string line b':')

unfoldable pub group_fields : List Bytes → Command Group
unfolding append_string append_vector parse_id tokenize_string
group_fields (name ∷ gid ∷ mem ∷ []) = do
  gr_name ← append_string name
  gr_passwd ← append_string (codes "x")
  gr_gid ← lift (parse_id gid)
  gr_mem ← append_vector (tokenize_string mem b',')
  pure (record { gr_name = gr_name; gr_passwd = gr_passwd; gr_gid = gr_gid; gr_mem = gr_mem })
group_fields _ = λ b. thrown runtime_error

unfoldable pub group_line_to_group_struct : Bytes → Command Group
unfolding group_fields tokenize_string
group_line_to_group_struct line = group_fields (tokenize_string line b':')

unfoldable pub account_name_to_shadow_struct : Bytes → Command Spwd
unfolding append_string find
account_name_to_shadow_struct name = elim (find b':' name) [
  | some n ↦ λ b. thrown runtime_error
  | none ↦ do
    sp_namp ← append_string name
    sp_pwdp ← append_string (codes "*")
    pure (record { sp_namp = sp_namp; sp_pwdp = sp_pwdp })
]
