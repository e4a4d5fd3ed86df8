-- ===== src/Testbase/Data.antt =====
-- The sample data of testbase/testbase.go.
use compute_user_accounts.Base.{List, [], ◌∷◌, ◌++◌, none, Bytes, codes}
use compute_user_accounts.Go.Map.{GoMap}
use compute_user_accounts.Accounts.{User, Group}
use compute_user_accounts.Testbase.Provider.{MockProvider}

abbrev pub john : User
john = record {
  name = codes "user1";
  uid = 1001;
  gid = 1000;
  gecos = codes "John Doe";
  home_directory = codes "/home/user1";
  shell = codes "/bin/bash";
}

abbrev pub jane : User
jane = record {
  name = codes "user2";
  uid = 1002;
  gid = 1000;
  gecos = codes "Jane Doe";
  home_directory = codes "/home/user2";
  shell = codes "/bin/zsh";
}

abbrev pub exp_users : List User
exp_users = john ∷ jane ∷ []

abbrev pub group1 : Group
group1 = record { name = codes "group1"; gid = 1000; members = [] }

abbrev pub group2 : Group
group2 = record { name = codes "group2"; gid = 1001; members = codes "user2" ∷ codes "user1" ∷ [] }

abbrev pub exp_groups : List Group
exp_groups = group1 ∷ group2 ∷ []

abbrev pub exp_names : List Bytes
exp_names = codes "group1" ∷ codes "group2" ∷ codes "user1" ∷ codes "user2" ∷ []

abbrev pub machine1_key : Bytes
machine1_key =
    codes "ssh-rsa AAAAB3NzaC1yc2EAAAADAQABAAABAQCbfMeFT1HFEF4NUfGY1N5x"
    ++ (codes "V59DcUSD0wrQ+PLshX3zNseddAq0mPRs1+rLwzH53GFzJu7p9gO2tODz1Han"
        ++ (codes "SSVhPXN5GuMVBA/9fZCmSkcsU18v machine1"))

abbrev pub machine2_key : Bytes
machine2_key =
    codes "ssh-rsa AAAAB3NzaC1yc2EAAAADvUTKEXOxhMCs2MGQyRe1hWfS1wqTuhsk"
    ++ (codes "uFlw7+iyyvgw2KQDKfJod4DiyXQpNF5361PrfduTF/T5I+tanSSVhPXN5GuM"
        ++ (codes "VBA/9fZCmSkcsU18v machine2"))

abbrev machine3_key : Bytes
machine3_key =
    codes "ssh-rsa AAAAB3NzaC1yc2EAAAADAQABAAABAQCbfMeFT1HFEF4NUfGY1N5x"
    ++ (codes "V59DcUSD0wrQ+p9gO2tODz1HanSSVhPXN5GuMVBA/9fZCmSkcsU18v machi" ++ (codes "ne3"))

abbrev machine4_key : Bytes
machine4_key =
    codes "ssh-rsa AAAAB3NzaC1yc2EAAAADvUTKEXOxhMCs2MGQyRe1hWfS1wqTuhsk"
    ++ (codes "uFlw7+iyyvgwuTF/T5I+tanSSVhPXN5GuMVBA/9fZCmSkcsU18v machine4")

abbrev pub exp_keys : GoMap Bytes (List Bytes)
exp_keys =
    (codes "user1", machine1_key ∷ machine2_key ∷ [])
    ∷ (codes "user3", machine3_key ∷ machine4_key ∷ [])
    ∷ []

abbrev pub exp_provider : MockProvider
exp_provider = record {
  error = none;
  usrs = exp_users;
  grps = exp_groups;
  nams = exp_names;
  keys = exp_keys;
}
