-- ===== src/ApiClient/Instance.antt =====
-- The path of the instance that `instanceInfo` returns.
use compute_user_accounts.Base.{◌≡◌, bytes_eq, refl, [], ◌∷◌, ◌++◌, Bytes, codes, arith}
use compute_user_accounts.Go.Strings.{join}
use compute_user_accounts.Go.Paths.{trim_slashes, IsPlain, path_join-join}
use compute_user_accounts.Accounts.{ok}
use compute_user_accounts.ApiClient.Calls.{ApiClient, Metadata, instance_url, instance_info}

-- The metadata server names the machine.
pub record IsAnswered (m : Metadata) (project zone name : Bytes) : Type 0 where
  pub has_project : m.project_id ≡ ok project
  pub has_zone : m.zone ≡ ok zone
  pub has_name : m.instance_name ≡ ok name

projects-IsPlain : IsPlain (codes "projects")
unfolding bytes_eq
projects-IsPlain = (omega arith, refl, refl, refl)

zones-IsPlain : IsPlain (codes "zones")
unfolding bytes_eq
zones-IsPlain = (omega arith, refl, refl, refl)

instances-IsPlain : IsPlain (codes "instances")
unfolding bytes_eq
instances-IsPlain = (omega arith, refl, refl, refl)

-- Where the metadata server names the machine, by names that are no dots, not empty and without a
-- slash, the path of the instance is the base of the instances without the slashes at its end, followed
-- by the three names, each behind its collection.
pub instance_info-plain :
    (client : ApiClient) (m : Metadata) (project zone name : Bytes)
    → IsAnswered m project zone name
    → IsPlain project
    → IsPlain zone
    → IsPlain name
    → instance_info client m
      ≡ ok (record {
        project = project;
        zone = zone;
        instance_path =
            trim_slashes client.config.instance_base
            ++ (codes "/projects/"
                ++ (project ++ (codes "/zones/" ++ (zone ++ (codes "/instances/" ++ name)))));
      })
unfolding instance_info instance_url join
instance_info-plain client m project zone name a p z n =
    rw
      (
        a.has_project,
        a.has_zone,
        a.has_name,
        path_join-join (codes "projects")
            (project ∷ codes "zones" ∷ zone ∷ codes "instances" ∷ name ∷ [])
            (projects-IsPlain, (p, (zones-IsPlain, (z, (instances-IsPlain, (n, tt)))))),
      )
      refl
