-- ===== src/Tests/Clients.antt =====
-- A small client, and the theorems about deployments that outlive it applied.
use labcontainers.Prelude.{not, nat_eq, [], ◌∷◌, true}
use labcontainers.Client.{
  destroy_persistent, reference, Surroundings, Harness, PersistentOptions, deploy_persistent,
}
use labcontainers.Client.Forgotten.{Forgotten, destroy_persistent-Forgotten}
use labcontainers.Client.Deployed.{Deployed, deploy_persistent-Deployed}

-- The reference's directory cannot be made.
abbrev read_only : Surroundings
read_only = record {
  succeeds = λ n. not (nat_eq n 4);
  created = λ n. "s1";
  socket = λ n. "/run/labd.sock";
}

abbrev fresh : Harness
fresh = record { outside = read_only; asked = 0; held = []; files = []; rpcs = [] }

abbrev persistent : PersistentOptions
persistent = record { state_dir = "/var/lib/labs"; ref_path = "/tmp/ref"; ttl = 0 }

deploy_persistent-Deployed_example :
    Deployed persistent fresh
      (deploy_persistent persistent fresh).0
      (deploy_persistent persistent fresh).1
deploy_persistent-Deployed_example = deploy_persistent-Deployed persistent fresh

-- A daemon that answers, and a reference to one of its sessions.
abbrev deployed : Harness
deployed = record fresh {
  outside = record read_only { succeeds = λ n. true };
  files = ("/tmp/ref", reference (record { id = "s1"; socket = "/run/labd.sock" })) ∷ [];
}

destroy_persistent-Forgotten_example :
    Forgotten persistent deployed
      (destroy_persistent persistent deployed).0
      (destroy_persistent persistent deployed).1
destroy_persistent-Forgotten_example = destroy_persistent-Forgotten persistent deployed
