-- ===== src/Sandbox.antt =====
-- backend/app/sandbox.py, `stage_env` of instrumentation.py, and the network mode of a run in package.py.
-- The `packaging` library's specifiers and its order of versions are arguments.
pub mod Closed
pub mod Image
pub mod Pull
use whs_dynamic.Base.{
  List, [], ◌∷◌, ◌++◌, Option, none, some, Bool, true, false, ◌||◌, Text, codes, ◌==◌, nat_eq,
  list_eq, filter_by, if◌then◌else◌,
}

-- `docker_network if docker_network else (... network ...)`
unfoldable pub network_arg : Option Text → Text → Text
network_arg (some (c ∷ name)) network = c ∷ name
network_arg _ network =
    if network == codes "disabled" || network == codes "restricted"
    then codes "none"
    else codes "bridge"

-- `for arg in ("-e", f"{key}={value}")`
unfoldable pub env_args : List (Text × Text) → List Text
env_args [] = []
env_args ((key, value) ∷ env) = codes "-e" ∷ (key ++ (codes "=" ++ value)) ∷ env_args env

unfoldable pub dns_args : Option Text → List Text
dns_args (some (c ∷ dns)) = codes "--dns" ∷ (c ∷ dns) ∷ []
dns_args _ = []

-- The user and the group of the process, where the system has them.
unfoldable pub user_args : Option Text → List Text
user_args none = []
user_args (some user) = codes "--user" ∷ user ∷ []

unfoldable pub docker_command :
    (user : Option Text) (workspace : Text) (command : List Text) (network runtime : Text)
    (env : List (Text × Text)) (dns docker_network : Option Text) (python_image : Text)
    → List Text
docker_command user workspace command network runtime env dns docker_network python_image =
    codes "docker"
      ∷ codes "run"
      ∷ codes "--rm"
      ∷ codes "--runtime"
      ∷ runtime
      ∷ codes "--network"
      ∷ network_arg docker_network network
      ∷ dns_args dns
    ++ (user_args user
        ++ (codes "--read-only"
              ∷ codes "--tmpfs"
              ∷ codes "/tmp:rw,noexec,nosuid,size=256m"
              ∷ codes "--cpus"
              ∷ codes "1"
              ∷ codes "--memory"
              ∷ codes "512m"
              ∷ codes "--pids-limit"
              ∷ codes "128"
              ∷ env_args env
            ++ (codes "-v" ∷ (workspace ++ codes ":/workspace:rw") ∷ python_image ∷ command)))

-- `network if (sinkhole is None or sinkhole.active) else "restricted"`; there is a sinkhole in that mode.
unfoldable pub effective_network : Text → Bool → Text
effective_network network active =
    if network == codes "sinkhole"
    then (if active then network else codes "restricted")
    else network

-- `value if sinkhole and sinkhole.active else None`, for `dns_ip`, `docker_net` and `ca_path`.
unfoldable pub if_sinkhole : Text → Bool → Text → Option Text
if_sinkhole network active value =
    if network == codes "sinkhole" then (if active then some value else none) else none

-- `stage_env` of instrumentation.py, with the container path of package.py.
unfoldable pub stage_env : Text → Option Text → List (Text × Text)
stage_env stage ca_path =
    (codes "PYTHONPATH", codes "/workspace")
    ∷ (codes "DAST_WORKSPACE", codes "/workspace")
    ∷ (codes "DAST_STAGE", stage)
    ∷ elim ca_path [
      | none ↦ []
      | some path ↦
          (codes "SSL_CERT_FILE", path)
          ∷ (codes "REQUESTS_CA_BUNDLE", path)
          ∷ (codes "CURL_CA_BUNDLE", path)
          ∷ []
    ]

-- The command of one sandboxed stage of a run.
unfoldable pub stage_command :
    (user : Option Text) (workspace : Text) (command : List Text) (network runtime stage : Text)
    (active : Bool) (bind_ip docker_network python_image : Text)
    → List Text
unfolding effective_network if_sinkhole stage_env
stage_command user workspace command network runtime stage active bind_ip docker_network
      python_image =
    docker_command user workspace command (effective_network network active) runtime
      (stage_env stage (if_sinkhole network active (codes "/workspace/mitm-ca.pem")))
      (if_sinkhole network active bind_ip) (if_sinkhole network active docker_network) python_image

abbrev pub default_python_version : Text
default_python_version = codes "3.12"

-- `f"python:{version}-slim"`
abbrev pub image_of : Text → Text
image_of version = codes "python:" ++ (version ++ codes "-slim")

abbrev pub supported_python_versions : List Text
supported_python_versions =
    codes "3.8" ∷ codes "3.9" ∷ codes "3.10" ∷ codes "3.11" ∷ codes "3.12" ∷ codes "3.13" ∷ []

module _ {Spec : Type 0} (specifier_set : Text → Option Spec) (allows : Spec → Text → Bool)
    (later : Text → Text → Bool) where
  -- `max(candidates, key=Version)`: the first that no other is later than.
  unfoldable pub max_version : Text → List Text → Text
  max_version best [] = best
  max_version best (v ∷ vs) = max_version (if later v best then v else best) vs

  -- The last lines of the function.
  unfoldable pub choose_image : List Text → Text
  unfolding max_version
  choose_image [] = image_of default_python_version
  choose_image (v ∷ vs) = image_of (max_version v vs)

  -- `select_python_image`
  unfoldable pub select_python_image : Option Text → Text
  unfolding choose_image
  select_python_image none = image_of default_python_version
  select_python_image (some []) = image_of default_python_version
  select_python_image (some (c ∷ requires)) = elim (specifier_set (c ∷ requires)) [
    | none ↦ image_of default_python_version
    | some spec ↦
        if allows spec default_python_version
        then image_of default_python_version
        else choose_image (filter_by (allows spec) supported_python_versions)
  ]
