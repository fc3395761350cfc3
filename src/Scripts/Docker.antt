-- ===== src/Scripts/Docker.antt =====
-- scripts/script/build-docker.go. The goroutines that build or push are a list in the order in which
-- they end; what the container runtime answers is an argument.
pub mod Laws
use sshole.Base.{
  ℕ, ◌≡◌, Bool, true, false, ◌||◌, Option, none, some, List, [], ◌∷◌, ◌++◌, Str, ◌==◌, nat_eq,
  str_eq, if◌then◌else◌, not, ltb, length, take,
}
use sshole.Base.Text.{codes}
use sshole.Scripts.Bins.{BuildInfo}

-- detectContainerRuntime: `cached` is the global variable, and `info` the success of `<runtime> info`.
-- `none` is the panic.
unfoldable pub detect_container_runtime : (Str → Bool) → Str → Option Str
detect_container_runtime info cached =
    if not (cached == [])
    then some cached
    else if info (codes "podman")
    then some (codes "podman")
    else if info (codes "docker")
    then some (codes "docker")
    else none

pub record Component : Type 0 where
  pub name : Str
  pub dockerfile : Str

unfoldable pub components : List Component
components =
    record { name = codes "agent"; dockerfile = codes "./scripts/docker/agent.Dockerfile" }
    ∷ record { name = codes "hub"; dockerfile = codes "./scripts/docker/hub.Dockerfile" }
    ∷ record { name = codes "entry"; dockerfile = codes "./scripts/docker/entry.Dockerfile" }
    ∷ []

-- The tag: at most seven digits of the commit, and the date of a dirty build.
unfoldable pub version_tag : BuildInfo → Str → Str
version_tag i date =
    let commit = if ltb 7 (length i.git_commit) then take 7 i.git_commit else i.git_commit in
    commit ++ (if i.git_dirty then codes "-" ++ date else [])

abbrev pub docker_hub_image : Component → Str → Str
docker_hub_image c version = codes "117503445/sshole-" ++ (c.name ++ (codes ":" ++ version))

abbrev pub aliyun_image : Component → Str → Str
aliyun_image c version =
    codes "registry.cn-hangzhou.aliyuncs.com/117503445/sshole-"
    ++ (c.name ++ (codes ":" ++ version))

-- The arguments of the runtime that build a component.
unfoldable pub build_arguments : Str → Component → List Str
build_arguments version c =
    codes "build"
    ∷ codes "-t"
    ∷ docker_hub_image c version
    ∷ codes "-t"
    ∷ docker_hub_image c (codes "latest")
    ∷ codes "-t"
    ∷ aliyun_image c version
    ∷ codes "-t"
    ∷ aliyun_image c (codes "latest")
    ∷ codes "-f"
    ∷ c.dockerfile
    ∷ codes "."
    ∷ []

pub record Image : Type 0 where
  pub image_name : Str
  pub registry : Str

unfoldable pub images : Str → List Component → List Image
images version [] = []
images version (c ∷ cs) =
    record { image_name = docker_hub_image c (codes "latest"); registry = codes "Docker Hub" }
    ∷ record { image_name = docker_hub_image c version; registry = codes "Docker Hub" }
    ∷ record { image_name = aliyun_image c (codes "latest"); registry = codes "Aliyun" }
    ∷ record { image_name = aliyun_image c version; registry = codes "Aliyun" }
    ∷ images version cs

-- The arguments of the runtime in pushImage.
unfoldable pub push_arguments : Image → List Str
push_arguments image = codes "push" ∷ image.image_name ∷ []

-- What `firstErr` holds after the goroutines: the error of the first that failed.
unfoldable pub first_error {ℓ} : {A : Type ℓ} → (A → Option Str) → List A → Option Str
first_error failure [] = none
first_error failure (a ∷ as') = elim (failure a) [
  | some e ↦ some e
  | none ↦ first_error failure as'
]

pub data DockerEnd : Type 0 where
  no_runtime exit_no_info : DockerEnd
  build_failed push_failed : Str → DockerEnd
  -- With the images that were pushed.
  docker_completed : List Image → DockerEnd

-- What the system answers: the runtime with the arguments that it is called with gives an error or
-- none; and the date, the flag `--push`, and the orders in which the goroutines end.
pub record DockerRun : Type 0 where
  pub info_ok : Str → Bool
  pub cached : Str
  pub info : Option BuildInfo
  pub date : Str
  pub push : Bool
  pub runtime_error : Str → List Str → Option Str
  pub build_order : List Component
  pub push_order : List Image

abbrev pub push_images : DockerRun → Str → DockerEnd
push_images run runtime =
    if run.push
    then elim (first_error (λ image. run.runtime_error runtime (push_arguments image))
        run.push_order) [ some e ↦ push_failed e | none ↦ docker_completed run.push_order ]
    else docker_completed []

unfoldable pub build_docker : DockerRun → DockerEnd
build_docker run = elim (detect_container_runtime run.info_ok run.cached) [
  | none ↦ no_runtime
  | some runtime ↦ elim run.info [
    | none ↦ exit_no_info
    | some i ↦
        elim (first_error
          (λ c. run.runtime_error runtime (build_arguments (version_tag i run.date) c))
          run.build_order) [ some e ↦ build_failed e | none ↦ push_images run runtime ]
  ]
]
