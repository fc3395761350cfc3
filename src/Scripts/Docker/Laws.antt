-- ===== src/Scripts/Docker/Laws.antt =====
-- What is pushed is what was built.
use mathlib.Core.List.{append-nil, Permᴰ}
use mathlib.Core.List.Permᴰ as Perm
use sshole.Base.Perms.{All-perm}
use sshole.Base.{
  subst, sym, ◌∙◌, true, ℕ, zero, suc, ◌≡◌, refl, inl, inr, false, Option, none, some, List, [],
  ◌∷◌, ◌++◌, Str, ◌==◌, nat_eq, str_eq, if◌then◌else◌, ltb, length, take, arith, All, Option-cases,
  ℕ_discrete, str_discrete, ◌≤◌, Bool-cases,
}
use sshole.Base.Text.{codes}
use sshole.Base.Paths.{has_name, has_name-append}
use sshole.Scripts.Bins.{BuildInfo}
use sshole.Scripts.Docker.{
  components, Component, version_tag, docker_hub_image, aliyun_image, build_arguments, Image,
  images, push_arguments, first_error, DockerRun, docker_completed, build_docker, push_images,
  detect_container_runtime,
}

-- The values of the option `-t`; `-f` takes a value as well.
abbrev pub tags_of : List Str → List Str
tags_of [] = []
tags_of (a ∷ []) = []
tags_of (a ∷ b ∷ rest) =
    if a == codes "-t"
    then b ∷ tags_of rest
    else if a == codes "-f"
    then tags_of rest
    else tags_of (b ∷ rest)

abbrev pub all_tags : Str → List Component → List Str
all_tags version [] = []
all_tags version (c ∷ cs) = tags_of (build_arguments version c) ++ all_tags version cs

abbrev pub image_names : List Image → List Str
image_names [] = []
image_names (i ∷ is) = i.image_name ∷ image_names is

build_arguments-tags :
    (version : Str) (c : Component)
    → tags_of (build_arguments version c)
      ≡ docker_hub_image c version
        ∷ docker_hub_image c (codes "latest")
        ∷ aliyun_image c version
        ∷ aliyun_image c (codes "latest")
        ∷ []
unfolding build_arguments ℕ_discrete str_discrete
build_arguments-tags version c = refl

-- The images that buildDocker pushes are exactly the tags that it gave to what it built, for every
-- list of components and every version.
pub images-tags :
    (version n : Str) (cs : List Component)
    → has_name n (image_names (images version cs)) ≡ has_name n (all_tags version cs)
unfolding images has_name
images-tags version n [] = refl
images-tags version n (c ∷ cs) = ground (
  arith,
  build_arguments-tags version c,
  images-tags version n cs,
  has_name-append n (tags_of (build_arguments version c)) (all_tags version cs),
)

first_error-none {ℓ} :
    {A : Type ℓ} (failure : A → Option Str) (as' : List A)
    → first_error failure as' ≡ none
    → All (λ a. failure a ≡ none) as'
unfolding first_error
first_error-none failure [] e = tt
first_error-none failure (a ∷ as') e = elim (Option-cases (failure a)) [
  | inl fine ↦ (fine, first_error-none failure as' (ground arith))
  | inr (problem, bad) ↦ absurd (ground arith)
]

-- Where buildDocker completes, every component was built and every image that it reports was pushed
-- without an error: the images of the whole list with `--push`, else none.
pub build_docker_lem :
    (run : DockerRun) (pushed : List Image)
    → build_docker run ≡ docker_completed pushed
    → (runtime : Str) × (i : BuildInfo) × (detect_container_runtime run.info_ok run.cached
        ≡ some runtime)
      × (run.info ≡ some i)
      × All
          (λ c. run.runtime_error runtime (build_arguments (version_tag i run.date) c) ≡ none)
          run.build_order
      × (pushed ≡ (if run.push then run.push_order else []))
      × All (λ p. run.runtime_error runtime (push_arguments p) ≡ none) pushed
unfolding build_docker
build_docker_lem run pushed e =
    elim (Option-cases (detect_container_runtime run.info_ok run.cached)) [
      | inl missing ↦ absurd (ground arith)
      | inr (runtime, found) ↦ elim (Option-cases run.info) [
        | inl missing ↦ absurd (ground arith)
        | inr (i, known) ↦
            let failure : Component → Option Str =
              λ c. run.runtime_error runtime (build_arguments (version_tag i run.date) c) in
            elim (Option-cases (first_error failure run.build_order)) [
              | inr (problem, bad) ↦ absurd (ground arith)
              | inl built ↦
                  let pushes = push_images_lem run runtime pushed (ground arith) in
                  (
                    runtime,
                    i,
                    found,
                    known,
                    first_error-none failure run.build_order built,
                    pushes.0,
                    pushes.1,
                  )
            ]
      ]
    ]
  where
    push_images_lem :
        (run : DockerRun) (runtime : Str) (pushed : List Image)
        → push_images run runtime ≡ docker_completed pushed
        → (pushed ≡ (if run.push then run.push_order else []))
          × All (λ p. run.runtime_error runtime (push_arguments p) ≡ none) pushed
    push_images_lem run runtime pushed e =
        let failure : Image → Option Str = λ p. run.runtime_error runtime (push_arguments p) in
        elim (Bool-cases run.push) [
          | inr off ↦
              let nothing : pushed ≡ [] = ground arith in
              (ground arith, subst (All (λ p. failure p ≡ none)) (sym nothing) tt)
          | inl on ↦ elim (Option-cases (first_error failure run.push_order)) [
            | inr (problem, bad) ↦ absurd (ground arith)
            | inl fine ↦
                let all : pushed ≡ run.push_order = ground arith in
                (
                  ground arith,
                  subst (All (λ p. failure p ≡ none)) (sym all)
                      (first_error-none failure run.push_order fine),
                )
          ]
        ]

-- Where buildDocker completes with `--push`, in whatever order the goroutines end, every component was
-- built under its four tags, and each image of the list was pushed, all without an error.
pub build_docker-pushes :
    (run : DockerRun) (i : BuildInfo) (pushed : List Image)
    → run.info ≡ some i
    → run.push ≡ true
    → Permᴰ components run.build_order
    → Permᴰ (images (version_tag i run.date) components) run.push_order
    → build_docker run ≡ docker_completed pushed
    → (runtime : Str) × (detect_container_runtime run.info_ok run.cached ≡ some runtime)
      × All
          (λ c. run.runtime_error runtime (build_arguments (version_tag i run.date) c) ≡ none)
          components
      × All
          (λ p. run.runtime_error runtime (push_arguments p) ≡ none)
          (images (version_tag i run.date) components)
build_docker-pushes run i pushed known pushes built_in pushed_in e =
    let (runtime, j, detected, known', built, all, done) = build_docker_lem run pushed e in
    let same : j ≡ i = some-inj (sym known' ∙ known) in
    let whole : pushed ≡ run.push_order = ground arith in
    (
      runtime,
      detected,
      All-perm (λ c. run.runtime_error runtime (build_arguments (version_tag i run.date) c) ≡ none)
          (Perm.symm built_in)
          (subst
            (λ k.
              All
                (λ c. run.runtime_error runtime (build_arguments (version_tag k run.date) c) ≡ none)
                run.build_order)
            same built),
      All-perm (λ p. run.runtime_error runtime (push_arguments p) ≡ none) (Perm.symm pushed_in)
          (subst (All (λ p. run.runtime_error runtime (push_arguments p) ≡ none)) whole done),
    )
  where
    some-inj : {a b : BuildInfo} → some a ≡ some b → a ≡ b
    some-inj {a} {b} same = ground arith

-- At most seven digits of the commit stand in the tag of a clean build.
pub version_tag_bound :
    (i : BuildInfo) (date : Str) → i.git_dirty ≡ false → length (version_tag i date) ≤ 7
unfolding version_tag
version_tag_bound i date clean = elim (Bool-cases (ltb 7 (length i.git_commit))) [
  | inl long ↦ ground (arith, length_take 7 i.git_commit, append-nil (take 7 i.git_commit))
  | inr short ↦ ground (arith, append-nil i.git_commit)
]
  where
    length_take : (n : ℕ) (s : Str) → length (take n s) ≤ n
    length_take zero s = omega arith
    length_take (suc n) [] = omega arith
    length_take (suc n) (c ∷ s) = omega (arith, length_take n s)
