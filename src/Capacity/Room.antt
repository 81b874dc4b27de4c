-- ===== src/Capacity/Room.antt =====
-- internal/capacity/tracker.go: `Fits` and the sums, where the figures are in range.
use ai_cloud_operator.Base.{
  ℕ, String, List, [], ◌∷◌, Option, none, some, true, ◌+◌, ◌*◌, ◌^◌, ◌≤◌, ◌<◌, ◌≡◌, refl, ◌↔◌, ◌∙◌,
  All, arith,
}
use ai_cloud_operator.Base.Int.{
  ℤ, pos, negsuc, pos_part, add64, mul64, sub64-pos, add64-pos, mul64-pos,
}
use ai_cloud_operator.Kube.{Deployment, Container}
use ai_cloud_operator.Catalog.Types.{Library}
use ai_cloud_operator.Catalog.Template.{milli_cpu, memory_bytes}
use ai_cloud_operator.Capacity.Tracker.{
  Snapshot, fits, replicas_of, add_containers, add_deployments,
}

-- A snapshot with figures that an int64 holds and that are not negative.
abbrev pub reading : ℕ → ℕ → ℕ → ℕ → Snapshot
reading cpu mem used_cpu used_mem = record {
  allocatable_milli_cpu = pos cpu;
  allocatable_memory_bytes = pos mem;
  used_milli_cpu = pos used_cpu;
  used_memory_bytes = pos used_mem;
}

abbrev pub InRange : ℕ → Type 0
InRange n = n < 2 ^ 63

-- In range, `Fits` says that what is used and what is asked for stay within what there is, for
-- both resources; no difference wraps around.
pub fits_iff :
    (cpu mem used_cpu used_mem est_cpu est_mem : ℕ)
    → InRange cpu
    → InRange mem
    → InRange used_cpu
    → InRange used_mem
    → (fits (reading cpu mem used_cpu used_mem) (pos est_cpu) (pos est_mem) ≡ true)
      ↔ ((used_cpu + est_cpu ≤ cpu) × (used_mem + est_mem ≤ mem))
unfolding fits
fits_iff cpu mem used_cpu used_mem est_cpu est_mem h k i j =
    let c = sub64-pos cpu used_cpu h i in
    let m = sub64-pos mem used_mem k j in
    (λ e. (ground arith, ground arith), λ (p, q). ground arith)

abbrev pub IsNatural : ℤ → Type 0
IsNatural (pos n) = Unit
IsNatural (negsuc n) = ⊥

-- How many replicas a Deployment asks for, where that is not negative: one, if it does not say.
abbrev pub copies : Option ℤ → ℕ
copies none = 1
copies (some n) = pos_part n

abbrev pub IsCount : Option ℤ → Type 0
IsCount none = Unit
IsCount (some n) = IsNatural n

module _ (lib : Library) where
  -- A quantity by the number that it stands for, where that is not negative; a missing one is 0.
  abbrev pub size : (String → ℤ) → Option String → ℕ
  size value none = 0
  size value (some q) = pos_part (value q)

  abbrev pub IsSize : (String → ℤ) → Option String → Type 0
  IsSize value none = Unit
  IsSize value (some q) = IsNatural (value q)

  abbrev pub cpu_request : Container → ℕ
  cpu_request c = size lib.milli_value c.resources.requests.cpu

  abbrev pub mem_request : Container → ℕ
  mem_request c = size lib.byte_value c.resources.requests.memory

  abbrev pub IsReadable : Container → Type 0
  IsReadable c =
      IsSize lib.milli_value c.resources.requests.cpu
      × IsSize lib.byte_value c.resources.requests.memory

  -- Neither the replicas nor a request of the Deployment is negative.
  abbrev pub IsUsual : Deployment → Type 0
  IsUsual d = IsCount d.replicas × All IsReadable d.containers

  -- The requests of a list of containers, replicas not counted.
  unfoldable pub requested : (Container → ℕ) → List Container → ℕ
  requested size [] = 0
  requested size (c ∷ cs) = size c + requested size cs

  -- The sum over Deployments of replicas times requests.
  unfoldable pub total : (Container → ℕ) → List Deployment → ℕ
  total size [] = 0
  total size (d ∷ ds) = copies d.replicas * requested size d.containers + total size ds

  milli_cpu-pos :
      (o : Option String)
      → IsSize lib.milli_value o
      → milli_cpu lib o ≡ pos (size lib.milli_value o)
  unfolding milli_cpu
  milli_cpu-pos none h = refl
  milli_cpu-pos (some q) h = ground arith

  memory_bytes-pos :
      (o : Option String)
      → IsSize lib.byte_value o
      → memory_bytes lib o ≡ pos (size lib.byte_value o)
  unfolding memory_bytes
  memory_bytes-pos none h = refl
  memory_bytes-pos (some q) h = ground arith

  replicas_of-copies :
      (d : Deployment) → IsCount d.replicas → replicas_of lib d ≡ pos (copies d.replicas)
  replicas_of-copies d h = ground arith

  add-mul :
      (u a n : ℕ) → InRange (u + n * a) → add64 (pos u) (mul64 (pos a) (pos n)) ≡ pos (u + n * a)
  add-mul u a n h =
      let product : a * n ≡ n * a = omega arith in
      rw (mul64-pos a n (omega arith), product) (add64-pos u (n * a) h)

  same_reading :
      (cpu mem : ℕ) {a b c d : ℕ} → a ≡ c → b ≡ d → reading cpu mem a b ≡ reading cpu mem c d
  same_reading cpu mem p q = rw (p, q)

  add_containers-total :
      (n : ℕ) (cs : List Container) (cpu mem uc um : ℕ)
      → All IsReadable cs
      → InRange (uc + n * requested cpu_request cs)
      → InRange (um + n * requested mem_request cs)
      → add_containers lib (pos n) (reading cpu mem uc um) cs
        ≡ reading cpu mem (uc + n * requested cpu_request cs) (um + n * requested mem_request cs)
  unfolding add_containers requested
  add_containers-total n [] cpu mem uc um _ h k = same_reading cpu mem (omega arith) (omega arith)
  add_containers-total n (c ∷ cs) cpu mem uc um ((cpu_fits, mem_fits), rest) h k =
      let a = cpu_request c in
      let b = mem_request c in
      rw
        (
          milli_cpu-pos c.resources.requests.cpu cpu_fits,
          memory_bytes-pos c.resources.requests.memory mem_fits,
          add-mul uc a n (omega arith),
          add-mul um b n (omega arith),
        )
        (add_containers-total n cs cpu mem (uc + n * a) (um + n * b) rest (omega arith)
            (omega arith)
          ∙ same_reading cpu mem (omega arith) (omega arith))

  -- Where neither the replicas nor the requests of a Deployment are negative, and while the sums are
  -- in the range of an int64, the used figures grow by replicas times requests, summed over all
  -- Deployments; one with no replicas counts for nothing, and one with no count for one replica.
  pub add_deployments-total :
      (ds : List Deployment) (cpu mem uc um : ℕ)
      → All IsUsual ds
      → InRange (uc + total cpu_request ds)
      → InRange (um + total mem_request ds)
      → add_deployments lib (reading cpu mem uc um) ds
        ≡ reading cpu mem (uc + total cpu_request ds) (um + total mem_request ds)
  unfolding add_deployments total
  add_deployments-total [] cpu mem uc um _ h k = same_reading cpu mem (omega arith) (omega arith)
  add_deployments-total (d ∷ ds) cpu mem uc um ((count, readable), rest) h k =
      let n = copies d.replicas in
      let a = n * requested cpu_request d.containers in
      let b = n * requested mem_request d.containers in
      rw
        (
          replicas_of-copies d count,
          add_containers-total n d.containers cpu mem uc um readable (omega arith) (omega arith),
        )
        (add_deployments-total ds cpu mem (uc + a) (um + b) rest (omega arith) (omega arith)
          ∙ same_reading cpu mem (omega arith) (omega arith))
