-- ===== src/Capacity/Tracker.antt =====
-- internal/capacity/tracker.go: how much of the cluster is taken, and whether more fits. All
-- figures are int64, and their sums, differences and products wrap around.
use ai_cloud_operator.Base.{List, [], ◌∷◌, none, some, Bool, ◌&&◌, Result, ok, err, errorf}
use ai_cloud_operator.Base.Int.{ℤ, pos, leb_ℤ, add64, sub64, mul64}
use ai_cloud_operator.Kube.{Node, Deployment, Container}
use ai_cloud_operator.Catalog.Types.{Library}
use ai_cloud_operator.Catalog.Template.{milli_cpu, memory_bytes}

pub record Snapshot : Type 0 where
  pub allocatable_milli_cpu : ℤ
  pub allocatable_memory_bytes : ℤ
  pub used_milli_cpu : ℤ
  pub used_memory_bytes : ℤ

unfoldable pub fits : Snapshot → ℤ → ℤ → Bool
fits s cpu mem =
    leb_ℤ cpu (sub64 s.allocatable_milli_cpu s.used_milli_cpu)
    && leb_ℤ mem (sub64 s.allocatable_memory_bytes s.used_memory_bytes)

abbrev pub empty_snapshot : Snapshot
empty_snapshot = record {
  allocatable_milli_cpu = pos 0;
  allocatable_memory_bytes = pos 0;
  used_milli_cpu = pos 0;
  used_memory_bytes = pos 0;
}

module _ (lib : Library) where
  unfoldable pub add_nodes : Snapshot → List Node → Snapshot
  add_nodes s [] = s
  add_nodes s (n ∷ ns) =
      add_nodes
        (record s {
          allocatable_milli_cpu = add64 s.allocatable_milli_cpu (milli_cpu lib n.allocatable.cpu);
          allocatable_memory_bytes =
              add64 s.allocatable_memory_bytes (memory_bytes lib n.allocatable.memory);
        })
        ns

  -- A missing replica count stands for one.
  abbrev pub replicas_of : Deployment → ℤ
  replicas_of d = elim d.replicas [ none ↦ pos 1 | some n ↦ n ]

  unfoldable pub add_containers : ℤ → Snapshot → List Container → Snapshot
  add_containers replicas s [] = s
  add_containers replicas s (c ∷ cs) =
      add_containers replicas
        (record s {
          used_milli_cpu =
              add64 s.used_milli_cpu (mul64 (milli_cpu lib c.resources.requests.cpu) replicas);
          used_memory_bytes =
              add64 s.used_memory_bytes
                (mul64 (memory_bytes lib c.resources.requests.memory) replicas);
        })
        cs

  unfoldable pub add_deployments : Snapshot → List Deployment → Snapshot
  add_deployments s [] = s
  add_deployments s (d ∷ ds) = add_deployments (add_containers (replicas_of d) s d.containers) ds

  -- `Snapshot`, from the answers of the two List calls.
  unfoldable pub snapshot : Result (List Node) → Result (List Deployment) → Result Snapshot
  snapshot (err e) deployments = err (errorf "listing nodes: " e "")
  snapshot (ok nodes) (err e) = err (errorf "listing deployments: " e "")
  snapshot (ok nodes) (ok ds) = ok (add_deployments (add_nodes empty_snapshot nodes) ds)
