-- ===== src/Tests/Capacity.antt =====
-- The capacity tracker at concrete inputs.
use ai_cloud_operator.Base.{ℕ, List, [], ◌∷◌, none, some, ◌+◌, ◌≡◌, refl, arith}
use ai_cloud_operator.Base.Int.{pos}
use ai_cloud_operator.Capacity.Tracker.{Snapshot, add_deployments}
use ai_cloud_operator.Capacity.Room.{
  reading, InRange, requested, total, cpu_request, mem_request, add_deployments-total,
}
use ai_cloud_operator.Kube.{Container, Deployment}
use ai_cloud_operator.Tests.Samples.{library}

abbrev container : Container
container = record {
  command = [];
  env = [];
  image = "nginx";
  liveness_probe = none;
  name = "workload";
  ports = [];
  readiness_probe = none;
  resources = record {
    limits = record { cpu = none; memory = none };
    requests = record { cpu = some "100m"; memory = none };
  };
  volume_mounts = [];
}

-- One that asks for two replicas, and one that does not say.
abbrev deployed : List Deployment
deployed =
    record { replicas = some (pos 2); containers = container ∷ []; ready_replicas = pos 2 }
    ∷ record { replicas = none; containers = container ∷ []; ready_replicas = pos 1 }
    ∷ []

abbrev read : ℕ → ℕ → Snapshot
read used_cpu used_mem = reading 4000 8000 used_cpu used_mem

InRange-cpu : InRange (50 + total library (cpu_request library) deployed)
unfolding total requested
InRange-cpu = ground arith

InRange-mem : InRange (60 + total library (mem_request library) deployed)
unfolding total requested
InRange-mem = ground arith

-- Three replicas, of 100 each.
three_hundred : total library (cpu_request library) deployed ≡ 300
unfolding total requested
three_hundred = refl

add_deployments-total_example :
    add_deployments library (read 50 60) deployed
    ≡ read
        (50 + total library (cpu_request library) deployed)
        (60 + total library (mem_request library) deployed)
add_deployments-total_example =
    add_deployments-total library deployed 4000 8000 50 60
      ((tt, ((tt, tt), tt)), ((tt, ((tt, tt), tt)), tt)) InRange-cpu InRange-mem
