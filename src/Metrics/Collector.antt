-- ===== src/Metrics/Collector.antt =====
-- internal/metrics/collector.go: Collect and CollectUsage over the kubelets' summaries.
use ai_cloud_operator.Base.{
  ℕ, suc, ◌/◌, String, List, [], ◌∷◌, ◌++◌, Option, none, some, Bool, false, not, ◌&&◌, ◌||◌, ◌==◌,
  length, get_text, errorf, Result, ok, err, if◌then◌else◌,
}
use ai_cloud_operator.Base.Effects.{M, return, call, ◌>>=◌}
use ai_cloud_operator.Base.Int.{ℤ, pos, wrap64, add64}
use ai_cloud_operator.Kube.{Pod}
use ai_cloud_operator.Operator.World.{UsageSnapshot}
use ai_cloud_operator.Metrics.Samples.{Sample}

pub record CpuStats : Type 0 where
  pub usage_nano_cores : Option ℕ

pub record MemoryStats : Type 0 where
  pub working_set_bytes : Option ℕ

pub record NetworkStats : Type 0 where
  pub rx_bytes : Option ℕ
  pub tx_bytes : Option ℕ

pub record NodeStats : Type 0 where
  pub cpu : Option CpuStats
  pub memory : Option MemoryStats

pub record PodStats : Type 0 where
  pub name : String
  pub namespace : String
  pub cpu : Option CpuStats
  pub memory : Option MemoryStats
  pub network : Option NetworkStats

pub record NodeSummary : Type 0 where
  pub node : Option NodeStats
  pub pods : List PodStats

-- A podKey: the namespace and the name.
abbrev pub PodKey : Type 0
PodKey = String × String

pub data Event : Type 0 where
  listed_nodes listed_pods : Event
  requested_stats : (node : String) → Event

-- `list_pods` lists the pods of the namespace with the operator's label. `order` is the order in
-- which a range visits the keys of a map.
pub record Env : Type 0 where
  pub list_nodes : List Event → Result (List String)
  pub list_pods : List Event → Result (List Pod)
  pub request_stats : List Event → String → Result String
  pub decode_summary : String → Result NodeSummary
  pub now : List Event → ℕ
  -- float64(x) of a uint64.
  pub float_of_uint : ℕ → ℤ
  pub order : List String → List String

unfoldable pub find_pod : PodKey → List (PodKey × String) → Option String
find_pod k [] = none
find_pod k ((other, w) ∷ rest) =
    let later = find_pod k rest in if (k.0 == other.0) && (k.1 == other.1) then some w else later

unfoldable pub is_managed : PodKey → List Pod → Bool
is_managed k [] = false
is_managed k (p ∷ ps) =
    let later = is_managed k ps in (k.0 == p.namespace) && (k.1 == p.name) || later

unfoldable pub workload_of : Pod → String
workload_of p = get_text "app.kubernetes.io/name" p.labels

-- The pod is scheduled, and belongs to a Workload.
unfoldable pub is_wanted : Pod → Bool
is_wanted p = not (p.node_name == "") && not (workload_of p == "")

-- The map of `wantByNode[node]`: the last entry of a key counts, so it comes first.
unfoldable pub want_of : String → List (PodKey × String) → List Pod → List (PodKey × String)
want_of node acc [] = acc
want_of node acc (p ∷ ps) =
    let with_pod = want_of node (((p.namespace, p.name), workload_of p) ∷ acc) ps in
    let without = want_of node acc ps in
    if is_wanted p && (p.node_name == node) then with_pod else without

unfoldable pub has_text : String → List String → Bool
has_text s [] = false
has_text s (x ∷ xs) = let later = has_text s xs in x == s || later

-- The keys of `wantByNode`.
unfoldable pub nodes_of : List Pod → List String
nodes_of [] = []
nodes_of (p ∷ ps) =
    let others = nodes_of ps in
    if is_wanted p && not (has_text p.node_name others) then p.node_name ∷ others else others

unfoldable pub nano_cores : Option CpuStats → Option ℕ
nano_cores none = none
nano_cores (some c) = c.usage_nano_cores

unfoldable pub working_set : Option MemoryStats → Option ℕ
working_set none = none
working_set (some m) = m.working_set_bytes

-- `total += int64(cores / 1_000_000)`, where there is a reading.
unfoldable pub add_milli_cpu : ℤ → Option ℕ → ℤ
add_milli_cpu total none = total
add_milli_cpu total (some n) = add64 total (wrap64 (pos (n / 1000000)))

unfoldable pub add_bytes : ℤ → Option ℕ → ℤ
add_bytes total none = total
add_bytes total (some n) = add64 total (wrap64 (pos n))

unfoldable pub add_node : UsageSnapshot → Option NodeStats → UsageSnapshot
add_node snap none = snap
add_node snap (some n) = record snap {
  cluster_used_milli_cpu = add_milli_cpu snap.cluster_used_milli_cpu (nano_cores n.cpu);
  cluster_used_memory_bytes = add_bytes snap.cluster_used_memory_bytes (working_set n.memory);
}

abbrev pub add_pod : UsageSnapshot → PodStats → UsageSnapshot
add_pod snap ps = record snap {
  managed_used_milli_cpu = add_milli_cpu snap.managed_used_milli_cpu (nano_cores ps.cpu);
  managed_used_memory_bytes = add_bytes snap.managed_used_memory_bytes (working_set ps.memory);
}

unfoldable pub add_pods : List Pod → UsageSnapshot → List PodStats → UsageSnapshot
add_pods managed snap [] = snap
add_pods managed snap (ps ∷ rest) =
    let with_pod = add_pods managed (add_pod snap ps) rest in
    let without = add_pods managed snap rest in
    if is_managed (ps.namespace, ps.name) managed then with_pod else without

-- One node that has answered.
unfoldable pub add_summary : List Pod → UsageSnapshot → NodeSummary → UsageSnapshot
add_summary managed snap summary =
    add_pods managed
      (add_node (record snap { nodes_reporting = suc snap.nodes_reporting }) summary.node)
      summary.pods

abbrev pub rx_metric : String
rx_metric = "network.rxBytes"

abbrev pub tx_metric : String
tx_metric = "network.txBytes"

abbrev pub first_usage : ℕ → UsageSnapshot
first_usage total = record {
  cluster_used_milli_cpu = pos 0;
  cluster_used_memory_bytes = pos 0;
  managed_used_milli_cpu = pos 0;
  managed_used_memory_bytes = pos 0;
  nodes_reporting = 0;
  nodes_total = total;
}

module _ (env : Env) where
  unfoldable pub fetch_node_summary : String → M Event (Result NodeSummary)
  fetch_node_summary node = do
    raw ← call (requested_stats node) (λ t. env.request_stats t node)
    elim raw [
      | err e ↦ return (err (errorf "requesting stats summary: " e ""))
      | ok body ↦ elim (env.decode_summary body) [
        | err e ↦ return (err (errorf "decoding stats summary: " e ""))
        | ok summary ↦ return (ok summary)
      ]
    ]

  unfoldable pub visit_nodes : List Pod → UsageSnapshot → List String → M Event UsageSnapshot
  visit_nodes managed snap [] t = (snap, t)
  visit_nodes managed snap (n ∷ ns) t =
      let fetched = fetch_node_summary n t in
      elim fetched.0 [
        | err _ ↦ visit_nodes managed snap ns fetched.1
        | ok summary ↦ visit_nodes managed (add_summary managed snap summary) ns fetched.1
      ]

  unfoldable pub collect_usage : M Event (Result UsageSnapshot)
  collect_usage = do
    nodes ← call listed_nodes env.list_nodes
    elim nodes [
      | err e ↦ return (err (errorf "listing nodes: " e ""))
      | ok names ↦ do
        pods ← call listed_pods env.list_pods
        elim pods [
          | err e ↦ return (err (errorf "listing managed pods: " e ""))
          | ok managed ↦ do
            snap ← visit_nodes managed (first_usage (length names)) names
            return (ok snap)
        ]
    ]

  unfoldable pub sample_of : String → String → ℕ → Option ℕ → List Sample
  sample_of workload metric now none = []
  sample_of workload metric now (some n) =
      record { name = workload; metric = metric; value = env.float_of_uint n; sampled_at = now }
      ∷ []

  unfoldable pub pod_samples : String → ℕ → Option NetworkStats → List Sample
  pod_samples workload now none = []
  pod_samples workload now (some net) =
      sample_of workload rx_metric now net.rx_bytes ++ sample_of workload tx_metric now net.tx_bytes

  -- The samples of one node's summary.
  unfoldable pub node_samples : List (PodKey × String) → ℕ → List PodStats → List Sample
  node_samples want now [] = []
  node_samples want now (ps ∷ rest) =
      let others = node_samples want now rest in
      elim (find_pod (ps.namespace, ps.name) want) [
        | none ↦ others
        | some workload ↦ pod_samples workload now ps.network ++ others
      ]

  unfoldable pub sample_nodes : List Pod → ℕ → List String → M Event (List Sample)
  sample_nodes pods now [] t = ([], t)
  sample_nodes pods now (n ∷ ns) t =
      let fetched = fetch_node_summary n t in
      let later = sample_nodes pods now ns fetched.1 in
      elim fetched.0 [
        | err _ ↦ later
        | ok summary ↦ (node_samples (want_of n [] pods) now summary.pods ++ later.0, later.1)
      ]

  unfoldable pub collect : M Event (Result (List Sample))
  collect = do
    pods ← call listed_pods env.list_pods
    elim pods [
      | err e ↦ return (err (errorf "listing managed pods: " e ""))
      | ok listed ↦ do
        now ← λ t. (env.now t, t)
        samples ← sample_nodes listed now (env.order (nodes_of listed))
        return (ok samples)
    ]
