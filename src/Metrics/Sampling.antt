-- ===== src/Metrics/Sampling.antt =====
-- internal/metrics/collector.go: what a sample rests on.
use ai_cloud_operator.Base.{
  ℕ, String, List, [], ◌∷◌, Option, none, some, true, ◌&&◌, ◌==◌, eq_iff, ok, Option-cases,
  Bool-cases, Result-cases, ◌≡◌, refl, subst, inl, inr, ◌⊎◌, All, Any, All-append, All-Any, arith,
}
use ai_cloud_operator.Kube.{Pod}
use ai_cloud_operator.Metrics.Samples.{Sample}
use ai_cloud_operator.Metrics.Collector.{
  NetworkStats, PodStats, NodeSummary, PodKey, Event, listed_pods, Env, find_pod, workload_of,
  is_wanted, want_of, nodes_of, fetch_node_summary, rx_metric, tx_metric, sample_of, pod_samples,
  node_samples, sample_nodes, collect,
}

-- A listed pod under this key runs on the node and belongs to the Workload.
pub record IsPodOf (pods : List Pod) (node : String) (key : PodKey) (workload : String)
    : Type 0 where
  pub pod : Pod
  pub listed : Any (λ p. p ≡ pod) pods
  pub wanted : is_wanted pod ≡ true
  pub scheduled : pod.node_name ≡ node
  pub keyed : ◌≡◌ {A = PodKey} (pod.namespace, pod.name) key
  pub owner : workload_of pod ≡ workload

module _ (pods : List Pod) (node : String) where
  abbrev Owned : PodKey × String → Type 0
  Owned entry = IsPodOf pods node entry.0 entry.1

  want_of-Owned :
      (acc : List (PodKey × String)) (rest : List Pod)
      → All Owned acc
      → All (λ p. Any (λ q. q ≡ p) pods) rest
      → All Owned (want_of node acc rest)
  unfolding want_of
  want_of-Owned acc [] h k = h
  want_of-Owned acc (p ∷ ps) h (member, k) =
      elim (Bool-cases (is_wanted p && (p.node_name == node))) [
        | inr e ↦ rw (want_of, e) (want_of-Owned acc ps h k)
        | inl e ↦
            let owned : Owned ((p.namespace, p.name), workload_of p) = record {
              pod = p;
              listed = member;
              wanted = ground arith;
              scheduled = ground (arith, eq_iff p.node_name node);
              keyed = refl;
              owner = refl;
            } in
            rw (want_of, e)
              (want_of-Owned (((p.namespace, p.name), workload_of p) ∷ acc) ps (owned, h) k)
      ]

  find_pod-Owned :
      (key : PodKey) (entries : List (PodKey × String)) (workload : String)
      → All Owned entries
      → find_pod key entries ≡ some workload
      → IsPodOf pods node key workload
  unfolding find_pod
  find_pod-Owned key [] workload h e = absurd (ground arith)
  find_pod-Owned key ((other, w) ∷ rest) workload (g, h) e =
      elim (Bool-cases ((key.0 == other.0) && (key.1 == other.1))) [
        | inr f ↦ find_pod-Owned key rest workload h (ground arith)
        | inl f ↦
            let same : w ≡ workload = ground arith in
            let namespace : other.0 ≡ key.0 = ground (arith, eq_iff key.0 other.0) in
            let name : other.1 ≡ key.1 = ground (arith, eq_iff key.1 other.1) in
            subst (λ x. IsPodOf pods node key x) same
              (subst (λ (k : PodKey). IsPodOf pods node k w) (λ i. (namespace i, name i)) g)
      ]

module _ (env : Env) (pods : List Pod) (now : ℕ) where
  -- The sample is one of the two counters of a network.
  abbrev pub IsReading : Option NetworkStats → Sample → Type 0
  IsReading none x = ⊥
  IsReading (some net) x =
      (count : ℕ) × (x.value ≡ env.float_of_uint count)
      × (((x.metric ≡ rx_metric) × (net.rx_bytes ≡ some count))
          ⊎ ((x.metric ≡ tx_metric) × (net.tx_bytes ≡ some count)))

  sample_of-All :
      (Q : Sample → Type 0) (workload metric : String) (reading : Option ℕ)
      → ((n : ℕ)
          → reading ≡ some n
          → Q (record {
            name = workload;
            metric = metric;
            value = env.float_of_uint n;
            sampled_at = now;
          }))
      → All Q (sample_of env workload metric now reading)
  unfolding sample_of
  sample_of-All Q workload metric none f = tt
  sample_of-All Q workload metric (some n) f = (f n refl, tt)

  pod_samples-All :
      (Q : Sample → Type 0) (workload : String) (net : Option NetworkStats)
      → ((x : Sample) → x.name ≡ workload → x.sampled_at ≡ now → IsReading net x → Q x)
      → All Q (pod_samples env workload now net)
  unfolding pod_samples
  pod_samples-All Q workload none f = tt
  pod_samples-All Q workload (some net) f =
      All-append Q (sample_of env workload rx_metric now net.rx_bytes)
        (sample_of env workload tx_metric now net.tx_bytes)
        (sample_of-All Q workload rx_metric net.rx_bytes
          (λ n e. f _ refl refl (n, refl, inl (refl, e))))
        (sample_of-All Q workload tx_metric net.tx_bytes
          (λ n e. f _ refl refl (n, refl, inr (refl, e))))

  -- The kubelet of a node has answered with a summary that has this reading of a pod, which was
  -- listed, runs on that very node and belongs to the Workload of the sample.
  pub record IsMeasured (x : Sample) : Type 0 where
    pub node : String
    pub before : List Event
    pub summary : NodeSummary
    pub stats : PodStats
    pub answered : (fetch_node_summary env node before).0 ≡ ok summary
    pub reported : Any (λ s. s ≡ stats) summary.pods
    pub pod : IsPodOf pods node (stats.namespace, stats.name) x.name
    pub reading : IsReading stats.network x
    pub time : x.sampled_at ≡ now

  module _ (node : String) (before : List Event) (summary : NodeSummary)
      (answered : (fetch_node_summary env node before).0 ≡ ok summary) where
    pod_samples-IsMeasured :
        (workload : String) (stats : PodStats)
        → Any (λ s. s ≡ stats) summary.pods
        → IsPodOf pods node (stats.namespace, stats.name) workload
        → All IsMeasured (pod_samples env workload now stats.network)
    pod_samples-IsMeasured workload stats member owned =
        pod_samples-All IsMeasured workload stats.network (λ x named timed reading. record {
          node = node;
          before = before;
          summary = summary;
          stats = stats;
          answered = answered;
          reported = member;
          pod = rw named owned;
          reading = reading;
          time = timed;
        })

    node_samples-IsMeasured :
        (rest : List PodStats)
        → All (λ s. Any (λ other. other ≡ s) summary.pods) rest
        → All IsMeasured (node_samples env (want_of node [] pods) now rest)
    unfolding node_samples
    node_samples-IsMeasured [] k = tt
    node_samples-IsMeasured (ps ∷ rest) (member, k) =
        let want = want_of node [] pods in
        let others = node_samples-IsMeasured rest k in
        elim (Option-cases (find_pod (ps.namespace, ps.name) want)) [
          | inl f ↦ rw (node_samples, f) others
          | inr (workload, f) ↦
              rw (node_samples, f)
                (All-append IsMeasured (pod_samples env workload now ps.network)
                  (node_samples env want now rest)
                  (pod_samples-IsMeasured workload ps member (
                    find_pod-Owned pods node (ps.namespace, ps.name) want workload
                      (want_of-Owned pods node [] pods tt (All-Any pods)) f))
                  others)
        ]

  sample_nodes-IsMeasured :
      (ns : List String) (t : List Event) → All IsMeasured (sample_nodes env pods now ns t).0
  unfolding sample_nodes
  sample_nodes-IsMeasured [] t = tt
  sample_nodes-IsMeasured (n ∷ ns) t =
      let fetched = fetch_node_summary env n t in
      let later = sample_nodes-IsMeasured ns fetched.1 in
      elim (Result-cases fetched.0) [
        | inr (e, f) ↦ rw (sample_nodes, f) later
        | inl (summary, f) ↦
            rw (sample_nodes, f)
              (All-append IsMeasured (node_samples env (want_of n [] pods) now summary.pods)
                (sample_nodes env pods now ns fetched.1).0
                (node_samples-IsMeasured n t summary f summary.pods (All-Any summary.pods)) later)
      ]

module _ (env : Env) where
  -- Every sample is a counter that the kubelet of a node has reported of a pod, where that pod was
  -- listed, is scheduled on that very node and has the Workload's name as its label; so no kubelet
  -- can speak of a Workload that has no pod on its node.
  pub collect-IsMeasured :
      (t : List Event) (pods : List Pod) (samples : List Sample)
      → env.list_pods t ≡ ok pods
      → (collect env t).0 ≡ ok samples
      → All (IsMeasured env pods (env.now (listed_pods ∷ t))) samples
  unfolding collect
  collect-IsMeasured t pods samples listed e =
      let later = listed_pods ∷ t in
      let now = env.now later in
      let found = sample_nodes env pods now (env.order (nodes_of pods)) later in
      let same : found.0 ≡ samples = ground arith in
      rw (← same) (sample_nodes-IsMeasured env pods now (env.order (nodes_of pods)) later)
