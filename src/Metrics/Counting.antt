-- ===== src/Metrics/Counting.antt =====
-- internal/metrics/collector.go: the two counts of nodes in a usage snapshot.
use ai_cloud_operator.Base.{
  ℕ, suc, ◌+◌, ◌≤◌, String, List, [], ◌∷◌, some, length, ok, err, Option-cases, Bool-cases,
  Result-cases, ◌≡◌, refl, ap, sym, ◌∙◌, inl, inr, arith,
}
use ai_cloud_operator.Kube.{Pod}
use ai_cloud_operator.Operator.World.{UsageSnapshot}
use ai_cloud_operator.Metrics.Collector.{
  PodStats, NodeSummary, Event, listed_nodes, listed_pods, requested_stats, Env, is_managed,
  add_node, add_pod, add_pods, add_summary, first_usage, fetch_node_summary, visit_nodes,
  collect_usage,
}

add_pods-counts :
    (managed : List Pod) (snap : UsageSnapshot) (pods : List PodStats)
    → ((add_pods managed snap pods).nodes_reporting ≡ snap.nodes_reporting)
      × ((add_pods managed snap pods).nodes_total ≡ snap.nodes_total)
unfolding add_pods
add_pods-counts managed snap [] = (refl, refl)
add_pods-counts managed snap (ps ∷ rest) =
    elim (Bool-cases (is_managed (ps.namespace, ps.name) managed)) [
      | inl h ↦ rw (add_pods, h) (add_pods-counts managed (add_pod snap ps) rest)
      | inr h ↦ rw (add_pods, h) (add_pods-counts managed snap rest)
    ]

add_summary-counts :
    (managed : List Pod) (snap : UsageSnapshot) (summary : NodeSummary)
    → ((add_summary managed snap summary).nodes_reporting ≡ suc snap.nodes_reporting)
      × ((add_summary managed snap summary).nodes_total ≡ snap.nodes_total)
unfolding add_summary add_node
add_summary-counts managed snap summary = elim (Option-cases summary.node) [
  | inl h ↦
      rw (add_summary, h)
        (add_pods-counts managed (record snap { nodes_reporting = suc snap.nodes_reporting })
          summary.pods)
  | inr (n, h) ↦
      rw (add_summary, h)
        (add_pods-counts managed
          (add_node (record snap { nodes_reporting = suc snap.nodes_reporting }) (some n))
          summary.pods)
]

module _ (env : Env) where
  -- How many of the nodes answer, each asked after the ones before it.
  abbrev pub answering : List String → List Event → ℕ
  answering [] t = 0
  answering (n ∷ ns) t =
      let later = answering ns (requested_stats n ∷ t) in
      elim (fetch_node_summary env n t).0 [ err _ ↦ later | ok _ ↦ suc later ]

  fetch_node_summary-calls :
      (n : String) (t : List Event) → (fetch_node_summary env n t).1 ≡ requested_stats n ∷ t
  unfolding fetch_node_summary
  fetch_node_summary-calls n t = elim (Result-cases (env.request_stats t n)) [
    | inr (e, f) ↦ rw (fetch_node_summary, f) refl
    | inl (raw, f) ↦ elim (Result-cases (env.decode_summary raw)) [
      | inr (e, g) ↦ rw (fetch_node_summary, f, g) refl
      | inl (summary, g) ↦ rw (fetch_node_summary, f, g) refl
    ]
  ]

  visit_nodes-counts :
      (managed : List Pod) (snap : UsageSnapshot) (ns : List String) (t : List Event)
      → ((visit_nodes env managed snap ns t).0.nodes_reporting
          ≡ snap.nodes_reporting + answering ns t)
        × ((visit_nodes env managed snap ns t).0.nodes_total ≡ snap.nodes_total)
  unfolding visit_nodes
  visit_nodes-counts managed snap [] t = (omega arith, refl)
  visit_nodes-counts managed snap (n ∷ ns) t = elim (Result-cases (fetch_node_summary env n t).0) [
    | inr (e, f) ↦
        rw (visit_nodes, answering, f, fetch_node_summary-calls n t)
          (visit_nodes-counts managed snap ns (requested_stats n ∷ t))
    | inl (summary, f) ↦
        let counted = add_summary-counts managed snap summary in
        let rest =
          visit_nodes-counts managed (add_summary managed snap summary) ns
            (requested_stats n ∷ t) in
        rw (visit_nodes, answering, f, fetch_node_summary-calls n t)
          (omega (arith, rest.0, counted.0), rest.1 ∙ counted.1)
  ]

  answering-length : (ns : List String) (t : List Event) → answering ns t ≤ length ns
  answering-length [] t = omega arith
  answering-length (n ∷ ns) t = elim (Result-cases (fetch_node_summary env n t).0) [
    | inr (e, f) ↦ rw (answering, f) (omega (arith, answering-length ns (requested_stats n ∷ t)))
    | inl (summary, f) ↦
        rw (answering, f) (omega (arith, answering-length ns (requested_stats n ∷ t)))
  ]

  -- In a usage snapshot, the total is the number of listed nodes, and the nodes that report are as
  -- many as have answered with a summary, so at most the total.
  pub collect_usage-counts :
      (t : List Event) (snap : UsageSnapshot) (names : List String)
      → env.list_nodes t ≡ ok names
      → (collect_usage env t).0 ≡ ok snap
      → (snap.nodes_total ≡ length names)
        × (snap.nodes_reporting ≡ answering names (listed_pods ∷ listed_nodes ∷ t))
        × (snap.nodes_reporting ≤ snap.nodes_total)
  unfolding collect_usage
  collect_usage-counts t snap names listed e =
      let later = listed_pods ∷ listed_nodes ∷ t in
      elim (Result-cases (env.list_pods (listed_nodes ∷ t))) [
        | inr (x, f) ↦ absurd (ground arith)
        | inl (managed, f) ↦
            let visited = visit_nodes env managed (first_usage (length names)) names later in
            let same : visited.0 ≡ snap = ground arith in
            let counts = visit_nodes-counts managed (first_usage (length names)) names later in
            let bound = answering-length names later in
            let reporting : snap.nodes_reporting ≡ visited.0.nodes_reporting =
              ap (λ x. x.nodes_reporting) (sym same) in
            let total : snap.nodes_total ≡ visited.0.nodes_total =
              ap (λ x. x.nodes_total) (sym same) in
            (
              total ∙ counts.1,
              omega (arith, reporting, counts.0),
              omega (arith, reporting, total, counts.0, counts.1, bound),
            )
      ]
