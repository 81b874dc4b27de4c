-- ===== src/Metrics/Reporting.antt =====
-- internal/metrics: the reporter with the collector that cmd/main.go gives it. The uses that the
-- heartbeat makes of the same collector are no part of its history here.
use ai_cloud_operator.Base.{
  ℕ, zero, suc, ◌+◌, List, [], ◌∷◌, GoError, ok, err, ◌≡◌, All, Result-cases, inl, inr, arith,
}
use ai_cloud_operator.Kube.{Pod}
use ai_cloud_operator.Metrics.Samples.{Sample}
use ai_cloud_operator.Metrics.Collector
use ai_cloud_operator.Metrics.Collector.{listed_pods, collect}
use ai_cloud_operator.Metrics.Reporter.{Event, collected, reported, Env, report_once, start}
use ai_cloud_operator.Metrics.Sampling.{IsMeasured, collect-IsMeasured}

module _ (collector : Collector.Env) where
  -- The calls that the collector has made when the reporter has this history.
  unfoldable pub fetches : List Event → List Collector.Event
  fetches [] = []
  fetches (collected ∷ t) = (collect collector (fetches t)).1
  fetches (reported samples ∷ t) = fetches t

  abbrev pub measuring : Env
  measuring = record { collect = λ t. (collect collector (fetches t)).0 }

  -- The collection at this time listed pods on which all these samples rest.
  pub record Rests (t : List Event) (samples : List Sample) : Type 0 where
    pub pods : List Pod
    pub listed : collector.list_pods (fetches t) ≡ ok pods
    pub measured : All (IsMeasured collector pods (collector.now (listed_pods ∷ fetches t))) samples

  -- What the reporter has done from the history `t` on, in this many ticks.
  pub data Reports (t : List Event) : ℕ → List Event → Type 0 where
    idle : Reports t 0 t
    -- The collection has failed, and nothing is reported.
    missed :
        {n : ℕ} {s : List Event} (e : GoError)
        → measuring.collect s ≡ err e
        → Reports t n s
        → Reports t (suc n) (collected ∷ s)
    -- All samples of the collection, and no other, are reported at once.
    told :
        {n : ℕ} {s : List Event} (samples : List Sample)
        → measuring.collect s ≡ ok samples
        → Rests s samples
        → Reports t n s
        → Reports t (suc n) (reported samples ∷ collected ∷ s)

  collect-Rests :
      (t : List Event) (samples : List Sample) → measuring.collect t ≡ ok samples → Rests t samples
  unfolding collect
  collect-Rests t samples e = elim (Result-cases (collector.list_pods (fetches t))) [
    | inr (x, f) ↦ absurd (ground arith)
    | inl (pods, f) ↦ record {
      pods = pods;
      listed = f;
      measured = collect-IsMeasured collector (fetches t) pods samples f e;
    }
  ]

  report_once-Reports :
      {n : ℕ} (t s : List Event) → Reports t n s → Reports t (suc n) (report_once measuring s)
  unfolding report_once
  report_once-Reports t s h = elim (Result-cases (measuring.collect s)) [
    | inr (e, f) ↦ rw (report_once, f) (missed e f h)
    | inl (samples, f) ↦ rw (report_once, f) (told samples f (collect-Rests s samples f) h)
  ]

  start-goes_on :
      (n m : ℕ) (t s : List Event) → Reports t m s → Reports t (n + m) (start measuring n s)
  unfolding start
  start-goes_on zero m t s h = let same : 0 + m ≡ m = omega arith in rw same h
  start-goes_on (suc n) m t s h =
      let rest = start-goes_on n (suc m) t (report_once measuring s) (report_once-Reports t s h) in
      let same : n + suc m ≡ suc n + m = omega arith in rw (← same) rest

  -- In any number of ticks the reporter collects once a tick. Where that succeeds, it reports all
  -- the samples at once, and each of them is a counter that the kubelet of a node has reported of
  -- a pod that was listed, is scheduled on that very node and has the Workload's name as its
  -- label; where it fails, it reports nothing.
  pub start-Reports : (n : ℕ) (t : List Event) → Reports t n (start measuring n t)
  start-Reports n t = let same : n + 0 ≡ n = omega arith in rw same at (start-goes_on n 0 t t idle)
