-- ===== src/Controller/Stuck.antt =====
-- internal/controller/workload_controller.go: the pods that a Workload waits for in vain.
use ai_cloud_operator.Base.{
  ℕ, String, List, [], ◌∷◌, true, false, eq_iff, ◌≡◌, ◌≢◌, refl, ◌↔◌, ◌∙◌, ◌⊎◌, sym, inl, inr, ◌≤◌,
  ◌-◌, Bool-cases, All, Any, here, there, arith,
}
use ai_cloud_operator.Kube.{Pod, PodCondition}
use ai_cloud_operator.Controller.Reconcile.{
  unschedulable_grace_period, is_stuck, stuck_in_pod, stuck_message,
}

-- A condition that says that its pod could not be placed for the whole grace period.
pub record IsStuck (now : ℕ) (c : PodCondition) : Type 0 where
  pub kind : c.kind ≡ "PodScheduled"
  pub status : c.status ≡ "False"
  pub reason : c.reason ≡ "Unschedulable"
  pub since : unschedulable_grace_period ≤ now - c.last_transition_time

pub is_stuck_iff : (now : ℕ) (c : PodCondition) → (is_stuck now c ≡ true) ↔ IsStuck now c
unfolding is_stuck
is_stuck_iff now c = (
  λ e. record {
    kind = ground (arith, eq_iff c.kind "PodScheduled");
    status = ground (arith, eq_iff c.status "False");
    reason = ground (arith, eq_iff c.reason "Unschedulable");
    since = ground arith;
  },
  λ s.
      let k = (eq_iff c.kind "PodScheduled").1 s.kind in
      let f = (eq_iff c.status "False").1 s.status in
      let r = (eq_iff c.reason "Unschedulable").1 s.reason in let h = s.since in ground arith,
)

-- A stuck condition of some pod of the list, with this message.
abbrev pub StuckWith : ℕ → List Pod → String → Type 0
StuckWith now pods text = Any (λ p. Any (λ c. IsStuck now c × (c.message ≡ text)) p.conditions) pods

pub stuck_in_pod_lem :
    (now : ℕ) (cs : List PodCondition) (found : String)
    → (stuck_in_pod now cs found ≡ found)
      ⊎ Any (λ c. IsStuck now c × (c.message ≡ stuck_in_pod now cs found)) cs
unfolding stuck_in_pod
stuck_in_pod_lem now [] found = inl refl
stuck_in_pod_lem now (c ∷ cs) found = elim (Bool-cases (is_stuck now c)) [
  | inl e ↦ elim (stuck_in_pod_lem now cs c.message) [
    | inl last ↦ inr (here ((is_stuck_iff now c).0 e, rw (e, stuck_in_pod) (sym last)))
    | inr later ↦ inr (there (rw (e, stuck_in_pod) later))
  ]
  | inr e ↦ elim (stuck_in_pod_lem now cs found) [
    | inl last ↦ inl (rw (e, stuck_in_pod) last)
    | inr later ↦ inr (there (rw (e, stuck_in_pod) later))
  ]
]

pub stuck_message_lem :
    (now : ℕ) (ps : List Pod) (found : String)
    → (stuck_message now ps found ≡ found) ⊎ StuckWith now ps (stuck_message now ps found)
unfolding stuck_message
stuck_message_lem now [] found = inl refl
stuck_message_lem now (p ∷ ps) found =
    elim (stuck_message_lem now ps (stuck_in_pod now p.conditions found)) [
      | inr later ↦ inr (there later)
      | inl last ↦ elim (stuck_in_pod_lem now p.conditions found) [
        | inl kept ↦ inl (last ∙ kept)
        | inr this ↦ inr (here (rw last this))
      ]
    ]

-- Every stuck condition of the list says why.
abbrev pub Explains : ℕ → List Pod → Type 0
Explains now = All (λ p. All (λ c. IsStuck now c → c.message ≢ "") p.conditions)

pub stuck_in_pod-ne :
    (now : ℕ) (cs : List PodCondition) (found : String)
    → All (λ c. IsStuck now c → c.message ≢ "") cs
    → (found ≢ "") ⊎ Any (IsStuck now) cs
    → stuck_in_pod now cs found ≢ ""
unfolding stuck_in_pod
stuck_in_pod-ne now [] found h (inl ne) = ne
stuck_in_pod-ne now [] found h (inr s) = elim s [ ]
stuck_in_pod-ne now (c ∷ cs) found (h, hs) start = elim (Bool-cases (is_stuck now c)) [
  | inl e ↦
      rw (e, stuck_in_pod)
        (stuck_in_pod-ne now cs c.message hs (inl (h ((is_stuck_iff now c).0 e))))
  | inr e ↦ rw (e, stuck_in_pod) (stuck_in_pod-ne now cs found hs (rest e start))
]
  where
    rest :
        is_stuck now c ≡ false
        → (found ≢ "") ⊎ Any (IsStuck now) (c ∷ cs)
        → (found ≢ "") ⊎ Any (IsStuck now) cs
    rest e (inl ne) = inl ne
    rest e (inr (here s)) = absurd (let yes' = (is_stuck_iff now c).1 s in cc)
    rest e (inr (there s)) = inr s

-- Where all stuck conditions say why, one of them is noticed.
pub stuck_message-ne :
    (now : ℕ) (ps : List Pod) (found : String)
    → Explains now ps
    → (found ≢ "") ⊎ Any (λ p. Any (IsStuck now) p.conditions) ps
    → stuck_message now ps found ≢ ""
unfolding stuck_message
stuck_message-ne now [] found h (inl ne) = ne
stuck_message-ne now [] found h (inr s) = elim s [ ]
stuck_message-ne now (p ∷ ps) found (h, hs) (inl ne) =
    stuck_message-ne now ps _ hs (inl (stuck_in_pod-ne now p.conditions found h (inl ne)))
stuck_message-ne now (p ∷ ps) found (h, hs) (inr (here s)) =
    stuck_message-ne now ps _ hs (inl (stuck_in_pod-ne now p.conditions found h (inr s)))
stuck_message-ne now (p ∷ ps) found (h, hs) (inr (there s)) = stuck_message-ne now ps _ hs (inr s)
