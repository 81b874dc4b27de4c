-- ===== src/Catalog/Template.antt =====
-- internal/catalog/types.go: a template, and the resources that it asks for.
use ai_cloud_operator.Base.{String, List, [], ◌∷◌, Option, none, some, Result, ok, err}
use ai_cloud_operator.Base.Int.{ℤ, pos, add64}
use ai_cloud_operator.Kube.{Container}
use ai_cloud_operator.Catalog.Types.{Params, Parameter, Rendered, Entrypoint, Library}
use ai_cloud_operator.Catalog.Backup.{Operation}

pub record Template : Type 0 where
  pub id : String
  pub name : String
  pub description : String
  pub icon : String
  pub version : String
  pub parameters : List Parameter
  pub entrypoints : List Entrypoint
  pub operations : List Operation
  pub build : Params → Result Rendered

module _ (lib : Library) where
  -- Cpu().MilliValue() and Memory().Value() of a resource list: zero where the entry is missing.
  unfoldable pub milli_cpu : Option String → ℤ
  milli_cpu none = pos 0
  milli_cpu (some q) = lib.milli_value q

  unfoldable pub memory_bytes : Option String → ℤ
  memory_bytes none = pos 0
  memory_bytes (some q) = lib.byte_value q

  unfoldable pub sum_requests : ℤ × ℤ → List Container → ℤ × ℤ
  unfolding add64 milli_cpu memory_bytes
  sum_requests acc [] = acc
  sum_requests (cpu, mem) (c ∷ cs) =
      sum_requests
        (
          add64 cpu (milli_cpu c.resources.requests.cpu),
          add64 mem (memory_bytes c.resources.requests.memory),
        )
        cs

  unfoldable pub estimated_resources : Template → ℤ × ℤ
  unfolding sum_requests
  estimated_resources t = elim (t.build []) [
    | err e ↦ (pos 0, pos 0)
    | ok rendered ↦ sum_requests (pos 0, pos 0) rendered.containers
  ]
