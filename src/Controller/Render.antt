-- ===== src/Controller/Render.antt =====
-- internal/controller/workload_controller.go: labels, replicas and the rendering of a Workload.
use Prim.Native.Char.{code}
use Prim.Native.String.{len}
use ai_cloud_operator.Base.{
  ℕ, String, List, [], ◌∷◌, Option, none, some, Bool, false, not, ◌&&◌, ◌||◌, ◌==◌, eqb, leb, ltb,
  concat, insert, GoError, leaf, errorf, ErrorKind, Result, ok, err, if◌then◌else◌,
}
use ai_cloud_operator.Base.Int.{ℤ, pos, leb_ℤ}
use ai_cloud_operator.Workload.{Workload, default_replicas}
use ai_cloud_operator.Catalog.Types.{Rendered, Params, Library}
use ai_cloud_operator.Catalog.Params.{resolve_params}
use ai_cloud_operator.Catalog.Browser.{no_resources}
use ai_cloud_operator.Catalog.Registry.{get}
use ai_cloud_operator.Controller.World.{Labels}

abbrev pub is_zero : ℤ → Bool
is_zero z = leb_ℤ z (pos 0) && leb_ℤ (pos 0) z

-- The characters of a text as numbers.
abbrev pub codes : String → List ℕ
codes String.[] = []
codes (String.◌∷◌ first others) = code first ∷ codes others

-- [A-Za-z0-9].
unfoldable pub is_alnum : ℕ → Bool
is_alnum c = (leb b'A' c && leb c b'Z') || (leb b'a' c && leb c b'z') || (leb b'0' c && leb c b'9')

-- [A-Za-z0-9._-].
unfoldable pub is_label_char : ℕ → Bool
is_label_char c = is_alnum c || eqb c b'.' || eqb c b'_' || eqb c b'-'

-- [A-Za-z0-9._-]*[A-Za-z0-9]
unfoldable pub ends_well : List ℕ → Bool
ends_well [] = false
ends_well (c ∷ []) = is_alnum c
ends_well (c ∷ d ∷ cs) = is_label_char c && ends_well (d ∷ cs)

-- `labelValueRe`: ^[A-Za-z0-9]([A-Za-z0-9._-]*[A-Za-z0-9])?$
unfoldable pub matches_label_value : List ℕ → Bool
matches_label_value [] = false
matches_label_value (c ∷ []) = is_alnum c
matches_label_value (c ∷ d ∷ cs) = is_alnum c && ends_well (d ∷ cs)

abbrev pub max_label_value_len : ℕ
max_label_value_len = 63

-- The value, or `none` where Go returns ("", false).
unfoldable pub sanitize_label_value : String → Option String
sanitize_label_value raw =
    if raw == "" || ltb max_label_value_len (len raw) || not (matches_label_value (codes raw))
    then none
    else some raw

unfoldable pub selector_labels : Workload → Labels
selector_labels w =
    ("app.kubernetes.io/name", w.name)
    ∷ ("app.kubernetes.io/managed-by", "ai-cloud-operator")
    ∷ ("app.kubernetes.io/instance", w.uid)
    ∷ []

unfoldable pub object_labels : Workload → Labels
object_labels w = elim (sanitize_label_value w.spec.user_id) [
  | none ↦ selector_labels w
  | some v ↦ insert "apps.aicloud.dev/user-id" v (selector_labels w)
]

unfoldable pub desired_replica_count : Workload → ℤ
desired_replica_count w =
    if w.spec.suspended
    then pos 0
    else elim w.spec.replicas [ some n ↦ n | none ↦ default_replicas ]

abbrev pub image_required : GoError
image_required =
    leaf ErrorKind.image_required "spec.image is required when spec.templateName is unset"

abbrev pub template_unknown : GoError
template_unknown = leaf ErrorKind.template_unknown "unknown template"

unfoldable pub legacy_rendered : Workload → Rendered
legacy_rendered w =
    let port : ℤ = if is_zero w.spec.container_port then pos 8080 else w.spec.container_port in
    record {
      containers =
          record {
            command = [];
            env = w.spec.env;
            image = w.spec.image;
            liveness_probe = none;
            name = "workload";
            ports = record { container_port = port; name = "" } ∷ [];
            readiness_probe = none;
            resources = no_resources;
            volume_mounts = [];
          }
          ∷ [];
      init_containers = [];
      volumes = [];
      service_ports = record { name = "http"; port = port; target_port = port } ∷ [];
    }

module _ (lib : Library) where
  unfoldable pub config_to_params : Option String → Result Params
  config_to_params none = ok []
  config_to_params (some raw) = if raw == "" then ok [] else lib.json_decode raw

  -- The branch of `render` for a template.
  unfoldable pub render_template : Workload → Result Rendered
  render_template w = elim (get lib w.spec.template_name) [
    | none ↦ err (errorf "" template_unknown (concat (" " ∷ lib.quote w.spec.template_name ∷ [])))
    | some tmpl ↦ elim (config_to_params w.spec.config) [
      | err e ↦ err (errorf "parsing config: " e "")
      | ok raw ↦ elim (resolve_params lib tmpl.parameters raw) [
        | err e ↦ err (errorf "resolving template parameters: " e "")
        | ok resolved ↦ tmpl.build resolved
      ]
    ]
  ]

  unfoldable pub render : Workload → Result Rendered
  render w =
      if w.spec.template_name == ""
      then (if w.spec.image == "" then err image_required else ok (legacy_rendered w))
      else render_template w
