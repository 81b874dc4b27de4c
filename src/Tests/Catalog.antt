-- ===== src/Tests/Catalog.antt =====
-- The catalog at concrete inputs.
use ai_cloud_operator.Base.{List, [], ◌∷◌, some, ok, ◌≡◌, refl, ◌↔◌, All, lookup}
use ai_cloud_operator.Base.Int.{pos}
use ai_cloud_operator.Catalog.Types.{Value, Params, Parameter}
use ai_cloud_operator.Catalog.Params.{
  check_validation, apply_defaults, resolve_params, with_default, check_parameters, check_parameter,
  check_present, is_visible, is_present, get_value, as_float64, check_text_value, check_text,
  check_regex, check_range, check_max,
}
use ai_cloud_operator.Catalog.Nginx.{nginx_parameters}
use ai_cloud_operator.Catalog.Nginx.{nginx}
use ai_cloud_operator.Catalog.Registry.{templates, get, find_template}
use ai_cloud_operator.Catalog.Typing.{IsTyped, itself, resolve_params-IsTyped}
use ai_cloud_operator.Catalog.Resolving.{IsFilledIn, Accepted, resolve_params_iff}
use ai_cloud_operator.Tests.Samples.{library}

abbrev supplied : Params
supplied = ("logLevel", Value.text "warn") ∷ []

resolve_params_iff_example :
    (resolve_params library nginx_parameters supplied
      ≡ ok (apply_defaults nginx_parameters supplied))
    ↔ ((apply_defaults nginx_parameters supplied ≡ apply_defaults nginx_parameters supplied)
        × IsFilledIn nginx_parameters supplied (apply_defaults nginx_parameters supplied)
        × All (Accepted library (apply_defaults nginx_parameters supplied)) nginx_parameters)
resolve_params_iff_example =
    resolve_params_iff library nginx_parameters supplied (apply_defaults nginx_parameters supplied)

abbrev one_parameter : List Parameter
one_parameter = elim nginx_parameters [ [] ↦ [] | p ∷ ps ↦ p ∷ [] ]

resolves : resolve_params library one_parameter supplied ≡ ok supplied
unfolding resolve_params nginx_parameters apply_defaults with_default check_parameters
    check_parameter check_present is_visible is_present get_value check_validation as_float64
    check_text_value check_text check_regex lookup
resolves = refl

finds : get library "nginx" ≡ some (nginx library)
unfolding get find_template templates nginx
finds = refl

declares : nginx_parameters ≡ (nginx library).parameters
unfolding nginx
declares = refl

-- Any number is within the bounds of the number of connections.
abbrev resolved : Params
resolved = ("logLevel", Value.text "warn") ∷ ("workerConnections", Value.float (pos 5)) ∷ []

resolves_all : resolve_params library nginx_parameters resolved ≡ ok resolved
unfolding resolve_params nginx_parameters apply_defaults with_default check_parameters
    check_parameter check_present is_visible is_present get_value check_validation as_float64
    check_text_value check_text check_regex check_range check_max lookup
resolves_all = refl

resolve_params-IsTyped_example :
    IsTyped nginx_parameters resolved ↔ IsTyped nginx_parameters resolved
resolve_params-IsTyped_example =
    resolve_params-IsTyped library "nginx" (nginx library) nginx_parameters resolved resolved finds
      (itself declares) resolves_all
