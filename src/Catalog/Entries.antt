-- ===== src/Catalog/Entries.antt =====
-- internal/catalog: facts about the four templates, for all parameter values.
use ai_cloud_operator.Base.{
  String, List, [], ◌∷◌, some, Bool-cases, subst, inl, inr, ◌==◌, eq_iff, ◌≡◌, refl, ◌≢◌, map, ok,
  All, Any, here, arith,
}
use ai_cloud_operator.Kube.{Resources}
use ai_cloud_operator.Catalog.Types.{Params, Rendered, Entrypoint, Library}
use ai_cloud_operator.Catalog.Template.{Template}
use ai_cloud_operator.Catalog.Nginx.{nginx}
use ai_cloud_operator.Catalog.Desktop.{firefox, chrome, webtop, browser_container}
use ai_cloud_operator.Catalog.Registry.{templates, find_template, get}

-- An entrypoint names a port of the rendered service.
abbrev pub IsServed : Rendered → Entrypoint → Type 0
IsServed r e = Any (λ p. p.name ≡ e.name) r.service_ports

abbrev pub requests_of : Rendered → List Resources
requests_of r = map (λ c. c.resources) r.containers

-- What every template owes to the rest of the operator: `build` succeeds on any parameters, serves
-- every declared entrypoint, of which there is one at least, and asks for the same resources.
pub record IsSound (t : Template) : Type 0 where
  pub has_entrypoint : t.entrypoints ≢ []
  pub builds :
      (params : Params) → (r : Rendered) × (t.build params ≡ ok r) × All (IsServed r) t.entrypoints
  pub fixed_resources :
      (params : Params) (r s : Rendered)
      → t.build params ≡ ok r
      → t.build [] ≡ ok s
      → requests_of r ≡ requests_of s

nginx-IsSound : (lib : Library) → IsSound (nginx lib)
unfolding nginx
nginx-IsSound lib = record {
  has_entrypoint = λ e. cc;
  builds = λ params. (_, refl, (here refl, tt));
  fixed_resources = λ params r s e f. ground arith;
}

firefox-IsSound : IsSound firefox
unfolding firefox browser_container
firefox-IsSound = record {
  has_entrypoint = λ e. cc;
  builds = λ params. (_, refl, (here refl, tt));
  fixed_resources = λ params r s e f. ground arith;
}

chrome-IsSound : IsSound chrome
unfolding chrome browser_container
chrome-IsSound = record {
  has_entrypoint = λ e. cc;
  builds = λ params. (_, refl, (here refl, tt));
  fixed_resources = λ params r s e f. ground arith;
}

webtop-IsSound : IsSound webtop
unfolding webtop browser_container
webtop-IsSound = record {
  has_entrypoint = λ e. cc;
  builds = λ params. (_, refl, (here refl, tt));
  fixed_resources = λ params r s e f. ground arith;
}

-- Every template of the registry is sound, for every parameter map.
pub templates-IsSound : (lib : Library) → All IsSound (templates lib)
unfolding templates
templates-IsSound lib =
    (nginx-IsSound lib, (firefox-IsSound, (chrome-IsSound, (webtop-IsSound, tt))))

pub find_template-id :
    (id : String) (ts : List Template) (t : Template) → find_template id ts ≡ some t → t.id ≡ id
unfolding find_template
find_template-id id [] t e = cc
find_template-id id (x ∷ ts) t e = ground (arith, eq_iff x.id id, find_template-id id ts t)

pub find_template-All {κ} :
    (P : Template → Type κ) (id : String) (ts : List Template) (t : Template)
    → All P ts
    → find_template id ts ≡ some t
    → P t
unfolding find_template
find_template-All P id [] t h e = cc
find_template-All P id (x ∷ ts) t h e = elim (Bool-cases (x.id == id)) [
  | inl hit ↦ let same : x ≡ t = ground arith in subst P same h.0
  | inr miss ↦ find_template-All P id ts t h.1 (ground arith)
]

-- A template that a lookup finds has the id that was asked for, and is sound.
get-IsSound :
    (lib : Library) (id : String) (t : Template) → get lib id ≡ some t → (t.id ≡ id) × IsSound t
unfolding get
get-IsSound lib id t e = (
  find_template-id id (templates lib) t e,
  find_template-All IsSound id (templates lib) t (templates-IsSound lib) e,
)
