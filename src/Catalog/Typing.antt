-- ===== src/Catalog/Typing.antt =====
-- internal/catalog: the types that the parameters declare, and the values that they get.
use ai_cloud_operator.Base.{
  String, List, [], ◌∷◌, Option, none, some, ◌==◌, ok, ◌≡◌, ◌↔◌, Bool-cases, subst, lookup, All,
  inl, inr, arith,
}
use ai_cloud_operator.Catalog.Types.{Value, Params, ParameterType, Parameter, Library}
use ai_cloud_operator.Catalog.Params.{of_literal, apply_defaults, resolve_params}
use ai_cloud_operator.Catalog.Resolving.{
  default_of, or_else, lookup-apply_defaults, resolve_params_iff,
}
use ai_cloud_operator.Catalog.Browser.{browser_parameters}
use ai_cloud_operator.Catalog.Backup.{Operation, backup_parameters, backup_state_function}
use ai_cloud_operator.Catalog.Template.{Template}
use ai_cloud_operator.Catalog.Nginx.{nginx, nginx_parameters}
use ai_cloud_operator.Catalog.Desktop.{firefox, chrome, webtop}
use ai_cloud_operator.Catalog.Registry.{templates, get, find_operation, get_operation}
use ai_cloud_operator.Catalog.Entries.{find_template-All}

-- A value of the declared type, as JSON decoding or a caller in Go writes it.
abbrev pub Fits : ParameterType → Value → Type 0
Fits ParameterType.string (Value.text s) = Unit
Fits ParameterType.select (Value.text s) = Unit
Fits ParameterType.boolean (Value.bool b) = Unit
Fits ParameterType.number (Value.float x) = Unit
Fits ParameterType.number (Value.int n) = Unit
Fits ParameterType.number (Value.int32 n) = Unit
Fits _ _ = ⊥

abbrev pub FitsWhere : ParameterType → Option Value → Type 0
FitsWhere kind none = Unit
FitsWhere kind (some v) = Fits kind v

-- Each parameter that has a value has one of its declared type.
abbrev pub IsTyped : List Parameter → Params → Type 0
IsTyped ps m = All (λ p. FitsWhere p.kind (lookup p.key m)) ps

-- The default that a key gets is of the type of every parameter with that key.
abbrev HasTypedDefaults : List Parameter → Type 0
HasTypedDefaults ps = All (λ p. FitsWhere p.kind (default_of p.key ps)) ps

FitsWhere-or_else :
    (kind : ParameterType) (o d : Option Value)
    → FitsWhere kind d
    → FitsWhere kind (or_else o d) ↔ FitsWhere kind o
FitsWhere-or_else kind none d h = (λ x. tt, λ x. h)
FitsWhere-or_else kind (some v) d h = (λ x. x, λ x. x)

-- With `ps` the whole list of parameters, for a part `qs` of it.
apply_defaults-IsTyped :
    (ps : List Parameter) (raw : Params) (qs : List Parameter)
    → All (λ p. FitsWhere p.kind (default_of p.key ps)) qs
    → IsTyped qs raw ↔ IsTyped qs (apply_defaults ps raw)
apply_defaults-IsTyped ps raw [] h = (λ x. tt, λ x. tt)
apply_defaults-IsTyped ps raw (p ∷ qs) (h, hs) =
    let others = apply_defaults-IsTyped ps raw qs hs in
    let one = FitsWhere-or_else p.kind (lookup p.key raw) (default_of p.key ps) h in
    let same = lookup-apply_defaults ps raw p.key in
    (λ (x, xs). (rw same (one.1 x), others.0 xs), λ (x, xs). (one.0 (rw same at x), others.1 xs))

record HasTypes (t : Template) : Type 0 where
  parameters : HasTypedDefaults t.parameters
  operations : All (λ op. HasTypedDefaults op.parameters) t.operations

backup-HasTypedDefaults : (key : String) → HasTypedDefaults (backup_parameters key)
unfolding backup_parameters default_of of_literal
backup-HasTypedDefaults key = (tt, (tt, tt))

browser-HasTypedDefaults : (key : String) → HasTypedDefaults (browser_parameters key)
unfolding browser_parameters default_of of_literal
browser-HasTypedDefaults key = (tt, (tt, (tt, tt)))

nginx-HasTypes : (lib : Library) → HasTypes (nginx lib)
unfolding nginx nginx_parameters default_of of_literal
nginx-HasTypes lib = record { parameters = (tt, (tt, tt)); operations = tt }

firefox-HasTypes : HasTypes firefox
unfolding firefox backup_state_function
firefox-HasTypes = record {
  parameters = browser-HasTypedDefaults "profiles_firefox";
  operations = (backup-HasTypedDefaults "profiles_firefox", tt);
}

chrome-HasTypes : HasTypes chrome
unfolding chrome backup_state_function
chrome-HasTypes = record {
  parameters = browser-HasTypedDefaults "profiles_chrome";
  operations = (backup-HasTypedDefaults "profiles_chrome", tt);
}

webtop-HasTypes : HasTypes webtop
unfolding webtop backup_state_function browser_parameters default_of of_literal
webtop-HasTypes = record {
  parameters = (tt, (tt, (tt, (tt, tt))));
  operations = (backup-HasTypedDefaults "profiles_webtop", tt);
}

templates-HasTypes : (lib : Library) → All HasTypes (templates lib)
unfolding templates
templates-HasTypes lib =
    (nginx-HasTypes lib, (firefox-HasTypes, (chrome-HasTypes, (webtop-HasTypes, tt))))

find_operation-All {κ} :
    (P : Operation → Type κ) (key : String) (ops : List Operation) (op : Operation)
    → All P ops
    → find_operation key ops ≡ some op
    → P op
unfolding find_operation
find_operation-All P key [] op h e = cc
find_operation-All P key (x ∷ ops) op h e = elim (Bool-cases (x.key == key)) [
  | inl hit ↦ let same : x ≡ op = ground arith in subst P same h.0
  | inr miss ↦ find_operation-All P key ops op h.1 (ground arith)
]

-- The parameters that a template declares for itself, or for one of its operations.
pub data Declares (t : Template) : List Parameter → Type 0 where
  itself : {ps : List Parameter} → ps ≡ t.parameters → Declares t ps
  operation :
      {ps : List Parameter} (key : String) (op : Operation)
      → get_operation t key ≡ some op
      → ps ≡ op.parameters
      → Declares t ps

Declares-HasTypedDefaults :
    (t : Template) (ps : List Parameter) → HasTypes t → Declares t ps → HasTypedDefaults ps
unfolding get_operation
Declares-HasTypedDefaults t ps h (itself same) = rw same h.parameters
Declares-HasTypedDefaults t ps h (operation key op found same) =
    rw same (
      find_operation-All (λ o. HasTypedDefaults o.parameters) key t.operations op h.operations
        found)

-- For the parameters that a template of the registry, or one of its operations, declares: where
-- resolution succeeds, each parameter with a value in the result has one of its declared type
-- exactly where that is so of the map that the caller gave.
pub resolve_params-IsTyped :
    (lib : Library) (id : String) (t : Template) (ps : List Parameter) (raw m : Params)
    → get lib id ≡ some t
    → Declares t ps
    → resolve_params lib ps raw ≡ ok m
    → IsTyped ps m ↔ IsTyped ps raw
unfolding get
resolve_params-IsTyped lib id t ps raw m found declared e =
    let types = find_template-All HasTypes id (templates lib) t (templates-HasTypes lib) found in
    let (both_0, both_1) =
      apply_defaults-IsTyped ps raw ps (Declares-HasTypedDefaults t ps types declared) in
    let (same, _, accepted) = (resolve_params_iff lib ps raw m).0 e in
    (λ x. both_1 (rw same at x), λ x. rw same (both_0 x))
