-- ===== src/Catalog/Types.antt =====
-- internal/catalog/types.go: the schema of a template. The result of `Build`, the parameters with
-- their data sources, visibility and validation, and the operations on a running workload.
use ai_cloud_operator.Base.{String, List, Option, Bool, Result}
use ai_cloud_operator.Base.Int.{ℤ}
use ai_cloud_operator.Kube.{Container, Volume, ServicePort}

-- A value of Go's `any`. JSON decoding yields all cases but `int` and `int32`. A float64 from JSON
-- is finite, so it is a whole number of the least positive float64, 2 ^ -1074: `float` holds that
-- number, and orders and equations between floats are those between integers.
mutual
  pub data Value : Type 0 where
    null : Value
    bool : Bool → Value
    float : ℤ → Value
    int : ℤ → Value
    int32 : ℤ → Value
    text : String → Value
    array : Items → Value
    object : Fields → Value

  pub data Items : Type 0 where
    nil : Items
    cons : Value → Items → Items

  pub data Fields : Type 0 where
    end : Fields
    field : String → Value → Fields → Fields

-- `map[string]any`.
abbrev pub Params : Type 0
Params = List (String × Value)

-- What a template writes for an `any`, a default or a value to compare with. These are
-- comparable, so `==` against them never panics.
pub data Literal : Type 0 where
  bool : Bool → Literal
  float : ℤ → Literal
  text : String → Literal

pub data ParameterType : Type 0 where
  string number boolean select : ParameterType

pub data DataSourceKind : Type 0 where
  static dynamic system file file_options : DataSourceKind

pub data FileDirection : Type 0 where
  unset upload download : FileDirection

pub record DataSource : Type 0 where
  pub kind : DataSourceKind
  pub source_key : String
  pub direction : FileDirection
  pub source_param : String
  pub group : String

-- `other` is any text that is none of the three constants.
pub data VisibilityOp : Type 0 where
  equals not_equals one_of other : VisibilityOp

pub record Visibility : Type 0 where
  pub depends_on : String
  pub op : VisibilityOp
  pub value : Literal
  pub values : List Literal

pub record Validation : Type 0 where
  pub required : Bool
  pub min : Option ℤ
  pub max : Option ℤ
  pub regex : String
  pub max_length : Option ℤ

pub record SelectOption : Type 0 where
  pub value : String
  pub label : String

pub record Parameter : Type 0 where
  pub key : String
  pub label : String
  pub description : String
  pub kind : ParameterType
  pub data_source : DataSource
  pub default : Option Literal
  pub options : List SelectOption
  pub visibility : Option Visibility
  pub validation : Validation

pub record Rendered : Type 0 where
  pub containers : List Container
  pub init_containers : List Container
  pub volumes : List Volume
  pub service_ports : List ServicePort

pub record PodRef : Type 0 where
  pub namespace : String
  pub pod_name : String

pub data AdditionalInfoType : Type 0 where
  secret plain : AdditionalInfoType

pub record AdditionalInfo : Type 0 where
  pub name : String
  pub kind : AdditionalInfoType
  pub value : Value

pub record FileResult : Type 0 where
  pub kind : String
  pub label : String

pub record OperationResult : Type 0 where
  pub additional_info : List AdditionalInfo
  pub file : Option FileResult

pub record Entrypoint : Type 0 where
  pub name : String
  pub label : String

-- Functions of the standard library and of Kubernetes that the catalog calls.
pub record Library : Type 0 where
  -- `%q`, `%g` and `%d` of fmt, and strconv.FormatInt.
  pub quote : String → String
  pub show_float : ℤ → String
  pub show_int : ℤ → String
  -- float64(n) of an int.
  pub float_of_int : ℤ → ℤ
  -- int32(x) of a float64, and of an int.
  pub int32_of_float : ℤ → ℤ
  pub int32_of_int : ℤ → ℤ
  -- regexp.MatchString(pattern, s).
  pub match_string : String → String → Result Bool
  -- json.Unmarshal into, and json.Marshal of, a map[string]any.
  pub json_decode : String → Result Params
  pub json_encode : Params → Result String
  -- MilliValue() and Value() of a parsed quantity.
  pub milli_value : String → ℤ
  pub byte_value : String → ℤ
