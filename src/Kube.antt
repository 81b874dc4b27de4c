-- ===== src/Kube.antt =====
-- The Kubernetes objects, cut down to the fields that the operator reads or writes. An int32 is an
-- integer, a quantity is its text, and a time counts nanoseconds from Go's zero time.
use ai_cloud_operator.Base.{ℕ, String, List, Option}
use ai_cloud_operator.Base.Int.{ℤ}

pub record EnvVar : Type 0 where
  pub name : String
  pub value : String

pub record ContainerPort : Type 0 where
  pub container_port : ℤ
  pub name : String

-- A resource list: `none` where the entry is missing.
pub record ResourceList : Type 0 where
  pub cpu : Option String
  pub memory : Option String

pub record Resources : Type 0 where
  pub limits : ResourceList
  pub requests : ResourceList

pub record VolumeMount : Type 0 where
  pub mount_path : String
  pub name : String

pub record Probe : Type 0 where
  pub failure_threshold : ℤ
  pub initial_delay_seconds : ℤ
  pub period_seconds : ℤ
  pub path : String
  pub port : ℤ
  pub timeout_seconds : ℤ

pub record Container : Type 0 where
  pub command : List String
  pub env : List EnvVar
  pub image : String
  pub liveness_probe : Option Probe
  pub name : String
  pub ports : List ContainerPort
  pub readiness_probe : Option Probe
  pub resources : Resources
  pub volume_mounts : List VolumeMount

-- A volume backed by an EmptyDir: its medium, "" for the default, and its size limit.
pub record Volume : Type 0 where
  pub name : String
  pub medium : String
  pub size_limit : Option String

pub record ServicePort : Type 0 where
  pub name : String
  pub port : ℤ
  pub target_port : ℤ

pub record PodCondition : Type 0 where
  pub kind : String
  pub status : String
  pub reason : String
  pub message : String
  pub last_transition_time : ℕ

pub record Pod : Type 0 where
  pub name : String
  pub namespace : String
  pub labels : List (String × String)
  pub node_name : String
  pub phase : String
  pub conditions : List PodCondition

-- The part of a Deployment that the operator reads back.
pub record Deployment : Type 0 where
  pub replicas : Option ℤ
  pub containers : List Container
  pub ready_replicas : ℤ

pub record Node : Type 0 where
  pub name : String
  pub allocatable : ResourceList
