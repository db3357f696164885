-- ===== src/Kube/Objects.antt =====
-- The fields of the Kubernetes objects (`k8s.io/api`) that the operator reads or writes.
use magma_operator.Base.{ℕ, String, Bool, Option, List, Dict}
use magma_operator.Base.Int.{ℤ}

-- `metav1.ObjectMeta`. An owner is known by its name.
pub record Meta : Type 0 where
  pub namespace : String
  pub name : String
  pub labels : Dict String
  pub annotations : Dict String
  pub finalizers : List String
  pub generation : ℕ
  pub is_deleted : Bool
  pub owner_references : List String

abbrev pub new_meta : String → String → Meta
new_meta namespace name = record {
  namespace = namespace;
  name = name;
  labels = List.[];
  annotations = List.[];
  finalizers = List.[];
  generation = 0;
  is_deleted = Bool.false;
  owner_references = List.[];
}

-- `metav1.ConditionStatus`
pub data ConditionStatus : Type 0 where
  condition_true condition_false condition_unknown : ConditionStatus

-- `metav1.Condition`, without the transition time that the library keeps.
pub record Condition : Type 0 where
  pub type : String
  pub status : ConditionStatus
  pub reason : String
  pub message : String
  pub observed_generation : ℕ

pub record EnvVar : Type 0 where
  pub name : String
  pub value : String

pub record VolumeMount : Type 0 where
  pub name : String
  pub mount_path : String
  pub sub_path : String
  pub read_only : Bool

pub data VolumeSource : Type 0 where
  claim : String → VolumeSource
  secret : String → ℕ → VolumeSource

pub record Volume : Type 0 where
  pub name : String
  pub source : VolumeSource

pub record Container : Type 0 where
  pub name : String
  pub image : String
  pub image_pull_policy : String
  pub command : List String
  pub args : List String
  pub env : List EnvVar
  pub volume_mounts : List VolumeMount

-- `batchv1.Job`
pub record Job : Type 0 where
  pub meta : Meta
  pub backoff_limit : Option ℕ
  pub ttl_seconds_after_finished : Option ℕ
  pub active_deadline_seconds : Option ℤ
  pub service_account_name : String
  pub restart_policy : String
  pub containers : List Container
  pub volumes : List Volume
  pub succeeded : ℕ
  pub failed : ℕ

-- `appsv1.Deployment`
pub record Deployment : Type 0 where
  pub meta : Meta
  pub replicas : Option ℕ
  pub template_annotations : Dict String
  pub containers : List Container
  pub observed_generation : ℕ
  pub ready_replicas : ℕ
  pub available_replicas : ℕ

-- `appsv1.DaemonSet`
pub record DaemonSet : Type 0 where
  pub meta : Meta
  pub desired_number_scheduled : ℕ
  pub number_ready : ℕ

-- `corev1.Secret`; a byte slice is the text of its bytes.
pub record Secret : Type 0 where
  pub meta : Meta
  pub type : String
  pub contents : Dict String

pub record ConfigMap : Type 0 where
  pub meta : Meta
  pub contents : Dict String

pub record Service : Type 0 where
  pub meta : Meta
  pub cluster_ip : String

pub record Pod : Type 0 where
  pub meta : Meta
  pub phase : String
  pub reason : String

pub record PolicyRule : Type 0 where
  pub api_groups : List String
  pub resources : List String
  pub verbs : List String

pub record Role : Type 0 where
  pub meta : Meta
  pub rules : List PolicyRule

pub record Subject : Type 0 where
  pub kind : String
  pub name : String
  pub namespace : String

pub record RoleRef : Type 0 where
  pub api_group : String
  pub kind : String
  pub name : String

pub record RoleBinding : Type 0 where
  pub meta : Meta
  pub subjects : List Subject
  pub role_ref : RoleRef

-- `unstructured.Unstructured`: `body` is the text of the fields beside the kind and the metadata.
pub record Manifest : Type 0 where
  pub kind : String
  pub meta : Meta
  pub body : String
