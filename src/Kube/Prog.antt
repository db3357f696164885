-- ===== src/Kube/Prog.antt =====
-- The calls of `client.Client` and of the random sources, and programs that make them. A program
-- is a tree: it returns, or it makes a call and goes on with the answer, whatever that is. So what
-- holds of a program holds against every API server.
use magma_operator.Base.{
  ℕ, String, Bool, true, false, Option, none, some, List, Dict, if◌then◌else◌,
}
use magma_operator.Kube.Objects.{
  Meta, Secret, ConfigMap, Service, Pod, Job, Deployment, DaemonSet, Role, RoleBinding, Manifest,
}
use magma_operator.Api.Agw.{MagmaAgw}
use magma_operator.Api.Orc8r.{MagmaOrc8r}

-- What `apierrors` tells apart.
pub data ErrorClass : Type 0 where
  not_found conflict invalid other : ErrorClass

-- A Go `error` that is not nil.
pub record Error : Type 0 where
  pub class : ErrorClass
  pub message : String

abbrev pub is_not_found : Error → Bool
is_not_found e = elim e.class [ not_found ↦ true | _ ↦ false ]

abbrev pub is_conflict : Error → Bool
is_conflict e = elim e.class [ conflict ↦ true | _ ↦ false ]

abbrev pub is_invalid : Error → Bool
is_invalid e = elim e.class [ invalid ↦ true | _ ↦ false ]

-- `fmt.Errorf` of a new error
abbrev pub new_error : String → Error
new_error message = record { class = other; message = message }

-- `(A, error)`
pub data Result (A : Type 0) : Type 0 where
  ok : A → Result A
  err : Error → Result A

-- `if err != nil { … }` on a result and on a plain error
abbrev pub check : {A B : Type 0} → Result A → (Error → B) → (A → B) → B
check (ok a) f g = g a
check (err e) f g = f e

abbrev pub check_error : {B : Type 0} → Option Error → (Error → B) → B → B
check_error none f b = b
check_error (some e) f b = f e

-- `if err != nil && !apierrors.IsNotFound(err)`
abbrev pub ignore_not_found : Option Error → Option Error
ignore_not_found none = none
ignore_not_found (some e) = if is_not_found e then none else some e

pub data Kind : Type 0 where
  agw orc8r secret config_map service claim pod node job deployment daemon_set : Kind
  service_account role role_binding manifest : Kind

-- The Go type of the objects of a kind.
abbrev pub Obj : Kind → Type 0
Obj agw = MagmaAgw
Obj orc8r = MagmaOrc8r
Obj secret = Secret
Obj config_map = ConfigMap
Obj service = Service
Obj claim = Meta
Obj pod = Pod
Obj node = Meta
Obj job = Job
Obj deployment = Deployment
Obj daemon_set = DaemonSet
Obj service_account = Meta
Obj role = Role
Obj role_binding = RoleBinding
Obj manifest = Manifest

-- `patch k old new` sends the difference of two versions (`client.MergeFrom`), `apply` a
-- server-side apply. `delete k o b` is a delete, with background propagation if `b`.
pub data Call : Type 0 where
  get : Kind → String → String → Call
  get_manifest : Manifest → Call
  list : Kind → Option String → Dict String → Call
  create : (k : Kind) → Obj k → Call
  update : (k : Kind) → Obj k → Call
  update_status : (k : Kind) → Obj k → Call
  patch : (k : Kind) → Obj k → Obj k → Call
  apply : Manifest → Call
  delete : (k : Kind) → Obj k → Bool → Call
  generate_key : Call
  random_bytes : ℕ → Call
  generate_rsa_key : Call
  random_below : ℕ → Call
  now : Call

abbrev pub Answer : Call → Type 0
Answer (get k namespace name) = Result (Obj k)
Answer (get_manifest o) = Result Manifest
Answer (list k namespace labels) = Result (List (Obj k))
Answer generate_key = Result String
Answer (random_bytes n) = Result (List ℕ)
Answer generate_rsa_key = Result String
Answer (random_below n) = Result ℕ
Answer now = ℕ
Answer _ = Option Error

pub data Prog (A : Type 0) : Type 0 where
  ret : A → Prog A
  call : (c : Call) → (Answer c → Prog A) → Prog A

infixl 5 ◌>>=◌
unfoldable pub ◌>>=◌ : {A B : Type 0} → Prog A → (A → Prog B) → Prog B
ret a >>= f = f a
call c k >>= f = call c (λ r. k r >>= f)

unfoldable pub send : (c : Call) → Prog (Answer c)
send c = call c ret

-- `a, err := m; if err != nil { return …, err }`
abbrev pub attempt : {A B : Type 0} → Prog (Result A) → (A → Prog (Result B)) → Prog (Result B)
attempt m f = m >>= λ r. check r (λ e. ret (err e)) f
