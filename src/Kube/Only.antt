-- ===== src/Kube/Only.antt =====
-- Which calls a program can make at all, whatever was answered before.
use magma_operator.Base.{Bool, Dict, Option, String, false, if◌then◌else◌, true, ℕ, ◌≡◌}
use magma_operator.Kube.Frame.{Sat-weaken}
use magma_operator.Kube.Objects.{Manifest}
use magma_operator.Kube.Prog.{
  Call, Error, Kind, Obj, Prog, Result, apply, check, check_error, create, delete, generate_key,
  generate_rsa_key, now, random_below, get, get_manifest, list, patch, random_bytes, ret, send,
  update, update_status, ◌>>=◌,
}
use magma_operator.Kube.Sat.{
  History, Sat, Sat-bind, Sat-call, Sat-check, Sat-check_error, Sat-if, Sat-ret,
}

pub record Only {A : Type 0} (C : Call → Bool) (m : Prog A) : Type 0 where
  pub at : (h : History) → Sat (λ _ c. C c ≡ true) (λ _ _. Unit {0}) h m

module _ {C : Call → Bool} where
  module _ {A : Type 0} where
    pub Only-ret : (a : A) → Only C (ret a)
    Only-ret a = record { at = λ h. Sat-ret h a tt }

    pub Only-if : (b : Bool) (m n : Prog A) → Only C m → Only C n → Only C (if b then m else n)
    Only-if b m n s t = record { at = λ h. Sat-if b h m n (λ _. s.at h) (λ _. t.at h) }

    -- Only the branch that is taken matters.
    pub Only-else : {b : Bool} (m n : Prog A) → b ≡ false → Only C n → Only C (if b then m else n)
    Only-else {b} m n p t = record { at = λ h. Sat-if b h m n (λ q. cc) (λ _. t.at h) }

    pub Only-check :
        {B : Type 0} (r : Result B) (f : Error → Prog A) (g : B → Prog A)
        → ((e : Error) → Only C (f e))
        → ((b : B) → Only C (g b))
        → Only C (check r f g)
    Only-check r f g s t = record {
      at = λ h. Sat-check r h f g (λ e _. (s e).at h) (λ b _. (t b).at h);
    }

    pub Only-check_error :
        (r : Option Error) (f : Error → Prog A) (m : Prog A)
        → ((e : Error) → Only C (f e))
        → Only C m
        → Only C (check_error r f m)
    Only-check_error r f m s t = record {
      at = λ h. Sat-check_error r h f m (λ e _. (s e).at h) (λ _. t.at h);
    }

  Only-call : (c : Call) → C c ≡ true → Only C (send c)
  Only-call c p = record { at = λ h. Sat-call h c p (λ _. tt) }

  -- One rule for each kind of call, so that the answer's type is plain.
  pub Only-get :
      (k : Kind) (namespace name : String)
      → C (get k namespace name) ≡ true
      → Only C (send (get k namespace name))
  Only-get k namespace name p = Only-call _ p

  pub Only-get_manifest :
      (o : Manifest) → C (get_manifest o) ≡ true → Only C (send (get_manifest o))
  Only-get_manifest o p = Only-call _ p

  pub Only-list :
      (k : Kind) (namespace : Option String) (labels : Dict String)
      → C (list k namespace labels) ≡ true
      → Only C (send (list k namespace labels))
  Only-list k namespace labels p = Only-call _ p

  pub Only-create : (k : Kind) (o : Obj k) → C (create k o) ≡ true → Only C (send (create k o))
  Only-create k o p = Only-call _ p

  pub Only-update : (k : Kind) (o : Obj k) → C (update k o) ≡ true → Only C (send (update k o))
  Only-update k o p = Only-call _ p

  pub Only-update_status :
      (k : Kind) (o : Obj k) → C (update_status k o) ≡ true → Only C (send (update_status k o))
  Only-update_status k o p = Only-call _ p

  pub Only-patch :
      (k : Kind) (old new : Obj k) → C (patch k old new) ≡ true → Only C (send (patch k old new))
  Only-patch k old new p = Only-call _ p

  pub Only-apply : (o : Manifest) → C (apply o) ≡ true → Only C (send (apply o))
  Only-apply o p = Only-call _ p

  pub Only-delete :
      (k : Kind) (o : Obj k) (background : Bool)
      → C (delete k o background) ≡ true
      → Only C (send (delete k o background))
  Only-delete k o background p = Only-call _ p

  pub Only-generate_key : C generate_key ≡ true → Only C (send generate_key)
  Only-generate_key p = Only-call _ p

  pub Only-random_bytes : (n : ℕ) → C (random_bytes n) ≡ true → Only C (send (random_bytes n))
  Only-random_bytes n p = Only-call _ p

  pub Only-generate_rsa_key : C generate_rsa_key ≡ true → Only C (send generate_rsa_key)
  Only-generate_rsa_key p = Only-call _ p

  pub Only-random_below : (n : ℕ) → C (random_below n) ≡ true → Only C (send (random_below n))
  Only-random_below n p = Only-call _ p

  pub Only-now : C now ≡ true → Only C (send now)
  Only-now p = Only-call _ p

  pub Only-bind :
      {A B : Type 0} (m : Prog A) (f : A → Prog B)
      → Only C m
      → ((a : A) → Only C (f a))
      → Only C (m >>= f)
  Only-bind m f s t = record { at = λ h. Sat-bind _ h m f (s.at h) (λ h' a _. (t a).at h') }

-- What makes only the calls of `C` satisfies whatever these calls do.
pub Only-Sat :
    {A : Type 0} {C : Call → Bool} {D : History → Call → Type 0} (h : History) (m : Prog A)
    → ((h' : History) (c : Call) → C c ≡ true → D h' c)
    → Only C m
    → Sat D (λ _ _. Unit {0}) h m
Only-Sat h m calls only = Sat-weaken h m calls (λ _ _ _. tt) (only.at h)

pub Only-weaken :
    {A : Type 0} {C D : Call → Bool} (m : Prog A)
    → ((c : Call) → C c ≡ true → D c ≡ true)
    → Only C m
    → Only D m
Only-weaken m calls only = record { at = λ h. Only-Sat h m (λ _ c. calls c) only }

pub ruleset only_rules = (
  Only-ret, Only-bind, Only-if, Only-check, Only-check_error, Only-get, Only-get_manifest,
  Only-list, Only-create, Only-update, Only-update_status, Only-patch, Only-apply, Only-delete,
  Only-generate_key, Only-random_bytes, Only-generate_rsa_key, Only-random_below, Only-now,
)
