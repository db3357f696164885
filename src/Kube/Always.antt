-- ===== src/Kube/Always.antt =====
-- What holds at the end of a program whatever was exchanged before it: only the last calls matter.
use magma_operator.Base.{Bool, Option, if◌then◌else◌}
use magma_operator.Kube.Frame.{AnyCall, Sat-any}
use magma_operator.Kube.Prog.{Error, Prog, Result, check, check_error, ◌>>=◌}
use magma_operator.Kube.Sat.{History, Sat, Sat-bind, Sat-check, Sat-check_error, Sat-if}

pub record Always {A : Type 0} (Q : History → A → Type 0) (m : Prog A) : Type 0 where
  pub at : (h : History) → Sat AnyCall Q h m

module _ {A : Type 0} {Q : History → A → Type 0} where
  pub Always-bind :
      {B : Type 0} (m : Prog B) (f : B → Prog A) → ((b : B) → Always Q (f b)) → Always Q (m >>= f)
  Always-bind m f ends = record {
    at = λ h. Sat-bind (λ _ _. Unit {0}) h m f (Sat-any h m) (λ h' b _. (ends b).at h');
  }

  pub Always-if :
      (b : Bool) (m n : Prog A) → Always Q m → Always Q n → Always Q (if b then m else n)
  Always-if b m n p q = record { at = λ h. Sat-if b h m n (λ _. p.at h) (λ _. q.at h) }

  pub Always-check :
      {B : Type 0} (r : Result B) (f : Error → Prog A) (g : B → Prog A)
      → ((e : Error) → Always Q (f e))
      → ((b : B) → Always Q (g b))
      → Always Q (check r f g)
  Always-check r f g p q = record {
    at = λ h. Sat-check r h f g (λ e _. (p e).at h) (λ b _. (q b).at h);
  }

  pub Always-check_error :
      (r : Option Error) (f : Error → Prog A) (m : Prog A)
      → ((e : Error) → Always Q (f e))
      → Always Q m
      → Always Q (check_error r f m)
  Always-check_error r f m p q = record {
    at = λ h. Sat-check_error r h f m (λ e _. (p e).at h) (λ _. q.at h);
  }

pub ruleset always_rules = (Always-bind, Always-if, Always-check, Always-check_error)
