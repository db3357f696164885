-- ===== src/Agw/Deletion/Progress.antt =====
-- A deletion that meets no error is finished in one reconcile: `reconcileAGWDeletion` of
-- internal/controller/magmaagw_controller.go.
use magma_operator.Agw.Datapath.{has_label, remove_agw_datapath_labels, selected_agw_nodes}
use magma_operator.Agw.Deletion.{cleanup_agw_durable_state, delete_identity_secret, release_nodes}
use magma_operator.Agw.Inputs.{agw_node_selector_of}
use magma_operator.Agw.Names.{datapath_ready_label_key}
use magma_operator.Api.Agw.{DatapathSpec, MagmaAgw}
use magma_operator.Base.{
  Bool, Dict, List, Option, String, [], false, if◌then◌else◌, none, not, refl, some, true, ◌<◌, ◌∷◌,
  ◌≡◌,
}
use magma_operator.Kube.Frame.{NoError}
use magma_operator.Kube.Objects.{Container, Deployment, Job, Manifest, Meta}
use magma_operator.Kube.Prog.{
  Answer, Call, Error, Kind, Obj, Prog, call, check, check_error, delete, get, list, ok, patch, ret,
  send, ◌>>=◌,
}
use magma_operator.Native.Release.{delete_each, delete_native_object}

-- Answers that hold nothing up: reads find what they ask for, the deregistration job has succeeded,
-- magmalte has a container, and no change fails, where a delete may find nothing.
abbrev pub IsFine : (c : Call) → Answer c → Type 0
IsFine (get Kind.job namespace name) r = (j : Job) × (r ≡ ok j) × (0 < j.succeeded)
IsFine (get Kind.deployment namespace name) r =
    (d : Deployment) × (image : Container) × (others : List Container) × (r ≡ ok d)
    × (d.containers ≡ image ∷ others)
IsFine (get k namespace name) r = (o : Obj k) × (r ≡ ok o)
IsFine (list k namespace labels) r = (os : List (Obj k)) × (r ≡ ok os)
IsFine (patch k old new) failed = failed ≡ none
IsFine (delete k o background) failed = NoError failed
IsFine c r = Unit

abbrev pub EndsAt : {A : Type 0} → (A → Type 0) → Prog A → Type 0
EndsAt Q (ret a) = Q a
EndsAt Q (call c k) = (r : Answer c) → IsFine c r → EndsAt Q (k r)

-- Whatever fine answers a program gets, its result satisfies `Q`.
pub record Ends {A : Type 0} (Q : A → Type 0) (m : Prog A) : Type 0 where
  pub at : EndsAt Q m

module _ {A : Type 0} (Q : A → Type 0) where
  pub Ends-ret : (a : A) → Q a → Ends Q (ret a)
  Ends-ret a q = record { at = q }

  pub Ends-if :
      (b : Bool) (m n : Prog A)
      → (b ≡ true → Ends Q m)
      → (b ≡ false → Ends Q n)
      → Ends Q (if b then m else n)
  Ends-if true m n s t = s refl
  Ends-if false m n s t = t refl

  pub Ends-send :
      (c : Call) (f : Answer c → Prog A)
      → ((r : Answer c) → IsFine c r → Ends Q (f r))
      → Ends Q (send c >>= f)
  unfolding ◌>>=◌ send
  Ends-send c f s = record { at = λ r fine. (s r fine).at }

  module _ {B : Type 0} (R : B → Type 0) where
    EndsAt-bind :
        (m : Prog A) (f : A → Prog B)
        → EndsAt Q m
        → ((a : A) → Q a → Ends R (f a))
        → EndsAt R (m >>= f)
    unfolding ◌>>=◌
    EndsAt-bind (ret a) f q s = (s a q).at
    EndsAt-bind (call c k) f q s = λ r fine. EndsAt-bind (k r) f (q r fine) s

    pub Ends-bind :
        (m : Prog A) (f : A → Prog B) → Ends Q m → ((a : A) → Q a → Ends R (f a)) → Ends R (m >>= f)
    Ends-bind m f q s = record { at = EndsAt-bind m f q.at s }

-- No error is returned.
abbrev pub Succeeds : Prog (Option Error) → Type 0
Succeeds m = Ends (λ failed. failed ≡ none) m

then_go_on :
    (m rest : Prog (Option Error))
    → Succeeds m
    → Succeeds rest
    → Succeeds (m >>= λ failed. check_error failed (λ e. ret (some e)) rest)
then_go_on m rest p q = Ends-bind _ _ m _ p (λ failed fine. rw fine q)

delete_native_object-Succeeds : (o : Manifest) → Succeeds (delete_native_object o)
unfolding delete_native_object
delete_native_object-Succeeds o =
    Ends-send _ (delete Kind.manifest o true) _ (λ r fine. Ends-ret _ _ fine)

pub delete_each-Succeeds : (os : List Manifest) → Succeeds (delete_each os)
unfolding delete_each
delete_each-Succeeds [] = Ends-ret _ none refl
delete_each-Succeeds (o ∷ os) =
    then_go_on _ _ (delete_native_object-Succeeds o) (delete_each-Succeeds os)

remove_labels-Succeeds :
    (datapath : DatapathSpec) (nodes : List Meta)
    → Succeeds (remove_agw_datapath_labels datapath nodes)
unfolding remove_agw_datapath_labels
remove_labels-Succeeds datapath [] = Ends-ret _ none refl
remove_labels-Succeeds datapath (n ∷ ns) =
    Ends-if _ (not (has_label (datapath_ready_label_key datapath) n)) _ _
      (λ _. remove_labels-Succeeds datapath ns)
      (λ _.
        Ends-send _ (patch Kind.node n _) _
          (λ failed fine. rw fine (remove_labels-Succeeds datapath ns)))

pub release_nodes-Succeeds : (agw : MagmaAgw) → Succeeds (release_nodes agw)
unfolding release_nodes
release_nodes-Succeeds agw = go (agw_node_selector_of agw)
  where
    go :
        (selector : Dict String)
        → Succeeds (elim selector [
          | [] ↦ ret none
          | s ∷ ss ↦ do
            selected ← selected_agw_nodes (s ∷ ss)
            check selected (λ e. ret (some e)) (remove_agw_datapath_labels agw.spec.datapath)
        ])
    go [] = Ends-ret _ none refl
    go (s ∷ ss) =
        Ends-send _ (list Kind.node none (s ∷ ss)) _
          (λ r (nodes, found). rw found (remove_labels-Succeeds agw.spec.datapath nodes))

delete_identity_secret-Succeeds : (agw : MagmaAgw) → Succeeds (delete_identity_secret agw)
unfolding delete_identity_secret
delete_identity_secret-Succeeds agw =
    Ends-if _ agw.spec.deletion_policy.delete_identity_secret _ _
      (λ _. Ends-send _ (delete Kind.secret _ false) _ (λ r fine. Ends-ret _ _ fine))
      (λ _. Ends-ret _ none refl)

pub cleanup-Succeeds :
    (agw : MagmaAgw) (release_name : String) → Succeeds (cleanup_agw_durable_state agw release_name)
unfolding cleanup_agw_durable_state
cleanup-Succeeds agw release_name =
    Ends-if _ agw.spec.deletion_policy.delete_pvc _ _
      (λ _.
        Ends-send _ (delete Kind.claim _ false) _
          (λ r fine. rw fine (delete_identity_secret-Succeeds agw)))
      (λ _. delete_identity_secret-Succeeds agw)
