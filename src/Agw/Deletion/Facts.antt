-- ===== src/Agw/Deletion/Facts.antt =====
-- What a history shows of the teardown of a `MagmaAGW`.
use magma_operator.Agw.Datapath.{has_label}
use magma_operator.Base.{
  All, Bool, Dict, List, String, [], false, inr, none, remove, true, ◌<◌, ◌∷◌, ◌≡◌,
}
use magma_operator.Kube.Frame.{IsStable, NoError, Seen}
use magma_operator.Kube.Objects.{Manifest, Meta}
use magma_operator.Kube.Prog.{Answer, Call, Kind, delete, get, list, ok, patch}
use magma_operator.Kube.Sat.{History}

-- A patch of the resource itself, which is how its finalizers change.
abbrev pub is_agw_patch : Call → Bool
is_agw_patch (patch Kind.agw old new) = true
is_agw_patch _ = false

-- A manifest object was deleted, or was not there.
abbrev pub Removed : Manifest → (c : Call) → Answer c → Type 0
Removed o (delete Kind.manifest o' background) failed = (o' ≡ o) × NoError failed
Removed o _ _ = ⊥

abbrev pub RemovedClaim : Meta → (c : Call) → Answer c → Type 0
RemovedClaim m (delete Kind.claim m' background) failed = (m' ≡ m) × NoError failed
RemovedClaim m _ _ = ⊥

abbrev pub RemovedSecret : Meta → (c : Call) → Answer c → Type 0
RemovedSecret m (delete Kind.secret s background) failed = (s.meta ≡ m) × NoError failed
RemovedSecret m _ _ = ⊥

-- A job of a namespace and name was read, and had succeeded.
abbrev pub SawSuccess : String → String → (c : Call) → Answer c → Type 0
SawSuccess namespace name (get Kind.job namespace' name') (ok j) =
    (namespace' ≡ namespace) × (name' ≡ name) × (0 < j.succeeded)
SawSuccess namespace name _ _ = ⊥

-- The nodes of a selector were read.
abbrev pub SawNodes : Dict String → List Meta → (c : Call) → Answer c → Type 0
SawNodes selector nodes (list Kind.node namespace selector') (ok found) =
    (selector' ≡ selector) × (found ≡ nodes)
SawNodes selector nodes _ _ = ⊥

-- A node was patched to lack a label.
abbrev pub Unlabelled : String → Meta → (c : Call) → Answer c → Type 0
Unlabelled key n (patch Kind.node old new) failed =
    (old ≡ n) × (new ≡ record n { labels = remove key n.labels }) × (failed ≡ none)
Unlabelled key n _ _ = ⊥

abbrev pub Was : ((c : Call) → Answer c → Type 0) → History → Type 0
Was P = Seen (λ e. P e.call e.answer)

-- All labels of the gate on some nodes were taken off.
abbrev pub AllUnlabelled : String → List Meta → History → Type 0
AllUnlabelled key nodes h = All (λ n. has_label key n ≡ true → Was (Unlabelled key n) h) nodes

-- What was seen of every item of a list stays seen.
pub All-Was {ℓ} :
    {A : Type ℓ} (P : A → (c : Call) → Answer c → Type 0) (xs : List A)
    → IsStable (λ h. All (λ x. Was (P x) h) xs)
All-Was P [] h c r s = tt
All-Was P (x ∷ xs) h c r s = (inr s.0, All-Was P xs h c r s.1)

pub AllUnlabelled-IsStable : (key : String) (nodes : List Meta) → IsStable (AllUnlabelled key nodes)
AllUnlabelled-IsStable key [] h c r s = tt
AllUnlabelled-IsStable key (n ∷ ns) h c r s =
    (λ labelled. inr (s.0 labelled), AllUnlabelled-IsStable key ns h c r s.1)
