-- ===== src/Orc8r/Rollout/Annotated.antt =====
-- After a change of the certificate secret its hash is on every deployment:
-- `annotateOrc8rDeploymentsForSecretHash` of internal/controller/magmaorc8r_controller.go.
use magma_operator.Agw.Deletion.Facts.{Was}
use magma_operator.Agw.Lifecycle.{annotate}
use magma_operator.Agw.Names.{label_app_instance}
use magma_operator.Base.{
  All, List, String, [], all, entry, inl, inr, none, refl, some, true, ◌==◌, ◌∷◌, ◌≡◌, ◌⊎◌,
}
use magma_operator.Kube.Frame.{IsStable, Sat-frame, Sat-weaken}
use magma_operator.Kube.Library.{Library}
use magma_operator.Kube.Objects.{Deployment}
use magma_operator.Kube.Prog.{
  Answer, Call, Kind, check_error, err, get, is_not_found, list, ok, patch, ret, ◌>>=◌,
}
use magma_operator.Kube.Sat.{
  History, Sat, Sat-bind, Sat-check, Sat-check_error, Sat-if, Sat-ret, Sat-send, after,
}
use magma_operator.Orc8r.Names.{orc8r_secret_hash_annotation}
use magma_operator.Orc8r.Rollout.{annotate_each_with_secret_hash, annotate_orc8r_deployments}
use magma_operator.Orc8r.SecretHash.{secret_data_hash}

-- A secret was read, with contents of a hash.
abbrev pub SawSecretHash : Library → String → String → String → (c : Call) → Answer c → Type 0
SawSecretHash L namespace name hash (get Kind.secret namespace' name') (ok s) =
    (namespace' ≡ namespace) × (name' ≡ name) × (hash ≡ secret_data_hash L s.contents)
SawSecretHash L namespace name hash _ _ = ⊥

-- A secret was not there.
abbrev pub SawNoSecret : String → String → (c : Call) → Answer c → Type 0
SawNoSecret namespace name (get Kind.secret namespace' name') (err e) =
    (namespace' ≡ namespace) × (name' ≡ name) × (is_not_found e ≡ true)
SawNoSecret namespace name _ _ = ⊥

-- The deployments of a release were listed.
abbrev pub SawDeployments : String → String → List Deployment → (c : Call) → Answer c → Type 0
SawDeployments namespace release_name ds (list Kind.deployment namespace' labels) (ok found) =
    (namespace' ≡ some namespace)
    × (labels ≡ (label_app_instance, release_name) ∷ [])
    × (found ≡ ds)
SawDeployments namespace release_name ds _ _ = ⊥

-- A deployment was patched to have the hash, and nothing else was changed.
abbrev pub Marked : String → Deployment → (c : Call) → Answer c → Type 0
Marked hash d (patch Kind.deployment old new) failed =
    (old ≡ d) × (new ≡ annotate orc8r_secret_hash_annotation hash d) × (failed ≡ none)
Marked hash d _ _ = ⊥

-- A deployment had the hash, or was patched to have it.
abbrev pub HasHash : String → History → Deployment → Type 0
HasHash hash h d =
    ((entry orc8r_secret_hash_annotation d.template_annotations == hash) ≡ true)
    ⊎ Was (Marked hash d) h

abbrev pub AllHaveHash : String → List Deployment → History → Type 0
AllHaveHash hash ds h = All (HasHash hash h) ds

AllHaveHash-IsStable : (hash : String) (ds : List Deployment) → IsStable (AllHaveHash hash ds)
AllHaveHash-IsStable hash [] h c r all = tt
AllHaveHash-IsStable hash (d ∷ ds) h c r (here, rest) = (
  elim here [ inl had ↦ inl had | inr was ↦ inr (inr was) ],
  AllHaveHash-IsStable hash ds h c r rest,
)

-- What is known of a hash that the rollout returned: there is no secret, and the hash is empty; or
-- it is that of the secret's contents, and the deployments of the release have it.
pub data RolledOut (L : Library) (namespace release_name secret_name hash : String) (h : History)
    : Type 0 where
  no_secret :
      hash ≡ ""
      → Was (SawNoSecret namespace secret_name) h
      → RolledOut L namespace release_name secret_name hash h
  rolled_out :
      (ds : List Deployment)
      → Was (SawSecretHash L namespace secret_name hash) h
      → Was (SawDeployments namespace release_name ds) h
      → AllHaveHash hash ds h
      → RolledOut L namespace release_name secret_name hash h

pub RolledOut-IsStable :
    (L : Library) (namespace release_name secret_name hash : String)
    → IsStable (RolledOut L namespace release_name secret_name hash)
RolledOut-IsStable L namespace release_name secret_name hash h c r (no_secret e s) =
    no_secret e (inr s)
RolledOut-IsStable L namespace release_name secret_name hash h c r (rolled_out ds s l all) =
    rolled_out ds (inr s) (inr l) (AllHaveHash-IsStable hash ds h c r all)

-- Reads, and patches of deployments.
abbrev pub OnlyMarks : History → Call → Type 0
OnlyMarks h (get k namespace name) = Unit
OnlyMarks h (list k namespace labels) = Unit
OnlyMarks h (patch Kind.deployment old new) = Unit
OnlyMarks h _ = ⊥

annotate_each-AllHaveHash :
    (hash : String) (ds : List Deployment) (h : History)
    → Sat OnlyMarks
        (λ h' failed. failed ≡ none → AllHaveHash hash ds h')
        h
        (annotate_each_with_secret_hash hash ds)
unfolding annotate_each_with_secret_hash
annotate_each-AllHaveHash hash [] h = Sat-ret h none (λ _. tt)
annotate_each-AllHaveHash hash (d ∷ ds) h =
    Sat-if (entry orc8r_secret_hash_annotation d.template_annotations == hash) h _ _
      (λ had.
        Sat-weaken h _ (λ _ _ c. c) (λ _ _ s fine. (inl had, s fine))
          (annotate_each-AllHaveHash hash ds h))
      (λ _.
        Sat-send h (patch Kind.deployment d (annotate orc8r_secret_hash_annotation hash d)) _ tt
          (λ r.
            Sat-check_error r _ _ _ (λ e _. Sat-ret _ _ (λ bad. cc))
              (λ fine.
                Sat-weaken _ _ (λ _ _ c. c) (λ _ _ s none_failed. (inr s.1, s.0 none_failed))
                  (Sat-frame (Was (Marked hash d)) (λ _ _ _ was. inr was) _ _
                    (inl (refl, refl, fine)) (annotate_each-AllHaveHash hash ds _)))))

-- What follows the two reads.
mark_deployments-RolledOut :
    (L : Library) (namespace release_name secret_name hash : String) (ds : List Deployment)
    (h : History)
    → Was (SawSecretHash L namespace secret_name hash) h
    → Was (SawDeployments namespace release_name ds) h
    → Sat OnlyMarks
        (λ h' r.
          (hash' : String) → r ≡ ok hash' → RolledOut L namespace release_name secret_name hash' h')
        h
        (annotate_each_with_secret_hash hash ds >>= λ failed.
          check_error failed (λ e. ret (err e)) (ret (ok hash)))
mark_deployments-RolledOut L namespace release_name secret_name hash ds h seen listed =
    Sat-bind _ h _ _
      (Sat-frame
        (λ h'.
          Was (SawSecretHash L namespace secret_name hash) h'
          × Was (SawDeployments namespace release_name ds) h')
        (λ _ _ _ p. (inr p.0, inr p.1)) h _ (seen, listed) (annotate_each-AllHaveHash hash ds h))
      (λ h' failed q.
        Sat-check_error failed h' _ _ (λ e _. Sat-ret h' _ (λ hash' p. cc))
          (λ fine. Sat-ret h' _ (λ hash' p.
            let same : hash' ≡ hash = cc in rw same (rolled_out ds q.1.0 q.1.1 (q.0 fine)))))

-- `annotateOrc8rDeploymentsForSecretHash` changes nothing but deployments, and where it returns a
-- hash without an error, either the secret was not there and the hash is empty, or the hash is that
-- of the contents that the secret was read with, and each deployment of the release that was listed
-- had this hash or was patched to have it, without an error.
pub annotate_orc8r_deployments-RolledOut :
    (L : Library) (namespace release_name secret_name : String) (h : History)
    → Sat OnlyMarks
        (λ h' r.
          (hash : String) → r ≡ ok hash → RolledOut L namespace release_name secret_name hash h')
        h
        (annotate_orc8r_deployments L namespace release_name secret_name)
unfolding annotate_orc8r_deployments
annotate_orc8r_deployments-RolledOut L namespace release_name secret_name h =
    Sat-send h (get Kind.secret namespace secret_name) _ tt (λ r.
      Sat-check r _ _ _
        (λ e is_e.
          Sat-if (is_not_found e) _ _ _
            (λ missing.
              let seen : Was (SawNoSecret namespace secret_name)
                  (after h (get Kind.secret namespace secret_name) r) =
                inl (rw is_e (refl, refl, missing)) in
              Sat-ret _ _ (λ hash p. let empty : hash ≡ "" = cc in no_secret empty seen))
            (λ _. Sat-ret _ _ (λ hash p. cc)))
        (λ s is_s.
          Sat-send _
            (list Kind.deployment (some namespace) ((label_app_instance, release_name) ∷ [])) _ tt
            (λ r'.
              Sat-check r' _ _ _ (λ e _. Sat-ret _ _ (λ hash p. cc))
                (λ ds is_ds.
                  mark_deployments-RolledOut L namespace release_name secret_name
                    (secret_data_hash L s.contents) ds _ (inr (inl (rw is_s (refl, refl, refl))))
                    (inl (rw is_ds (refl, refl, refl)))))))
