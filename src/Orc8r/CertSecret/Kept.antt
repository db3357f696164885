-- ===== src/Orc8r/CertSecret/Kept.antt =====
-- When the certificates are kept: `reconcileOrc8rCertSecret` of
-- internal/controller/orc8r_certs.go.
use magma_operator.Agw.Deletion.Facts.{Was}
use magma_operator.Agw.Names.{default_nms_admin_cert_secret_name, root_ca_secret_key}
use magma_operator.Api.Orc8r.{MagmaOrc8r}
use magma_operator.Base.{
  Bool, Bool-cases, Option, String, [], arith, entry, eq_iff, false, if◌then◌else◌, inl, inr, none,
  refl, some, true, ◌==◌, ◌≡◌, ◌≢◌, ◌⊎◌,
}
use magma_operator.Kube.Frame.{Sat-frame, Sat-known, Sat-weaken}
use magma_operator.Kube.Library.{Library}
use magma_operator.Kube.Objects.{Secret}
use magma_operator.Kube.Prog.{
  Answer, Call, Kind, Prog, Result, check, create, err, generate_rsa_key, get, is_not_found, now,
  ok, random_below, ret, update,
}
use magma_operator.Kube.Sat.{History, Sat, Sat-if, Sat-ret, Sat-send, after}
use magma_operator.Orc8r.CertSecret.{
  found_cert_secret, fresh_cert_secret, is_current, reconcile_orc8r_cert_secret, renew_cert_secret,
}
use magma_operator.Orc8r.Names.{
  cert_domain_key, orc8r_cert_domain_annotation, orc8r_cert_hash_annotation,
}

-- The calls that make certificates and store them.
abbrev pub renews : Call → Bool
renews (create k o) = true
renews (update k o) = true
renews generate_rsa_key = true
renews (random_below n) = true
renews now = true
renews _ = false

-- A secret's certificates are for the names in the spec: it says so, and has a root certificate.
abbrev pub IsForNames : MagmaOrc8r → Secret → Type 0
IsForNames orc8r s =
    (entry orc8r_cert_domain_annotation s.meta.annotations ≡ cert_domain_key orc8r)
    × (entry root_ca_secret_key s.contents ≢ "")

is_current-IsForNames :
    (orc8r : MagmaOrc8r) (s : Secret) → is_current orc8r s ≡ true → IsForNames orc8r s
unfolding is_current
is_current-IsForNames orc8r s p = (
  ground (
    arith,
    eq_iff (entry orc8r_cert_domain_annotation s.meta.annotations) (cert_domain_key orc8r),
  ),
  λ bad. ground (arith, eq_iff (entry root_ca_secret_key s.contents) ""),
)

not_current-IsForNames :
    (orc8r : MagmaOrc8r) (s : Secret) → is_current orc8r s ≡ false → ¬ IsForNames orc8r s
unfolding is_current
not_current-IsForNames orc8r s p (named, has_root) =
    has_root (by_text (Bool-cases (entry root_ca_secret_key s.contents == "")))
  where
    by_text :
        ((entry root_ca_secret_key s.contents == "") ≡ true)
          ⊎ ((entry root_ca_secret_key s.contents == "") ≡ false)
        → entry root_ca_secret_key s.contents ≡ ""
    by_text (inl empty) = ground (arith, eq_iff (entry root_ca_secret_key s.contents) "")
    by_text (inr full) = ground (
      arith,
      eq_iff (entry orc8r_cert_domain_annotation s.meta.annotations) (cert_domain_key orc8r),
    )

-- The certificate secret was read, or was not there.
abbrev pub SawCertSecret : MagmaOrc8r → (Option Secret → Type 0) → (c : Call) → Answer c → Type 0
SawCertSecret orc8r P (get Kind.secret namespace name) (ok s) =
    (namespace ≡ orc8r.meta.namespace) × (name ≡ default_nms_admin_cert_secret_name) × P (some s)
SawCertSecret orc8r P (get Kind.secret namespace name) (err e) =
    (namespace ≡ orc8r.meta.namespace)
    × (name ≡ default_nms_admin_cert_secret_name)
    × (is_not_found e ≡ true)
    × P none
SawCertSecret orc8r P _ _ = ⊥

-- There is no secret, or one for other names.
abbrev pub NeedsRenewal : MagmaOrc8r → Option Secret → Type 0
NeedsRenewal orc8r none = Unit
NeedsRenewal orc8r (some s) = ¬ IsForNames orc8r s

-- There is a secret for the names, which says a hash.
abbrev pub KeepsHash : MagmaOrc8r → String → Option Secret → Type 0
KeepsHash orc8r hash none = ⊥
KeepsHash orc8r hash (some s) =
    IsForNames orc8r s × (hash ≡ entry orc8r_cert_hash_annotation s.meta.annotations)

abbrev pub RenewsOnlyIfNeeded : MagmaOrc8r → History → Call → Type 0
RenewsOnlyIfNeeded orc8r h c = renews c ≡ true → Was (SawCertSecret orc8r (NeedsRenewal orc8r)) h

module _ (L : Library) (orc8r : MagmaOrc8r) where
  -- Where a hash comes from.
  abbrev pub HashFrom : History → Result String → Type 0
  HashFrom h r =
      (hash : String)
      → r ≡ ok hash
      → Was (SawCertSecret orc8r (NeedsRenewal orc8r)) h
        ⊎ Was (SawCertSecret orc8r (KeepsHash orc8r hash)) h

  -- With the need seen, whatever is done is allowed.
  renew-Needed :
      (h : History) (m : Prog (Result String))
      → Was (SawCertSecret orc8r (NeedsRenewal orc8r)) h
      → Sat (RenewsOnlyIfNeeded orc8r) HashFrom h m
  renew-Needed h m seen =
      let Needed : History → Type 0 = Was (SawCertSecret orc8r (NeedsRenewal orc8r)) in
      Sat-weaken h m (λ _ _ c. c) (λ _ _ q hash _. inl q.1)
        (Sat-frame Needed (λ _ _ _ s. inr s) h m seen
          (Sat-known Needed (λ _ _ _ s. inr s) (λ _ _ s _. s) h m seen))

  -- A secret, and what was seen of it.
  decide-Kept :
      (s : Secret) (h : History)
      → ((P : Option Secret → Type 0) → P (some s) → Was (SawCertSecret orc8r P) h)
      → Sat (RenewsOnlyIfNeeded orc8r) HashFrom h (
          if is_current orc8r s
          then ret (ok (entry orc8r_cert_hash_annotation s.meta.annotations))
          else renew_cert_secret L orc8r s)
  decide-Kept s h seen =
      Sat-if (is_current orc8r s) h _ _
        (λ current. Sat-ret h _ (λ hash p.
          let same : hash ≡ entry orc8r_cert_hash_annotation s.meta.annotations = cc in
          inr (seen (KeepsHash orc8r hash) (is_current-IsForNames orc8r s current, same))))
        (λ stale.
          renew-Needed h _ (seen (NeedsRenewal orc8r) (not_current-IsForNames orc8r s stale)))

  -- `reconcileOrc8rCertSecret` makes keys or certificates and stores them only after it read that
  -- there is no secret, or one that is marked for other names or has no root certificate; and a hash
  -- that it returns without an error follows such a reading, or is the one that the secret, marked
  -- for these names and with a root certificate, says.
  pub reconcile_orc8r_cert_secret-Kept :
      Sat (RenewsOnlyIfNeeded orc8r) HashFrom [] (reconcile_orc8r_cert_secret L orc8r)
  unfolding reconcile_orc8r_cert_secret
  reconcile_orc8r_cert_secret-Kept =
      Sat-send [] (get Kind.secret orc8r.meta.namespace default_nms_admin_cert_secret_name) _
        (λ bad. cc) by_answer
    where
      by_answer :
          (r : Result Secret)
          → Sat
              (RenewsOnlyIfNeeded orc8r)
              HashFrom
              (after [] (get Kind.secret orc8r.meta.namespace default_nms_admin_cert_secret_name) r)
              (check
                (found_cert_secret orc8r r)
                (λ e. ret (err e))
                (λ s.
                  if is_current orc8r s
                  then ret (ok (entry orc8r_cert_hash_annotation s.meta.annotations))
                  else renew_cert_secret L orc8r s))
      by_answer (ok s) = decide-Kept s _ (λ P p. inl (refl, refl, p))
      by_answer (err e) = elim (Bool-cases (is_not_found e)) [
        | inl missing ↦ rw missing (
            Sat-if (is_current orc8r (fresh_cert_secret orc8r)) _ _ _
              (λ _. Sat-ret _ _ (λ hash p. inl (inl (refl, refl, missing, tt))))
              (λ _. renew-Needed _ _ (inl (refl, refl, missing, tt))))
        | inr other ↦ rw other (Sat-ret _ _ (λ hash p. cc))
      ]
