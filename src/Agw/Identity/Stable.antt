-- ===== src/Agw/Identity/Stable.antt =====
-- An identity that is stored is kept: the mutation of `reconcileAGWIdentity` of
-- internal/controller/agw_identity.go.
use magma_operator.Agw.Identity.{
  choose_hardware_id, choose_private_key, mutate_identity, public_key_base64_der, write_identity,
}
use magma_operator.Agw.Names.{default_agw_challenge_key_secret_key}
use magma_operator.Api.Agw.{MagmaAgw}
use magma_operator.Base.{
  Option, String, entry, entry-insert, equal_fold, false, inl, inr, none, refl, some, true, ◌==◌,
  ◌≡◌, ◌⊎◌,
}
use magma_operator.Kube.Library.{Library}
use magma_operator.Kube.Objects.{Meta, Secret}
use magma_operator.Kube.Prog.{Call, Result, check, err, ok, ret, ◌>>=◌}
use magma_operator.Kube.Sat.{History, Sat, Sat-check, Sat-ret}

abbrev pub stored_key : Secret → String
stored_key s = entry default_agw_challenge_key_secret_key s.contents

abbrev pub stored_hardware_id : Secret → String
stored_hardware_id s = entry "hardware_id" s.contents

-- No calls at all.
abbrev pub NoCalls : History → Call → Type 0
NoCalls _ _ = ⊥

-- The mutation wrote back the key and the hardware id of a secret.
abbrev pub Kept : Secret → Result Secret → Type 0
Kept s r =
    (s' : Secret)
    → r ≡ ok s'
    → (stored_key s' ≡ stored_key s) × (stored_hardware_id s' ≡ stored_hardware_id s)

module _ (L : Library) (agw : MagmaAgw) (s : Secret) where
  write_identity-contents :
      (public_key : String)
      → (stored_key (write_identity L agw (stored_key s) public_key (stored_hardware_id s) s)
          ≡ stored_key s)
        × (stored_hardware_id
              (write_identity L agw (stored_key s) public_key (stored_hardware_id s) s)
            ≡ stored_hardware_id s)
  unfolding write_identity
  write_identity-contents public_key = (
    rw entry-insert (rw entry-insert (rw entry-insert (rw entry-insert (rw entry-insert refl)))),
    rw entry-insert refl,
  )

  choose_private_key-stored :
      (desired : Option String)
      → (desired ≡ none) ⊎ (equal_fold agw.spec.identity.rotation_policy "Rotate" ≡ true)
      → (stored_key s == "") ≡ false
      → choose_private_key L agw desired s ≡ ret (ok (stored_key s))
  unfolding choose_private_key
  choose_private_key-stored none _ key_there = rw key_there refl
  choose_private_key-stored (some pem) (inl bad) key_there = cc
  choose_private_key-stored (some pem) (inr rotate) key_there = rw rotate (rw key_there refl)

  choose_hardware_id-stored :
      agw.spec.identity.hardware_id ≡ ""
      → entry "gatewayIdentity.snowflake" agw.spec.values ≡ ""
      → (stored_hardware_id s == "") ≡ false
      → choose_hardware_id L agw s ≡ ret (ok (stored_hardware_id s))
  unfolding choose_hardware_id
  choose_hardware_id-stored no_spec no_value id_there = rw no_spec (rw no_value (rw id_there refl))

  -- Where neither the spec nor the values give a hardware id, and no key is imported, or the
  -- rotation policy is Rotate: the mutation of a secret that has a key and a hardware id makes no
  -- call, draws no random bytes, and if it succeeds writes the same key and hardware id.
  pub mutate_identity-Kept :
      (desired : Option String) (h : History)
      → agw.spec.identity.hardware_id ≡ ""
      → entry "gatewayIdentity.snowflake" agw.spec.values ≡ ""
      → (desired ≡ none) ⊎ (equal_fold agw.spec.identity.rotation_policy "Rotate" ≡ true)
      → (stored_key s == "") ≡ false
      → (stored_hardware_id s == "") ≡ false
      → Sat NoCalls (λ _ r. Kept s r) h (mutate_identity L agw desired s)
  unfolding mutate_identity ◌>>=◌
  mutate_identity-Kept desired h no_spec no_value key_stays key_there id_there =
      rw (choose_private_key-stored desired key_stays key_there) (
        rw (choose_hardware_id-stored no_spec no_value id_there) (
          Sat-check (public_key_base64_der L (stored_key s)) h _ _
            (λ e _. Sat-ret h _ (λ s' bad. cc))
            (λ public_key _. Sat-ret h _ (λ s' written.
              owned_contents public_key s' (L.set_controller_reference agw.meta _) written))))
    where
      owned_contents :
          (public_key : String) (s' : Secret) (owner : Result Meta)
          → check owner err (λ owned.
            ok (record (write_identity L agw (stored_key s) public_key (stored_hardware_id s) s) {
              meta = owned;
            }))
            ≡ ok s'
          → (stored_key s' ≡ stored_key s) × (stored_hardware_id s' ≡ stored_hardware_id s)
      owned_contents public_key s' (err e) bad = cc
      owned_contents public_key s' (ok owned) same =
          let w = write_identity-contents public_key in
          let c : (write_identity L agw (stored_key s) public_key (stored_hardware_id s) s).contents
              ≡ s'.contents =
            cc in
          (rw⁻¹ c w.0, rw⁻¹ c w.1)
