-- ===== src/Native/Release/Complete.antt =====
-- A release that is reconciled without an error is complete: `reconcileNativeRelease` of
-- internal/controller/native_runner.go.
use magma_operator.Agw.Deletion.Facts.{Removed, Was}
use magma_operator.Agw.Deletion.Guard.{delete_native_object-Removed}
use magma_operator.Base.{
  All, Bool, List, Option, [], arith, eq_iff, false, inl, inr, none, not, refl, some, true, ◌&&◌,
  ◌==◌, ◌∷◌, ◌≡◌,
}
use magma_operator.Kube.Frame.{AnyCall, IsStable, Sat-any, Sat-frame, Sat-weaken}
use magma_operator.Kube.Library.{Library}
use magma_operator.Kube.Objects.{Manifest, Meta}
use magma_operator.Kube.Prog.{
  Answer, Call, Kind, apply, get_manifest, is_invalid, is_not_found, ok, update,
}
use magma_operator.Kube.Sat.{
  History, Sat, Sat-bind, Sat-check, Sat-check_error, Sat-if, Sat-ret, Sat-send,
}
use magma_operator.Native.Metadata.{normalize_meta}
use magma_operator.Native.Objects.{native_release_objects}
use magma_operator.Native.Release.{
  apply_native_object, cleanup_native_object_metadata, delete_native_object, lets_through,
  preserve_existing_native_secret, reconcile_each, reconcile_native_release, reconcile_object,
}
use magma_operator.Native.Render.{NativeRelease}

-- An object was applied with its own kind and body and the owner's reference, without an error.
abbrev pub Applied : Library → Meta → Manifest → (c : Call) → Answer c → Type 0
Applied L owner o (apply o') failed =
    (o'.kind ≡ o.kind)
    × (o'.body ≡ o.body)
    × (L.set_controller_reference owner o.meta ≡ ok o'.meta)
    × (failed ≡ none)
Applied L owner o _ _ = ⊥

-- An object was read, and was there.
abbrev pub Existed : Manifest → (c : Call) → Answer c → Type 0
Existed o (get_manifest o') (ok current) = o' ≡ o
Existed o _ _ = ⊥

-- An object was refused as invalid.
abbrev pub RefusedInvalid : Manifest → (c : Call) → Answer c → Type 0
RefusedInvalid o (apply o') (some e) = (o'.body ≡ o.body) × (is_invalid e ≡ true)
RefusedInvalid o _ _ = ⊥

-- What became of an object: it was applied; or it is a secret that exists; or it is a job that the
-- server refused as invalid, which happens where a job changed.
pub data Settled (L : Library) (owner : Meta) (o : Manifest) (h : History) : Type 0 where
  applied : Was (Applied L owner o) h → Settled L owner o h
  kept : o.kind ≡ "Secret" → Was (Existed o) h → Settled L owner o h
  replaced : o.kind ≡ "Job" → Was (RefusedInvalid o) h → Settled L owner o h

module _ (L : Library) (owner : Meta) where
  -- An object that the filter lets through is settled, and any other was deleted.
  abbrev pub Done : Option (Manifest → Bool) → Manifest → History → Type 0
  Done filter o h =
      (lets_through filter o ≡ true → Settled L owner o h)
      × (lets_through filter o ≡ false → Was (Removed o) h)

  Settled-IsStable : (o : Manifest) → IsStable (Settled L owner o)
  Settled-IsStable o h c r (applied s) = applied (inr s)
  Settled-IsStable o h c r (kept k s) = kept k (inr s)
  Settled-IsStable o h c r (replaced k s) = replaced k (inr s)

  pub Done-IsStable : (filter : Option (Manifest → Bool)) (o : Manifest) → IsStable (Done filter o)
  Done-IsStable filter o h c r d =
      (λ through. Settled-IsStable o h c r (d.0 through), λ held. inr (d.1 held))

  apply_native_object-Settled :
      (o : Manifest) (h : History)
      → Sat AnyCall
          (λ h' failed. failed ≡ none → Settled L owner o h')
          h
          (apply_native_object L owner o)
  unfolding apply_native_object
  apply_native_object-Settled o h =
      Sat-check (L.set_controller_reference owner o.meta) h _ _ (λ e _. Sat-ret h _ (λ bad. cc))
        (λ owned is_owned. Sat-send h (apply (record o { meta = owned })) _ tt (λ failed.
          Sat-check_error failed _ _ _
            (λ e refused.
              Sat-if (is_invalid e && o.kind == "Job") _ _ _
                (λ job.
                  Sat-weaken _ _ (λ _ _ _. tt) (λ _ _ s _. s.1)
                    (Sat-frame (Settled L owner o) (Settled-IsStable o) _ _
                      (replaced (ground (arith, eq_iff o.kind "Job"))
                        (inl (rw refused (refl, ground arith))))
                      (Sat-any _ (delete_native_object (record o { meta = owned })))))
                (λ _. Sat-ret _ _ (λ bad. cc)))
            (λ fine.
              Sat-weaken _ _ (λ _ _ _. tt) (λ _ _ s _. s.1)
                (Sat-frame (Settled L owner o) (Settled-IsStable o) _ _
                  (applied (inl (refl, refl, is_owned, fine)))
                  (Sat-any _ (cleanup_native_object_metadata (record o { meta = owned })))))))

  preserve-Existed :
      (o : Manifest) (h : History)
      → Sat AnyCall
          (λ h' r. r.0 ≡ true → Was (Existed o) h')
          h
          (preserve_existing_native_secret L owner o)
  unfolding preserve_existing_native_secret
  preserve-Existed o h = Sat-send h (get_manifest o) _ tt (λ r.
      Sat-check r _ _ _
        (λ e _.
          Sat-if (is_not_found e) _ _ _ (λ _. Sat-ret _ _ (λ bad. cc))
            (λ _. Sat-ret _ _ (λ bad. cc)))
        (λ current found.
          Sat-check (L.set_controller_reference owner current.meta) _ _ _
            (λ e _. Sat-ret _ _ (λ bad. cc))
            (λ owned _.
              Sat-send _ (update Kind.manifest (record current { meta = normalize_meta owned })) _
                tt (λ failed. Sat-ret _ _ (λ _. inr (inl (rw found refl)))))))

  reconcile_object-Done :
      (filter : Option (Manifest → Bool)) (o : Manifest) (h : History)
      → Sat AnyCall
          (λ h' failed. failed ≡ none → Done filter o h')
          h
          (reconcile_object L owner filter o)
  unfolding reconcile_object
  reconcile_object-Done filter o h =
      Sat-if (not (lets_through filter o)) h _ _
        (λ held.
          Sat-weaken {C = AnyCall} h _ (λ _ _ _. tt)
            (λ h' failed removed fine. (λ through. ground arith, λ _. removed fine))
            (delete_native_object-Removed (λ _ _. tt) o h))
        (λ through.
          Sat-weaken h _ (λ _ _ _. tt)
            (λ h' failed settled fine. (λ _. settled fine, λ held. ground arith))
            (Sat-if (o.kind == "Secret") h _ _
              (λ secret.
                Sat-bind (λ h' r. r.0 ≡ true → Was (Existed o) h') h _ _ (preserve-Existed o h)
                  (λ h' (exists, failed) seen.
                    Sat-check_error failed h' _ _ (λ e _. Sat-ret h' _ (λ bad. cc))
                      (λ _.
                        Sat-if exists h' _ _
                          (λ there.
                            Sat-ret h' _
                              (λ _. kept (ground (arith, eq_iff o.kind "Secret")) (seen there)))
                          (λ _. apply_native_object-Settled o h'))))
              (λ _. apply_native_object-Settled o h)))

  reconcile_each-Done :
      (filter : Option (Manifest → Bool)) (os : List Manifest) (h : History)
      → Sat AnyCall
          (λ h' failed. failed ≡ none → All (λ o. Done filter o h') os)
          h
          (reconcile_each L owner filter os)
  unfolding reconcile_each
  reconcile_each-Done filter [] h = Sat-ret h none (λ _. tt)
  reconcile_each-Done filter (o ∷ os) h =
      Sat-bind (λ h' failed. failed ≡ none → Done filter o h') h _ _
        (reconcile_object-Done filter o h)
        (λ h' failed q.
          Sat-check_error failed h' _ _ (λ e _. Sat-ret h' _ (λ bad. cc))
            (λ fine.
              Sat-weaken h' _ (λ _ _ _. tt) (λ _ _ s none_failed. (s.1, s.0 none_failed))
                (Sat-frame (Done filter o) (Done-IsStable filter o) h' _ (q fine)
                  (reconcile_each-Done filter os h'))))

  -- Where the manifest of a release yields given objects and `reconcileNativeRelease` returns no
  -- error, each object was taken care of: one that the filter does not let through was deleted or
  -- was not there; any other was applied with its own kind and body and the owner's reference, or
  -- is a secret that was there already, or is a job that the server refused as invalid.
  pub reconcile_native_release-Done :
      (release : NativeRelease) (objects : List Manifest) (h : History)
      → native_release_objects L release ≡ ok objects
      → Sat AnyCall
          (λ h' failed. failed ≡ none → All (λ o. Done release.apply_filter o h') objects)
          h
          (reconcile_native_release L owner release)
  unfolding reconcile_native_release
  reconcile_native_release-Done release objects h found =
      rw found (reconcile_each-Done release.apply_filter objects h)
