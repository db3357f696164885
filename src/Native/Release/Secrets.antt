-- ===== src/Native/Release/Secrets.antt =====
-- Secrets that exist are not written over: `reconcileNativeRelease` and
-- `preserveExistingNativeSecret` of internal/controller/native_runner.go.
use magma_operator.Agw.Deletion.Facts.{Was}
use magma_operator.Base.{Bool, Option, false, true, ◌≡◌}
use magma_operator.Kube.Library.{Library}
use magma_operator.Kube.Objects.{Manifest}
use magma_operator.Kube.Prog.{
  Answer, Call, Kind, apply, delete, err, get_manifest, is_not_found, ok, update,
}
use magma_operator.Kube.Sat.{History, Sat}
use magma_operator.Native.Release.{lets_through}

-- An object was asked for, and was not there.
abbrev pub SawNoObject : Manifest → (c : Call) → Answer c → Type 0
SawNoObject o (get_manifest o') (err e) = (o' ≡ o) × (is_not_found e ≡ true)
SawNoObject o _ _ = ⊥

-- An object was asked for, up to its metadata, and this is what was there.
abbrev pub SawObject : Manifest → Manifest → (c : Call) → Answer c → Type 0
SawObject o current (get_manifest o') (ok found) =
    (o' ≡ record o { meta = o'.meta }) × (found ≡ current)
SawObject o current _ _ = ⊥

-- Where an object is applied, it is `o` but for its metadata, and `o` was not there; where one is
-- updated, it is what was there but for its metadata; `o` is deleted only where the filter does not
-- let it through; and but for these and reads there are no calls.
abbrev pub KeepsContents : Option (Manifest → Bool) → Manifest → History → Call → Type 0
KeepsContents filter o h (apply o') = (o' ≡ record o { meta = o'.meta }) × Was (SawNoObject o) h
KeepsContents filter o h (update Kind.manifest o') =
    (current : Manifest) × Was (SawObject o current) h × (o' ≡ record current { meta = o'.meta })
KeepsContents filter o h (delete Kind.manifest o' background) =
    (o' ≡ o) × (lets_through filter o ≡ false)
KeepsContents filter o h (get_manifest o') = Unit
KeepsContents filter o h _ = ⊥
