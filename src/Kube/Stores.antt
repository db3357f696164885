-- ===== src/Kube/Stores.antt =====
-- What `controllerutil.CreateOrUpdate` leaves on the server when it is used on a secret with a
-- mutation that makes no call, which theorems take as a hypothesis.
use magma_operator.Base.{inl, inr, none, ◌≡◌, ◌⊎◌}
use magma_operator.Kube.Frame.{AnyCall, IsStable, Seen}
use magma_operator.Kube.Library.{Library}
use magma_operator.Kube.Objects.{Secret}
use magma_operator.Kube.Prog.{Answer, Call, Kind, create, get, ok, ret, update}
use magma_operator.Kube.Sat.{History, Sat}

-- A secret of a namespace and name was read.
abbrev pub ReadSecret : Secret → Secret → (c : Call) → Answer c → Type 0
ReadSecret o s (get Kind.secret namespace name) (ok found) =
    (namespace ≡ o.meta.namespace) × (name ≡ o.meta.name) × (found ≡ s)
ReadSecret o s _ _ = ⊥

-- A secret was created or updated without an error, or read as it is: the server has it.
abbrev pub StoredSecret : Secret → (c : Call) → Answer c → Type 0
StoredSecret s (create Kind.secret s') failed = (s' ≡ s) × (failed ≡ none)
StoredSecret s (update Kind.secret s') failed = (s' ≡ s) × (failed ≡ none)
StoredSecret s (get Kind.secret namespace name) (ok found) = found ≡ s
StoredSecret s _ _ = ⊥

-- The server has what a mutation makes of the secret that was read, or of a new one.
abbrev pub HasMutated : Secret → (Secret → Secret) → History → Type 0
HasMutated o f h =
    (current : Secret) × (current ≡ o ⊎ Seen (λ e. ReadSecret o current e.call e.answer) h)
    × Seen (λ e. StoredSecret (f current) e.call e.answer) h

pub HasMutated-IsStable : (o : Secret) (f : Secret → Secret) → IsStable (HasMutated o f)
HasMutated-IsStable o f h c r (current, inl new, stored) = (current, inl new, inr stored)
HasMutated-IsStable o f h c r (current, inr read, stored) = (current, inr (inr read), inr stored)

-- Where `CreateOrUpdate` returns no error, the object was fetched, or was not there and is new, and
-- what the mutation made of it was stored, or was what was there.
pub record StoresSecrets (L : Library) : Type 1 where
  pub create_or_update-HasMutated :
      (o : Secret) (f : Secret → Secret) (h : History)
      → Sat AnyCall
          (λ h' r. (new : Secret) → r ≡ ok new → HasMutated o f h')
          h
          (L.create_or_update Kind.secret o (λ s. ret (ok (f s))))
