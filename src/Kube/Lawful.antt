-- ===== src/Kube/Lawful.antt =====
-- The documented behaviour of the library functions, which theorems take as a hypothesis.
use magma_operator.Base.{String, ◌==◌, Bool, true, false, none, some, List, ◌≡◌, if◌then◌else◌}
use magma_operator.Kube.Objects.{Meta, Condition}
use magma_operator.Kube.Prog.{Call, Kind, Obj, Prog, Result, get, create, update}
use magma_operator.Kube.Sat.{History, Sat}
use magma_operator.Kube.Library.{Library, find_condition}

-- The calls that `controllerutil.CreateOrUpdate` makes itself.
abbrev pub reads_or_writes : Call → Bool
reads_or_writes (get k namespace name) = true
reads_or_writes (create k o) = true
reads_or_writes (update k o) = true
reads_or_writes _ = false

pub record IsLawful (L : Library) : Type 1 where
  -- `CreateOrUpdate` reads, creates or updates, and runs the mutation, and makes no other call.
  pub create_or_update-calls :
      (C : History → Call → Type 0) (k : Kind) (o : Obj k) (mutate : Obj k → Prog (Result (Obj k)))
      → ((h : History) (c : Call) → reads_or_writes c ≡ true → C h c)
      → ((h : History) (current : Obj k) → Sat C (λ _ _. Unit {0}) h (mutate current))
      → (h : History) → Sat C (λ _ _. Unit {0}) h (L.create_or_update k o mutate)
  pub contains-add : (m : Meta) (f : String) → L.contains_finalizer (L.add_finalizer m f) f ≡ true
  pub contains-remove :
      (m : Meta) (f : String) → L.contains_finalizer (L.remove_finalizer m f) f ≡ false
  pub find-set :
      (cs : List Condition) (c : Condition) (t : String)
      → find_condition (L.set_status_condition cs c) t
        ≡ (if c.type == t then some c else find_condition cs t)
  pub find-remove :
      (cs : List Condition) (u t : String)
      → find_condition (L.remove_status_condition cs u) t
        ≡ (if u == t then none else find_condition cs t)
