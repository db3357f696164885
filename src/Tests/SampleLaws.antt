-- ===== src/Tests/SampleLaws.antt =====
-- The concrete library behaves as the theorems take for granted.
use magma_operator.Base.{
  List, String, [], arith, eq_iff, false, if◌then◌else◌, inl, inr, none, refl, some, true, ◌==◌,
  ◌∷◌, ◌≡◌,
}
use magma_operator.Kube.Stores.{HasMutated, StoresSecrets}
use magma_operator.Kube.Frame.{AnyCall}
use magma_operator.Kube.Lawful.{IsLawful, reads_or_writes}
use magma_operator.Kube.Library.{find_condition}
use magma_operator.Kube.Objects.{Condition, Meta, Secret}
use magma_operator.Kube.Prog.{
  Call, Kind, Obj, Prog, Result, create, get, is_not_found, ok, ret, update, ◌>>=◌,
}
use magma_operator.Kube.Sat.{
  History, Sat, Sat-bind, Sat-check, Sat-check_error, Sat-if, Sat-ret, Sat-send,
}
use magma_operator.Tests.Sample.{
  drop_condition, drop_text, get_or_create, has_text, sample_library, set_condition,
}

contains-add :
    (m : Meta) (f : String)
    → sample_library.contains_finalizer (sample_library.add_finalizer m f) f ≡ true
unfolding has_text
contains-add m f = ground (arith, eq_iff f f)

drop_text-gone : (f : String) (fs : List String) → has_text f (drop_text f fs) ≡ false
unfolding has_text drop_text
drop_text-gone f [] = refl
drop_text-gone f (g ∷ fs) = ground (arith, drop_text-gone f fs)

find-set :
    (cs : List Condition) (c : Condition) (t : String)
    → find_condition (set_condition cs c) t ≡ (if c.type == t then some c else find_condition cs t)
unfolding find_condition set_condition
find-set [] c t = refl
find-set (d ∷ ds) c t =
    ground (arith, eq_iff c.type t, eq_iff d.type t, eq_iff d.type c.type, find-set ds c t)

find-drop :
    (cs : List Condition) (u t : String)
    → find_condition (drop_condition cs u) t ≡ (if u == t then none else find_condition cs t)
unfolding find_condition drop_condition
find-drop [] u t = ground arith
find-drop (d ∷ ds) u t =
    ground (arith, eq_iff u t, eq_iff d.type t, eq_iff d.type u, find-drop ds u t)

get_or_create-calls :
    (C : History → Call → Type 0) (k : Kind) (o : Obj k) (mutate : Obj k → Prog (Result (Obj k)))
    → ((h : History) (c : Call) → reads_or_writes c ≡ true → C h c)
    → ((h : History) (current : Obj k) → Sat C (λ _ _. Unit {0}) h (mutate current))
    → (h : History) → Sat C (λ _ _. Unit {0}) h (get_or_create k o mutate)
unfolding get_or_create
get_or_create-calls C k o mutate own inner h = Sat-send h (get k _ _) _ (own h _ refl) (λ found.
    Sat-check found _ _ _
      (λ e _.
        Sat-if (is_not_found e) _ _ _
          (λ _.
            Sat-bind (λ _ _. Unit {0}) _ _ _ (inner _ o)
              (λ h' changed _.
                Sat-check changed h' _ _ (λ e' _. Sat-ret _ _ tt)
                  (λ new _. Sat-send h' (create k new) _ (own h' _ refl) (λ failed.
                    Sat-check_error failed _ _ _ (λ e' _. Sat-ret _ _ tt) (λ _. Sat-ret _ _ tt)))))
          (λ _. Sat-ret _ _ tt))
      (λ current _.
        Sat-bind (λ _ _. Unit {0}) _ _ _ (inner _ current)
          (λ h' changed _.
            Sat-check changed h' _ _ (λ e' _. Sat-ret _ _ tt)
              (λ new _. Sat-send h' (update k new) _ (own h' _ refl) (λ failed.
                Sat-check_error failed _ _ _ (λ e' _. Sat-ret _ _ tt) (λ _. Sat-ret _ _ tt))))))

pub sample_library-IsLawful : IsLawful sample_library
sample_library-IsLawful = record {
  create_or_update-calls = get_or_create-calls;
  contains-add = contains-add;
  contains-remove = λ m f. drop_text-gone f m.finalizers;
  find-set = find-set;
  find-remove = find-drop;
}

get_or_create-HasMutated :
    (o : Secret) (f : Secret → Secret) (h : History)
    → Sat AnyCall
        (λ h' r. (new : Secret) → r ≡ ok new → HasMutated o f h')
        h
        (get_or_create Kind.secret o (λ s. ret (ok (f s))))
unfolding get_or_create ◌>>=◌
get_or_create-HasMutated o f h =
    Sat-send h (get Kind.secret o.meta.namespace o.meta.name) _ tt (λ found.
      Sat-check found _ _ _
        (λ e _.
          Sat-if (is_not_found e) _ _ _
            (λ _. Sat-send _ (create Kind.secret (f o)) _ tt (λ failed.
              Sat-check_error failed _ _ _ (λ e' _. Sat-ret _ _ (λ new bad. cc))
                (λ fine. Sat-ret _ _ (λ new _. (o, inl refl, inl (refl, fine))))))
            (λ _. Sat-ret _ _ (λ new bad. cc)))
        (λ current was. Sat-send _ (update Kind.secret (f current)) _ tt (λ failed.
          Sat-check_error failed _ _ _ (λ e' _. Sat-ret _ _ (λ new bad. cc))
            (λ fine. Sat-ret _ _ (λ new _.
              (current, inr (inr (inl (rw was (refl, refl, refl)))), inl (refl, fine)))))))

pub sample_library-StoresSecrets : StoresSecrets sample_library
sample_library-StoresSecrets = record { create_or_update-HasMutated = get_or_create-HasMutated }
