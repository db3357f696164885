-- ===== src/Kube/Frame.antt =====
-- Facts about what has been exchanged, which no later call can undo.
use magma_operator.Base.{All, List, Option, [], inr, none, ◌∷◌, ◌≡◌, ◌⊎◌}
use magma_operator.Kube.Prog.{Answer, Call, Error, Prog, call, ignore_not_found, ret}
use magma_operator.Kube.Sat.{Event, History, Holds, Sat, after}

-- Some exchange of the history satisfies `P`.
abbrev pub Seen : (Event → Type 0) → History → Type 0
Seen P [] = ⊥
Seen P (e ∷ h) = P e ⊎ Seen P h

-- A fact that further calls keep.
abbrev pub IsStable : (History → Type 0) → Type 0
IsStable P = (h : History) (c : Call) (r : Answer c) → P h → P (after h c r)

module _ (P : Event → Type 0) where
  pub Seen-IsStable : IsStable (Seen P)
  Seen-IsStable h c r s = inr s

module _ (C : History → Call → Type 0) {A : Type 0} (Q : History → A → Type 0)
    (P : History → Type 0) (stable : IsStable P) where
  Holds-frame :
      (h : History) (m : Prog A) → P h → Holds C Q h m → Holds C (λ h' a. Q h' a × P h') h m
  Holds-frame h (ret a) p s = (s, p)
  Holds-frame h (call c k) p s =
      (s.0, λ r. Holds-frame (after h c r) (k r) (stable h c r p) (s.1 r))

-- The frame rule: what is known before a program is known after it.
pub Sat-frame :
    {C : History → Call → Type 0} {A : Type 0} {Q : History → A → Type 0} (P : History → Type 0)
    → IsStable P
    → (h : History) (m : Prog A) → P h
    → Sat C Q h m
    → Sat C (λ h' a. Q h' a × P h') h m
Sat-frame {C} {Q} P stable h m p s = record { at = Holds-frame C Q P stable h m p s.at }

module _ (C D : History → Call → Type 0) {A : Type 0} (Q R : History → A → Type 0)
    (calls : (h : History) (c : Call) → C h c → D h c)
    (results : (h : History) (a : A) → Q h a → R h a) where
  Holds-weaken : (h : History) (m : Prog A) → Holds C Q h m → Holds D R h m
  Holds-weaken h (ret a) s = results h a s
  Holds-weaken h (call c k) s = (calls h c s.0, λ r. Holds-weaken (after h c r) (k r) (s.1 r))

module _ (C D : History → Call → Type 0) {A : Type 0} (Q R : History → A → Type 0) where
  Holds-both :
      (h : History) (m : Prog A)
      → Holds C Q h m
      → Holds D R h m
      → Holds (λ h' c. C h' c × D h' c) (λ h' a. Q h' a × R h' a) h m
  Holds-both h (ret a) q r = (q, r)
  Holds-both h (call c k) q r = ((q.0, r.0), λ a. Holds-both (after h c a) (k a) (q.1 a) (r.1 a))

-- The rule of conjunction.
pub Sat-both :
    {C D : History → Call → Type 0} {A : Type 0} {Q R : History → A → Type 0} (h : History)
    (m : Prog A)
    → Sat C Q h m
    → Sat D R h m
    → Sat (λ h' c. C h' c × D h' c) (λ h' a. Q h' a × R h' a) h m
Sat-both {C} {D} {Q} {R} h m s t = record { at = Holds-both C D Q R h m s.at t.at }

-- The rule of consequence.
pub Sat-weaken :
    {C D : History → Call → Type 0} {A : Type 0} {Q R : History → A → Type 0} (h : History)
    (m : Prog A)
    → ((h' : History) (c : Call) → C h' c → D h' c)
    → ((h' : History) (a : A) → Q h' a → R h' a)
    → Sat C Q h m
    → Sat D R h m
Sat-weaken {C} {D} {Q} {R} h m calls results s = record {
  at = Holds-weaken C D Q R calls results h m s.at;
}

module _ {C : History → Call → Type 0} (P : History → Type 0) (stable : IsStable P)
    (calls : (h : History) (c : Call) → P h → C h c) {A : Type 0} where
  Holds-known : (h : History) (m : Prog A) → P h → Holds C (λ _ _. Unit {0}) h m
  Holds-known h (ret a) p = tt
  Holds-known h (call c k) p = (calls h c p, λ r. Holds-known (after h c r) (k r) (stable h c r p))

  -- Once a fact is known that allows every call, any program may follow.
  pub Sat-known : (h : History) (m : Prog A) → P h → Sat C (λ _ _. Unit {0}) h m
  Sat-known h m p = record { at = Holds-known h m p }

abbrev pub AnyCall : History → Call → Type 0
AnyCall _ _ = Unit

-- Nothing is asked of the calls or of the result.
pub Sat-any : {A : Type 0} (h : History) (m : Prog A) → Sat AnyCall (λ _ _. Unit {0}) h m
Sat-any h m = Sat-known (λ _. Unit) (λ _ _ _ _. tt) (λ _ _ _. tt) h m tt

-- An answer that is no error, or one that says that there was nothing.
abbrev pub NoError : Option Error → Type 0
NoError failed = ignore_not_found failed ≡ none

-- A fact of each item of a list that further calls keep.
pub All-IsStable {ℓ} :
    {A : Type ℓ} (P : A → History → Type 0)
    → ((x : A) → IsStable (P x))
    → (xs : List A) → IsStable (λ h. All (λ x. P x h) xs)
All-IsStable P stable [] h c r s = tt
All-IsStable P stable (x ∷ xs) h c r s = (stable x h c r s.0, All-IsStable P stable xs h c r s.1)
