-- ===== src/Kube/Sat.antt =====
-- What holds of every exchange that a program can have with the API server. `Sat C Q h m`: after
-- the exchange `h`, newest call first, each call that `m` makes satisfies `C` with what went
-- before it, and the result satisfies `Q` with the whole exchange, whatever the answers are.
use magma_operator.Base.{Bool, List, Option, false, if◌then◌else◌, none, refl, some, true, ◌∷◌, ◌≡◌}
use magma_operator.Kube.Prog.{
  Answer, Call, Error, Prog, Result, attempt, call, check, check_error, err, ok, ret, send, ◌>>=◌,
}

pub record Event : Type 0 where
  pub call : Call
  pub answer : Answer call

abbrev pub History : Type 0
History = List Event

-- The exchange after one more call.
abbrev pub after : History → (c : Call) → Answer c → History
after h c r = record { call = c; answer = r } ∷ h

abbrev pub Holds :
    {A : Type 0} → (History → Call → Type 0) → (History → A → Type 0) → History → Prog A → Type 0
Holds C Q h (ret a) = Q h a
Holds C Q h (call c k) = C h c × ((r : Answer c) → Holds C Q (after h c r) (k r))

pub record Sat {A : Type 0} (C : History → Call → Type 0) (Q : History → A → Type 0) (h : History)
    (m : Prog A) : Type 0 where
  pub at : Holds C Q h m

module _ {C : History → Call → Type 0} where
  module _ {A : Type 0} {Q : History → A → Type 0} where
    pub Sat-ret : (h : History) (a : A) → Q h a → Sat C Q h (ret a)
    Sat-ret h a q = record { at = q }

    -- A call, and what is done with its answer.
    pub Sat-send :
        (h : History) (c : Call) (f : Answer c → Prog A)
        → C h c
        → ((r : Answer c) → Sat C Q (after h c r) (f r))
        → Sat C Q h (send c >>= f)
    unfolding ◌>>=◌ send
    Sat-send h c f p s = record { at = (p, λ r. (s r).at) }

    pub Sat-if :
        (b : Bool) (h : History) (m n : Prog A)
        → (b ≡ true → Sat C Q h m)
        → (b ≡ false → Sat C Q h n)
        → Sat C Q h (if b then m else n)
    Sat-if true h m n s t = s refl
    Sat-if false h m n s t = t refl

    pub Sat-check :
        {B : Type 0} (r : Result B) (h : History) (f : Error → Prog A) (g : B → Prog A)
        → ((e : Error) → r ≡ err e → Sat C Q h (f e))
        → ((b : B) → r ≡ ok b → Sat C Q h (g b))
        → Sat C Q h (check r f g)
    Sat-check (ok b) h f g s t = t b refl
    Sat-check (err e) h f g s t = s e refl

    pub Sat-check_error :
        (r : Option Error) (h : History) (f : Error → Prog A) (m : Prog A)
        → ((e : Error) → r ≡ some e → Sat C Q h (f e))
        → (r ≡ none → Sat C Q h m)
        → Sat C Q h (check_error r f m)
    Sat-check_error none h f m s t = t refl
    Sat-check_error (some e) h f m s t = s e refl

  -- A call whose answer is the result.
  pub Sat-call :
      (h : History) (c : Call) {Q : History → Answer c → Type 0}
      → C h c
      → ((r : Answer c) → Q (after h c r) r)
      → Sat C Q h (send c)
  unfolding send
  Sat-call h c p s = record { at = (p, s) }

  module _ {A B : Type 0} (Q : History → A → Type 0) {R : History → B → Type 0} where
    Holds-bind :
        (h : History) (m : Prog A) (f : A → Prog B)
        → Holds C Q h m
        → ((h' : History) (a : A) → Q h' a → Sat C R h' (f a))
        → Holds C R h (m >>= f)
    unfolding ◌>>=◌
    Holds-bind h (ret a) f s t = (t h a s).at
    Holds-bind h (call c k) f s t = (s.0, λ r. Holds-bind (after h c r) (k r) f (s.1 r) t)

    -- The rule of sequence.
    pub Sat-bind :
        (h : History) (m : Prog A) (f : A → Prog B)
        → Sat C Q h m
        → ((h' : History) (a : A) → Q h' a → Sat C R h' (f a))
        → Sat C R h (m >>= f)
    Sat-bind h m f s t = record { at = Holds-bind h m f s.at t }

-- An attempt: what holds after an error holds without going on.
pub Sat-attempt :
    {C : History → Call → Type 0} {A B : Type 0} (Q : History → Result A → Type 0)
    {R : History → Result B → Type 0} (h : History) (m : Prog (Result A)) (f : A → Prog (Result B))
    → Sat C Q h m
    → ((h' : History) (e : Error) → R h' (err e))
    → ((h' : History) (a : A) → Q h' (ok a) → Sat C R h' (f a))
    → Sat C R h (attempt m f)
Sat-attempt {C} {A} {B} Q {R} h m f s fails goes_on = Sat-bind Q h m _ s by_result
  where
    by_result : (h' : History) (r : Result A) → Q h' r → Sat C R h' (check r (λ e. ret (err e)) f)
    by_result h' (ok a) q = goes_on h' a q
    by_result h' (err e) q = Sat-ret h' (err e) (fails h' e)
