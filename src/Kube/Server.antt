-- ===== src/Kube/Server.antt =====
-- Running a program against an API server, which is any machine that answers calls: its state may
-- change between calls in any way, so other clients of the cluster are part of it.
use magma_operator.Base.{[], ◌∷◌}
use magma_operator.Kube.Prog.{Call, Answer, Prog, ret, call}
use magma_operator.Kube.Sat.{History, Sat, Holds}

pub record Server : Type 1 where
  pub State : Type 0
  pub serve : State → (c : Call) → Answer c × State

-- The result of a run, and what was exchanged, newest first.
pub record Run (A : Type 0) : Type 0 where
  pub result : A
  pub history : History

module _ (server : Server) where
  unfoldable pub run : {A : Type 0} → Prog A → server.State → History → Run A
  run (ret a) s h = record { result = a; history = h }
  run (call c k) s h =
      let (r, s') = server.serve s c in run (k r) s' (record { call = c; answer = r } ∷ h)

  -- Each call of the history satisfies `C` with the calls before it.
  abbrev pub Obeys : (History → Call → Type 0) → History → Type 0
  Obeys C [] = Unit
  Obeys C (e ∷ h) = C h e.call × Obeys C h

  Holds-run :
      {A : Type 0} (C : History → Call → Type 0) (Q : History → A → Type 0) (m : Prog A)
      (s : server.State) (h : History)
      → Holds C Q h m
      → Obeys C h
      → Q (run m s h).history (run m s h).result × Obeys C (run m s h).history
  unfolding run
  Holds-run C Q (ret a) s h q o = (q, o)
  Holds-run C Q (call c k) s h q o =
      let (r, s') = server.serve s c in Holds-run C Q (k r) s' _ (q.1 r) (q.0, o)

  -- What holds of every exchange holds of each run against this server.
  pub run-Sat :
      {A : Type 0} (C : History → Call → Type 0) (Q : History → A → Type 0) (m : Prog A)
      (s : server.State)
      → Sat C Q [] m
      → Q (run m s []).history (run m s []).result × Obeys C (run m s []).history
  run-Sat C Q m s q = Holds-run C Q m s [] q.at tt
