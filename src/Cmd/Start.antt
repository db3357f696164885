-- ===== src/Cmd/Start.antt =====
-- When the operator runs, and with which options: `main` of cmd/main.go.
use magma_operator.Base.{
  All, Bool-cases, List, Option, Option-cases, [], ap, arith, false, inl, inr, is_empty, none, refl,
  sym, true, ◌++◌, ◌∙◌, ◌∷◌, ◌≡◌, ◌⊎◌,
}
use magma_operator.Cmd.{
  Flags, ManagerOptions, SetupStep, TlsConfig, add_healthz_check, add_readyz_check, disable_http2,
  main, manager_options, metrics_server_options, new_manager, run_steps, set_up_agw, set_up_orc8r,
  setup_steps, start, initial_tls_opts, webhook_server_options,
}
use magma_operator.Kube.Prog.{Error}

-- A call is among some calls.
abbrev pub IsIn : SetupStep → List SetupStep → Type 0
IsIn s [] = ⊥
IsIn s (t ∷ ts) = (s ≡ t) ⊎ IsIn s ts

abbrev pub Succeed : (SetupStep → Option Error) → List SetupStep → Type 0
Succeed answers = All (λ s. answers s ≡ none)

-- A configuration after some options.
abbrev pub apply_all : List (TlsConfig → TlsConfig) → TlsConfig → TlsConfig
apply_all [] c = c
apply_all (f ∷ fs) c = apply_all fs (f c)

-- A call that comes last is made only where those before it succeed.
last_call :
    (ss : List SetupStep) (last : SetupStep) (answers : SetupStep → Option Error)
    → ¬ IsIn last ss
    → IsIn last (run_steps (ss ++ last ∷ []) answers).called
    → Succeed answers ss
unfolding run_steps
last_call [] last answers fresh made = tt
last_call (s ∷ ss) last answers fresh made = elim (Option-cases (answers s)) [
  | inl fine ↦
      (let called : IsIn last (s ∷ (run_steps (ss ++ last ∷ []) answers).called) =
          rw (run_steps, fine) at made in
        (fine, last_call ss last answers (λ there. fresh (inr there)) (later _ fresh called)))
  | inr (e, failed) ↦
      (let called : IsIn last (s ∷ []) = rw (run_steps, failed) at made in
        absurd (fresh (elim called [ inl here ↦ inl here | inr gone ↦ absurd gone ])))
]
  where
    later : (ts : List SetupStep) → ¬ IsIn last (s ∷ ss) → IsIn last (s ∷ ts) → IsIn last ts
    later ts new (inl here) = absurd (new (inl here))
    later ts new (inr there) = there

-- The exit code is 0 only where every call succeeds.
code_zero :
    (ss : List SetupStep) (answers : SetupStep → Option Error)
    → (run_steps ss answers).code ≡ 0
    → Succeed answers ss
unfolding run_steps
code_zero [] answers e = tt
code_zero (s ∷ ss) answers e = elim (Option-cases (answers s)) [
  | inl fine ↦
      (let zero_code : (run_steps ss answers).code ≡ 0 = rw (run_steps, fine) at e in
        (fine, code_zero ss answers zero_code))
  | inr (x, failed) ↦ (let one : 1 ≡ 0 = rw (run_steps, failed) at e in absurd (omega (arith, one)))
]

-- Every configuration that the options change speaks no HTTP/2.
abbrev pub OnlyHttp1 : List (TlsConfig → TlsConfig) → Type 0
OnlyHttp1 options = (c : TlsConfig) → (apply_all options c).next_protos ≡ "http/1.1" ∷ []

-- Options that offer HTTP/2 only where the flag asks for it, and metrics over HTTPS only behind the
-- filter.
abbrev pub AreSafe : Flags → ManagerOptions → Type 0
AreSafe flags options =
    (flags.enable_http2 ≡ false
      → OnlyHttp1 options.webhook_server.tls_opts × OnlyHttp1 options.metrics.tls_opts)
    × (options.metrics.secure_serving ≡ true → options.metrics.has_filter ≡ true)

webhook-tls_opts :
    (flags : Flags) → (webhook_server_options flags).tls_opts ≡ initial_tls_opts flags
unfolding webhook_server_options
webhook-tls_opts flags = elim (Bool-cases (is_empty flags.webhook_cert_path)) [
  | inl empty ↦ rw empty refl
  | inr given ↦ rw given refl
]

metrics-fields :
    (flags : Flags)
    → ((metrics_server_options flags).tls_opts ≡ initial_tls_opts flags)
      × ((metrics_server_options flags).secure_serving ≡ flags.secure_metrics)
      × ((metrics_server_options flags).has_filter ≡ flags.secure_metrics)
unfolding metrics_server_options
metrics-fields flags = elim (Bool-cases flags.secure_metrics) [
  | inl secure ↦ elim (Bool-cases (is_empty flags.metrics_cert_path)) [
    | inl empty ↦ rw (secure, empty) (refl, refl, refl)
    | inr given ↦ rw (secure, given) (refl, refl, refl)
  ]
  | inr plain ↦ elim (Bool-cases (is_empty flags.metrics_cert_path)) [
    | inl empty ↦ rw (plain, empty) (refl, refl, refl)
    | inr given ↦ rw (plain, given) (refl, refl, refl)
  ]
]

initial_tls_opts-OnlyHttp1 :
    (flags : Flags) → flags.enable_http2 ≡ false → OnlyHttp1 (initial_tls_opts flags)
unfolding initial_tls_opts disable_http2
initial_tls_opts-OnlyHttp1 flags off = λ c. rw off refl

manager_options-AreSafe : (flags : Flags) → AreSafe flags (manager_options flags)
unfolding manager_options
manager_options-AreSafe flags =
    let (same, secure, filtered) = metrics-fields flags in
    (
      λ off. (
        λ c.
            ap (λ os. (apply_all os c).next_protos) (webhook-tls_opts flags)
            ∙ initial_tls_opts-OnlyHttp1 flags off c,
        λ c. ap (λ os. (apply_all os c).next_protos) same ∙ initial_tls_opts-OnlyHttp1 flags off c,
      ),
      λ serves. filtered ∙ sym secure ∙ serves,
    )

-- `main` starts the manager only after it was made, both reconcilers were set up and both checks
-- were added, all without an error; it exits with the code 0 only if every call succeeded; and
-- unless the flag enables HTTP/2 the manager's webhook and metrics servers speak only HTTP/1.1, and
-- metrics over HTTPS are behind the filter for authentication.
pub main-Starts :
    (flags : Flags) (answers : SetupStep → Option Error)
    → (IsIn start (main flags answers).called
        → Succeed answers (
            new_manager (manager_options flags)
            ∷ set_up_orc8r
            ∷ set_up_agw
            ∷ add_healthz_check
            ∷ add_readyz_check
            ∷ []))
      × ((main flags answers).code ≡ 0 → Succeed answers (setup_steps flags))
      × AreSafe flags (manager_options flags)
unfolding main
main-Starts flags answers = (
  last_call
      (new_manager (manager_options flags)
        ∷ set_up_orc8r
        ∷ set_up_agw
        ∷ add_healthz_check
        ∷ add_readyz_check
        ∷ [])
      start answers not_before,
  code_zero (setup_steps flags) answers,
  manager_options-AreSafe flags,
)
  where
    not_before : ¬ IsIn start (
        new_manager (manager_options flags)
        ∷ set_up_orc8r
        ∷ set_up_agw
        ∷ add_healthz_check
        ∷ add_readyz_check
        ∷ [])
    not_before (inl bad) = cc
    not_before (inr (inl bad)) = cc
    not_before (inr (inr (inl bad))) = cc
    not_before (inr (inr (inr (inl bad)))) = cc
    not_before (inr (inr (inr (inr (inl bad))))) = cc
    not_before (inr (inr (inr (inr (inr bad))))) = elim bad [ ]
