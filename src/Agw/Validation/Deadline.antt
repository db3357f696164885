-- ===== src/Agw/Validation/Deadline.antt =====
-- The deadline of the validation job, in the arithmetic of `int32`: `ueransimValidationJob` of
-- internal/controller/agw_validation.go.
use magma_operator.Agw.RootCa.Once.{job_name}
use magma_operator.Agw.Validation.{ueransim_validation_job}
use magma_operator.Api.Agw.{MagmaAgw}
use magma_operator.Base.{
  String, arith, false, if◌then◌else◌, ltb, nat_eq, refl, some, ℕ, ◌%◌, ◌+◌, ◌-◌, ◌<◌, ◌≡◌,
}
use magma_operator.Base.Int.{add_int32, negsuc, not_positive, of_bits, pos, to_bits}

-- For a timeout of the spec that is a positive `int32`, the validation job's deadline is sixty
-- seconds longer exactly where that is still an `int32`; for a timeout above 2147483587 seconds it
-- is negative, 2^32 seconds below that sum.
pub ueransim_validation_job-deadline :
    (agw : MagmaAgw) (release_name job_name ue_pod spec_hash : String) (n : ℕ)
    → agw.spec.ueransim_validation.timeout_seconds ≡ pos n
    → 0 < n
    → n < 2147483648
    → (ueransim_validation_job agw release_name job_name ue_pod spec_hash).active_deadline_seconds
      ≡ some (if ltb n 2147483588 then pos (n + 60) else negsuc (4294967295 - (n + 60)))
unfolding ueransim_validation_job add_int32 of_bits to_bits not_positive
ueransim_validation_job-deadline agw release_name job_name ue_pod spec_hash n is_n positive fits =
    rw is_n (
      let not_zero : nat_eq n 0 ≡ false = ground arith in
      let sum : (n % 4294967296 + 60) % 4294967296 ≡ n + 60 = omega arith in
      let test : ltb (n + 60) 2147483648 ≡ ltb n 2147483588 = ground arith in
      rw not_zero (rw sum (rw test refl)))
