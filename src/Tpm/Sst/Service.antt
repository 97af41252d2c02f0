-- ===== src/Tpm/Sst/Service.antt =====
-- tpm.rs over tpm_sst.rs: the service with the library that drives the TPM. Where a call of the library
-- panics, or its loop ends its fuel, the program is at its end: the library's state is then `none`, and
-- the code that the call gives is of no use.
use odp_secure_services.Ffa.Error.{ErrorCode}
use odp_secure_services.Tpm.Command.{TpmSstOps}
use odp_secure_services.Tpm.Sst.Board.{Board, TpmSst}
use odp_secure_services.Tpm.Sst.Ops.{
  sst_init, start, go_idle, cmd_ready, locality_request, locality_relinquish,
}
use odp_secure_services.Tpm.Registers.{PtpCrbRegisters}
use odp_secure_services.Base.{Bool, Option, ℕ, none, some, false}

-- What a call leaves.
unfoldable pub after :
    {W : Type 0} → TpmSst → Option (W × ErrorCode) → Option (TpmSst × W) × ErrorCode
after sst none = (none, ErrorCode.denied)
after sst (some (w, status)) = (some (sst, w), status)

unfoldable pub call :
    {W : Type 0}
    → (TpmSst → ℕ → W → Option (W × ErrorCode))
    → Option (TpmSst × W)
    → ℕ
    → Option (TpmSst × W) × ErrorCode
unfolding after
call op none locality = (none, ErrorCode.denied)
call op (some (sst, w)) locality = after sst (op sst locality w)

-- What `start` leaves, which gives the block back.
unfoldable pub after_start :
    {W : Type 0}
    → TpmSst
    → PtpCrbRegisters
    → Option (W × PtpCrbRegisters × ErrorCode)
    → Option (TpmSst × W) × PtpCrbRegisters × ErrorCode
after_start sst crb none = (none, crb, ErrorCode.denied)
after_start sst crb (some (w, crb', status)) = (some (sst, w), crb', status)

module _ {W : Type 0} (b : Board W) (fuel : ℕ) where
  unfoldable pub call_start :
      Option (TpmSst × W) → ℕ → PtpCrbRegisters → Option (TpmSst × W) × PtpCrbRegisters × ErrorCode
  unfolding after_start
  call_start none locality crb = (none, crb, ErrorCode.denied)
  call_start (some (sst, w)) locality crb = after_start sst crb (start b fuel sst locality crb w)

  unfoldable pub call_init : Option (TpmSst × W) → Option (TpmSst × W)
  call_init none = none
  call_init (some (sst, w)) = some (sst_init b fuel sst w)

  unfoldable pub idle_bypass : Option (TpmSst × W) → Bool
  idle_bypass none = false
  idle_bypass (some (sst, w)) = sst.is_idle_bypass_supported

  -- `impl TpmSstOps for TpmSst`.
  unfoldable pub sst_ops : TpmSstOps (Option (TpmSst × W))
  unfolding call call_start call_init idle_bypass
  sst_ops = record {
    go_idle = call (go_idle b fuel);
    cmd_ready = call (cmd_ready b fuel);
    start = call_start;
    locality_request = call (locality_request b fuel);
    locality_relinquish = call (locality_relinquish b fuel);
    is_idle_bypass_supported = idle_bypass;
    init = call_init;
  }
