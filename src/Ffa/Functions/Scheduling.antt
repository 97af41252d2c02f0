-- ===== src/Ffa/Functions/Scheduling.antt =====
-- odp-ffa/src/function: yld.rs, interrupt.rs, msg/msg_wait.rs and msg/msg_send2.rs.
use odp_secure_services.Base.{ℕ, ◌*◌, ◌/◌, ◌%◌, ◌^◌, [], ◌∷◌, Result, ok, bit_and, bit_or}
use odp_secure_services.Ffa.Error.{Error, msg_yield, interrupt, msg_wait, msg_send2}
use odp_secure_services.Ffa.Message.{SmcParams, combine_low_high_u16}
use odp_secure_services.Ffa.Smc.{Monitor, SmcCall, with_default, exec_simple}
use odp_secure_services.Ffa.Functions.Setup.{x1, x2, x3}

pub record Yield : Type 0 where
  pub vcpu_id : ℕ
  pub endpoint_id : ℕ
  pub timeout : ℕ

unfoldable pub new_yield : ℕ → Yield
new_yield timeout = record { vcpu_id = 0; endpoint_id = 0; timeout = timeout }

unfoldable pub yield_params : Yield → SmcParams
unfolding combine_low_high_u16
yield_params y = with_default (
    combine_low_high_u16 y.vcpu_id y.endpoint_id ∷ (y.timeout % 2 ^ 32) ∷ (y.timeout / 2 ^ 32) ∷ [])

unfoldable pub yield_from : SmcParams → Yield
yield_from value = record {
  vcpu_id = bit_and (x1 value) 0xFFFF;
  endpoint_id = bit_and (x1 value / 2 ^ 16) 0xFFFF;
  timeout = bit_or (x3 value * 2 ^ 32 % 2 ^ 64) (x2 value);
}

pub record Interrupt : Type 0 where
  pub endpoint_id : ℕ
  pub vcpu_id : ℕ
  pub interrupt_id : ℕ

unfoldable pub interrupt_params : Interrupt → SmcParams
unfolding combine_low_high_u16
interrupt_params i =
    with_default (combine_low_high_u16 i.vcpu_id i.endpoint_id ∷ i.interrupt_id ∷ [])

pub record MsgSend2 : Type 0 where
  pub sender_id : ℕ
  pub flags : ℕ

unfoldable pub msg_send2_params : MsgSend2 → SmcParams
msg_send2_params s = with_default ((s.sender_id * 2 ^ 16) ∷ s.flags ∷ [])

unfoldable pub msg_send2_from : SmcParams → MsgSend2
msg_send2_from value = record { sender_id = x1 value / 2 ^ 16 % 2 ^ 16; flags = x2 value % 2 ^ 32 }

module _ {W : Type 0} (m : Monitor W) where
  unfoldable pub yield_exec : W → Yield → W × Result Error (Unit {0})
  yield_exec w y = exec_simple m w msg_yield (ok (yield_params y)) (λ _. ok tt)

  unfoldable pub interrupt_exec : W → Interrupt → W × Result Error (Unit {0})
  interrupt_exec w i = exec_simple m w interrupt (ok (interrupt_params i)) (λ _. ok tt)

  unfoldable pub msg_wait_exec : W → W × Result Error SmcCall
  msg_wait_exec w = exec_simple m w msg_wait (ok (with_default [])) ok

  unfoldable pub msg_send2_exec : W → MsgSend2 → W × Result Error (Unit {0})
  msg_send2_exec w s = exec_simple m w msg_send2 (ok (msg_send2_params s)) (λ _. ok tt)
