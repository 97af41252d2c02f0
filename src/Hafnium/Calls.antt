-- ===== src/Hafnium/Calls.antt =====
-- hafnium/src/lib.rs: the calls about interrupts. The instruction `hvc` is a parameter: it takes the
-- registers x0 to x3 and leaves x0. A result of the type i64 is its 64 bits.
use odp_secure_services.Base.{
  ◌==◌, if◌then◌else◌, ok, err, Result, none, some, Option, Bool, true, false, ℕ, ◌%◌, ◌^◌,
}

pub data HfCall : Type 0 where
  mailbox_writable_get : HfCall
  mailbox_waiter_get : HfCall
  interrupt_enable : HfCall
  interrupt_get : HfCall
  interrupt_inject : HfCall
  interrupt_deactivate : HfCall
  interrupt_reconfigure : HfCall

unfoldable pub hf_call_code : HfCall → ℕ
hf_call_code mailbox_writable_get = 0xff01
hf_call_code mailbox_waiter_get = 0xff02
hf_call_code interrupt_enable = 0xff03
hf_call_code interrupt_get = 0xff04
hf_call_code interrupt_inject = 0xff05
hf_call_code interrupt_deactivate = 0xff08
hf_call_code interrupt_reconfigure = 0xff09

-- The number of an interrupt is a u32.
pub record InterruptId : Type 0 where
  pub number : ℕ

pub data InterruptType : Type 0 where
  irq : InterruptType
  fiq : InterruptType

unfoldable pub interrupt_type_code : InterruptType → ℕ
interrupt_type_code irq = 0
interrupt_type_code fiq = 1

pub data InterruptReconfigureCommand : Type 0 where
  target_pe : InterruptReconfigureCommand
  sec_state : InterruptReconfigureCommand
  enable : InterruptReconfigureCommand

unfoldable pub reconfigure_code : InterruptReconfigureCommand → ℕ
reconfigure_code target_pe = 0
reconfigure_code sec_state = 1
reconfigure_code enable = 2

unfoldable pub bool_code : Bool → ℕ
bool_code false = 0
bool_code true = 1

abbrev pub invalid_id : ℕ
invalid_id = 0xffffffff

unfoldable pub call_result : ℕ → Result ℕ (Unit {0})
call_result result = if result == 0 then ok tt else err result

unfoldable pub interrupt_id : ℕ → Option InterruptId
interrupt_id result =
    let intid = result % 2 ^ 32 in
    if intid == invalid_id then none else some (record { number = intid })

module _ {W : Type 0} (hvc : W → ℕ → ℕ → ℕ → ℕ → W × ℕ) where
  unfoldable pub hf_call : HfCall → ℕ → ℕ → ℕ → W → W × ℕ
  unfolding hf_call_code
  hf_call arg0 arg1 arg2 arg3 w = hvc w (hf_call_code arg0) arg1 arg2 arg3

  unfoldable pub hf_interrupt_set : InterruptId → InterruptType → Bool → W → W × Result ℕ (Unit {0})
  hf_interrupt_set intid int_type enabled w =
      let (w', result) =
        hf_call interrupt_enable intid.number (bool_code enabled) (interrupt_type_code int_type)
          w in
      (w', call_result result)

  unfoldable pub hf_interrupt_get : W → W × Option InterruptId
  unfolding hf_call interrupt_id
  hf_interrupt_get w = let (w', result) = hf_call interrupt_get 0 0 0 w in (w', interrupt_id result)

  unfoldable pub hf_interrupt_deactivate : InterruptId → W → W × Result ℕ (Unit {0})
  unfolding hf_call call_result
  hf_interrupt_deactivate intid w =
      let (w', result) = hf_call interrupt_deactivate intid.number intid.number 0 w in
      (w', call_result result)

  unfoldable pub hf_interrupt_reconfigure :
      InterruptId → InterruptReconfigureCommand → ℕ → W → W × Result ℕ (Unit {0})
  hf_interrupt_reconfigure intid command value w =
      let (w', result) =
        hf_call interrupt_reconfigure intid.number (reconfigure_code command) value w in
      (w', call_result result)
