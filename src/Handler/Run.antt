-- ===== src/Handler/Run.antt =====
-- The services that are appended to the handler keep its contract, and the loop runs over them.
use mathlib.Core.Path.{subst}
use odp_secure_services.Tpm.Answers.{IsResponse-IsReply, handle-IsServed}
use odp_secure_services.Notify.Panics.{handle-IsNotify}
use odp_secure_services.Ffa.Error.{Error}
use odp_secure_services.Handler.Trace.{msg_loop-Stopped, Conversation}
use odp_secure_services.Handler.Loop.{run_message_loop}
use odp_secure_services.Handler.Reply.{node_handle-IsChain, IsChain, ServiceLaws}
use odp_secure_services.Notify.Types.{Notify}
use odp_secure_services.Ffa.Smc.{Monitor}
use odp_secure_services.Tpm.Command.{TpmService, TpmSstOps}
use odp_secure_services.Ffa.Message.{SmcParams, UuidCrate}
use odp_secure_services.Base.{sym, ℕ, ◌≤◌, ◌≡◌, ◌⊎◌, err, length}
use odp_secure_services.Base.Options.{Returns, Returns-mono}
use odp_secure_services.Notify.Service.{handle as notify_handle}
use odp_secure_services.Tpm.Service.{handle as tpm_handle}
use odp_secure_services.Notify.Types.{Notify}
use odp_secure_services.Notify.Valid.{IsNotify}
use odp_secure_services.Tpm.Access.{IsService, serve-IsService}
use odp_secure_services.Handler.Chain.{Service, Node, node_handle}

-- `Notify` and `TpmService` as services, at their UUIDs.
abbrev pub notify_service : UuidCrate → Service
notify_service c = record {
  State = Notify;
  uuid = 0xe474d87e57314044a727cb3e8cf3c8df;
  handle = notify_handle c;
}

abbrev pub tpm_service : {S : Type 0} → TpmSstOps S → Service
tpm_service {S} ops = record {
  State = TpmService S;
  uuid = 0x17b862a418064faf86b3089a58353861;
  handle = tpm_handle ops;
}

abbrev pub notify_service-ServiceLaws : (c : UuidCrate) → ServiceLaws (notify_service c)
notify_service-ServiceLaws c = record {
  Valid = IsNotify;
  handles = λ n msg p v. handle-IsNotify c n msg p v;
}

abbrev pub tpm_service-ServiceLaws :
    {S : Type 0} (ops : TpmSstOps S) → ServiceLaws (tpm_service ops)
tpm_service-ServiceLaws ops = record {
  Valid = IsService;
  handles = λ s msg p v. Returns-mono (handle-IsServed ops s msg p) (λ r served. (
    subst IsService (sym served.state) (serve-IsService ops msg.source_id served.request s v),
    IsResponse-IsReply served.response,
  ));
}

module _ {W : Type 0} (m : Monitor W) (c : UuidCrate) where
  -- Where each SMC leaves eighteen registers, the message loop over a chain of services that keep
  -- their promises runs without a panic. After a wait it makes one call in each round, a wait or a
  -- reply to the request that it had just received, and only a call that fails ends it; the services
  -- stay in valid states.
  pub run_message_loop-Conversation :
      ((w : W) (id : ℕ) (params : SmcParams) → length (m.smc w id params).1 ≡ 18)
      → (k : ℕ) (w0 : W) (node : Node) → IsChain node
      → Returns
          (λ r.
            (j : ℕ) × (j ≤ k)
            × IsChain r.1
            × Conversation m c w0 j r.0 r.2
            × ((j ≡ k) ⊎ ((e : Error) × (r.2 ≡ err e))))
          (run_message_loop m c k w0 node)
  unfolding run_message_loop
  run_message_loop-Conversation honest k w0 node chain =
      msg_loop-Stopped m c honest IsChain node_handle (λ n msg p v. node_handle-IsChain n msg p v)
        w0 k node chain
