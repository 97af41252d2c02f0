-- ===== src/Ffa/CallTests.antt =====
-- The calls of the interface on concrete inputs.
use odp_secure_services.Ffa.Functions.RoundTrip.{function_params-round_trip}
use odp_secure_services.Ffa.Smc.Delivery.{exec_simple-registers, IsDelivered, registers}
use odp_secure_services.Ffa.Console.Writing.{write_str-sends, chars, sends}
use odp_secure_services.Ffa.Console.{write_str}
use odp_secure_services.Ffa.Error.{function_id_to_u64, id_get, success32}
use odp_secure_services.Ffa.Functions.Scheduling.{
  msg_send2_params, msg_send2_from, yield_params, yield_from, MsgSend2, Yield,
}
use odp_secure_services.Ffa.Functions.Notification.{
  notification_get_params, notification_get_from, notification_set_params, notification_set_from,
  NotificationGet, NotificationSet,
}
use odp_secure_services.Ffa.Functions.Setup.{
  mem_retrieve_req_params, mem_retrieve_req_from, rx_tx_map_params, rx_tx_map_from, features_params,
  features_from, x1, version_params, version_from, MemRetrieveReq, RxTxMap, Features, Version,
}
use odp_secure_services.Base.Options.{Returns}
use odp_secure_services.Ffa.Message.{SmcParams}
use odp_secure_services.Base.{
  ◌⊎◌, err, arith, refl, ◌≤◌, All, ◌++◌, ◌↔◌, ◌+◌, [], ok, replicate, ◌^◌, ◌≡◌, ◌∷◌, suc, List, ℕ,
}
use odp_secure_services.Ffa.Smc.{exec_simple, SmcCall, Monitor}

-- A monitor that answers every call with a success, and counts the calls.
abbrev pub obliging : Monitor ℕ
obliging = record { smc = λ w id params. (suc w, function_id_to_u64 success32 ∷ replicate 17 0) }

abbrev success : SmcCall
success = record { id = success32; params = replicate 17 0 }

exec_simple-registers_example :
    ((exec_simple obliging 0 id_get (ok (replicate 17 0)) ok).1 ≡ ok success) ↔ (
      ((obliging.smc 0 (function_id_to_u64 id_get) (replicate 17 0)).1 ≡ registers success)
      × IsDelivered success.id)
exec_simple-registers_example =
    exec_simple-registers obliging 0 id_get (replicate 17 0) success refl

abbrev hello : List ℕ
hello = 104 ∷ 105 ∷ []

write_str-sends_example :
    Returns
      (λ r.
        (calls : List SmcParams) × (rest : List ℕ) × (r.0 ≡ sends obliging 0 calls)
        × (chars obliging calls ++ rest ≡ hello)
        × All (λ ps. x1 ps ≤ 128) calls
        × ((r.1 ≡ err tt) ⊎ (rest ≡ [])))
      (write_str obliging 0 hello)
write_str-sends_example = write_str-sends obliging 0 hello (omega arith)

abbrev a_version : Version
a_version = record { major = 1; minor = 2 }

abbrev a_set : NotificationSet
a_set = record { sender_id = 0x8001; receiver_id = 1; flags = 2; notification_bitmap = 2 ^ 40 + 2 }

abbrev a_get : NotificationGet
a_get = record { receiver_cpu_id = 3; receiver_endpoint_id = 0x8001; flags = 1 }

abbrev a_yield : Yield
a_yield = record { vcpu_id = 1; endpoint_id = 0x8001; timeout = 2 ^ 33 + 5 }

abbrev a_message : MsgSend2
a_message = record { sender_id = 0x8001; flags = 1 }

abbrev a_query : Features
a_query = record { feature_id = 3; input_properties = 0 }

abbrev a_mapping : RxTxMap
a_mapping = record { tx_address = 2 ^ 40; rx_address = 2 ^ 41; page_count = 1 }

abbrev a_retrieval : MemRetrieveReq
a_retrieval = record { total_length = 0x40; frag_length = 0x40; tx_address = 0; page_count = 0 }

function_params-round_trip_example :
    (version_from (version_params a_version) ≡ a_version)
    × (notification_set_from (notification_set_params a_set) ≡ a_set)
    × (notification_get_from (notification_get_params a_get) ≡ a_get)
    × (yield_from (yield_params a_yield) ≡ a_yield)
    × (msg_send2_from (msg_send2_params a_message) ≡ a_message)
    × (features_from (features_params a_query) ≡ a_query)
    × (rx_tx_map_from (rx_tx_map_params a_mapping) ≡ a_mapping)
    × (mem_retrieve_req_from (mem_retrieve_req_params a_retrieval) ≡ a_retrieval)
function_params-round_trip_example =
    function_params-round_trip a_version a_set a_get a_yield a_message a_query a_mapping a_retrieval
      (record { major_lt = omega arith; minor_lt = omega arith })
      (record {
        sender_lt = omega arith;
        receiver_lt = omega arith;
        flags_lt = omega arith;
        bitmap_lt = omega arith;
      })
      (record { cpu_lt = omega arith; endpoint_lt = omega arith; flags_lt = omega arith })
      (record { vcpu_lt = omega arith; endpoint_lt = omega arith; timeout_lt = omega arith })
      (record { sender_lt = omega arith; flags_lt = omega arith }) (omega arith)
