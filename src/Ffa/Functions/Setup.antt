-- ===== src/Ffa/Functions/Setup.antt =====
-- odp-ffa/src/function: version.rs, features.rs, id_get.rs, rxtx.rs and mem_retrieve_req.rs.
use odp_secure_services.Base.{
  ℕ, ◌/◌, ◌%◌, ◌^◌, List, [], ◌∷◌, Result, ok, err, ◌==◌, if◌then◌else◌, get_or, bit_and,
}
use odp_secure_services.Base.Results.{◌>>=◌}
use odp_secure_services.Ffa.Error.{
  Error, invalid_function_id, version, features, id_get, rx_tx_map, mem_retrieve_req,
}
use odp_secure_services.Ffa.Message.{SmcParams, combine_low_high_u16}
use odp_secure_services.Ffa.Smc.{Monitor, SmcCall, with_default, ffa_smc, exec_simple}

-- Register x1 of the parameters, and so on: the list begins with x1.
abbrev pub x1 : SmcParams → ℕ
x1 params = get_or params 0 0

abbrev pub x2 : SmcParams → ℕ
x2 params = get_or params 1 0

abbrev pub x3 : SmcParams → ℕ
x3 params = get_or params 2 0

abbrev pub x4 : SmcParams → ℕ
x4 params = get_or params 3 0

pub record Version : Type 0 where
  pub major : ℕ
  pub minor : ℕ

unfoldable pub new_version : Version
new_version = record { major = 1; minor = 2 }

-- `ffa_version!` is `major << 16 | minor`.
unfoldable pub version_params : Version → SmcParams
unfolding combine_low_high_u16
version_params v = with_default (combine_low_high_u16 v.minor v.major ∷ [])

unfoldable pub version_from : SmcParams → Version
version_from value = record {
  major = x1 value / 2 ^ 16 % 2 ^ 16;
  minor = bit_and (x1 value) 0xFFFF;
}

-- `result[0]` of `Version::exec`: bit 31 marks an error.
unfoldable pub version_of_result : List ℕ → Result Error Version
version_of_result result =
    let r = get_or result 0 0 in
    if bit_and r (2 ^ 31) == 0
    then ok (record { major = r / 2 ^ 16 % 2 ^ 16; minor = bit_and r 0xffff })
    else err (invalid_function_id r)

pub record Features : Type 0 where
  pub feature_id : ℕ
  pub input_properties : ℕ

unfoldable pub features_params : Features → SmcParams
features_params f = with_default (f.feature_id ∷ f.input_properties ∷ [])

unfoldable pub features_from : SmcParams → Features
features_from value = record { feature_id = x1 value; input_properties = x2 value }

pub record RxTxMap : Type 0 where
  pub tx_address : ℕ
  pub rx_address : ℕ
  pub page_count : ℕ

unfoldable pub rx_tx_map_params : RxTxMap → SmcParams
rx_tx_map_params r = with_default (r.tx_address ∷ r.rx_address ∷ r.page_count ∷ [])

unfoldable pub rx_tx_map_from : SmcParams → RxTxMap
rx_tx_map_from value = record {
  tx_address = x1 value;
  rx_address = x2 value;
  page_count = x3 value % 2 ^ 32;
}

pub record MemRetrieveReq : Type 0 where
  pub total_length : ℕ
  pub frag_length : ℕ
  pub tx_address : ℕ
  pub page_count : ℕ

unfoldable pub new_mem_retrieve_req : MemRetrieveReq
new_mem_retrieve_req = record {
  total_length = 0x40;
  frag_length = 0x40;
  tx_address = 0;
  page_count = 0;
}

unfoldable pub mem_retrieve_req_params : MemRetrieveReq → SmcParams
mem_retrieve_req_params r =
    with_default (r.total_length ∷ r.frag_length ∷ r.tx_address ∷ r.page_count ∷ [])

unfoldable pub mem_retrieve_req_from : SmcParams → MemRetrieveReq
mem_retrieve_req_from value = record {
  total_length = x1 value;
  frag_length = x2 value;
  tx_address = x3 value;
  page_count = x4 value;
}

module _ {W : Type 0} (m : Monitor W) where
  unfoldable pub version_exec : W → Version → W × Result Error Version
  version_exec w v =
      let (w', result) = ffa_smc m w version (ok (version_params v)) in
      (w', result >>= version_of_result)

  -- The closure returns `interface_properties`.
  unfoldable pub features_exec : W → Features → W × Result Error ℕ
  features_exec w f =
      exec_simple m w features (ok (features_params f)) (λ result. ok (x2 result.params))

  -- The closure returns the `id`.
  unfoldable pub id_get_exec : W → W × Result Error ℕ
  id_get_exec w =
      exec_simple m w id_get (ok (with_default [])) (λ result. ok (x2 result.params % 2 ^ 16))

  unfoldable pub rx_tx_map_exec : W → RxTxMap → W × Result Error (Unit {0})
  rx_tx_map_exec w r = exec_simple m w rx_tx_map (ok (rx_tx_map_params r)) (λ _. ok tt)

  unfoldable pub mem_retrieve_req_exec : W → MemRetrieveReq → W × Result Error SmcCall
  mem_retrieve_req_exec w r = exec_simple m w mem_retrieve_req (ok (mem_retrieve_req_params r)) ok
