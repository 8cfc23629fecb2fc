-- ===== src/Mqtt/Status.antt =====
-- The status codes of eng/infra/infra_state.h that the modelled functions of the MQTT client return.
use mathlib.Core.Bool.{Bool, true, false}

pub data Status : Type 0 where
  state_success : Status
  user_input_invalid : Status
  malloc_failed nwk_close : Status
  unexp_topic_format topic_buf_too_short : Status
  tx_buffer_too_short qos1_repub_exceed_max : Status
  in_offline_status wait_reconn_timer recv_unknown_packet : Status
  pub_qos_invalid conn_retry_exceed_max : Status
  connack_version_unaccept connack_ident_reject connack_service_na : Status
  connack_bad_userdata connack_not_authorized connack_unknown_error : Status
  deserialize_connack_error serialize_pub_error : Status
  serialize_sub_error serialize_unsub_error : Status

-- `rc >= STATE_SUCCESS`, for a code that is not an id: all others are below it.
abbrev pub is_success : Status → Bool
is_success state_success = true
is_success _ = false
