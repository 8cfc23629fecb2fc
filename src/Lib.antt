-- ===== src/Lib.antt =====
-- Verification of the protocol and device-model core of the Alibaba Cloud IoT C-SDK for Mbed OS.
--
-- The program connects a device to a cloud service. Its parts are protocol clients and servers
-- (eng/mqtt, eng/coap, eng/http, eng/http2), the device model on top of them (eng/dev_model), firmware
-- update (eng/ota) and shared helpers (eng/infra). What is modelled:
--   Base           the shared names, tests, lists, words and bit laws.
--   Coap           eng/coap: the message codec that the local server and the cloud client share.
--     Message      eng/coap/CoAPPacket/CoAPMessage_common.c and the record of eng/coap/iotx_coap_internal.h:
--                  CoAPMessage_init, CoAPStrOption_add, CoAPUintOption_get, ... are message_init,
--                  str_option_add, uint_option_get, ...; Options has the theorems.
--     Serialize    CoAPSerialize_common.c, CoAPSerialize_Message is serialize_message; Length has the theorems.
--     Deserialize  CoAPDeserialize_common.c, CoAPDeserialize_Message is deserialize_message; Bounds says
--                  which memory is read, RoundTrip reads written options back.
--     Codec        the two together.
--     SendList     eng/coap/server/CoAPMessage.c: CoAPMessageList_add, CoAPMessageId_cancel, Retansmit, ... are
--                  list_add, message_id_cancel, retransmit, ...; Counts and Session follow the counter, Cycle the
--                  time.
--     Cloud        eng/coap/client/Cloud_CoAPMessage.c, Cloud_CoAPMessage_cycle is cloud_cycle; Lifetime and Counted
--                  have the theorems.
--     Resource     eng/coap/server/CoAPResource.c, CoAPResource_register is resource_register, with Matching,
--                  Lookup and Counts for the theorems; its Request is CoAPRequestMessage_handle of
--                  eng/coap/server/CoAPMessage.c, with Paths.
--     Observe      eng/coap/server/CoAPObserve.c, CoAPObsServer_add is obs_server_add; its Client has the observations
--                  of the client, Send is CoAPMessage_send of eng/coap/server/CoAPMessage.c, Notify is
--                  CoAPObsServer_notify and Respond is CoAPServerResp_send of eng/coap/server/CoAPServer.c;
--                  Registered, Packet, Notified, Session, Heard and Watched have the theorems.
--   DevModel       eng/dev_model.
--     Cache        dm_message_cache.c, dm_msg_cache_insert is insert: the requests that wait for a reply,
--                  with Sizes, Search and Tick for the theorems; its time-outs go
--                  through the queue of Ipc.
--     Ipc          dm_ipc.c, dm_ipc_msg_insert is msg_insert: the bounded queue to the user, with Queue.
--     Utils        dm_utils.c, dm_utils_memtok is memtok: text helpers, with Texts for the theorems.
--     Devices      dm_manager.c, dm_mgr_device_create is device_create: the list of devices; Changes has the
--                  operations behind its creation, Registry, Queries and Walk have the theorems.
--     Connections  iotx_cm.c, iotx_cm_open is cm_open: the table of connections, with Table and Orphans for the
--                  theorems.
--   Infra          eng/infra.
--     Timer        infra_timer.c; Deadline has the theorems.
--     Hex, Numbers infra_string.c, text conversions.
--     Json         infra_json_parser.c, json_get_next_object and LITE_json_value_of are get_next_object and
--                  json_value_of; Members, Lookup, Rounds, Paths, Nested and
--                  TwoNames have the theorems.
--   Mqtt           eng/mqtt/iotx_mqtt_client.c.
--     Topic        infra_strtok, iotx_mc_check_topic and iotx_mc_is_topic_matched are strtok, check_topic and
--                  is_topic_matched; Tokens, Accepted and Matching have the theorems.
--     Link         the connection: _mqtt_connect is mqtt_connect; its Yield has iotx_mc_keepalive and iotx_mc_cycle
--                  as keepalive and cycle. Connect, Reconnect, Session, Probes, Silence and PacketIds have the
--                  theorems.
--     Cycle        _mqtt_cycle and wrapper_mqtt_yield as mqtt_cycle and yield, on the connection and the packets
--                  that wait for their acknowledgement.
--     Publish      wrapper_mqtt_publish is wrapper_publish, MQTTPubInfoProc is pub_info_proc; Waiting, Delivery and
--                  Rounds have the theorems.
--     Subscribe    MQTTSubscribe, MQTTUnsubscribe and iotx_mc_deliver_message are mqtt_subscribe, mqtt_unsubscribe and
--                  deliver_message; Handlers has the theorems.
--   Ota            eng/ota/iotx_ota.c: IOT_OTA_FetchYield and IOT_OTA_Ioctl are fetch_yield and ioctl.
--     Push         ota_callback of the same file for a firmware is push_fota, with the parameters of
--                  eng/ota/ota_lib.c.
--     Fota         eng/dev_model/dm_fota.c: dm_fota_perform_sync is perform_sync; Start, Digest, Integrity, Place, Resume,
--                  Complete and Stuck have the theorems.
--
-- A C function becomes a function of the same name in snake case. State is passed explicitly; a pointer
-- that the code tests for NULL is an Option; an allocation, a clock reading and the creation of a mutex
-- are arguments. Numbers are natural numbers with the wrap-around of unsigned char, unsigned short and
-- uint32_t written out. A status code is a number as in the C header, or a constructor of State.
-- The receive buffer is the list of the bytes from a pointer to the end of the memory, and a read past
-- it is the result `fault`. Loops are recursions on the list or on the free slots of the option array
-- (12); Check_timeout has as many passes as the list has nodes and one more, which is
-- enough since every pass but the last takes a node off; infra_int2str has ten rounds, which are enough
-- for 32 bits, as its round trip shows; the check of a topic has one round for each character left
-- and one more, which is enough as check_topic_total of Mqtt/Topic/Accepted shows; the loop of
-- dm_fota_perform_sync takes its turns from a list of what surrounds them; the loop over the members
-- of a JSON object has two rounds more than the text has characters behind its brace,
-- which is enough as find_name-enough of Infra/Json/Rounds shows.
-- Not modelled: network and file input and output, logging, the arrays of JSON texts, ciphers, the copies of external
-- libraries, and the mutual exclusion of threads (each operation is taken as one step).
pub mod Base
pub mod Coap
pub mod DevModel
pub mod Infra
pub mod Mqtt
pub mod Ota
