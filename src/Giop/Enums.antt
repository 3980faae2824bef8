-- ===== src/Giop/Enums.antt =====
-- The enumerations and structures of giop.hh. A cast from an integer keeps a value that the
-- enumeration does not name, here `other`; the second function is `std::to_underlying`.
use corba_cc.Base.{ℕ, ◌==◌, if◌then◌else◌}

pub data MessageType : Type 0 where
  request reply cancel_request locate_request locate_reply : MessageType
  close_connection message_error fragment : MessageType
  other : ℕ → MessageType

unfoldable pub message_type : ℕ → MessageType
message_type n =
    if n == 0
    then MessageType.request
    else if n == 1
    then MessageType.reply
    else if n == 2
    then MessageType.cancel_request
    else if n == 3
    then MessageType.locate_request
    else if n == 4
    then MessageType.locate_reply
    else if n == 5
    then MessageType.close_connection
    else if n == 6
    then MessageType.message_error
    else if n == 7
    then MessageType.fragment
    else MessageType.other n

unfoldable pub message_type_code : MessageType → ℕ
message_type_code MessageType.request = 0
message_type_code MessageType.reply = 1
message_type_code MessageType.cancel_request = 2
message_type_code MessageType.locate_request = 3
message_type_code MessageType.locate_reply = 4
message_type_code MessageType.close_connection = 5
message_type_code MessageType.message_error = 6
message_type_code MessageType.fragment = 7
message_type_code (MessageType.other n) = n

pub data ReplyStatus : Type 0 where
  no_exception user_exception system_exception location_forward : ReplyStatus
  location_forward_perm needs_addressing_mode : ReplyStatus
  other : ℕ → ReplyStatus

unfoldable pub reply_status : ℕ → ReplyStatus
reply_status n =
    if n == 0
    then ReplyStatus.no_exception
    else if n == 1
    then ReplyStatus.user_exception
    else if n == 2
    then ReplyStatus.system_exception
    else if n == 3
    then ReplyStatus.location_forward
    else if n == 4
    then ReplyStatus.location_forward_perm
    else if n == 5
    then ReplyStatus.needs_addressing_mode
    else ReplyStatus.other n

unfoldable pub reply_status_code : ReplyStatus → ℕ
reply_status_code ReplyStatus.no_exception = 0
reply_status_code ReplyStatus.user_exception = 1
reply_status_code ReplyStatus.system_exception = 2
reply_status_code ReplyStatus.location_forward = 3
reply_status_code ReplyStatus.location_forward_perm = 4
reply_status_code ReplyStatus.needs_addressing_mode = 5
reply_status_code (ReplyStatus.other n) = n

pub data LocateStatusType : Type 0 where
  unknown_object object_here object_forward object_forward_perm : LocateStatusType
  loc_system_exception loc_needs_addressing_mode : LocateStatusType
  other : ℕ → LocateStatusType

unfoldable pub locate_status : ℕ → LocateStatusType
locate_status n =
    if n == 0
    then LocateStatusType.unknown_object
    else if n == 1
    then LocateStatusType.object_here
    else if n == 2
    then LocateStatusType.object_forward
    else if n == 3
    then LocateStatusType.object_forward_perm
    else if n == 4
    then LocateStatusType.loc_system_exception
    else if n == 5
    then LocateStatusType.loc_needs_addressing_mode
    else LocateStatusType.other n

unfoldable pub locate_status_code : LocateStatusType → ℕ
locate_status_code LocateStatusType.unknown_object = 0
locate_status_code LocateStatusType.object_here = 1
locate_status_code LocateStatusType.object_forward = 2
locate_status_code LocateStatusType.object_forward_perm = 3
locate_status_code LocateStatusType.loc_system_exception = 4
locate_status_code LocateStatusType.loc_needs_addressing_mode = 5
locate_status_code (LocateStatusType.other n) = n

pub data AddressingDisposition : Type 0 where
  key_addr profile_addr reference_addr : AddressingDisposition
  other : ℕ → AddressingDisposition

unfoldable pub addressing_disposition : ℕ → AddressingDisposition
addressing_disposition n =
    if n == 0
    then AddressingDisposition.key_addr
    else if n == 1
    then AddressingDisposition.profile_addr
    else if n == 2
    then AddressingDisposition.reference_addr
    else AddressingDisposition.other n

unfoldable pub addressing_disposition_code : AddressingDisposition → ℕ
addressing_disposition_code AddressingDisposition.key_addr = 0
addressing_disposition_code AddressingDisposition.profile_addr = 1
addressing_disposition_code AddressingDisposition.reference_addr = 2
addressing_disposition_code (AddressingDisposition.other n) = n

pub data ProfileId : Type 0 where
  tag_internet_iop tag_multiple_components tag_sccp_iop tag_uipmc : ProfileId
  tag_mobile_terminal_iop : ProfileId
  other : ℕ → ProfileId

unfoldable pub profile_id : ℕ → ProfileId
profile_id n =
    if n == 0
    then ProfileId.tag_internet_iop
    else if n == 1
    then ProfileId.tag_multiple_components
    else if n == 2
    then ProfileId.tag_sccp_iop
    else if n == 3
    then ProfileId.tag_uipmc
    else if n == 4
    then ProfileId.tag_mobile_terminal_iop
    else ProfileId.other n

unfoldable pub profile_id_code : ProfileId → ℕ
profile_id_code ProfileId.tag_internet_iop = 0
profile_id_code ProfileId.tag_multiple_components = 1
profile_id_code ProfileId.tag_sccp_iop = 2
profile_id_code ProfileId.tag_uipmc = 3
profile_id_code ProfileId.tag_mobile_terminal_iop = 4
profile_id_code (ProfileId.other n) = n

pub data ServiceId : Type 0 where
  transaction_service code_sets chain_bypass_check chain_bypass_info : ServiceId
  logical_thread_id bi_dir_iiop sending_context_run_time : ServiceId
  invocation_policies forwarded_identity unknown_exception_info : ServiceId
  rt_corba_priority rt_corba_priority_range ft_group_version ft_request : ServiceId
  exception_detail_message security_attribute_service activity_service : ServiceId
  rmi_custom_max_stream_format access_session_id service_session_id : ServiceId
  firewall_path firewall_path_resp service_padding_context : ServiceId
  other : ℕ → ServiceId

unfoldable pub service_id : ℕ → ServiceId
service_id n =
    if n == 0
    then ServiceId.transaction_service
    else if n == 1
    then ServiceId.code_sets
    else if n == 2
    then ServiceId.chain_bypass_check
    else if n == 3
    then ServiceId.chain_bypass_info
    else if n == 4
    then ServiceId.logical_thread_id
    else if n == 5
    then ServiceId.bi_dir_iiop
    else if n == 6
    then ServiceId.sending_context_run_time
    else if n == 7
    then ServiceId.invocation_policies
    else if n == 8
    then ServiceId.forwarded_identity
    else if n == 9
    then ServiceId.unknown_exception_info
    else if n == 10
    then ServiceId.rt_corba_priority
    else if n == 11
    then ServiceId.rt_corba_priority_range
    else if n == 12
    then ServiceId.ft_group_version
    else if n == 13
    then ServiceId.ft_request
    else if n == 14
    then ServiceId.exception_detail_message
    else if n == 15
    then ServiceId.security_attribute_service
    else if n == 16
    then ServiceId.activity_service
    else if n == 17
    then ServiceId.rmi_custom_max_stream_format
    else if n == 18
    then ServiceId.access_session_id
    else if n == 19
    then ServiceId.service_session_id
    else if n == 20
    then ServiceId.firewall_path
    else if n == 21
    then ServiceId.firewall_path_resp
    else if n == 0x4a414301
    then ServiceId.service_padding_context
    else ServiceId.other n

unfoldable pub service_id_code : ServiceId → ℕ
service_id_code ServiceId.transaction_service = 0
service_id_code ServiceId.code_sets = 1
service_id_code ServiceId.chain_bypass_check = 2
service_id_code ServiceId.chain_bypass_info = 3
service_id_code ServiceId.logical_thread_id = 4
service_id_code ServiceId.bi_dir_iiop = 5
service_id_code ServiceId.sending_context_run_time = 6
service_id_code ServiceId.invocation_policies = 7
service_id_code ServiceId.forwarded_identity = 8
service_id_code ServiceId.unknown_exception_info = 9
service_id_code ServiceId.rt_corba_priority = 10
service_id_code ServiceId.rt_corba_priority_range = 11
service_id_code ServiceId.ft_group_version = 12
service_id_code ServiceId.ft_request = 13
service_id_code ServiceId.exception_detail_message = 14
service_id_code ServiceId.security_attribute_service = 15
service_id_code ServiceId.activity_service = 16
service_id_code ServiceId.rmi_custom_max_stream_format = 17
service_id_code ServiceId.access_session_id = 18
service_id_code ServiceId.service_session_id = 19
service_id_code ServiceId.firewall_path = 20
service_id_code ServiceId.firewall_path_resp = 21
service_id_code ServiceId.service_padding_context = 0x4a414301
service_id_code (ServiceId.other n) = n
