-- ===== src/Commands/Tables.antt =====
-- The rows of libril/ril_commands.h and libril/ril_unsol_commands.h, in order.
use rild_hisi.Common.{ℕ, List, [], ◌∷◌}
use rild_hisi.Commands.{
  DispatchFunction, ResponseFunction, WakeType, dont_wake, wake_partial, CommandInfo,
  UnsolResponseInfo,
}

abbrev entry : ℕ → DispatchFunction → ResponseFunction → CommandInfo
entry n d r = record { request_number = n; dispatch_function = d; response_function = r }

abbrev unsol : ℕ → ResponseFunction → WakeType → UnsolResponseInfo
unsol n r w = record { request_number = n; response_function = r; wake_type = w }

-- s_commands
unfoldable pub commands : List CommandInfo
commands =
    entry 0 DispatchFunction.null ResponseFunction.null
    ∷ entry 1 DispatchFunction.void ResponseFunction.sim_status
    ∷ entry 2 DispatchFunction.strings ResponseFunction.ints
    ∷ entry 3 DispatchFunction.strings ResponseFunction.ints
    ∷ entry 4 DispatchFunction.strings ResponseFunction.ints
    ∷ entry 5 DispatchFunction.strings ResponseFunction.ints
    ∷ entry 6 DispatchFunction.strings ResponseFunction.ints
    ∷ entry 7 DispatchFunction.strings ResponseFunction.ints
    ∷ entry 8 DispatchFunction.strings ResponseFunction.ints
    ∷ entry 9 DispatchFunction.void ResponseFunction.call_list
    ∷ entry 10 DispatchFunction.dial ResponseFunction.void
    ∷ entry 11 DispatchFunction.void ResponseFunction.string
    ∷ entry 12 DispatchFunction.ints ResponseFunction.void
    ∷ entry 13 DispatchFunction.void ResponseFunction.void
    ∷ entry 14 DispatchFunction.void ResponseFunction.void
    ∷ entry 15 DispatchFunction.void ResponseFunction.void
    ∷ entry 16 DispatchFunction.void ResponseFunction.void
    ∷ entry 17 DispatchFunction.void ResponseFunction.void
    ∷ entry 18 DispatchFunction.void ResponseFunction.ints
    ∷ entry 19 DispatchFunction.void ResponseFunction.ril_signal_strength
    ∷ entry 20 DispatchFunction.void ResponseFunction.strings
    ∷ entry 21 DispatchFunction.void ResponseFunction.strings
    ∷ entry 22 DispatchFunction.void ResponseFunction.strings
    ∷ entry 23 DispatchFunction.ints ResponseFunction.void
    ∷ entry 24 DispatchFunction.string ResponseFunction.void
    ∷ entry 25 DispatchFunction.strings ResponseFunction.sms
    ∷ entry 26 DispatchFunction.strings ResponseFunction.sms
    ∷ entry 27 DispatchFunction.strings ResponseFunction.strings
    ∷ entry 28 DispatchFunction.sim_io ResponseFunction.sim_io
    ∷ entry 29 DispatchFunction.string ResponseFunction.void
    ∷ entry 30 DispatchFunction.void ResponseFunction.void
    ∷ entry 31 DispatchFunction.void ResponseFunction.ints
    ∷ entry 32 DispatchFunction.ints ResponseFunction.void
    ∷ entry 33 DispatchFunction.call_forward ResponseFunction.call_forwards
    ∷ entry 34 DispatchFunction.call_forward ResponseFunction.void
    ∷ entry 35 DispatchFunction.ints ResponseFunction.ints
    ∷ entry 36 DispatchFunction.ints ResponseFunction.void
    ∷ entry 37 DispatchFunction.ints ResponseFunction.void
    ∷ entry 38 DispatchFunction.void ResponseFunction.string
    ∷ entry 39 DispatchFunction.void ResponseFunction.string
    ∷ entry 40 DispatchFunction.void ResponseFunction.void
    ∷ entry 41 DispatchFunction.strings ResponseFunction.void
    ∷ entry 42 DispatchFunction.strings ResponseFunction.ints
    ∷ entry 43 DispatchFunction.strings ResponseFunction.ints
    ∷ entry 44 DispatchFunction.strings ResponseFunction.void
    ∷ entry 45 DispatchFunction.void ResponseFunction.ints
    ∷ entry 46 DispatchFunction.void ResponseFunction.void
    ∷ entry 47 DispatchFunction.string ResponseFunction.void
    ∷ entry 48 DispatchFunction.void ResponseFunction.strings
    ∷ entry 49 DispatchFunction.string ResponseFunction.void
    ∷ entry 50 DispatchFunction.void ResponseFunction.void
    ∷ entry 51 DispatchFunction.void ResponseFunction.string
    ∷ entry 52 DispatchFunction.ints ResponseFunction.void
    ∷ entry 53 DispatchFunction.ints ResponseFunction.void
    ∷ entry 54 DispatchFunction.void ResponseFunction.ints
    ∷ entry 55 DispatchFunction.void ResponseFunction.ints
    ∷ entry 56 DispatchFunction.void ResponseFunction.ints
    ∷ entry 57 DispatchFunction.void ResponseFunction.data_call_list
    ∷ entry 58 DispatchFunction.void ResponseFunction.void
    ∷ entry 59 DispatchFunction.raw ResponseFunction.raw
    ∷ entry 60 DispatchFunction.strings ResponseFunction.strings
    ∷ entry 61 DispatchFunction.ints ResponseFunction.void
    ∷ entry 62 DispatchFunction.ints ResponseFunction.void
    ∷ entry 63 DispatchFunction.sms_write ResponseFunction.ints
    ∷ entry 64 DispatchFunction.ints ResponseFunction.void
    ∷ entry 65 DispatchFunction.ints ResponseFunction.void
    ∷ entry 66 DispatchFunction.void ResponseFunction.ints
    ∷ entry 67 DispatchFunction.void ResponseFunction.string
    ∷ entry 68 DispatchFunction.string ResponseFunction.void
    ∷ entry 69 DispatchFunction.string ResponseFunction.string
    ∷ entry 70 DispatchFunction.string ResponseFunction.void
    ∷ entry 71 DispatchFunction.ints ResponseFunction.void
    ∷ entry 72 DispatchFunction.void ResponseFunction.void
    ∷ entry 73 DispatchFunction.ints ResponseFunction.void
    ∷ entry 74 DispatchFunction.void ResponseFunction.ints
    ∷ entry 75 DispatchFunction.void ResponseFunction.cell_list
    ∷ entry 76 DispatchFunction.ints ResponseFunction.void
    ∷ entry 77 DispatchFunction.ints ResponseFunction.void
    ∷ entry 78 DispatchFunction.ints ResponseFunction.void
    ∷ entry 79 DispatchFunction.void ResponseFunction.ints
    ∷ entry 80 DispatchFunction.ints ResponseFunction.void
    ∷ entry 81 DispatchFunction.void ResponseFunction.ints
    ∷ entry 82 DispatchFunction.ints ResponseFunction.void
    ∷ entry 83 DispatchFunction.void ResponseFunction.ints
    ∷ entry 84 DispatchFunction.string ResponseFunction.void
    ∷ entry 85 DispatchFunction.strings ResponseFunction.void
    ∷ entry 86 DispatchFunction.string ResponseFunction.void
    ∷ entry 87 DispatchFunction.cdma_sms ResponseFunction.sms
    ∷ entry 88 DispatchFunction.cdma_sms_ack ResponseFunction.void
    ∷ entry 89 DispatchFunction.void ResponseFunction.gsm_br_sms_cnf
    ∷ entry 90 DispatchFunction.gsm_br_sms_cnf ResponseFunction.void
    ∷ entry 91 DispatchFunction.ints ResponseFunction.void
    ∷ entry 92 DispatchFunction.void ResponseFunction.cdma_br_sms_cnf
    ∷ entry 93 DispatchFunction.cdma_br_sms_cnf ResponseFunction.void
    ∷ entry 94 DispatchFunction.ints ResponseFunction.void
    ∷ entry 95 DispatchFunction.void ResponseFunction.strings
    ∷ entry 96 DispatchFunction.ril_cdma_sms_write_args ResponseFunction.ints
    ∷ entry 97 DispatchFunction.ints ResponseFunction.void
    ∷ entry 98 DispatchFunction.void ResponseFunction.strings
    ∷ entry 99 DispatchFunction.void ResponseFunction.void
    ∷ entry 100 DispatchFunction.void ResponseFunction.string
    ∷ entry 101 DispatchFunction.string ResponseFunction.void
    ∷ entry 102 DispatchFunction.ints ResponseFunction.void
    ∷ entry 103 DispatchFunction.void ResponseFunction.void
    ∷ entry 104 DispatchFunction.strings ResponseFunction.strings
    ∷ entry 105 DispatchFunction.strings ResponseFunction.strings
    ∷ entry 106 DispatchFunction.strings ResponseFunction.void
    ∷ entry 107 DispatchFunction.strings ResponseFunction.strings
    ∷ entry 108 DispatchFunction.strings ResponseFunction.strings
    ∷ []

-- s_unsolResponses
unfoldable pub unsol_responses : List UnsolResponseInfo
unsol_responses =
    unsol 1000 ResponseFunction.void wake_partial
    ∷ unsol 1001 ResponseFunction.void wake_partial
    ∷ unsol 1002 ResponseFunction.void wake_partial
    ∷ unsol 1003 ResponseFunction.string wake_partial
    ∷ unsol 1004 ResponseFunction.string wake_partial
    ∷ unsol 1005 ResponseFunction.ints wake_partial
    ∷ unsol 1006 ResponseFunction.strings wake_partial
    ∷ unsol 1007 ResponseFunction.void dont_wake
    ∷ unsol 1008 ResponseFunction.string wake_partial
    ∷ unsol 1009 ResponseFunction.ril_signal_strength dont_wake
    ∷ unsol 1010 ResponseFunction.data_call_list wake_partial
    ∷ unsol 1011 ResponseFunction.ssn wake_partial
    ∷ unsol 1012 ResponseFunction.void wake_partial
    ∷ unsol 1013 ResponseFunction.string wake_partial
    ∷ unsol 1014 ResponseFunction.string wake_partial
    ∷ unsol 1015 ResponseFunction.ints wake_partial
    ∷ unsol 1016 ResponseFunction.void wake_partial
    ∷ unsol 1017 ResponseFunction.ints wake_partial
    ∷ unsol 1018 ResponseFunction.call_ring wake_partial
    ∷ unsol 1019 ResponseFunction.void wake_partial
    ∷ unsol 1020 ResponseFunction.cdma_sms wake_partial
    ∷ unsol 1021 ResponseFunction.string wake_partial
    ∷ unsol 1022 ResponseFunction.void wake_partial
    ∷ unsol 1023 ResponseFunction.ints wake_partial
    ∷ unsol 1024 ResponseFunction.void wake_partial
    ∷ unsol 1025 ResponseFunction.cdma_call_waiting wake_partial
    ∷ unsol 1026 ResponseFunction.ints wake_partial
    ∷ unsol 1027 ResponseFunction.cdma_information_records wake_partial
    ∷ unsol 1028 ResponseFunction.raw wake_partial
    ∷ unsol 1029 ResponseFunction.ints wake_partial
    ∷ unsol 1030 ResponseFunction.void wake_partial
    ∷ unsol 1031 ResponseFunction.strings dont_wake
    ∷ []
