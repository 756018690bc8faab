-- ===== src/Lib.antt =====
-- libril, the radio interface layer of the repository (libril/ and include/telephony/), and its reference
-- vendor library (reference-ril/).
--
-- libril sits between the command process (the phone), to which it talks over a socket in packets
-- that android::Parcel marshals, and a vendor library that drives the modem. A command block comes
-- in, is looked up in a table, becomes a pending request and is unmarshalled by a dispatch function,
-- which calls the vendor library. The vendor library answers later, or reports events of its own; a
-- response function marshals each into a packet, and the packet is written to the socket.
--
-- The parts and their files:
--   * Telephony, Telephony/Cdma: the structures of include/telephony/ril.h and ril_cdma_sms.h.
--     Telephony/Data: the `void *` payloads of the vendor interface, one constructor for each type.
--   * Parcel: android::Parcel, the UTF-16 conversions and the sizes of the compiler are not in the
--     repository. `Platform` is a record of these operations, a parameter of the model, and
--     `ParcelLaws` states what libril relies on. Parcel/Typed is a platform to run examples on.
--   * Dispatch and its children: the dispatch functions of libril/ril.cpp (dispatchVoid to
--     dispatchRilCdmaSmsWriteArgs). An `Outcome` is the call of `onRequest`, the report of an invalid
--     command block, or `fault` where the source has undefined behaviour. A store outside an array is
--     a fault.
--   * Response and its children: the response functions of libril/ril.cpp (responseVoid to
--     responseCdmaSms). A read of memory that is not there is `none`.
--   * Commands, Commands/Tables: s_commands and s_unsolResponses (libril/ril_commands.h and
--     libril/ril_unsol_commands.h) and the calls through their function pointers.
--   * Socket: blockingWrite and sendResponseRaw. The answers of the system call `write` are a list;
--     the loop is structural recursion over it and tells when the list was too short.
--   * Daemon: the state that the calls share, as a record. Daemon/Requests has processCommandBuffer,
--     issueLocalRequest, checkAndDequeueRequestInfo, onCommandsSocketClosed and
--     processCommandsCallback; Daemon/Replies RIL_onRequestComplete; Daemon/Unsolicited
--     RIL_onUnsolicitedResponse, the timed callbacks, onNewCommandConnect and RIL_register.
--     Daemon/Received, Daemon/Pending, Daemon/Closed, Daemon/Reply, Daemon/Callbacks, Daemon/Wake,
--     Daemon/Overlap and Daemon/Nitz are about them.
--     Addresses of requests and callbacks are numbers, and what malloc, calloc, the clock and `write`
--     answer are arguments. A mutex of the source guards the list of pending requests, so that what a
--     call does to it is one step of Step. No mutex guards s_last_wake_timeout_info: WakeStep takes
--     calls that do not overlap, and Daemon/Overlap has two that do. The source leaves
--     grabPartialWakeLock and releaseWakeLock empty, so that the wake lock is a flag that they set.
--   * Events and its children: libril/ril_event.cpp. The fields of the events are a function of their
--     addresses; the watch table and the lists hold addresses. Events/Order and Events/Timers are
--     about the timer list, Events/Watch, Events/Select and Events/Add about the watch table, readFds
--     and nfds, Events/Fire about the pending list. ril_event_del tells whether it released listMutex. What callbacks do is a parameter. Events/Linked and
--     its children have the links of the doubly linked lists on a store of their own; the rounds of a
--     loop are counted, one for each event and one more are enough.
--   * AtTok and its children: reference-ril/at_tok.c, the tokenizer of the lines that a modem sends. The
--     functions of the C library that it calls are written out; LONG_MAX is an argument. AtTok/Decimal,
--     AtTok/Fields and AtTok/Fields/Hex are about lines that print numbers and strings.
--   * AtChannel: reference-ril/atchannel.c. AtChannel/Reader has findNextEOL and readline on the buffer;
--     the answers of the system call `read` are a list, and the loop is structural recursion over it.
--     AtChannel/Lines has the lines of a stream as a reference, and its children what the buffer holds.
--     AtChannel/Writing and AtChannel/Commands have writeline, writeCtrlZ, processLine and the statics
--     as the record Channel; AtChannel/Commands/Sending at_send_command* and at_handshake, where what
--     other threads do while a command waits is a list of events, which says too when the wait returns;
--     the channel counts how often it was signalled. Sorting, Answers, Errors and Pdus
--     are about them. AtChannel/ReaderLoop composes readline and processLine; its rounds are counted, one for
--     each line and one for the end of the stream are enough.
--   * ReferenceRil and its children: reference-ril/reference-ril.c. ReferenceRil/Query is a monad for
--     the commands that a request sends: what AtChannel answers to a command, given those before it, is
--     a function `Host.answer`, which is an argument, and a result is a value, the jump to `error`, or
--     a fault where the source has undefined behaviour. ReferenceRil/State has sState and s_closed as
--     the record Ril, with the completions, the unsolicited responses and the timed callbacks that were
--     handed to libril, the latest first. Radio has setRadioState, onRadioPowerOn, requestRadioPower,
--     initializeCallback, onATReaderClosed and onATTimeout; setRadioState calls itself through
--     pollSIMState, and the bound of two calls is enough. Network has requestRegistrationState,
--     requestSignalStrength, requestOperator and requestQueryNetworkSelectionMode; Sim getSIMStatus,
--     getCardStatus, requestSIM_IO and requestEnterSimPin; Messages the calls, short messages and USSD;
--     SetupDataCall requestSetupDataCall, where what /dev/qmi answers is an argument; DataCalls
--     requestOrSendDataCallList, requestPsCsStat, requestNdisDial and the command before the lists of
--     texts; OnRequest the switch of onRequest; OnUnsolicited onUnsolicited. The variant of the
--     source with USE_TI_COMMANDS is modelled, and the workarounds that it brings; it is an option of the
--     build, which the makefile leaves off.
--     Calls has clccStateToRILState and callFromCLCCLine, CallList requestGetCurrentCalls on an answer
--     of at_send_command_multiline, Lists requestPortList, requestPdpAddr and requestDhcpInfo on theirs.
--     Answering, Answers and Answered are about completions, RadioStates and RadioRuns about the radio,
--     Registration, Registered and Refused about registration, Contexts and DataCallList about data calls,
--     ShortMessages about unsolicited messages, CallLines, Polling, PlainCalls and Completing about the
--     lists. Marshalling, Payloads, Replying, PowerReplies, RequestReplies and Marshalled are about the
--     payloads, as the response functions of libril read them.
--   * Common and its children: tests, options, lists and integers that all parts share.
--   * Examples and its children: runs on concrete inputs.
--
-- Machine integers: `int32_t` and enums are integers, `uint8_t` and `unsigned char` are numbers, and
-- a product that the source computes in `size_t` is taken modulo the number of its values, which the
-- platform gives. Counts read from a command block may be negative or larger than what follows.
--
-- Not modelled: the call of select and the endless loop around it, the debug prints, the string
-- functions, the listening and debug sockets, the start of threads, memory that is freed, the
-- power-saving ioctls of at_open and readerLoop, and the rest of the programs outside libril: rild; in
-- reference-ril.c the opening of the device in mainLoop, waitForClose, RIL_Init and the entry points
-- that answer with a constant (getVersion, onSupports, onCancel); mock-ril, whose behaviour is a script;
-- riltest.
pub mod Common
pub mod Telephony
pub mod Parcel
pub mod Dispatch
pub mod Response
pub mod Commands
pub mod Socket
pub mod Daemon
pub mod Events
pub mod AtTok
pub mod AtChannel
pub mod ReferenceRil
pub mod Examples
