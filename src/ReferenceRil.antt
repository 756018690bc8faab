-- ===== src/ReferenceRil.antt =====
-- reference-ril/reference-ril.c: the requests of the reference vendor library.
pub mod Calls
pub mod CallLines
pub mod CallList
pub mod Polling
pub mod Lists
pub mod Completing
pub mod Query
pub mod State
pub mod Radio
pub mod Printing
pub mod Network
pub mod DataCalls
pub mod Sim
pub mod Messages
pub mod SetupDataCall
pub mod OnRequest
pub mod Answering
pub mod Answers
pub mod Answered
pub mod Marshalling
pub mod Payloads
pub mod PlainCalls
pub mod Replying
pub mod PowerReplies
pub mod RequestReplies
pub mod Marshalled
pub mod OnUnsolicited
pub mod ShortMessages
pub mod RadioStates
pub mod RadioRuns
pub mod Contexts
pub mod Registration
pub mod Registered
pub mod Refused
pub mod DataCallList
