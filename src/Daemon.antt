-- ===== src/Daemon.antt =====
-- libril/ril.cpp: the state that RIL_register, the requests, their replies and the unsolicited
-- responses share. Each function below Daemon runs with the mutexes that it takes, so that it is one
-- step; calls of the vendor library and its answers are separate steps.
pub mod Requests
pub mod Replies
pub mod Unsolicited
pub mod Pending
pub mod Closed
pub mod Reply
pub mod Received
pub mod Callbacks
pub mod Wake
pub mod Overlap
pub mod Nitz
use rild_hisi.Common.{ℕ, Bool, List, Option, ◌++◌}
use rild_hisi.Common.Int.{ℤ}
use rild_hisi.Telephony.{Bytes}
use rild_hisi.Dispatch.{RequestInfo}
use rild_hisi.Socket.{Sent}

-- UserCallbackInfo: `id` is its address, `wake` tells that `p_callback` is wakeTimeoutCallback, and
-- `user_param` that `userParam` is not NULL.
pub record UserCallbackInfo : Type 0 where
  pub id : ℕ
  pub wake : Bool
  pub user_param : Bool

-- `pending` is the list s_pendingRequests, `callbacks` the timed callbacks not yet run, `sent` what
-- the command process has been sent. `version` is s_callbacks.version. `wake_lock` tells whether the
-- last of the calls of grabPartialWakeLock and releaseWakeLock was the former.
pub record Daemon : Type 0 where
  pub version : ℕ
  pub register_called : Bool
  pub fd_command : ℤ
  pub pending : List RequestInfo
  pub last_nitz_time_data : Option Bytes
  pub last_wake_timeout_info : Option ℕ
  pub callbacks : List UserCallbackInfo
  pub sent : Bytes
  pub wake_lock : Bool

abbrev pub after_send : Daemon → Sent → Daemon
after_send d r = record d { sent = d.sent ++ r.bytes }
