-- ===== src/Examples.antt =====
-- Runs of the model on concrete inputs, on the platform of Parcel.Typed.
mod Requests
mod Replies
mod Connection
mod Loop
mod Modem
mod CallList
mod Vendor
use rild_hisi.Common.{ℕ, false, List, [], ◌∷◌}
use rild_hisi.Common.Int.{ℤ, pos}
use rild_hisi.Dispatch.{RequestInfo}
use rild_hisi.Parcel.{Item}
use rild_hisi.Parcel.Typed.{typed}

-- A parcel to read, positioned at its start.
unfoldable pub holding : List Item → typed.Parcel
unfolding typed
holding items = record { before = []; after = items }

abbrev pub a_request : ℕ → RequestInfo
a_request number = record {
  id = 4096;
  token = pos 7;
  request_number = number;
  cancelled = false;
  local = false;
}
