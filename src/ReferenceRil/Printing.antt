-- ===== src/ReferenceRil/Printing.antt =====
-- How reference-ril/reference-ril.c formats what it sends and answers: "%s" of asprintf. The format
-- "%d" is print_int, and "%x" is print_hex.
use rild_hisi.Common.{none, some}
use rild_hisi.Telephony.{Bytes, CString}
use rild_hisi.ReferenceRil.Query.{Query, pure, undefined}

-- The argument of "%s", which must not be NULL.
abbrev pub not_null : CString → Query Bytes
not_null none = undefined
not_null (some s) = pure s
