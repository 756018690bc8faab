-- ===== src/AtChannel/Writing.antt =====
-- writeline and writeCtrlZ of reference-ril/atchannel.c: their loops. What `write` answers is an
-- input: a list with one entry for each call.
use rild_hisi.Common.{zero, suc, List, [], ◌∷◌, ◌++◌, Option, none, some, take, drop, ℕ}
use rild_hisi.Common.Int.{ℤ, pos, negsuc}
use rild_hisi.Telephony.{Bytes}
use rild_hisi.Socket.{WriteResult, wrote, interrupted, failed}

-- What was returned, what went out, and the answers left.
pub record Written : Type 0 where
  pub err : ℤ
  pub bytes : Bytes
  pub rest : List WriteResult

abbrev prepend : Bytes → Option Written → Option Written
prepend bs none = none
prepend bs (some w) = some (record w { bytes = bs ++ w.bytes })

-- The main string. `none`: the answers do not suffice.
unfoldable pub write_string : List WriteResult → Bytes → Option Written
write_string ws [] = some (record { err = pos 0; bytes = []; rest = ws })
write_string [] (b ∷ bs) = none
write_string (wrote n ∷ ws) (b ∷ bs) = prepend (take n (b ∷ bs)) (write_string ws (drop n (b ∷ bs)))
write_string (interrupted ∷ ws) (b ∷ bs) = write_string ws (b ∷ bs)
write_string (failed ∷ ws) (b ∷ bs) = some (record { err = negsuc 0; bytes = []; rest = ws })

-- The character that ends it.
unfoldable pub write_end : List WriteResult → ℕ → Option Written
write_end [] c = none
write_end (wrote zero ∷ ws) c = write_end ws c
write_end (wrote (suc n) ∷ ws) c = some (record { err = pos 0; bytes = c ∷ []; rest = ws })
write_end (interrupted ∷ ws) c = write_end ws c
write_end (failed ∷ ws) c = some (record { err = negsuc 0; bytes = []; rest = ws })

abbrev then_end : ℕ → Option Written → Option Written
then_end c none = none
then_end c (some w) = elim w.err [
  | negsuc e ↦ some w
  | pos e ↦ prepend w.bytes (write_end w.rest c)
]

-- The string with the character behind it.
unfoldable pub write_terminated : List WriteResult → Bytes → ℕ → Option Written
unfolding write_string write_end
write_terminated ws s c = then_end c (write_string ws s)
