-- ===== src/Admin/BusMarker.antt =====
-- admin/src/components/animated-bus-marker.tsx: the turn of a bus marker, in whole degrees. The
-- rotation that is left is not brought back to one turn.
pub mod Laws
mod Tests
use mansariya.Base.{ℕ, Bool, true, false, List, [], ◌∷◌, if◌then◌else◌}
use mansariya.Base.Int.{ℤ, pos, negsuc, ◌-ℤ◌, ltb_ℤ}

-- `if (bearingDiff > 180) bearingDiff -= 360`, and the same the other way round.
unfoldable pub down : ℤ → ℤ
unfolding ◌-ℤ◌
down d = if ltb_ℤ (pos 180) d then d -ℤ pos 360 else d

unfoldable pub up : ℤ → ℤ
unfolding ◌-ℤ◌
up d = if ltb_ℤ d (negsuc 179) then d -ℤ negsuc 359 else d

unfoldable pub bearing_diff : ℤ → ℤ → ℤ
unfolding down up ◌-ℤ◌
bearing_diff target current = up (down (target -ℤ current))

-- The rotation when the animation is over: `startPos.bearing + bearingDiff`.
unfoldable pub turned : ℤ → ℤ → ℤ
unfolding bearing_diff
turned target current = current -ℤ (pos 0 -ℤ bearing_diff target current)
