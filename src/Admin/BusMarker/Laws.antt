-- ===== src/Admin/BusMarker/Laws.antt =====
-- How far a marker turns.
use mansariya.Base.{ℕ, ◌+◌, ◌≤◌, ◌<◌, ◌≡◌, ◌⊎◌, arith}
use mansariya.Base.Int.{ℤ, pos, ◌-ℤ◌, pos_part, neg_part}
use mansariya.Admin.BusMarker.{bearing_diff, turned, up, down}

abbrev pub magnitude : ℤ → ℕ
magnitude a = pos_part a + neg_part a

-- From a rotation within one turn, a marker turns the short way: by at most 180 degrees.
bearing_diff-short :
    (target current : ℕ)
    → target < 360
    → current < 360
    → magnitude (bearing_diff (pos target) (pos current)) ≤ 180
unfolding bearing_diff up down ◌-ℤ◌
bearing_diff-short target current h k = ground arith

-- A marker ends at the bearing, up to one turn.
turned-target :
    (target current : ℕ)
    → target < 360
    → current < 360
    → (turned (pos target) (pos current) ≡ pos target)
      ⊎ (turned (pos target) (pos current) ≡ pos target -ℤ pos 360)
      ⊎ (turned (pos target) (pos current) ≡ pos (target + 360))
unfolding turned bearing_diff up down ◌-ℤ◌
turned-target target current h k = ground arith

-- A marker that has turned by more than one turn and a half past the new bearing turns the long way
-- round, by more than 180 degrees.
bearing_diff-long :
    (target past : ℕ)
    → 540 < past
    → 180 < magnitude (bearing_diff (pos target) (pos (target + past)))
unfolding bearing_diff up down ◌-ℤ◌
bearing_diff-long target past h = ground arith

-- A marker whose rotation is within one turn turns the short way, by at most 180 degrees, and ends
-- at its new bearing up to one turn. The rotation that it ends with may be beyond one turn: from a
-- rotation that is more than one turn and a half past the new bearing it turns the long way round.
pub bearing_diff-turns :
    (target current past : ℕ)
    → target < 360
    → current < 360
    → 540 < past
    → (magnitude (bearing_diff (pos target) (pos current)) ≤ 180)
      × ((turned (pos target) (pos current) ≡ pos target)
          ⊎ (turned (pos target) (pos current) ≡ pos target -ℤ pos 360)
          ⊎ (turned (pos target) (pos current) ≡ pos (target + 360)))
      × (180 < magnitude (bearing_diff (pos target) (pos (target + past))))
bearing_diff-turns target current past h k l = (
  bearing_diff-short target current h k,
  turned-target target current h k,
  bearing_diff-long target past l,
)
