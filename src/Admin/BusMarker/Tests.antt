-- ===== src/Admin/BusMarker/Tests.antt =====
-- Examples of admin/src/components/animated-bus-marker.tsx.
use mansariya.Base.{◌≡◌, refl}
use mansariya.Base.Int.{pos, ◌-ℤ◌}
use mansariya.Admin.BusMarker.{bearing_diff, turned, up, down}

-- Five quarter turns to the right from north.
quarter_turns :
    turned (pos 90) (turned (pos 0) (turned (pos 270) (turned (pos 180) (turned (pos 90) (pos 0)))))
    ≡ pos 450
unfolding turned bearing_diff up down ◌-ℤ◌
quarter_turns = refl
