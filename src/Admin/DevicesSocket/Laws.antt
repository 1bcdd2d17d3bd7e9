-- ===== src/Admin/DevicesSocket/Laws.antt =====
-- What the clean-up of the hook leaves behind.
use mansariya.Base.{ℕ, ◌+◌, ◌≡◌, true, some, any, ◌==◌, arith}
use mansariya.Admin.DevicesSocket.{Hook, connect, on_close, on_timer, unmount}

-- The clean-up does not take the handler from a socket that has not closed: when that socket then
-- closes, a timer is set, and when the timer fires a new socket is made for a hook that is gone.
pub unmount-on_close :
    (h : Hook) (i : ℕ)
    → any (λ j. j == i) h.live ≡ true
    → let u = on_close i (unmount h) in
      let v = on_timer true h.next_timer u in
      (u.reconnect_timer ≡ some h.next_timer) × (v.made ≡ h.made + 1) × (v.ws ≡ some h.made)
unfolding on_close unmount on_timer connect
unmount-on_close h i live = ground arith
