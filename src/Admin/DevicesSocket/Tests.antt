-- ===== src/Admin/DevicesSocket/Tests.antt =====
-- Tests and examples of admin/src/hooks/use-admin-devices-ws.ts.
use mansariya.Base.{◌≡◌, refl, true, some, [], ◌∷◌}
use mansariya.Admin.DevicesSocket.{Hook, mounted, connect, on_open}

-- The hook with its first socket.
abbrev watching : Hook
watching = record mounted { is_connected = true; ws = some 0; live = 0 ∷ []; made = 1 }

watching_made : on_open (connect true mounted) ≡ watching
unfolding connect
watching_made = refl
