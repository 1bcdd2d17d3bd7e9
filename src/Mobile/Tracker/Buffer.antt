-- ===== src/Mobile/Tracker/Buffer.antt =====
-- The buffer of pings: the newest hundred, in order.
use mathlib.Core.List.{tail}
use mansariya.Base.{
  ◌-◌, ◌≤◌, List, [], ◌∷◌, ◌++◌, map, ◌≡◌, refl, sym, ap, ◌∙◌, arith, length, drop, drop-append,
  take_last-append, take_last, length-append, length-take_last, take_last_all, append_assoc,
  append-nil, leb, leb→le, Bool-cases, inl, inr,
}
use mansariya.Mobile.Api.{GpsPing}
use mansariya.Mobile.Tracker.{
  LocationObject, max_buffer_size, to_ping, push_ping, push_pings, requeue,
}

tail-drop : (buffer : List GpsPing) → tail buffer ≡ drop 1 buffer
tail-drop [] = refl
tail-drop (x ∷ buffer) = refl

push_ping-take_last :
    (buffer : List GpsPing) (loc : LocationObject)
    → length buffer ≤ max_buffer_size
    → push_ping buffer loc ≡ take_last max_buffer_size (buffer ++ to_ping loc ∷ [])
unfolding push_ping
push_ping-take_last buffer loc h = elim (Bool-cases (leb max_buffer_size (length buffer))) [
  | inl full ↦
      let exact : length (buffer ++ to_ping loc ∷ []) - 100 ≡ 1 =
        omega (arith, length-append buffer (to_ping loc ∷ []), leb→le _ _ full) in
      rw (full, exact, tail-drop)
        (sym (drop-append 1 buffer (to_ping loc ∷ []) (omega (arith, leb→le _ _ full))))
  | inr room ↦
      rw room (sym (take_last_all 100 _ (ground (arith, length-append buffer (to_ping loc ∷ [])))))
]

-- Pushing a list of locations onto a buffer of at most a hundred pings leaves the last hundred of
-- the buffer followed by all the new pings, in order.
pub push_pings-take_last :
    (buffer : List GpsPing) (locs : List LocationObject)
    → length buffer ≤ max_buffer_size
    → push_pings buffer locs ≡ take_last max_buffer_size (buffer ++ map to_ping locs)
unfolding push_pings
push_pings-take_last buffer [] h = rw append-nil (sym (take_last_all 100 buffer h))
push_pings-take_last buffer (loc ∷ locs) h =
    let short : length (push_ping buffer loc) ≤ max_buffer_size =
      rw (push_ping-take_last buffer loc h)
        (omega (arith, length-take_last 100 (buffer ++ to_ping loc ∷ []))) in
    push_pings-take_last (push_ping buffer loc) locs short
    ∙ ap (λ b. take_last 100 (b ++ map to_ping locs)) (push_ping-take_last buffer loc h)
    ∙ take_last-append 100 (buffer ++ to_ping loc ∷ []) (map to_ping locs)
    ∙ ap (take_last 100) (append_assoc buffer (to_ping loc ∷ []) (map to_ping locs))

-- So does the return of a failed batch.
pub requeue-take_last :
    (pings buffer : List GpsPing)
    → requeue pings buffer ≡ take_last max_buffer_size (pings ++ buffer)
requeue-take_last pings buffer = ground (arith, take_last_all 100 (pings ++ buffer))
