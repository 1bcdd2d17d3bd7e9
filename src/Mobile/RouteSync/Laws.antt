-- ===== src/Mobile/RouteSync/Laws.antt =====
-- The copy of the routes changes as a whole or not at all, and is fetched at most once a week.
use mansariya.Base.{
  ℕ, ◌+◌, ◌≤◌, ◌≡◌, ◌≢◌, refl, subst, Bool-cases, ◌||◌, ap, ◌∙◌, String, Bool, true, false, Option,
  none, some, List, [], ◌∷◌, length, ◌⊎◌, inl, inr, arith, str_eq, if◌then◌else◌, Option-cases,
}
use mansariya.Base.Dict.{lookup, insert, lookup-insert}
use mansariya.Mobile.RouteSync.{
  SyncRoute, Row, Db, Syncing, Answer, failed, bad_status, payload, sync_interval_ms, is_due,
  sync_routes_if_needed, to_row, transaction, store_routes, sync_answered,
}

-- The row under an id after the routes were written one after the other: the last one counts.
abbrev pub latest : String → List SyncRoute → Option Row → Option Row
latest id [] old = old
latest id (r ∷ rs) old = latest id rs (if str_eq r.id id then some (to_row r) else old)

length-insert : (k : String) (v : Row) (m : List (String × Row)) → 1 ≤ length (insert k v m)
unfolding insert
length-insert k v [] = omega arith
length-insert k v ((j, w) ∷ m) = ground arith

some-injective : {A : Type 0} {a b : A} → some a ≡ some b → a ≡ b
some-injective {A} {a} h = ap (λ o. elim o [ none ↦ a | some x ↦ x ]) h

-- What a transaction that is committed has done.
abbrev pub IsStored : ℕ → List SyncRoute → Db → Db → Type 0
IsStored now rs db db' =
    (db'.last_route_sync ≡ some now)
    × ((id : String) → lookup id db'.routes ≡ latest id rs (lookup id db.routes))

transaction-IsStored :
    (throws : ℕ → Bool) (i now : ℕ) (rs : List SyncRoute) (db db' : Db)
    → transaction throws i now rs db ≡ some db'
    → IsStored now rs db db'
unfolding transaction
transaction-IsStored throws i now [] db db' h = elim (Bool-cases (throws i || throws (i + 1))) [
  | inl t ↦ cc (rw t at h)
  | inr t ↦ subst (IsStored now [] db) (some-injective (rw t at h)) (refl, (λ id. refl))
]
transaction-IsStored throws i now (r ∷ rs) db db' h = elim (Bool-cases (throws i)) [
  | inl t ↦ cc (rw t at h)
  | inr t ↦
      let (stamp, rows) =
        transaction-IsStored throws (i + 1) now rs
          (record db { routes = insert r.id (to_row r) db.routes }) db' (rw t at h) in
      (stamp, (λ id. rows id ∙ ap (latest id rs) (lookup-insert r.id id (to_row r) db.routes)))
]

-- A synchronisation changes the local copy as a whole or not at all, whichever statement throws: it
-- is as it was, or the answer had routes, its time is recorded, every route of the answer has the
-- row that the answer gave last, and every other route is as it was.
pub sync_answered-atomic :
    (answer : Answer) (throws : ℕ → Bool) (now : ℕ) (s : Syncing)
    → ((sync_answered answer throws now s).db ≡ s.db)
      ⊎ ((rs : List SyncRoute) × (answer ≡ payload (some rs))
          × (rs ≢ [])
          × IsStored now rs s.db (sync_answered answer throws now s).db)
unfolding sync_answered store_routes
sync_answered-atomic failed throws now s = inl refl
sync_answered-atomic bad_status throws now s = inl refl
sync_answered-atomic (payload none) throws now s = inl refl
sync_answered-atomic (payload (some [])) throws now s = inl refl
sync_answered-atomic (payload (some (r ∷ rs))) throws now s =
    elim (Option-cases (transaction throws 0 now (r ∷ rs) s.db)) [
      | inl e ↦ inl (rw (e, store_routes))
      | inr (db', e) ↦ inr (
        r ∷ rs,
        refl,
        (λ n. cc),
        rw (e, store_routes) (transaction-IsStored throws 0 now (r ∷ rs) s.db db' e),
      )
    ]

transaction-committed :
    (throws : ℕ → Bool) (i now : ℕ) (rs : List SyncRoute) (db : Db)
    → ((j : ℕ) → throws j ≡ false)
    → (db' : Db) × (transaction throws i now rs db ≡ some db')
unfolding transaction
transaction-committed throws i now [] db h =
    (record db { last_route_sync = some now }, rw (h i, h (i + 1)))
transaction-committed throws i now (r ∷ rs) db h = rw (h i) (
    transaction-committed throws (i + 1) now rs
      (record db { routes = insert r.id (to_row r) db.routes }) h)

transaction-routes :
    (throws : ℕ → Bool) (i now : ℕ) (rs : List SyncRoute) (db db' : Db)
    → 1 ≤ length db.routes
    → transaction throws i now rs db ≡ some db'
    → 1 ≤ length db'.routes
unfolding transaction
transaction-routes throws i now [] db db' l h = elim (Bool-cases (throws i || throws (i + 1))) [
  | inl t ↦ cc (rw t at h)
  | inr t ↦ subst (λ d. 1 ≤ length d.routes) (some-injective (rw t at h)) l
]
transaction-routes throws i now (r ∷ rs) db db' l h = elim (Bool-cases (throws i)) [
  | inl t ↦ cc (rw t at h)
  | inr t ↦
      transaction-routes throws (i + 1) now rs
        (record db { routes = insert r.id (to_row r) db.routes }) db'
        (length-insert r.id (to_row r) db.routes) (rw t at h)
]

stored_routes :
    (throws : ℕ → Bool) (now : ℕ) (r : SyncRoute) (rs : List SyncRoute) (db db' : Db)
    → ((j : ℕ) → throws j ≡ false)
    → transaction throws 0 now (r ∷ rs) db ≡ some db'
    → 1 ≤ length db'.routes
unfolding transaction
stored_routes throws now r rs db db' h e =
    transaction-routes throws 1 now rs (record db { routes = insert r.id (to_row r) db.routes }) db'
      (length-insert r.id (to_row r) db.routes) (rw (h 0) at e)

idle_request :
    (force : Bool) (now : ℕ) (s : Syncing)
    → s.sync_in_flight ≡ false
    → (sync_routes_if_needed force now s).0 ≡ is_due force now s.db
unfolding sync_routes_if_needed
idle_request force now s h = ground arith

busy_request :
    (force : Bool) (now : ℕ) (s : Syncing)
    → s.sync_in_flight ≡ true
    → (sync_routes_if_needed force now s).0 ≡ false
unfolding sync_routes_if_needed
busy_request force now s h = ground arith

request-is_due :
    (force : Bool) (now : ℕ) (s : Syncing)
    → (sync_routes_if_needed force now s).0 ≡ true
    → (is_due force now s.db ≡ true) × ((sync_routes_if_needed force now s).1.sync_in_flight ≡ true)
unfolding sync_routes_if_needed
request-is_due force now s h = ground arith

answered_idle :
    (answer : Answer) (throws : ℕ → Bool) (now : ℕ) (s : Syncing)
    → (sync_answered answer throws now s).sync_in_flight ≡ false
unfolding sync_answered
answered_idle failed throws now s = refl
answered_idle bad_status throws now s = refl
answered_idle (payload none) throws now s = refl
answered_idle (payload (some rs)) throws now s = refl

is_due_later :
    (force : Bool) (now later : ℕ) (db : Db)
    → now ≤ later
    → is_due force now db ≡ true
    → is_due force later db ≡ true
is_due_later force now later db l h = ground arith

fresh_not_due :
    (later now : ℕ) (db : Db)
    → db.last_route_sync ≡ some now
    → 1 ≤ length db.routes
    → later ≤ now + sync_interval_ms
    → is_due false later db ≡ false
fresh_not_due later now db stamp full l = ground arith

-- After a synchronisation that brought routes and whose statements all succeed, the routes are not
-- fetched again in the next seven days, unless that is forced.
pub sync_answered_rests :
    (throws : ℕ → Bool) (now later : ℕ) (r : SyncRoute) (rs : List SyncRoute) (s : Syncing)
    → ((j : ℕ) → throws j ≡ false)
    → later ≤ now + sync_interval_ms
    → (sync_routes_if_needed false later (sync_answered (payload (some (r ∷ rs))) throws now s)).0
      ≡ false
unfolding sync_answered store_routes
sync_answered_rests throws now later r rs s h l =
    let (db', e) = transaction-committed throws 0 now (r ∷ rs) s.db h in
    let stored : store_routes throws now (r ∷ rs) s.db ≡ db' = rw (e, store_routes) in
    let (stamp, _) = transaction-IsStored throws 0 now (r ∷ rs) s.db db' e in
    let full = stored_routes throws now r rs s.db db' h e in
    idle_request false later (sync_answered (payload (some (r ∷ rs))) throws now s)
      (answered_idle (payload (some (r ∷ rs))) throws now s)
    ∙ ap (is_due false later) stored
    ∙ fresh_not_due later now db' stamp full l

-- A synchronisation that was needed and changed nothing is needed still: the next call makes a
-- request again. While it is under way no other call makes one.
pub sync_retried :
    (force : Bool) (now later : ℕ) (answer : Answer) (throws : ℕ → Bool) (s : Syncing)
    → (sync_routes_if_needed force now s).0 ≡ true
    → now ≤ later
    → (sync_answered answer throws later (sync_routes_if_needed force now s).1).db ≡ s.db
    → ((sync_routes_if_needed force later
          (sync_answered answer throws later (sync_routes_if_needed force now s).1)).0
        ≡ true)
      × ((sync_routes_if_needed force later (sync_routes_if_needed force now s).1).0 ≡ false)
sync_retried force now later answer throws s h l same =
    let t = (sync_routes_if_needed force now s).1 in
    let (due, busy) = request-is_due force now s h in
    (
      idle_request force later (sync_answered answer throws later t)
            (answered_idle answer throws later t)
          ∙ ap (is_due force later) same
          ∙ is_due_later force now later s.db l due,
      busy_request force later t busy,
    )
