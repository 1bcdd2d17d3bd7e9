-- ===== src/Mobile/ContributorAuth.antt =====
-- mobile/src/services/contributorAuth.ts: the contributor's tokens, the two interceptors of the
-- requests, and the restoration of a session. A part between two answers of the backend is a step.
pub mod Laws
pub mod Flight
mod Tests
use mansariya.Base.Texts.{take_text, text_length}
use Prim.Native.String
use mansariya.Base.{
  ℕ, zero, suc, ◌+◌, String, Bool, true, false, ◌&&◌, ◌||◌, not, Option, none, some, List, [], ◌∷◌,
  ◌++◌, map, any, ltb, ◌==◌, str_eq, if◌then◌else◌,
}
use mansariya.Mobile.Identity.{existing}
use mansariya.Mobile.Stores.ContributorStore.{
  Contributor, ContributionStats, AuthTokens, ContributorState, set_contributor, set_stats,
  set_authenticated, set_loading,
}

-- `SecureStore` under the three keys of the module, the contributor store, the refresh that is
-- shared by the requests that wait for it, and what the client did, newest first: the refresh tokens
-- that were sent, the requests that were made with their tokens, and those that were rejected.
pub record Auth : Type 0 where
  pub access_token : Option String
  pub refresh_token : Option String
  pub expires_at : Option String
  pub contributor : ContributorState
  pub is_refreshing : Bool
  pub joined : List ℕ
  pub refreshes : List String
  pub sent : List (ℕ × Option String)
  pub rejected : List ℕ

abbrev pub auth_paths : List String
auth_paths =
    "/api/v1/contributor/me" ∷ "/api/v1/contributor/stats" ∷ "/api/v1/contributor/claim" ∷ []

-- `s.includes(p)`
unfoldable pub includes : String → String → Bool
unfolding text_length take_text
includes p String.[] = str_eq p ""
includes p (String.◌∷◌ c s) =
    let rest = includes p s in str_eq (take_text (text_length p) (String.◌∷◌ c s)) p || rest

abbrev pub needs_auth : String → Bool
needs_auth url = any (λ p. includes p url) auth_paths

abbrev pub save_tokens : String → String → String → Auth → Auth
save_tokens access refresh expires s = record s {
  access_token = some access;
  refresh_token = some refresh;
  expires_at = some expires;
}

abbrev pub clear_tokens : Auth → Auth
clear_tokens s = record s { access_token = none; refresh_token = none; expires_at = none }

abbrev pub is_present : Option String → Bool
is_present o = elim (existing o) [ none ↦ false | some t ↦ true ]

abbrev pub is_logged_in : Auth → Bool
is_logged_in s = is_present s.access_token

-- `doRefresh` up to its request: the token that is sent, if there is one.
unfoldable pub refresh_begin : Auth → Option String × Auth
refresh_begin s = elim (existing s.refresh_token) [
  | none ↦ (none, s)
  | some rt ↦ (some rt, record s { refreshes = rt ∷ s.refreshes })
]

-- `doRefresh` from the answer on; `none` is a request that failed.
unfoldable pub refresh_end : Option AuthTokens → Auth → Option String × Auth
refresh_end none s =
    (none, record (clear_tokens s) { contributor = set_authenticated false s.contributor })
refresh_end (some tokens) s = (
  some tokens.access_token,
  record (save_tokens tokens.access_token tokens.refresh_token tokens.expires_at s) {
    contributor = set_authenticated true (set_contributor tokens.contributor s.contributor);
  },
)

-- `Bearer` is set only from a token that is not empty.
abbrev pub send : ℕ → Option String → Auth → Auth
send i token s = record s { sent = (i, existing token) ∷ s.sent }

abbrev pub send_all : List ℕ → Option String → Auth → Auth
send_all [] token s = s
send_all (i ∷ is) token s = send_all is token (send i token s)

-- The requests that waited for the shared refresh go on with its token.
unfoldable pub release : Option String → Auth → Auth
release token s = send_all s.joined token (record s { joined = []; is_refreshing = false })

-- `parse_date` is `new Date(text).getTime()`; of a text that is no date it is `NaN`, which is less
-- than nothing.
module _ (parse_date : String → Option ℕ) where
  abbrev pub is_token_expired : ℕ → Auth → Bool
  is_token_expired now s = elim (existing s.expires_at) [
    | none ↦ true
    | some text ↦ elim (parse_date text) [ none ↦ false | some t ↦ ltb t (now + 60000) ]
  ]

  -- The request interceptor. Where there is no refresh token the refresh ends at once, with `null`.
  unfoldable pub on_request : ℕ → String → ℕ → Auth → Auth
  unfolding refresh_begin release
  on_request i url now s =
      if not (needs_auth url)
      then send i none s
      else if is_token_expired now s && is_present s.access_token
      then (if s.is_refreshing
          then record s { joined = s.joined ++ i ∷ [] }
          else (let (rt, s1) =
                refresh_begin (record s { joined = s.joined ++ i ∷ []; is_refreshing = true }) in
              elim rt [ none ↦ release none s1 | some _ ↦ s1 ]))
      else send i s.access_token s

-- The answer to the shared refresh.
unfoldable pub on_refreshed : Option AuthTokens → Auth → Auth
unfolding refresh_end release
on_refreshed outcome s =
    if s.is_refreshing then (let (token, s1) = refresh_end outcome s in release token s1) else s

abbrev pub reject : ℕ → Auth → Auth
reject i s = record s { rejected = i ∷ s.rejected }

abbrev pub is_unauthorized : Option ℕ → Bool
is_unauthorized none = false
is_unauthorized (some code) = code == 401

-- The response interceptor on an error, up to the request of its own refresh. The flag says whether
-- it waits for that. `status` is `none` where no response came; `retried` is the mark on the request.
unfoldable pub on_error : ℕ → String → Option ℕ → Bool → Auth → Bool × Auth
unfolding refresh_begin
on_error i url status retried s =
    if is_unauthorized status && needs_auth url && not retried
    then (let (rt, s1) = refresh_begin s in
        elim rt [ none ↦ (false, reject i s1) | some _ ↦ (true, s1) ])
    else (false, reject i s)

-- The same from the answer on: the request is made again, marked, or rejected. The flag says whether
-- it is made again; then it passes the request interceptor.
unfoldable pub on_error_refreshed : Option AuthTokens → ℕ → Auth → Bool × Auth
unfolding refresh_end
on_error_refreshed outcome i s =
    let (token, s1) = refresh_end outcome s in
    if is_present token then (true, s1) else (false, reject i s1)

-- `restoreSession`: `outcome` and `profile` are the answers to the refresh and to the fetch of the
-- profile, if they are asked for.
abbrev pub loading : Bool → Auth → Auth
loading v s = record s { contributor = set_loading v s.contributor }

unfoldable pub restore_profile : Option (Contributor × ContributionStats) → Auth → Auth
restore_profile none s =
    loading false (record (clear_tokens s) { contributor = set_authenticated false s.contributor })
restore_profile (some (c, stats)) s = loading false (record s {
  contributor = set_authenticated true (set_stats stats (set_contributor c s.contributor));
})

unfoldable pub restore_session :
    (String → Option ℕ)
    → Option AuthTokens
    → Option (Contributor × ContributionStats)
    → ℕ
    → Auth
    → Auth
unfolding refresh_begin refresh_end restore_profile
restore_session parse_date outcome profile now s =
    if not (is_present s.access_token)
    then s
    else (let s1 = loading true s in
        if is_token_expired parse_date now s1
        then (let (rt, s2) = refresh_begin s1 in
            elim rt [
              | none ↦ loading false s2
              | some _ ↦
                  let (token, s3) = refresh_end outcome s2 in
                  if is_present token then restore_profile profile s3 else loading false s3
            ])
        else restore_profile profile s1)
