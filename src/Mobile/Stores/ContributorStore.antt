-- ===== src/Mobile/Stores/ContributorStore.antt =====
-- mobile/src/stores/useContributorStore.ts and the types of mobile/src/services/contributorApi.ts.
use mansariya.Base.{ℕ, String, Bool, false, Option, none, some}

pub data Status : Type 0 where
  anonymous claimed disabled : Status

pub record Contributor : Type 0 where
  pub id : String
  pub contributor_id : String
  pub display_name : Option String
  pub status : Status
  pub claimed_at : Option String
  pub last_seen_at : Option String
  pub created_at : String
  pub updated_at : String

pub record ContributionStats : Type 0 where
  pub contributor_id : String
  pub total_trips : ℕ
  pub total_pings : ℕ
  pub total_distance_km : ℕ
  pub quality_score : ℕ
  pub noise_count : ℕ
  pub potential_count : ℕ
  pub cluster_count : ℕ
  pub confirmed_count : ℕ
  pub routes_contributed : ℕ
  pub stops_discovered : ℕ
  pub active_days : ℕ
  pub first_contribution_at : Option String
  pub last_contribution_at : Option String

pub record AuthTokens : Type 0 where
  pub contributor : Contributor
  pub access_token : String
  pub refresh_token : String
  pub expires_at : String

pub record ContributorState : Type 0 where
  pub contributor_id : Option String
  pub display_name : Option String
  pub status : Option Status
  pub stats : Option ContributionStats
  pub is_authenticated : Bool
  pub is_loading : Bool

abbrev pub initial : ContributorState
initial = record {
  contributor_id = none;
  display_name = none;
  status = none;
  stats = none;
  is_authenticated = false;
  is_loading = false;
}

abbrev pub set_contributor : Contributor → ContributorState → ContributorState
set_contributor c s = record s {
  contributor_id = some c.contributor_id;
  display_name = c.display_name;
  status = some c.status;
}

abbrev pub set_stats : ContributionStats → ContributorState → ContributorState
set_stats stats s = record s { stats = some stats }

abbrev pub set_authenticated : Bool → ContributorState → ContributorState
set_authenticated v s = record s { is_authenticated = v }

abbrev pub set_loading : Bool → ContributorState → ContributorState
set_loading v s = record s { is_loading = v }

abbrev pub clear : ContributorState → ContributorState
clear s = initial
