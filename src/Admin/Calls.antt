-- ===== src/Admin/Calls.antt =====
-- admin/src/lib/api.ts: the calls that the console makes to the backend, each with its method, its
-- path, its query and its body. Identifiers stand in a path as they are.
pub mod Changes
pub mod Reads
pub mod Mutations
pub mod Fetches
pub mod Headers
pub mod Paths
pub mod Laws
mod Tests
use Prim.Native.String.{◌++◌}
use mansariya.Base.{String, Bool, List, [], ◌∷◌}
use mansariya.Admin.Api.{Query}
use mansariya.Admin.Api.Types.{TimetableInput}

pub data Method : Type 0 where
  get post put delete : Method

-- The values of a body.
pub data Value : Type 0 where
  text : String → Value
  texts : List String → Value
  flag : Bool → Value
  entries : List TimetableInput → Value

abbrev pub Body : Type 0
Body = List (String × Value)

-- What `apiGet` and `apiMutate` are called with; `admin` says whether the headers of a session are
-- asked for.
pub record Request : Type 0 where
  pub method : Method
  pub path : String
  pub query : Query
  pub body : Body
  pub admin : Bool

-- A path by its segments.
unfoldable pub path_text : List String → String
path_text [] = ""
path_text (segment ∷ rest) = "/" ++ (segment ++ path_text rest)

abbrev pub under_admin : List String → String
under_admin segments = path_text ("api" ∷ "v1" ∷ "admin" ∷ segments)
