-- ===== src/Admin/Simulations/Tests.antt =====
-- Examples of a row of the simulations.
use mansariya.Base.{none, some, [], false, ◌≡◌, refl}
use mansariya.Admin.Api.Types.{running}
use mansariya.Admin.Calls.Mutations.{pause, resume, change_simulation}
use mansariya.Admin.Simulations.{Row, press}

abbrev row : Row
row = record {
  id = "s1";
  status = running;
  pending = none;
  delete_open = false;
  notices = [];
  is_stale = false;
}

press_pause : (press pause row).0 ≡ some (change_simulation pause "s1")
unfolding press
press_pause = refl

press_refused : (press resume row).0 ≡ none
unfolding press
press_refused = refl

press_twice : (press pause (press pause row).1).0 ≡ none
unfolding press
press_twice = refl
