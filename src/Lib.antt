-- ===== src/Lib.antt =====
-- The mobile application and the administration console of Mansariya, a system that finds the buses
-- of Sri Lanka from the positions that passengers share.
--
-- Base holds what the other modules share: the libraries' names, tests on numbers, lists, signed
-- integers, texts, sets, dictionaries, grouping and sorting.
--
-- Mobile (mobile/src):
--   Api               services/api.ts: the data that is exchanged, and the body of a GPS batch
--   Identity          services/trackingIdentity.ts: the installation's secret, the contributor's id
--                     and the persisted session
--   Tracker           services/locationTracker.ts: the buffer of pings, sendBatch, flushBuffer, the
--                     background task and forceFlush
--   Tracker/Run       the same as steps: deliveries, forced flushes and answers in any order
--   Tracker/Session   startTracking, stopTracking and recoverTracking
--   Socket            services/websocket.ts: the manager of the socket of one route
--   ContributorAuth   services/contributorAuth.ts: tokens, the interceptors, restoreSession
--   TripStart         components/TripStartModal.tsx: the form that a trip starts with
--   Account           screens/Contributor{Login,Claim,Profile}Screen.tsx: the forms of a contributor
--   LiveBuses         hooks/useLiveBuses.ts: the sockets of all routes that are shown
--   RouteSync         services/routeSync.ts: the local copy of the routes
--   RouteSearch       hooks/useRouteSearch.ts: the debounced search, online and offline
--   Leaderboard       screens/LeaderboardScreen.tsx: the list that is loaded page by page
--   Journey           screens/JourneySearchScreen.tsx: a journey between two stops
--   RouteOnMap        hooks/useRouteOnMap.ts, and the stop that a bus is at, of
--                     screens/RouteDetailScreen.tsx
--   App               App.tsx and the tracking button of screens/MapScreen.tsx: the stores and the
--                     tracker together, with what waits for its end in between
--   Stores            stores/: the zustand stores, and the theme of hooks/useTheme.ts
-- Admin (admin/src):
--   Api               lib/api.ts: data, headers, errors and queries
--   Calls             lib/api.ts: the functions that call the backend (Changes and Reads), as data
--                     (Mutations and Fetches), their headers and paths
--   Auth              lib/auth.tsx: the session of the console
--   DevicesSocket     hooks/use-admin-devices-ws.ts: the socket of the live map
--   RouteBuilder      pages/route-builder.tsx and the types of lib/geo.ts: planning a route
--   RouteForm         pages/route-edit.tsx and pages/route-new.tsx: the forms of a route
--   LocationAutocomplete  components/shared/location-autocomplete.tsx: a field that suggests places
--   Users             pages/users.tsx and pages/user-detail.tsx: what the controls ask for
--   Simulations       pages/simulations.tsx: the buttons of a simulation
--   Theme             components/theme-provider.tsx: the theme, its storage and the other tabs
--   Roles             pages/roles.tsx: slugs, the form for a role, and its permissions
--   LiveMap           pages/live-map.tsx: what is shown, the buses by route, the arrival times
--   BusMarker         components/animated-bus-marker.tsx: the turn of a marker
--   Timetables        pages/timetables.tsx: the form for a timetable
--   DataExport        pages/data.tsx: the export as comma-separated values; DataExport/Reader is a
--                     reader of that format
--   Pages             App.tsx and pages/login.tsx: the pages, the redirections and the login
--   Navigation        lib/navigation.ts: the menu and the title of a page
--   DataTable         components/shared/data-table: the state of a table and its page buttons;
--                     DataTable/Requests, what the pages of users, roles, routes, stops,
--                     simulations, contributors and audit logs ask for
--   Polyline          components/polyline-editor.tsx: the editor of a route's polyline
--
-- The tracker takes its sessions from Identity and builds its requests with Api; the contributor
-- store gives it the contributor's id, and is written by ContributorAuth. App puts the tracker and the
-- tracking store together; the other screens call the tracker, the socket's manager and the stores,
-- and are not modelled. The lists of the console go from the state of a table in DataTable to the
-- query strings of Api, and the controls of users and simulations ask for what Calls sends.
--
-- An asynchronous function is cut at the answers of the network that it waits for. Each part is a
-- function from state to state, named after the source's function with _begin, _end or _answer, and
-- other parts may run between two of them; in App, a start asks for its permissions and registers the
-- task in one part, and a recovery runs to its end in one part, while a start or a stop may wait. Reads and writes of the device's storage are taken with
-- the part they stand in, and succeed. A session object of the tracker is a reference into a store,
-- since its counter is written through every variable that holds it. A clock's time is an argument.
--
-- A batch counts as confirmed when its answer was good; one that the backend took, but whose answer
-- was lost, is sent again.
--
-- Numbers are natural numbers; coordinates, speeds and headings are fixed-point integers, and the
-- squares of differences of coordinates are exact. Dictionaries are association lists in insertion
-- order. Random texts, dates, SHA-256, lower case, the haversine distance and the projection of the map
-- are parameters, and so is what a server answers to a request for a page; where a theorem
-- needs that a hash is not the empty text, or that the backend gives no empty token, it says so.
-- Every recursion is structural, on a list or on a number of rounds. Only the redirections of Pages
-- take fuel: three rounds are enough, since a page redirects to the dashboard or to the login, and
-- these two not to one another in turn.
--
-- Not modelled: rendering, the messages that are logged or shown, the requests that only pass their
-- arguments on, the backend, and the other screens, pages and components.
pub mod Base
pub mod Mobile
pub mod Admin
