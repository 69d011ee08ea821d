-- ===== src/Lib.antt =====
-- The Convoy backend, in Go: rooms of drivers with an owner, a shared destination, a route of stops,
-- private pins and chat, kept in PostgreSQL (internal/rooms), a hub of websockets that shows who is
-- present and fans changes out (internal/realtime), accounts with their sign-in and deletion
-- (internal/auth), push messages (internal/push), feedback, and an administrator's dashboard
-- (internal/admin).
--
-- A REST request goes through a handler (rooms/handlers.go), a method of the service (service.go) and
-- methods of the store (store.go); after a change the service tells the hub, which it knows as the
-- interface Broadcaster. A websocket request checks the membership in the store, joins the hub, gets a
-- snapshot, and leaves when its read pump ends. Every route but sign-in stands behind the middleware of
-- auth, which turns a session token into a live account; the dashboard stands behind a signed cookie, and
-- sends its broadcasts through the Expo client to the tokens that push has registered.
--
-- Which file models which part:
-- - Rooms/Types: internal/rooms/types.go. Schema: the tables of internal/db/migrations, as lists of rows.
-- - Schema/Query: how a query of the pool runs. A query or a transaction's begin or commit may fail with
--   a lost connection, and then changes nothing; a transaction that fails is rolled back as a whole.
-- - Rooms/Store and its children Room, Member, Destination, Marker, Stop, Chat: the methods of
--   internal/rooms/store.go under their names in snake case, each with the function on tables that its
--   SQL stands for (create_room: CreateRoom; kick_rows: the UPDATE of Kick).
-- - Rooms/Service and its children Core, Labels, Membership, Route, Moderation, Chat, Detail: the methods
--   of internal/rooms/service.go. The state is a World: the session with the tables, and whatever state the
--   broadcaster has.
-- - Rooms/Handlers and its children: internal/rooms/handlers.go. Serve is Routes, and a run of requests.
-- - Realtime/Message, Client, Hub, Fanout, Handler: messages.go, client.go, hub.go (state, then
--   broadcasting) and handler.go of internal/realtime.
-- - Auth/Tokens, Users, Guest, Profile, OAuth, Deletion: internal/auth/auth.go. A handler is the action up
--   to its last error (guest, patch, oauth, delete_account) and its answer (handle_guest, ...).
--   Auth/Providers: Verify of internal/auth/providers/google.go and apple.go.
-- - Push/Expo, Store, Handlers: expo.go, store.go and handlers.go of internal/push.
-- - Admin/Session and Dashboard: internal/admin/admin.go, with fmt's %d in Admin/Decimal. Admin/Users,
--   Broadcasts, Settings: users.go, broadcasts.go and settings.go of internal/admin.
-- - Feedback/Store, Handlers and Config/Load, AppConfig: internal/feedback and internal/config.
-- - Server/Cors: corsMiddleware of cmd/server/main.go.
-- - Httpx, Web, Livekit: internal/httpx/response.go, what its handlers share, and
--   internal/livekit/token.go.
-- - Base, Sorted, Text, Float64, Exec: lists, rows, maps, code points, IEEE doubles, and functions that
--   return a value or an error beside the state that they leave.
-- The proofs stand in Rooms/Ownership, Access, Membership, Admittance, Creation, Stops, Markers,
-- History, Posting, Clearing, Labels, which rest on Outcomes; in Realtime/Presence, Transitions,
-- Dropping, Departure, Race, Delivery, Reach, Filing, Sections, Soundness, Buffers, Shutting,
-- Disconnect, Entry, Admission; in Auth/Session, Naming, Identities, SignIn, Closing and Providers; in
-- Push/Batches, Tokens, Registration, Registry; in Admin/Cookie, Versions, Published, Offline, Purge,
-- Recording, Delivery; and in Feedback/Submission. Examples has the runs on small inputs.
--
-- How it is modelled. UUIDs and times are numbers; the text of JSON is valid UTF-8, so a text is the
-- list of its code points, and a cut s[:n] after n bytes is whole runes, with the bytes of a split one
-- (Text/Cut); a finite float64 is a sign and a multiple of 2^-1074. What the database and the system
-- choose (now(), new UUIDs, random draws, which queries fail, the Unicode table of upper case) is the
-- record Env, read by the number of the query or draw. Requests to the service run one after another;
-- no other query comes between those of one method. In the hub a pointer is an address into `states`
-- or `conns`, and each critical section is one function; Realtime/Steps has the hub as a state
-- machine, whose runs interleave the sections of any requests in any order. The eight attempts of
-- Create are recursion on the number of attempts, as in the source; the loop of Send has one round of
-- fuel for each token and one more, which is enough, since a round takes a hundred tokens and the last
-- one ends it; a time of 63 bits has at most 20 digits.
--
-- Not modelled: the JSON and HTTP libraries; the LiveKit SDK, the JWT and UUID libraries, HMAC with
-- base64, ILIKE, the environment and the network of Expo, which are parameters; the goroutines that run
-- the pumps (their turns are); the templates, with maskToken and the logs; the entitlements, which are
-- only passed on; the static pages of policy; and db and main, which connect, migrate and wire.
pub mod Base
pub mod Sorted
pub mod Text
pub mod Float64
pub mod Httpx
pub mod Web
pub mod Push
pub mod Auth
pub mod Admin
pub mod Feedback
pub mod Config
pub mod Server
pub mod Livekit
pub mod Exec
pub mod Schema
pub mod Rooms
pub mod Realtime
pub mod Examples
