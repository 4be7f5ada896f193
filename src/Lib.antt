-- ===== src/Lib.antt =====
-- The admin API that registers the clients of a wallet verifier: a client is created as a draft,
-- described by a registration document, and driven along its lifecycle until it is active.
--
-- The program has five parts. The routes (routes) decode a request, pass a key gate, and call the
-- store, the lifecycle service and the wizard. The lifecycle service (internal/lifecycle) drives one
-- edge of a client's life and checks what activation asks for. The wizard (internal/wizard) checks a
-- registration form and assembles the document and its scope projections. The key minter
-- (internal/apikeys) makes verification keys. The store (internal/registrydb) keeps the rows; it is an
-- interface, filled by a database bridge and by an in-memory fake.
--
-- Which file models which part:
--   Base        Go's errors, its results and its methods that change an object (Base/Errors: a method
--               returns a result beside the state that it leaves), maps (Base/GoMap), sort.Slice
--               (Base/Sort), lists and tests.
--   Json, Text, Digits, Url, Ts5
--               JSON values and raw messages, the text functions that the code calls, fmt's numbers,
--               the parts of a URL, and the structs of the outside document model.
--   Registry    internal/registrydb/repo.go: the rows; Registry/Store the interface; Registry/States
--               the lifecycle diagram; Registry/Contract the laws that a store keeps, from which the
--               service and the routes are proved.
--   Wire, Bridge
--               internal/registrydb/db.go and the PG type of internal/registrydb/repo.go: Wire decodes
--               JSON into structs by their tags, Bridge has the envelope and the procedure call,
--               Bridge/Rows the tags, Bridge/Procs the names of the procedures and Bridge/Store the
--               methods. Bridge/Serves says what the procedures promise; Calls, Answered, RoundTrip
--               and Agrees have the proofs.
--   Fake        internal/registrydb/fake.go: the record of the rows, and one module for each group of
--               methods (Clients, Settings, IntendedUses, Evidence, Audit, Slug); Fake/Store fills the
--               interface and Fake/Contract the laws. Fake/Seams has what it offers to tests; Mode,
--               Listings, Log and Slug/Bounds have further proofs.
--   Lifecycle   internal/lifecycle/lifecycle.go: transition, check_activation_preconditions,
--               any_non_revoked; Outcome, Verdict, Activation, Offboarding and Progress have the
--               proofs.
--   Wizard      internal/wizard/wizard.go: the field checks; Wizard/Credentials has build of a
--               credential, Wizard/Assembly has build of a form; Validity, Acceptance and Projection
--               have the proofs.
--   Routes      routes/api.go (Clients, Settings), routes/api_registration.go (Registration),
--               routes/api_keys.go and internal/apikeys/apikeys.go (Keys), routes/apiauth.go (the gate in
--               Routes), routes/router.go (Dispatch), routes/health.go (Health); Governed, Steps, Runs, Fresh, Atomic,
--               ReadBack, Logged, Mode, Trail and AuditTrail have the proofs.
--   App         app.go: the problem reasons that the application registers.
--   Config      config.go: the sources of the secrets and the check of the configuration; Config/Boot has
--               the proofs.
--   Tests       concrete inputs and the theorems applied to them.
--
-- A method of the store is one step, since the fake holds its mutex for the whole call. A loop is
-- structural recursion over its list, so there is no fuel. A Go map is kept in the byte order of its
-- keys: a range over a map has no order of its own, and every list that is made of one is sorted by the
-- code, but for the listing of clients, whose order the program does not promise. A nil slice and an
-- empty one are the same list. A timestamp is a number, and the clock and the random sources are
-- arguments. The contract of a store lets the purge of an offboarded client fail; Tests/Faulty has a
-- store where it does. The counter of identifiers is an int of Go whose range no process leaves, and
-- so has no bound here. A policy document is decoded into an any and written again (Json/Generic), its
-- numbers by way of float64.
--
-- Parameters, since their code is not in the repository: url.Parse, json.Marshal of the document
-- model, the case folding of JSON field names, the rounding of numbers to float64, ulid.Make, base32, base64 and argon2id. A request body is
-- the value that json.Unmarshal makes of it. The problem library is kept by the codes that it is given.
--
-- The stored procedures are a parameter as well: a function from a name, an argument and a state to an
-- answer and a state. Of encoding/json on the answers the model keeps the tags, null, missing and
-- repeated keys; an array that a repeated key brings replaces the one before it.
--
-- Viper, the secret store, the base configuration and the validator are parameters of Config, with what
-- viper documents as laws; viper has no flag, override or configuration file.
--
-- Not modelled: the rest of the application's wiring, log redaction and the server command, which are
-- input and output or declarations. The detail texts of errors are left out, and
-- the numbers that the bridge reads into an any keep their literals.
pub mod Base
pub mod Bridge
pub mod Wire
pub mod Json
pub mod Registry
pub mod Text
pub mod Digits
pub mod Fake
pub mod Url
pub mod Lifecycle
pub mod Ts5
pub mod Wizard
pub mod Routes
pub mod App
pub mod Config
pub mod Tests
