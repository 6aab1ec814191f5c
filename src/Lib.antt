-- ===== src/Lib.antt =====
-- The control plane of styio-platform: the state that it keeps, who may reach which operation, and
-- how a build is placed on the worker pools.
--
-- The program's parts and their files. All paths are from the repository's root.
--   Base/        Booleans, texts and maps of the C++ standard library: std::map<std::string, V> is
--                an association list in key order (Base/Dict), std::getline with a delimiter is
--                split_items (Base/Text), a call that may throw gives a Result (Base/Outcome).
--   Json         nlohmann::json as an interface with the library's documented laws, since the
--                library is not part of the repository; Json/Tree meets the interface.
--   Store/       src/PlatformStorage/PlatformPersistence/MemoryStateStore.cpp and StateRecords.hpp.
--                Every method is a function from the store to the store and the method's result,
--                under the method's name in lower case: SubmitJob is submit_job. Store/Calls has the
--                calls of the handlers as data, and runs histories of them. Store/Payloads is
--                StateRecords.cpp: the records as JSON, and a container from its registration.
--   Execution/   src/SpioPlatformProtocols/Execution.cpp: ResolveCloudExecutionPolicy, one function
--                for each block of its body.
--   Routing/     src/PlatformService/Http.cpp and the two route tables (RouteCatalog.cpp,
--                RegistryRoutes.cpp).
--   Access/      src/PlatformSecurity/PlatformClientAuth and the gate RequireIdentity of
--                src/PlatformService/Router.cpp, which every request passes before its handler;
--                Access/Authority is what src/PlatformSecurity/PlatformCA/CertificateAuthority.cpp
--                writes into a node's certificate.
--   Registry/    src/PlatformCloud/PackageRegistry/ControlPlane: RegistryWriteAuthorized, package
--                names and token patterns. It reads the owners and the tokens of the store and the
--                token headers of Access. Registry/Tables has the store's releases and owners by
--                package, version and owner in place of the keys.
--   Ops/         src/PlatformService/PlatformOps/OpsManager.cpp: the rate limiter.
--   Workspace/   src/PlatformCloud/DeveloperWorkspace: JobQueue.cpp (Queue), the handlers of
--                WorkspaceControlPlane.cpp on the in-memory store (Handlers), the Git source policy
--                of src/PlatformCore/SourceFetch/SourceFetch.cpp (Sources); and Dispatch of
--                src/PlatformService/Router.cpp (Dispatch).
--   Manifest/    src/PlatformCore/Manifest/Manifest.cpp: LoadManifest and what it calls
--                (Parse, Load), and SerializeManifestCanonical (Print). Manifest/Toml is toml++ as
--                an interface.
--   Sha256/      src/PlatformCore/Core/Sha256.cpp: the words and the blocks (Words), Update and
--                FinalHex, and Sha256File on the pieces that it reads. Sha256/Fips is the standard,
--                written apart from the code.
--   Resolve      the records of src/PlatformCore/Resolve/Resolver.hpp.
--   Plan/        src/SpioPlatformProtocols/CompilePlan.cpp: the entry package and target of a compile
--                plan (Entry, Target) and the order in which packages are built (Order).
--   Protocol/    src/SpioPlatformProtocols/Job.cpp and Contract.cpp: the job request of a client, its
--                checks, and its JSON (Contract).
-- Each component has a module Examples with its theorems at concrete inputs.
--
-- How the pieces meet: the router finds a route (Routing), asks the gate (Access), then the rate
-- limiter (Ops), and then runs a handler (Workspace), which calls the store (Store) and, for registry
-- writes, asks Registry. A client loads its manifest (Manifest), resolves its packages (Resolve), and
-- makes a compile plan (Plan) or the request for a build in the cloud (Protocol), which the queue
-- (Workspace) checks and the store keeps.
--
-- Bounds. The three sequence numbers of the store are size_t and wrap at 2 ^ 64, written out in the
-- definitions. Counters of type int that only grow (a container's workspace generation, the calls
-- in a rate limiter's bucket) are natural numbers: their overflow at 2 ^ 31 is not modelled. The
-- number of a repository's next version is none where the sum is no int, since the overflow is
-- undefined. Times of the rate limiter are natural numbers of seconds. Decimal digits (Base/Padded)
-- recurse on fuel n + 1, which is enough since each step divides by ten. The walk of
-- BuildPackageOrder (Plan/Order) recurses on fuel, one more than the packages, which is enough
-- since the packages whose visit is open are all different. The loop of Update (Sha256) recurses on
-- fuel, the number of the bytes, of which each turn takes at least one. The other loops recurse on
-- a list or a text.
-- Parameters. The SHA-256 of OpenSSL and the current time are arguments of the functions that use
-- them; the compiler's platform macros and the environment variable of the base image are the
-- record Host; the JSON library is the record Json, toml++ the record Toml, and std::filesystem the
-- record Files (Base/Files). Dispatch takes RequestSubject, the clock and the handlers of the groups
-- other than the workspace's as arguments; the request metrics are left out, since no answer but their
-- own reads them. A handler's exception is the result err, with the store as it was when it was thrown;
-- where a stored worker has no text for its region or pool, RegisterCompileContainer throws an error of
-- the JSON library, which is treated like the store's own error.
--
-- Not modelled: the Postgres store and the object store, whose work is done by external services,
-- and the branches of the handlers that call the Postgres store; the server, the daemon, the
-- worker's processes and the rest of the certificate authority, which are input and output or calls
-- of libraries; the handlers of the registry, of governance and of operations; the resolver's own
-- search, the lockfile, the writing of a compile plan, the registry client and the trust metadata.
pub mod Access
pub mod Base
pub mod Execution
pub mod Json
pub mod Manifest
pub mod Ops
pub mod Plan
pub mod Protocol
pub mod Registry
pub mod Resolve
pub mod Routing
pub mod Sha256
pub mod Store
pub mod Workspace
