-- ===== src/Lib.antt =====
-- pentagon5-foundation: the broker, market-data and strategy packages, the authentication service
-- with its application, its OIDC client and its settings, the shared runtime's UUIDs, settings,
-- envelopes and HTTP middleware, and the database metadata of this repository, with theorems
-- about them.
--
-- The parts and their files:
--
-- * Broker (src/broker/models.py, src/broker/provider.py). Broker/Models has the enums and
--   dataclasses with the checks of their constructors; Broker/Provider has `MockBrokerProvider`
--   as a record of its fields and one action for each method. An action returns its result or its
--   exception together with the fields, so that what was written before a raise stays written.
--   The clock and `uuid4` are arguments. Below Broker/Provider stand the invariant and its proof,
--   the effect of each order, and sequences of calls.
--
-- * Decimal (Python's `decimal`, as far as the broker uses it): finite numbers as sign, digits
--   and exponent under the default context of 28 significant digits and half-even rounding. NaN,
--   infinities and the limits of the exponent are left out.
--
-- * Strategy (src/strategy, src/marketdata/models.py). Strategy/Interface is the abstract class
--   as a record of methods on a strategy's own fields; Strategy/Mock is `MockStrategy`;
--   Strategy/Runner is `StrategyRunner` over any strategy and any `place_order`, and
--   Strategy/Runner/Events instantiates it with the mock broker. Floats of the market data are
--   carried and never computed with, so their type is a parameter.
--
-- * Auth/Models, Auth/Tables and Auth/Repository
--   (services/authentication/pentagon5_auth/models.py and repository.py). A table is a list of
--   rows with the columns that the repository uses; an SQL statement is a function on such lists,
--   a method is a transaction that an exception rolls back, and inserts check the keys and
--   constraints of infrastructure/database/metadata.py. `uuid7()`, the clocks and the database's
--   order of names are arguments. Numbers of microseconds stand for times.
--
-- * Auth/Service (services/authentication/pentagon5_auth/service.py,
--   backend/pentagon5_runtime/security.py). One function for each method, over the repository.
--   What the code takes from hmac, AES-GCM, base64, json and the OIDC client is a parameter
--   (Auth/Service/Externals), the client as two functions, with the inverse laws that sealing
--   relies on as a record of hypotheses; the drawn tokens are arguments.
--
-- * Auth/OidcClient (services/authentication/pentagon5_auth/oidc.py): `OIDCClient` as its cached
--   metadata and the requests that it has sent; httpx, urlencode and PyJWT are the parameter
--   `Web`. Auth/OidcClient/Endpoints is about where it posts, Auth/OidcClient/Checked about the
--   claims that it accepts.
--
-- * Auth/Config and Runtime/Config (services/authentication/pentagon5_auth/config.py,
--   backend/pentagon5_runtime/config.py): the loaders of settings from the dictionary of the
--   environment; urlparse, the parsers of numbers, base64 and the file system are the parameters
--   `AuthReading` and `Reading`.
--
-- * App (services/authentication/pentagon5_auth/app.py). App/Control is `_websocket_control` on
--   parsed JSON, App/Sockets the WebSocket route on the list of what the client sends: a round
--   takes a message and the subscriptions, and goes on or ends. App/Routes has the HTTP routes
--   with `current_principal`, and App/Routes/Answers the exception handlers.
--
-- * Runtime/Envelopes (backend/pentagon5_runtime/envelopes.py): the builders of messages, as JSON
--   objects.
--
-- * Runtime/Observability (backend/pentagon5_runtime/observability.py): the HTTP middleware. The
--   application behind it is a tree: it ends, or asks for the next part of the body and goes on
--   with what it is given.
--
-- * Market (src/marketdata/provider.py): the Yahoo Finance provider on JSON documents; httpx,
--   float and datetime are the parameter `Web`.
--
-- * Runtime/Uuid7 (backend/pentagon5_runtime/uuid7.py): the two globals as a state, the shifts,
--   `|` and `&` on natural numbers (Prelude/Bits); Runtime/Uuid7/Text is `is_uuid7` over the
--   parser and the printer of the uuid library.
--
-- * Schema (infrastructure/database/metadata.py, metadata_0001.py, metadata_0002.py): each table
--   with its columns, constraints and indexes as data, the snapshots of the two migrations under
--   Schema/V0001 and in Schema/V0002, and in Schema/Migrations the upgrades and downgrades of
--   infrastructure/database/migrations/versions, over a parameter `Ddl` for what a statement does
--   to a database.
--
-- Prelude passes the library's names on and has tests, lists, results, dictionaries, integers,
-- bits and JSON values. Modules named Tests run the definitions on small inputs. Every loop of
-- the modelled code goes over a list, so that no definition has fuel except the digits of a
-- decimal and the removal of trailing zeros, whose fuel is the number itself and the distance of
-- the exponents.
--
-- Not modelled: the construction of the FastAPI applications, what FastAPI does before a route is
-- called (the parsing of bodies and parameters), the mock provider of market data, logging,
-- tracing and the histogram of latencies, the database engine, the configuration of Alembic, and
-- the clients in other languages. Concurrent transactions are not interleaved: each runs on its
-- own.
pub mod Prelude
pub mod Decimal
pub mod Broker
pub mod Auth
pub mod Schema
pub mod Runtime
pub mod Strategy
pub mod App
pub mod Market
