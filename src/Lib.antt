-- ===== src/Lib.antt =====
-- The backend of a local question-and-answer assistant for Linux manuals (backend/src, Python). A
-- catalog on disk lists knowledge sources. Command line clients talk to the backend over a Unix socket
-- in frames of JSON: they add, update and remove sources, start a reindex run, ask questions and ask
-- for the health of the system. A reindex run walks over the active sources of the catalog, has the
-- chunk builder split and ingest those that changed, saves the catalog with fresh snapshots, and
-- reports its progress through callbacks that become streamed responses. The
-- initialisation for clients is refused if the snapshots do not match the catalog.
--
-- Prelude holds what the parts share: lists and texts over native numbers, results in place of
-- exceptions, stable sorting by a text key, decimal numbers, searches on fuel, lists with keys.
-- Ports follows backend/src/ports/ingestion.py and backend/src/ports/health.py.
-- Files is the file system as an argument, with `_resolve_location`.
-- Catalog.Alias (`_slugify`, `_trim_alias`, `_generate_alias`) and Catalog.Service (`create_source`,
-- `update_source`, `remove_source`, each as a function from a store to its result and the store it
-- leaves) follow backend/src/application/source_catalog.py; its audit entries go to the logger of
-- Storage.Audit, which can raise after the catalog was saved.
-- Catalog.Quarantine follows backend/src/adapters/storage/quarantine.py.
-- Offline follows backend/src/application/offline_guard.py, as steps of threads.
-- Domain follows backend/src/domain: Domain.Sources is source_service.py, Domain.Freshness
-- query_service.py, Domain.Recovery job_recovery.py, Domain.Models models.py.
-- Reindex follows backend/src/application/reindex_service.py: Reindex.State has what a run is composed
-- of and its effects, Reindex.Source the loop, Reindex.Run the rest. `run` gives its result and the list of
-- its effects (progress, completion, saved catalogs, written index versions, audit entries, calls of
-- the chunk builder), also where a collaborator raises.
-- Chunking follows backend/src/adapters/transport/handlers/chunking: text.py, documents.py and, in
-- Chunking.Builder, builder.py.
-- Health follows backend/src/application/health_service.py and backend/src/domain/health_service.py.
-- Query follows backend/src/application/query_runner.py and backend/src/ports/query.py.
-- Query.Engine follows backend/src/application/query_engine.py.
-- Json is JSON values, and the parameters that encode and parse them. Storage follows
-- backend/src/adapters/storage: Storage (the JSON of a catalog), Storage.Catalog (`load`, `save`) and
-- Storage.Disk (the files, and where a save can stop: the process can, the power stays) catalog.py,
-- Storage.IndexVersion
-- index_version.py, Storage.Audit audit_log.py, with Storage.Audit.Code on what a language code is.
-- Clients.Weaviate and Clients.Ollama follow the clients in backend/src/adapters, Launcher
-- backend/src/main.py and backend/src/application/handler_settings.py, and Wiring parts of
-- backend/src/adapters/transport/handlers: Wiring.Retry http.py, Wiring.Checks health.py,
-- Wiring.Bootstrap factory.py, Wiring.Checksum builders.py.
-- Init follows backend/src/application/init_service.py; Paths is what it uses of `pathlib`.
-- Metrics follows backend/src/application/query_metrics.py and reindex_metrics.py.
-- Transport.Router (`dispatch` and its handlers), Transport.Stream (`_JobStream`) and Transport.Ports
-- (`start_reindex`) follow router.py and ports.py in backend/src/adapters/transport/handlers,
-- Transport.Hooks the shutdown hooks of router.py,
-- Transport.Serialize backend/src/common/serializers.py.
-- Transport.Index is `_ensure_index_current` of backend/src/adapters/transport/handlers/router.py,
-- Transport.Errors errors.py beside it; Transport.Framing (`_read_frame`, `_write_frame`) and
-- Transport.Server (`_handle_connection` with what it calls) follow
-- backend/src/adapters/transport/server.py.
-- Tests runs the definitions at concrete data.
--
-- A time is a number of microseconds. Percentages and ratios are exact fractions where the code has
-- floats. An exception is an error value with its text. One reading of the clock serves for each
-- operation of the catalog service and of the domain; a reindex run reads it at named moments. Trace
-- sections and log lines are left out. A stream that waits for ever is a list with a mark that it does
-- not end, and an event loop that is not running is a flag of the handlers and of the port.
-- The search for a free alias runs on fuel, one more than the number of the aliases in use, which is
-- enough since the candidates are all different; decimal digits run on fuel of the number plus one.
--
-- Not modelled: the construction of the clients, fakes and telemetry; the start and end of the server;
-- the parsing of arguments; the command line clients in Go. The file system, checksums, SHA-256, JSON
-- and YAML texts, HTTP, the parsing and printing of floats and `repr` are arguments.
mod Tests
pub mod Prelude
pub mod Paths
pub mod Ports
pub mod Files
pub mod Catalog
pub mod Domain
pub mod Transport
pub mod Reindex
pub mod Health
pub mod Query
pub mod Chunking
pub mod Offline
pub mod Json
pub mod Storage
pub mod Clients
pub mod Wiring
pub mod Launcher
pub mod Init
pub mod Metrics
