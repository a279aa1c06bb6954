-- ===== src/Lib.antt =====
-- A Go library of clients for infrastructure: a schema registry, PostgreSQL, MariaDB, Kafka and
-- MinIO, each in a folder of the repository. The packages do not call each other. What they share
-- is a way to treat errors: each translates what its driver returns into sentinels of its own and
-- classifies these.
--
-- Prelude holds the shared types and lemmas: Text is a Go string as the list of its code points, ℤ
-- an int, Result a value or an error, and a map is an association list. GoError models Go's error
-- values with `errors.Is`, `errors.As` and `Error()`, and GoError.Switch the three forms of switch
-- that the translations use: on a code, on `errors.Is`, and on what a message contains.
--
-- SchemaRegistry is schema_registry/. Wire is the header of five bytes (`EncodeSchemaID`,
-- `DecodeSchemaID`, client.go). Client is the caching client of client.go with `observeOperation`
-- of observer.go: a method takes the client and the outside world and returns both after it.
-- Package net/http and the JSON decoding are the record Http. The mutexes are left out, since a
-- method is one step. Serializer is serializer.go over the interface Registry, Serializer.Formats
-- the Avro, Protobuf and JSON codecs of avro.go, protobuf.go and json.go, and
-- Serializer.Registered puts the client in the place of the interface.
--
-- Postgres is postgres/. Errors is errors.go: the sentinels, the tables of `TranslateError` for
-- GORM's errors, for SQLSTATE codes and for messages, and the categories. Migrations is
-- migrations.go, over a database that holds the tables and the history; Migrations.Files reads and
-- writes the names of the migration files and Migrations.Status reports on them. The server, the
-- clock and the directory are the record Driver. A transaction that does not commit changes
-- nothing. Connection is the goroutines `MonitorConnection` and `RetryConnection` of setup.go with
-- the hook `OnStop` and `GracefulShutdown` of fx_module.go, as relations of steps on the state
-- that they share; the outcomes of the health checks and of the attempts to connect are steps.
--
-- Postgres.Query is the query builder of query_builder.go: each method that gives a builder is a
-- function, Database.Methods has these methods as data, and `build` runs a chain of them.
-- Query.Finishers is the methods that go to the database, with those of row_scanner.go, BasicOps
-- is basic_ops.go, and Vectors is the indexes of pgvector.go, with a reader of SQL of its own in
-- Vectors.Reading. GORM is the record Database.Gorm.Gorm, whose queries and world are of any type.
--
-- MariaDb is errors.go, query_builder.go, row_scanner.go and basic_ops.go of mariadb/, over the
-- same record of GORM. MariaDb.Errors.Counterparts and MariaDb.Query.Portable compare it with
-- postgres/. Observability is what an observer is shown (observability/interface.go), for both and
-- for Minio.
--
-- Kafka is kafka/. Errors is errors.go. Serializers is serializer.go, with encoding/json,
-- encoding/gob, fmt and the type assertions in the record Runtime, and Serializers.Multi the
-- serializers by format. Client is setup.go with `Publish` of utils.go and `observeOperation` of
-- observer.go: Client.Settings the configuration of configs.go and what is made of it for
-- kafka-go, Client.Messages what a consumer reads of a message. What kafka-go's writer does is the
-- record Broker; of an asynchronous writer nothing is said, which may lose a message without an
-- error. Consumer is `ConsumeParallel` and `consumeWorker` of utils.go, as relations of steps of
-- any number of workers.
--
-- Minio is minio/: Errors is errors.go, PartSizes chooses the sizes of parts
-- (presigned_put_utils.go, with the constants of configs.go), and Multipart is the multipart
-- uploads of presigned_put_utils.go, over the store as a record of functions. BufferPool is the
-- pool of setup.go; `sync.Pool` is a list, and what it takes from it and drops is an argument;
-- BufferPool.Concurrent has the steps of calls at the same time. Buckets is the operations on
-- buckets of setup.go. Downloads is the presigned ranges of presigned_get_utils.go, Links the
-- presigned links and `urlGenerator` of utils.go, Objects is `Put`, `Get` and `Delete` of
-- object_utils.go, and Streams its `StreamGet`, over a script of what the reader and the context
-- do. Connection is the goroutines `monitorConnection` and `retryConnection` of setup.go with the
-- hook `OnStop` of fx_module.go, as relations of steps.
--
-- All recursion is structural, and no fuel is needed. The rounding division of floats in
-- `calculateOptimalPartSize` is exact for sizes below 2 ^ 53, and the model divides exactly; the
-- configured part size stands for a value below 2 ^ 59, where its conversion and its multiple do
-- not wrap.
--
-- Not modelled: mariadb/ but for its errors and queries, the transactions of postgres/ and
-- mariadb/, `connectToPostgres` and `healthCheck`, `NewClient` and the notifications of minio/,
-- the logging of the Kafka client and the closing of its writer and reader, logger/, tracer/,
-- metrics/ and the wiring for fx. Most of it is calls of drivers and of packages outside the
-- repository.
pub mod Prelude
pub mod GoError
pub mod Observability
pub mod SchemaRegistry
pub mod Database
pub mod Postgres
pub mod Kafka
pub mod Minio
pub mod MariaDb
