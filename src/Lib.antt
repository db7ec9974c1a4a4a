-- ===== src/Lib.antt =====
-- Atlas Bridge: a gateway between Atlas and book catalogues. The HTTP API (internal/api/server.go) lets
-- in the requests that carry the token, and asks providers (internal/providers) and the local catalogue
-- (internal/catalog); a provider's requests go through a client with a policy of its own
-- (internal/safehttp/client.go), and what it found is kept for a while (internal/cache/cache.go). An
-- acquisition (internal/acquisition/manager.go) is a job with a goroutine that downloads a file from a
-- provider or from a torrent, whose descriptor is read by internal/torrent/metainfo.go. The settings come
-- from internal/config/config.go.
--
-- Files and the code they model:
--   Base             Go strings as lists of bytes, strconv's decimal numbers, maps, (value, error) pairs
--   Model            internal/model/model.go: Book, File, SearchResponse, ProviderError, Provider
--   Config           internal/config/config.go: Load, env, list, merge, intEnv, durationEnv, secret
--   Torrent.Bencode  internal/torrent/metainfo.go: reader.readByte, readUntil, readValue, decode, encode
--   Torrent.Inspect  internal/torrent/metainfo.go: Inspect
--   Torrent.Transmission
--                    internal/torrent/transmission.go: call, FindByName, Add, Get, Remove;
--                    Torrent.Transmission.Fetch: DownloadFile, openTorrentFile
--   Acquisition      internal/acquisition/manager.go: the Manager's state, Get, Cancel, File, update,
--                    fail; Acquisition.Create: Create; Acquisition.Steps and Acquisition.Run: run
--                    and runTorrent
--   SafeHttp.Address internal/safehttp/client.go: PublicIP and the dialer of New
--   SafeHttp.Policy  internal/safehttp/client.go: New's origins, ValidateURL, CheckRedirect, Do and
--                    limitedReadCloser
--   Cache            internal/cache/cache.go: key, Put, Get
--   Catalogue        internal/catalog/store.go and locator.go: the types; Catalogue.Writes and
--                    Catalogue.Books: what is written; Catalogue.Terms and Catalogue.Reads: what is
--                    searched and read
--   Catalogue.Records, Catalogue.Import, Catalogue.Readers
--                    internal/catalog/sync.go: decodeAnnaRecord, decodeAnnaFileRecord; SyncAnnaJSONL and
--                    SyncAnnaFilesJSONL; countingReader, checkpointReader, readProgress, ingestZstd
--   Providers        internal/providers/common.go; Providers.Anna: Search of internal/providers/anna.go,
--                    with challengeActive, markChallenge and clearChallenge; Providers.Files: its
--                    Details, OpenCover, OpenFile and safeUpstreamError; Providers.Pages: parseSearch
--                    of anna.go and libgen.go, parseSize, absoluteURL
--   Providers.LibGen internal/providers/libgen.go: Search, Details, OpenCover, OpenFile
--   Providers.Local  internal/providers/local.go
--   Commands         cmd/atlas-bridge/main.go: ingestOnce, retrieveCatalogueTorrent
--   Api              internal/api/server.go: authenticate, writeError, boundedInt, decorate;
--                    Api.Answers: the handlers
-- The modules below each of these hold its proofs, and its test modules run at concrete inputs.
--
-- Concurrency: a critical section of the Manager's lock is one step on the state, and what others do
-- between two steps of a request is a parameter, given as a schedule; a goroutine is the list of its steps
-- (an update of its job, or an operation on its part file), and a schedule plays the steps of several
-- goroutines and calls of Cancel in any order. A transaction of the catalogue works on a copy of the
-- database, which its commit publishes; what comes between the two transactions of the cache's Get is a
-- function on the database.
--
-- Bounds and fuel: readValue recurses on fuel, and 2 * length + 1 is enough for every input, since each
-- call takes a byte off the input or ends; the digits of a number n are written with fuel n, since each
-- round divides by 10. The polling loop of DownloadFile is on fuel, with the log of its requests: any fuel
-- beyond the first round that ends it is enough. Numbers that the code keeps as int64 are natural numbers
-- or integers without bounds; their range is written out where text is parsed (strconv.ParseInt) and stated
-- where a property needs it. The float64 progress is an exact fraction.
--
-- Parameters, since their code is not in the repository: sha1, net/url, the resolver, path/filepath, the
-- file system and its errors, the body's reads, time.ParseDuration, the bbolt bucket and encoding/json (with
-- the laws they document), the SQL database and its queries, zstd, the lines of bufio's readers, goquery's
-- selections and regular expressions, the Transmission server, crypto/rand's ids, and what the HTTP client
-- answers to a provider. The ASCII case folding and white space of the package strings are written out;
-- other Unicode letters are not folded.
--
-- Not modelled: the commands' wiring, the opening of databases and files, logging, request ids, the health
-- and provider listings.
pub mod Base
pub mod Torrent
pub mod Acquisition
pub mod SafeHttp
pub mod Config
pub mod Model
pub mod Cache
pub mod Catalogue
pub mod Providers
pub mod Api
pub mod Commands
