-- ===== src/Lib.antt =====
-- A model of anilibria-torznab, a server that offers the torrents of the AniLiberty API to Sonarr and
-- Prowlarr by the Torznab protocol, with the theorems that make its core correct.
--
-- A request comes to the handlers of internal/httpapi/httpapi.go (HttpApi), which check the key and the
-- parameters and call Execute of internal/service/service.go (Service) with a Request. Execute takes
-- torrents from three bounded caches of internal/cache/lru.go (Cache.Lru), whose loads are shared by
-- internal/cache/coalescer.go (Cache.Coalescer) and made by the client of internal/anilibria/client.go
-- (Anilibria). What it has loaded is filtered, ordered and paged with the categories and titles of
-- internal/torznab (Torznab), and goes back to the handlers as a feed.
--
-- Files:
--   Prelude     Boolean tests and lists on the native numbers, association lists, integers.
--   Text        The parts of Go's strings, strconv, unicode and utf8 that the program calls, on lists of
--               bytes. Beyond ASCII the table of unicode.ToLower is a parameter.
--               Text/Regexp is the part of regexp that internal/torznab uses, as a search with
--               backtracking that needs no fuel; Regexp/Reading, Search and Greedy say what it finds.
--   Cache/Lru   internal/cache/lru.go: Get, Set, Delete, Len, removeExpired, remove, NewLRUWithClock and
--               TTLFor are get, set, delete, len, remove_expired, remove, new_lru and ttl_for. The clock's
--               reading is an argument. The map, the recency list and the heap are three lists of keys,
--               where the program has pointers to one entry; container/heap is a list in the order of
--               expiry. Lru/Spec has the specification, one list of entries in the order of use; Lru/Promises
--               and Retention say what is read back and how long it is kept.
--   Cache/Coalescer   internal/cache/coalescer.go: join, finish and detach are what DoShared, run and
--               detach do under the lock; calls live in a store, as goroutines share them.
--               Coalescer/Interleaving has the steps of all goroutines in any order. The 64-bit counter of
--               waiters wraps around in the model, and a step that joins has it below the end. The base
--               context is known by whether it is cancelled, and its cancellation is a step.
--   Anilibria/Limiter, Retry, GetJson   internal/anilibria/client.go: wait of the limiter, classifyStatus,
--               backoff, parseRetryAfter, acquire, attempt, waitForRetry and getJSON. getJSON returns its
--               events and its result; what the network, the context and the clock do in attempt n is a
--               Round. The loop has as many passes left as the program has attempts, three, and
--               behind them the program's panic. A wait of the limiter runs over a list of rounds and says
--               so where they do not suffice.
--   Anilibria/Construct, Operations   NewClient; SearchReleases, TorrentsByRelease and Latest with decodeJSON
--               and decodeTorrentCollection. The decoder of encoding/json is a parameter that gives the
--               first value of a body and the bytes behind it; a read of the context is an argument.
--   Anilibria/Models, Json   internal/anilibria/models.go: validateTorrent, and validTorrents of the client,
--               on what the JSON decoder gives (Models), where a JSON number is its text; UnmarshalJSON with
--               invalidTorrentStringField and validJSONStringEncoding (Json), whose index into a string is
--               the list of bytes that are left.
--   Torznab/Category, Title, Labels   internal/torznab/category.go and title.go: ParseTitle with
--               parseSeason and parseEpisodes (Labels), the metadata with Matches, bounded numbers,
--               ordinals and Roman numerals (Title).
--   Torznab/Tokens, Marks, Query   internal/torznab/query.go: the tokens and what may stand beside them,
--               the slices remove and technical with the pairs and separators that are removed, and
--               NormalizeQuery. Texts are lists of runes, so that a position counts runes, where the
--               source counts bytes; what is marked is always whole runes. A text is printed again at the
--               end, or cut at the byte offset of a rune.
--   Torznab/Feed, Document   internal/torznab/xml.go: FilterValidItems, prepareItem and the loop of
--               RenderRSSContext (Feed); the documents of RenderCaps, RenderError and RenderRSSContext as
--               trees of elements, with marshalDocument and marshalDocumentContext (Document). What
--               encoding/xml writes for a tree is a parameter.
--   Service/Construct   New of internal/service/service.go with its three caches.
--   Service/Paging, Processing, Loading, Execution   internal/service/service.go: distinctReleaseIDs and
--               pageItems; process with its rejections; cachedSearch, cachedTorrents and loadLatest as one
--               scheme, and loadSearch; Execute. A read of a context is a Boolean argument.
--               Processing/Wanted describes the items of process with tests of its own.
--   HttpApi/Construct, Values, Numbers, Query, Server, Reply   internal/httpapi/httpapi.go: New, the query
--               values, limit and offset, the raw query with its key, the handlers from ServeHTTP to the
--               answer, and what an answer is on the wire (Reply).
--   Config      internal/config/config.go: LoadFrom (Config/Load) over any environment; an error is the
--               name of a variable.
--   BaseUrl     The URL that internal/config and internal/anilibria end with one slash.
--   Process     cmd/server/main.go: main, run and healthcheck. A run gives its events and its outcome; a
--               deferred call is an event behind those of the function, however that ends. Startup puts
--               LoadFrom and the three constructors together.
--   Tests       Runs on concrete inputs.
--
-- Parameters of the model: the digest of a key, the table of unicode.ToLower, what the executor, the
-- renderers and the client of a connection do, in HttpApi; the tables of unicode.IsLetter and
-- unicode.IsDigit in Torznab; url.Parse, url.PathEscape and the format of a date in Torznab/Feed;
-- encoding/xml in Torznab/Document; the JSON decoding, http.ParseTime, time.Parse, url.Parse and
-- math/big in Anilibria; net/url, net.SplitHostPort and time.ParseDuration in Config; net.Listen, and
-- what Serve and Shutdown of net/http do, in Process.
--
-- Not modelled: the id in the headers of an HTTP reply, printing and logging. The three caches are not
-- threaded through Execute, which is given what they return.
pub mod Prelude
pub mod Text
pub mod Cache
pub mod Torznab
pub mod Anilibria
pub mod Service
pub mod HttpApi
pub mod Process
pub mod Tests
pub mod BaseUrl
pub mod Config
