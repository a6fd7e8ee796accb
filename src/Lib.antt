-- ===== src/Lib.antt =====
-- HaoShortLink, a short-link service in C++: a model of its core and what is proved of it.
--
-- The program. apps/shortlink_server answers HTTP requests: it creates short links, redirects their
-- codes, and lets owners list and change their links. ShortLinkService checks the input and decides
-- a redirect; it works on a ShortLinkRepository, which keeps the links in memory or in MySQL. With
-- Redis, RedisCachedShortLinkRepository stands between the two: lookups go through
-- RedisShortLinkCache, changes go to the source and delete the entry. ShortLinkMetrics counts what
-- happens. A redirect is published to Kafka as an access event; apps/shortlink_event_consumer reads
-- the events, and adds each to the statistics in MySQL or sends it to a dead-letter topic, before it
-- commits the offset. AuthService registers users and knows them again by the token of a session, of
-- which an AuthRepository keeps the digest.
--
-- The files, and the code they are about:
--   ShortLink/Metrics         apps/shortlink_server/src/ShortLinkMetrics.cpp
--   ShortLink/Record          apps/shortlink_server/include/shortlink/ShortLinkRepository.h (types)
--   ShortLink/Repository      the same header's abstract class: operations and contract
--   ShortLink/Base62, Memory  apps/shortlink_server/src/MemoryShortLinkRepository.cpp
--   ShortLink/Cache           apps/shortlink_server/src/RedisShortLinkCache.cpp
--   ShortLink/CachedRepository apps/shortlink_server/src/RedisCachedShortLinkRepository.cpp
--   ShortLink/MySql           apps/shortlink_server/src/MySqlShortLinkRepository.cpp
--   ShortLink/Timestamp       the calendar in apps/shortlink_server/src/ShortLinkService.cpp
--   ShortLink/Service         the rest of that file
--   Access/Event             apps/shortlink_server/src/AccessEvent.cpp
--   Access/Statistics        apps/shortlink_server/src/AccessStatistics.cpp
--   Access/Writer            apps/shortlink_event_consumer/src/MySqlAccessStatisticsWriter.cpp
--   Access/Consumer          handleMessage in apps/shortlink_event_consumer/src/main.cpp
--   Account/Repository       apps/shortlink_server/include/shortlink/AuthRepository.h
--   Account/Memory           apps/shortlink_server/src/MemoryAuthRepository.cpp
--   Account/Service          apps/shortlink_server/src/AuthService.cpp
--   Http/Request              HttpServer/src/http/HttpRequest.cpp
--   Http/Context              HttpServer/src/http/HttpContext.cpp
--   Http/Response             HttpServer/src/http/HttpResponse.cpp, include/utils/JsonUtil.h
--   Api/Origin                apps/shortlink_server/src/SameOriginPolicy.cpp
--   Api/Auth                  apps/shortlink_server/src/AuthHttp.cpp
--   Api/Limiter               apps/shortlink_server/src/RedisFixedWindowRateLimiter.cpp; its part in
--                             front of a creation is in Api/Links/Limited and Window
--   Api/Redirect              apps/shortlink_server/src/RedirectHandler.cpp
--   Api/Json, Reading, Links, Statistics, Routes
--                             apps/shortlink_server/src/ShortLinkHttpApi.cpp
--   Decimal                   std::to_string, std::stoull, std::stoll and std::stoi, which these files call
--   Prelude                   shared names, lists, texts, integers and maps
-- Each parent holds the definitions, with the source's names in snake case; its children hold the
-- proofs, and Tests the concrete inputs.
--
-- State is passed explicitly: a method that changes its object takes the state and returns it, in
-- front of its answer. A mutex makes a method of the memory repository one step. An exception is a
-- value of Outcome. The clock is an argument; where the code reads it twice, there are two.
--
-- Bounds and fuel. Unsigned numbers are in ℕ and wrap where the code lets them (the next id and the
-- counters at 2 ^ 64, the calendar at 2 ^ 32); signed ones are in ℤ. Printing a number has the number
-- as its fuel, since a division by ten makes it smaller; base 62 likewise; the years of a date have
-- the days divided by 365, since a year is not shorter. The parser of requests has the length of the
-- buffer and one as its fuel, since a round that goes on reads a line end or the body. The search of
-- a cookie has the length of the header, since each round reads a semicolon.
--
-- Parameters. The Redis server is a state with two operations and the documented effect of the
-- commands (RedisLaws); a command that failed may have been carried out. The source behind the cache
-- is any repository that keeps the contract IsRepository, which the memory repository does. The JSON
-- library is a pair of functions, parse after dump being the identity on the values that are sent.
-- The MySQL server is the tables of a transaction, and which of its statements throw is an argument;
-- times in its columns are within the range of DATETIME. The search of the receive buffer for a line
-- end is a function of which FindsCrlf says that more bytes behind do not change what it found.
-- The handlers of the HTTP API take the JSON library as a record of functions (JsonValues), of which
-- nothing is assumed, and a reply is a response or an exception with what was written by then.
-- The consumer works on any services: the writer, the dead-letter producer and the Kafka client. It
-- writes down what it does in a trace, the latest action first. The password hasher, the SHA-256
-- digest and the random bytes of a token are arguments of the service of accounts, which works on any
-- repository that keeps the contract IsAuthRepository, as the memory one does.
--
-- The retry loops of the consumer count down the configured attempts.
--
-- Simplified. The lookup of the cached repository is one step, while the code holds no lock between
-- the look into Redis, the lookup in the source and the write of the entry: its theorems are about
-- calls one after the other. The pieces of a connection have one receive time. A method is set once
-- in a request, as an assertion in the code demands. The rest of a link's life in the cache is a
-- number without bound, where the code subtracts 64-bit numbers. A transaction whose ROLLBACK fails
-- counts as rolled back, as the server does once the connection is gone. Codes are compared byte by
-- byte, also in the MySQL column, whose collation ignores spaces at the end; codes hold no spaces.
-- The operations of an account repository do not throw.
--
-- Not modelled: log lines, Prometheus text, random ids, and the rest of the program, which is
-- password hashes, the HTTP server and its router, the other MySQL repositories, the producers,
-- configuration and the consumer's polling loop and lag gauge. How a time before
-- 1970 is printed is an argument of the handlers.
mod Prelude
pub mod Decimal
pub mod Http
pub mod ShortLink
pub mod Access
pub mod Account
pub mod Api
