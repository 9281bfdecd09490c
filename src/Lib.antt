-- ===== src/Lib.antt =====
-- copilotd is a single-binary proxy for the Anthropic Messages and OpenAI Responses APIs. A request
-- takes a credential from the identity manager, passes the shim chain, and is answered as a body, an
-- SSE stream that the pump writes, or a WebSocket session. Values that the program fetches
-- (catalogs, prices, header versions) are cached and refreshed in the background. The usage meter
-- stores the native token counts of a Turn, whose reported model is matched against the price list
-- and which is then valued exactly.
--
-- Prelude: Boolean tests on the native numbers, lists, texts as lists of byte values, results and
-- options with their chains, integers and powers, shared by all.
--
-- Cache.Value models internal/cache/value.go. `State` is the mutable part of `Value`, `new` is
-- `New`, `current` is `Current`, `prime` and `attempt` are the methods of these names, cut at their
-- branches into `start`, `after_peek`, `after_fetch`, `install` and `accept`; `run` is `Run` over
-- the list of signals that its select receives. An attempt holds its mutex throughout and is one
-- step. The functions of the recipe are functions of a context that stands for what the edge
-- answers. Options, tickers and logging are not modelled.
--
-- Pricing models internal/usage/pricing. `Pricing.Decimal` prints (decimal.go), `Pricing.Amount` is
-- the exact amount with `Add` and `ForTokens` (amount.go), `Pricing.Contribution` sums priced lines
-- (contribution.go), `Pricing.OpenAi` and `Pricing.Anthropic` are the calculators at one rate
-- vector, `Pricing.Tariff` selects the vector (snapshot.go, modes.go) with the binary search of
-- sort.Search, for which the length of the list is fuel enough, as Pricing.Tariff.Selection shows. A
-- big integer is a natural number, an int64 an integer; the uint64 sum of the Anthropic counts keeps
-- its overflow test. `Pricing.ParseAmount` is ParseAmount and `Pricing.ParseRate` is ParseRate,
-- whose index into the text is the text that is left. The parser of snapshots is not modelled.
--
-- Sse.Pump models `Pump` of internal/sse/pump.go: `round` is one turn of its loop as a function of
-- what the turn meets (the arm of the select, the reads and ticks behind it, each check of the
-- context), `pump` a list of turns, `Flow` whether it goes on. `finish_pre_terminal`,
-- `write_frames`, `render_outcome` and `write_keepalive` are its closures. A downstream write and
-- flush are one step, of which `room` succeed before the first failure; a render that fails is met
-- as a write that fails. Timers are met as ticks.
--
-- Sse.Lines, Sse.Data and Sse.Reader model internal/sse/data.go and reader.go: `lines` cuts bytes
-- behind each line feed, `parse_line` is a round of parseData, `data_of` and `with_data` are Data
-- and WithData, `read` is Read over the lines that ReadBytes returns. A data field is the slices of
-- its line where the source keeps offsets. Sse.Data.RoundTrip and Kept say what a payload put into a
-- frame does; the JSON reading of a frame's type is a parameter.
--
-- Shim.Chain models internal/shim/shim.go: an instance is its private state and the hooks it
-- implements, `new_chain` is `NewChain`, `run_request`, `run_prelude` and `run_buffered` are the
-- folds of the HTTP hooks, `transform` and `finalize` those of the SSE adapter, `stream_adapter` is
-- `StreamAdapter`, `relay_client` and `relay_server` the WebSocket adapters. Shim.Watchdog is the
-- watchdog of monitor.go: what a mutex guards is one step, and the steps of invocations and timer
-- callbacks interleave as `Step` allows; `Invoke` itself, clocks and log text are not modelled.
--
-- Shim.Json is what the shims do with JSON objects, over a codec that stands for encoding/json.
-- Shim.UsageMeter models usage_turn_recorder.go and usage_native_counts.go, its children Anthropic
-- and OpenAi the two meters (usage_anthropic.go, usage_openai.go), and Usage.Projection the declared
-- counts of internal/usage/projection.go. The recursion along a count's path has the path's length
-- for fuel, at least one for each dot. Shim.ItemIds models responses_item_id.go: `rewrite` over the
-- pinned ids, for events (`rewrite_per_item`) and envelopes (`rewrite_envelope`). Shim.ModelOverride
-- models model_override.go: `rewrite`, the scan of members and both hooks, over what the JSON
-- decoder returns on a payload.
--
-- Modelmatch.Matcher models internal/usage/modelmatch/matcher.go: `new` is `New` with its limit and
-- its polls of the context, `resolve` is `Resolve` with every fallback. A map is an association
-- list. `time.Parse` is a parameter.
--
-- Wsforward.Session models internal/wsforward/session.go: `pump` over a script of reads and writes,
-- `terminal_close` and `terminal_reason`, and `run_session` from the end of its wait. The websocket
-- library's errors and close codes are parameters, of which one theorem assumes the numbers of RFC
-- 6455. Admission, dialling and telemetry are not modelled.
--
-- Identity.Manager models internal/identity/manager.go: `current` is `Current`, `mint` a flight of
-- the single key with its exchange, `normalize_copilot_origin` the check of an origin,
-- `startup_mint` is `StartupMint` over its attempts, on a count that falls with each. Flights follow
-- one another; callers that share a flight are not told apart. The functions of Go's libraries are
-- parameters. Backoff times and logging are not modelled, but for the class and level that a failure
-- is logged with.
--
-- Identity.DeviceFlow models internal/identity/deviceflow.go: `login` is `Login` over the answers
-- that it meets, `poll_from` the loop of pollForToken over its polls, with intervals as int64
-- nanoseconds that wrap. The forms and prompts, and how the token file is written, are not modelled.
--
-- Upstream.Headers models internal/upstream/header_policy.go: `authenticated_outbound_headers` with
-- its loops (`permitted`, `overlaid`), `copy_response_headers` with `copied`, `connection_tokens`,
-- and the strip sets. A header map is a list of names with their values, iterated in the list's
-- order, whichever that is; names and spaces are ASCII. Upstream.Caller models caller.go, call.go
-- and read_bounded.go there: `buffered` is Buffered, `execute` is Do, `prepare` is Prepare,
-- `classify` and `classify_by_context` the methods of these names, over what the call meets, with a
-- log of the failures. The request's body and the HTTP client are not modelled.
--
-- Examples holds the theorems at concrete data. The HTTP server, the forwarder, configuration,
-- catalogs, reports, the SQL store and the command are not modelled: they are mostly calls of
-- libraries and of the parts above.
pub mod Prelude
pub mod Cache
pub mod Pricing
pub mod Usage
pub mod Upstream
pub mod Sse
pub mod Shim
pub mod Modelmatch
pub mod Wsforward
pub mod Identity
pub mod Examples
