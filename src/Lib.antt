-- ===== src/Lib.antt =====
-- Models of the FinOps loop of this repository, and what is proved of them.
--
-- The program measures workloads of a cluster, recommends smaller requests for them, has the changes
-- approved in Telegram and applies them by a workflow, while a forecast service scales the workloads.
-- Its parts, each with the files that model it:
--
--   finops/app/engine.py   Finops.Quantity reads and writes CPU and memory quantities (parse_cpu,
--     parse_memory, format_cpu, format_memory). Finops.Engine has rules 1 to 7 of
--     PolicyEngine.evaluate_optimization, each a step on the local variables of the method (Draft).
--     Finops.Verdict has the risk, rule 8, the costs and the result.
--   finops/app/main.py     Finops.Service has the analysis of one workload (_run_analysis), the cache
--     _last_recommendations as a function from keys to entries, and the endpoint that reads it.
--     Finops.Namespace has analyze_namespace and analyze_batch, which scan, collect and analyse, and the
--     workloads that _send_combined_report puts on the approval card of alarm/main.py.
--   finops/app/clients.py  Finops.Krr has KrrClient: the values and rows of KRR's output (Values, Rows),
--     the scan of a namespace with its cache and the look-ups (Scans). How a run of KRR ends is an
--     oracle. Finops.Prometheus has PrometheusClient and ChronosClient; a query is a constructor with
--     the workload that is put into its text, and the answers are an arbitrary function of it.
--   alarm/main.py          Alarm.Http has the calls to Telegram, GitHub and the engine. The answer to a
--     call is an arbitrary function of all calls made before, failures included. Alarm.Gateway has
--     the handlers, on a state of the calls made and the approval
--     registry; Alarm.Names writes and reads the names in a button.
--   chronos/chronos_prometheus.py   Chronos.Series has the series that is fetched and merged by
--     instant, Chronos.Engine the validation of the settings and the forecast. The largest median
--     that the model of the chronos library predicts is a parameter.
--   chronos/app.py         Chronos.Runtime has the targets, each with its state and its gauges, a
--     forecast round, expiry and the prediction endpoint.
--   k6/collect_bank_krr_run.py, k6/compare_bank_krr_runs.py   K6.Collect has the collection of a load
--     test's run and the report of it, K6.Compare the comparison of two reports: the checks and the
--     verdict (Verdict) and the table of workloads (Rows).
--   apps/sample-fastapi/queue_service.py   Queue and Queue.Service have the jobs, the keys and every
--     method of QueueService but the ping. The Redis server is an interface (Redis) of the commands
--     with their documented effects, and Redis.Memory is a server that has them. Queue.Steps has the
--     single commands as a step relation, so that clients interleave in any order and send a command
--     again whose reply was lost; the DELETE of a reset and the expiry of a completion mark are steps
--     where its parameter `forgets` is true.
--   apps/sample-fastapi/worker.py  Worker has a round of the worker and its counters, as a client of
--     Queue.Service.
--   apps/sample-fastapi/main.py, config.py, redis_client.py   Api has the API as another client of the
--     queue. A call of Redis works, after whatever else reached the server before it (other clients,
--     or attempts of the call whose reply was lost), or fails and leaves any state behind (Link); the
--     commands of one call run together. An endpoint is a chain of calls that may raise (Action).
--     Api.Endpoints has the endpoints and a request from the reading of its body on, Api.Middleware
--     the HTTP metrics, Api.Config the settings and their validation, over what Python's library knows
--     of digits and host names (PythonText).
--
-- The parts meet where the program's do: the gateway asks the engine's API for the values that it
-- applies, and the API answers from the cache that the analysis fills from the policy engine.
--
-- Numbers. Whole numbers are native, integers are pairs of a constructor and a native number (Base.Int).
-- Python's floats are an interface (Float) of the operations that the program calls, with the laws that
-- are used of them, which hold of IEEE 754 for infinities and NaN too; Float.Literal has the grammar of
-- `float(text)` and Float.Fixed is an arithmetic that has the laws, in which the tests run. Instants are
-- whole microseconds. Texts of the engine and the gateway are lists of code points. JSON is a data type (Base.Json)
-- with numbers read as floats.
--
-- Fuel. Float.Decimal.show has n + 1 steps for n, one for each digit at least. Alarm.Names.without
-- has the text's length, of which each step takes at least one character, and split_colons has as
-- many steps as the program reads parts. All else is by
-- structural recursion.
--
-- Not modelled: messages made for readers, beyond the values that are put into them; logging; the
-- threads that repeat a round; the mock mode of the clients; the tables that k6 writes for
-- readers; the copies of Bank of Anthos in app-test and scratch; the infrastructure.
pub mod Base
pub mod Redis
pub mod Queue
pub mod Worker
pub mod Api
pub mod Float
pub mod Finops
pub mod Alarm
pub mod Chronos
pub mod K6
