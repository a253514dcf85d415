-- ===== src/Lib.antt =====
-- The control logic of the chutes API: serverless GPU workloads ("chutes") that independent miners
-- run as instances.
--
-- The parts, and the files that model them:
--   * Autoscaler: `perform_autoscale` of chute_autoscaler.py. Types has what it reads and decides, Decide
--     the body of its loop over the chutes, Plan the loop and the pass, Downsize the removal of
--     instances. It publishes a target count per chute under a redis key.
--   * Admission: `_check_scalable`, `_check_scalable_private` and the check at the activation, of
--     api/instance/router.py. They read that key and decide whether a miner may start one more
--     instance of the chute.
--   * Balancer: `LeastConnManager` of api/instance/util.py. Connections has the redis sets of open
--     connections with their lua scripts, Targets the order in which `get_targets` tries the
--     instances, Session the context manager `get_target`.
--   * ApiKey: Access has the scopes of api/api_key/schemas.py and `has_access`, Token the text of a key,
--     its generation and its recognition in api/api_key/util.py.
--   * Launch: the launches of instances of api/instance/router.py, with load_launch_config_from_jwt of
--     api/instance/util.py and is_suitable of api/node/schemas.py. Launch itself has the tables and what
--     a handler may do with them, Entry the request for a launch config and its loading, Nodes the GPUs,
--     Claim, Verify and Activate the handlers that follow, Course any sequence of them. A handler reads
--     the committed tables and answers with those that it commits (`Run`); the trigger of
--     api/migrations/20250705010101_jobs.sql stands in `save_config`. Entry applies the checks of
--     Admission to the tables, and Activate those of Bounties.
--   * Invocation: a request to a chute. Access has the check of `_invoke` in api/invocation/router.py with
--     the count of free requests, Prefixes the hashes of api/invocation/util.py by which the balancer
--     routes, Calls the loop of `invoke` in api/chute/util.py over the instances that the balancer
--     offers, Charges what a success costs, and Reply the answer that `_invoke` makes of the events.
--   * Deployment: `_deploy_chute` of api/chute/router.py: its checks, its fee, the chute that it writes and
--     the rolling update, whose permits Admission reads.
--   * Bounties: the redis keys of api/bounty/util.py, with their expiry.
--   * Usage: a pass of api/payment/usage_tracker.py over the amounts that are pending in redis, which are
--     integers: the credits of owners, which Invocation.Charges writes, are negative.
--   * Scoring: the penalty and the final shares in get_scoring_data of metasync/shared.py.
--   * Quotas: the quotas of api/user/schemas.py and the keys under which requests are counted; Discounts
--     has the discounts and the price overrides, which share a key of memcache, and
--     Changes the change of the quotas in api/user/router.py (that of the discounts is in Discounts).
--   * Jobs: the tokens of api/instance/util.py by which a miner reports on a job (Jobs itself), and the three
--     reports of api/job/router.py (Jobs.Reports), its creation and its deletion (Jobs.Create).
--   * Payments: api/payment/watcher.py, which credits transfers on the chain to users; Watch has its loop
--     over the blocks, the state that it saves, and its lock.
--   * Gpus: the table of api/gpu.py and the NodeSelector of api/chute/schemas.py.
--   * Base: lists, dictionaries and texts that the parts share.
--
-- Numbers are natural numbers, but for the amounts of Usage and posted quotas; the balances and
-- amounts due that a deployment reads are taken to be zero or more. Ratios are counted in
-- millionths, times in seconds. A subtraction that Python would take below zero is guarded in the
-- source, or is compared so that stopping at zero gives the same answer. Loops are recursion on
-- their lists; the removal loop is recursion on the rounds of its range, and the watcher's loop on
-- the number of blocks. The loop over the prefixes of a prompt has the length of the prompt as its
-- fuel, which is proved to be enough. Prices of invocations are amounts of an interface with the
-- operations on floats; laws are assumed only where sums are compared. Dollars and the amounts of
-- the usage tracker are exact.
--
-- Parameters: random choices (the shuffle of a group of instances, the draw of an instance), the
-- clock, the contents of memcache, the answers of redis within their time limits, uuid5, PyJWT,
-- strftime, the transfers in a block, the encryption of payloads, the GraVal worker with its
-- ciphertexts and proofs, the answers of a miner to an invocation, md5, ilike, the environment
-- checks of watchtower.py, the network on which ports are tested, and the keys that a scan of redis
-- returns. That PyJWT reads a token back is a hypothesis where it is used.
--
-- Not modelled: HTTP routing, SQL queries (their rows are arguments), Prometheus, argon2,
-- Kubernetes, the chain, the call of a miner in `_invoke_one` with its encryption, image building,
-- the command-line tools, the normalized features of the scores, and the hourly rates, audit texts
-- and notifications of a launch.
pub mod Base
pub mod Bounties
pub mod Launch
pub mod Invocation
pub mod Deployment
pub mod Usage
pub mod Quotas
pub mod Scoring
pub mod Autoscaler
pub mod Admission
pub mod Balancer
pub mod ApiKey
pub mod Jobs
pub mod Payments
pub mod Gpus
