-- ===== src/Lib.antt =====
-- The VPN picker: a scorer that ranks VPN servers and an agent that keeps a tunnel on a good one;
-- and, apart from it, two scripts: one takes redundant names of files out of a storage pool, the
-- other keeps the rules of a download cleaner off private torrents.
--
-- The program. `images/vpn-picker/vpn_picker.py` (the scorer) probes the provider's servers, keeps
-- the good ones in a ranking document, and takes out of it the servers that verdicts reject.
-- `images/airvpn-bluetit/agent.py` (the agent) runs beside the VPN client: it measures the loss of
-- the tunnel window by window, tells a bad server from a bad home line, publishes a verdict on a
-- bad server for the scorer, and switches to another server of the ranking, within a budget that
-- keeps it from switching too often and that outlives a restart.
--
-- `0-truenas/scripts/temp-redundant-name-unlink.py` unlinks the names below a temp directory of the
-- files that the media library holds under another name, in batches, with a new look at the
-- torrents and the files before each batch and at the inode before each unlink.
-- `2-k3s/08.servarr/cleanuparr/files/enforce-private-seeding.py` takes the rules of five tables off
-- private torrents and gives each public rule a private one beside it.
--
-- The files.
--   Base              the shared helpers: Lists, Select (lists under a test), Texts, Sort, Dicts
--                     (association lists), Int (ℤ over the native numbers), Json (values that
--                     json.loads returns, and floats), Codec (the laws of json and datetime, and in
--                     Tokens one codec that obeys them)
--   Agent/Budget      agent.py, class SwitchBudget: `allowed`, `allowed_or_escape`, `arm` (the part
--                     of `record` that is in memory), `record_switch` (with the file), `snapshot`,
--                     `decode_history` and `load` (`_load`), `save` (`_save`), `open_budget`
--                     (`__init__`). Trace has the histories of trips that the theorems are about
--   Agent/State       agent.py, classes Config and Agent: the knobs and fields of the control loop
--   Agent/Window      agent.py, `Agent.watch_once` from a window's measurements to the trip: `judge`
--   Agent/World       what surrounds the agent, and the law of a clock that sleeping advances
--   Agent/Output      agent.py, `parse_ping` (its loss), `parse_router`, `parse_status` and the
--                     refusal test
--   Agent/Bluetit     agent.py, class Bluetit: `status`, `disconnect`, `connect`, `tun_present`,
--                     `tun_ok`
--   Agent/Switch      agent.py, `Agent.probe`, `switch`, `_quick`, `_fall_back`, `verify_tunnel`,
--                     `_earned_cooldown` and `_finish`
--   Agent/Publisher   agent.py, class VerdictPublisher: `submit`, `shutdown` and the three blocks of
--                     `_run` that hold the Condition; Steps has their interleavings, one step
--                     per block, as the Condition makes each block atomic, and one for the call
--                     of the writer, which is outside it
--   Agent/Reader      agent.py, class RankingReader: `start`, `shutdown` and `_run` in its blocks;
--                     Steps has their interleavings
--   Agent/Cache       agent.py, `Agent._adopt_fresh_ranking`, `_write_cache_locked`,
--                     `_discard_cache_locked`, `_load_cache_locked` (`load_cache`), `read_ranking`,
--                     `ranking_age_now`, `cached_ranking` and `candidates`; Usable has the rows
--                     that a payload of the cache or of the reader still has
--   Agent/Loop        agent.py, `Agent.discover_router`, `throughput_since`, `watch_once` and the
--                     loop of `run` (`cycles`), with `Bluetit.tun_generation` and `tun_bytes`;
--                     Watched has one window, Life has many, as histories of Agent/Budget/Trace
--   Agent/Boot        agent.py, `Agent.wait_for_tunnel`, `boot_check` and `run`
--   Ranking/Check     both files, `_ranking_number`, `_validate_ranking_row` and
--                     `_validate_ranking_rows`, which they have in the same words: `read_row` and
--                     `read_rows`, with _IDENTITY and the IPv4 test executable
--   Ranking/Document  vpn_picker.py, `build_document` and `_parse_ranking_payload`; agent.py,
--                     `parse_ranking`
--   Ranking/Walk      agent.py, `in_band` and `candidate_names`
--   Scorer/Rows       vpn_picker.py, a row of the ranking and a verdict
--   Scorer/Ejection   vpn_picker.py, `apply_ejections`
--   Scorer/Probe      vpn_picker.py, `headroom`, `shortlist`, `probe_all` and `rank_survivors`
--   Scorer/Journal    vpn_picker.py, `build_base_state`, `parse_base_state`, `_is_ranked_subset` and
--                     `load_persisted_base`
--   Scorer/Cycle      vpn_picker.py, class State, `load_existing`, `refresh_ejections` and
--                     `run_cycle`; Steps has the scorer's life: cycles, refreshes and restarts
--   Scorer/Intake     vpn_picker.py, `Handler.do_POST` (`do_post`) and `do_GET` (`do_get`)
--   Verdicts/Read     vpn_picker.py, `parse_verdict`
--   Verdicts/Store    vpn_picker.py, `verdict_filename`, `persist_verdict` and
--                     `load_active_verdicts`
--   Verdicts/Publish  agent.py, `Agent.publish_bad_server` and `verdict_path`
--   Delivery          agent.py, `Agent._post_bad_server` and `_write_bad_server`, against the intake and
--                     the directory of the scorer
--   Cleanup           temp-redundant-name-unlink.py: `bad_hashes`, `held_paths`, `classify` and
--                     `main`, with its `while True` as `rounds` and the rest of a round as `work`,
--                     `unlink_batch` and `unlink_names`. Files has the files, `under`, `walk`,
--                     `counterpart` and `unlink_temp_name`; Round tells the ways in which a round
--                     goes; Safe, Kept, Enough and Complete have the run as a whole
--   Seeding           2-k3s/08.servarr/cleanuparr/files/enforce-private-seeding.py, `enforce` and `main`
--                     on the tables of rules, with uuid4 as a parameter
--
-- Numbers. Times are natural numbers of microseconds, and floats that are measured or configured
-- are in millionths, or one of the values nan, inf and neg_inf (Base/Json). The percentage of
-- `parse_ping` is rounded half to even as `round` does, on the exact quotient; the product with the
-- ejection fraction is exact. Python's integers have no bound, so no width is modelled. A
-- comparison `now - a < b` is written `now < a + b`, which agrees where `now` is before `a` too.
-- Texts are lists of code points, and `lower` is lower case in ASCII.
--
-- What is a parameter. The clock, sleeping, the random backoff, the commands goldcrest and ping,
-- the listing of the network devices and the write of the history file are the fields of `World`,
-- over a state of which nothing is known. The one law on them, `IsSteady`, says that sleeping
-- advances the monotonic clock by at least what was asked, and that nothing turns it back.
-- Python's `float(x)` on a decoded JSON value is the parameter `to_float` of Agent/Budget. For the
-- ranking and the verdicts, json.dumps, json.loads, strftime, strptime and the digest of a path are
-- parameters too; a theorem that needs it assumes that json.loads reads back what json.dumps wrote
-- (`IsFaithful`: and that strptime reads back what strftime wrote, to the second). The post of a
-- verdict goes through the parameter `urlopen` of Delivery. What ping
-- measures at a server, what the provider's interface answers, the entries of the directory of
-- verdicts and the success of each write are the `Inputs` of a scoring cycle; a crash between its
-- two writes is a second write that fails, and a restart. What the reader's thread and the file
-- system do beside the control loop is the record `Peers` of Agent/Loop, over the state of `World`.
-- For Cleanup, what else happens to the files, the answers of qBittorrent and the output of find are
-- the record `Surroundings`; nothing happens between the lstat of `counterpart` and the unlink.
--
-- Bounds and fuel. The loop of `Bluetit.connect` runs on `rounds` of fuel: the verify time over
-- the poll interval and two more. Each round but the last sleeps for an interval, so on a steady
-- clock the limit passes before the fuel is out. The loop of `Agent.wait_for_tunnel` runs on
-- `wait_rounds` in the same way, with the five seconds of its sleep. The endless loop of `run` goes
-- through any number of windows. The `rounds` of Cleanup have fuel, of which the number of inodes
-- and one more is enough, since each round tries an inode that was not tried before. All other loops are over lists.
--
-- What is not modelled: the logs and the texts of refusals, the metrics pages, the reading of
-- environment variables, the HTTP servers but for the two handlers' decisions, the requests that
-- go to the provider and to the scorer, and the threads but the publisher's and the ranking
-- reader's. Round-trip times are taken as ping's measurements. An exception inside a window of the
-- control loop, which `run` logs, does not occur in the model. Nor does the overflow of `float` on
-- an integer of a document that is beyond its range. The rest of the repository is
-- manifests and single scripts. Of the unlinking script, the login and what it prints are left out.
pub mod Base
pub mod Cleanup
pub mod Delivery
pub mod Seeding
pub mod Agent
pub mod Scorer
pub mod Ranking
pub mod Verdicts
