-- ===== src/Tests/Push.antt =====
-- The theorems on push delivery at concrete inputs.
use turul_a2a.Prelude.{
  ℕ, zero, suc, ◌+◌, ◌^◌, ◌≤◌, ◌<◌, ◌≡◌, ◌≢◌, ◌⊎◌, false, none, some, List, [], ◌∷◌, ok, pos, inr,
  arith,
}
use turul_a2a.Dict.{empty, get, find}
use turul_a2a.Storage.State.{AbandonedReason, new}
use turul_a2a.Storage.Fencing.{serve_records}
use turul_a2a.Storage.Claims.{DeliveryClaim, claim_delivery, fresh_claim, as_claim}
use turul_a2a.Push.Ssrf.{
  IpAddr, Ipv4, v4, is_blocked_ip, pick_destination, allow, block, private_ip,
  dns_resolution_failed,
}
use turul_a2a.Push.Ssrf.Ranges.{IsIpv4}
use turul_a2a.Push.Ssrf.Ranges6.{in_blocked_range, is_blocked_ip-ranges}
use turul_a2a.Push.Ssrf.Choice.{IsFirst, AllBlocked, pick_destination_lem}
use turul_a2a.Push.Lookup.{Cache, invalidate, gone}
use turul_a2a.Push.Lookup.Deletion.{IsEarlier, CacheCall, records, cache_calls, deletion_seen}
use turul_a2a.Push.Worker.{
  DeliveryConfig, Target, Worker, StorageCall, Tries, Round, perform_call, backoff_target,
  backoff_for,
}
use turul_a2a.Push.Delivery.{claim_target, deliver}
use turul_a2a.Push.Delivery.Bounded.{IsDone, deliver-IsDone}
use turul_a2a.Push.Delivery.Backoff.{backoff_for-bounds}
use turul_a2a.Tests.Data.{env, now, k}

-- The metadata service of a cloud, and a public address.
abbrev metadata : Ipv4
metadata = record { a = 169; b = 254; c = 169; d = 254 }

abbrev public : Ipv4
public = record { a = 1; b = 1; c = 1; d = 1 }

metadata-IsIpv4 : IsIpv4 metadata
metadata-IsIpv4 = record { a = omega arith; b = omega arith; c = omega arith; d = omega arith }

is_blocked_ip-ranges_example : is_blocked_ip (v4 metadata) ≡ in_blocked_range (v4 metadata)
is_blocked_ip-ranges_example = is_blocked_ip-ranges (v4 metadata) metadata-IsIpv4

abbrev answer : List IpAddr
answer = v4 metadata ∷ v4 public ∷ []

pick_destination_lem_example :
    ((ip : IpAddr) × (pick_destination answer false ≡ allow ip) × IsFirst answer ip)
    ⊎ ((pick_destination answer false ≡ block private_ip) × (answer ≢ []) × AllBlocked answer)
    ⊎ ((pick_destination answer false ≡ block dns_resolution_failed) × (answer ≡ []))
pick_destination_lem_example = pick_destination_lem answer

abbrev config : DeliveryConfig
config = record {
  max_attempts = 8;
  backoff_base = 2000;
  backoff_cap = 60_000;
  jittered = λ target. 100;
  claim_expiry = 600_000_000_000;
  max_payload_bytes = 1_048_576;
  allow_insecure_urls = false;
  config_cache_ttl = 0;
  failed_delivery_retention = 604_800_000_000_000;
}

abbrev target : Target
target = record {
  tenant = "acme";
  owner = "alice";
  task_id = "task-1";
  event_sequence = 2;
  config_id = "hook";
  url = record { scheme = "https"; host_str = some "hooks.example" };
  auth_scheme = "Bearer";
  auth_credentials = "secret";
  token = none;
}

abbrev worker : Worker
worker = record {
  storage = env;
  config = config;
  outbound_validator = none;
  instance_id = "node-1";
  user_agent = "turul-a2a/0.1.0";
  show = λ _. "2";
}

abbrev call : StorageCall
call = record { others = []; now = now; fault = none }

abbrev tries : Tries
tries = record { first = call; second = call; third = call }

-- The receiver is overloaded at first, and then accepts.
abbrev script : ℕ → Round
script i = record {
  lookup = none;
  answer = ok answer;
  start = call;
  response = elim i [ zero ↦ ok 503 | suc _ ↦ ok 200 ];
  answered_at = now;
  draw = pos 7;
  retry_at = now;
  retry_draw = pos 9;
  note = call;
  given_up_at = now;
  persist = tries;
}

first_claim :
    (c : DeliveryClaim)
    → (claim_target worker target call new).0 ≡ ok c
    → c.delivery_attempt_count < 2 ^ 32
unfolding claim_target perform_call claim_delivery fresh_claim as_claim serve_records get find
first_claim c h = ground arith

deliver-IsDone_example : IsDone worker target (deliver worker target 100 call script new)
deliver-IsDone_example = deliver-IsDone worker target 100 call script new (omega arith) first_claim

backoff_for-bounds_example :
    (backoff_target config 3 ≤ 60_000)
    × (backoff_target config 3 ≤ backoff_target config 4)
    × (backoff_for config 3 (pos 7) ≤ backoff_target config 3 + 100)
    × (backoff_target config 3 ≤ backoff_for config 3 (pos 7) + 100)
unfolding backoff_target
backoff_for-bounds_example = backoff_for-bounds config 3 (pos 7) (omega arith) (omega arith)

abbrev cache : Cache
cache = record { generation = 4; by_task = empty }

abbrev recorded : List CacheCall
recorded = records now k "hook" 5_000_000_000 3 ∷ []

-- The read began one deletion before the drop.
earlier : IsEarlier 4 1 3
earlier = record { back = 1; within = omega arith; fits = omega arith; reaches = omega arith }

deletion_seen_example :
    (gone k "hook" 5_000_000_000 (record {
      now = now;
      cache = cache_calls recorded (invalidate k cache);
      config_read = ok none;
      task_read = ok none;
    })).0
    ≡ some AbandonedReason.config_deleted
deletion_seen_example =
    deletion_seen k cache recorded "hook" now 5_000_000_000 1 (ok none) (omega arith)
      (inr earlier, tt) (omega arith)
