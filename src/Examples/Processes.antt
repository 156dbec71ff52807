-- ===== src/Examples/Processes.antt =====
-- Instances of the theorems on the writer's children, their shutdown, processor limits, the order of
-- sequential rows and compression policies.
use dataset_rt.Prelude.{
  ℕ, zero, suc, ◌+◌, ◌-◌, ◌≡◌, refl, arith, ℤ, pos, true, false, Option, none, some, List, [], ◌∷◌,
  ◌++◌, length,
}
use dataset_rt.Python.{ok, traverse}
use dataset_rt.Writer.{Text, Raised, CacheWriteResult, success, failure, absent}
use dataset_rt.Writer.Pool.{WriterState, active, starting, Sight, ready, finished}
use dataset_rt.Writer.Child.{
  Escape, keyboard_interrupt, NativeWrite, records, Delivery, worker, job, interruption, stop,
  outcome, ChildRun, returned,
}
use dataset_rt.Writer.Child.Protocol.{
  Understood, exchange, expected_of, worker-Understood, deliver, worker_serves,
}
use dataset_rt.Writer.Stop.{Shutdown}
use dataset_rt.Resources.Cgroups.{Reading, split}
use dataset_rt.Resources.Limits.{Files, range_of, cpuset_limit, climb}
use dataset_rt.Resources.Limits.Ranges.{cpus_of, Ascending, cpuset_limit-Ascending}
use dataset_rt.Resources.Limits.Levels.{levels, climb_ends}
use dataset_rt.Resources.Available.{Machine}
use dataset_rt.Plan.{WorkerPlan}
use dataset_rt.Plan.Order.{check_order}
use dataset_rt.Plan.Order.Sequential.{reading, Counts, deliveries_of, row_of, check_order-reading}
use dataset_rt.Config.Compression.{record_policy, lz4_hc, validate_policy, dump_policy}
use dataset_rt.Config.Compression.Policies.{validate-dump_policy}

abbrev sight : Sight
sight = record { message = none; exit_code = none; clock = 5; removal = none }

abbrev interrupt : Escape
interrupt = keyboard_interrupt (record { type_name = 75 ∷ []; rendered = none })

abbrev written : NativeWrite
written = records (("success", (97 ∷ []), (98 ∷ [])) ∷ [])

abbrev deliveries : List Delivery
deliveries = job (97 ∷ []) written ∷ job (98 ∷ []) written ∷ interruption interrupt ∷ []

worker-Understood_example :
    Understood
      (expected_of none deliveries)
      (exchange sight 60 0 deliveries (starting 60) (worker none deliveries).sent)
worker-Understood_example = worker-Understood sight 60 none deliveries

worker_serves_example :
    worker none (deliver ((97 ∷ []), written) ∷ stop ∷ [])
    ≡ record { sent = ready ∷ finished (success (97 ∷ []) (98 ∷ [])) ∷ []; ending = returned }
unfolding dataset_rt.Writer.Child.run_source
worker_serves_example =
    worker_serves (((97 ∷ []), written) ∷ []) (success (97 ∷ []) (98 ∷ []) ∷ []) [] refl

-- A child that is killed, one that outlives it, and one whose destination cannot be removed.
abbrev killed_at_last : Shutdown
killed_at_last = record {
  alive_at_entry = true;
  alive_behind_mailbox = true;
  alive_behind_terminate = true;
  alive_behind_kill = false;
  mailbox_full = false;
  is_dir = true;
  is_symlink = false;
  removal = none;
}

abbrev undying : Shutdown
undying = record {
  alive_at_entry = true;
  alive_behind_mailbox = true;
  alive_behind_terminate = true;
  alive_behind_kill = true;
  mailbox_full = false;
  is_dir = true;
  is_symlink = false;
  removal = none;
}

abbrev unremovable : Shutdown
unremovable = record killed_at_last { removal = some (record { type_name = []; rendered = none }) }

abbrev children : List (Shutdown × WriterState)
children =
    (killed_at_last, active 0 9 (97 ∷ []))
    ∷ (undying, active 1 9 (98 ∷ []))
    ∷ (unremovable, active 2 9 (99 ∷ []))
    ∷ []

-- Every number is one digit.
digit : Text → Option ℤ
digit (c ∷ []) = some (pos (c - 48))
digit text = none

abbrev python : Reading
python = record { int = digit; lines = λ text. []; words = λ count text. []; parts = λ text. none }

-- The text 0-2,5
cpuset_limit-Ascending_example :
    (ranges : List (ℤ × ℤ)) × (traverse (range_of python) (split 44 (48 ∷ 45 ∷ 50 ∷ 44 ∷ 53 ∷ []))
      ≡ ok ranges)
    × (length (cpus_of ranges) ≡ 4)
    × Ascending 0 (cpus_of ranges)
unfolding cpuset_limit digit
cpuset_limit-Ascending_example = cpuset_limit-Ascending python 48 4 (45 ∷ 50 ∷ 44 ∷ 53 ∷ []) refl

abbrev base : List Text
base = (97 ∷ []) ∷ []

abbrev path : List Text
path = (98 ∷ []) ∷ (99 ∷ []) ∷ []

climb_ends_example : climb 3 base (base ++ path) ≡ some (levels 2 base path)
climb_ends_example = climb_ends base path

abbrev files : Files
files = record {
  cpu_max = ok none;
  cpuset_effective = ok none;
  cfs_quota = ok none;
  cfs_period = ok none;
  cpuset_cpus = ok none;
}

abbrev machine : Machine
machine = record {
  cpu_count = some 8;
  affinity = some (ok 4);
  linux = true;
  reading = python;
  files = λ directory. files;
  cgroup_text = ok [];
  mountinfo_text = ok [];
}

abbrev sequential : List WorkerPlan
sequential =
    record {
      rank = 0;
      worker_id = 0;
      offset = 8;
      population_size = 4;
      sample_count = 6;
      seed = 0;
      partition_seed = none;
    }
    ∷ []

three : Counts (3 ∷ []) (λ w. 3)
three zero h = refl
three (suc w) h = absurd (omega (arith, h))

check_order-reading_example :
    (after : List ℕ) × (check_order sequential 10
        (reading (row_of sequential 10) (λ w. 3) (0 ∷ 0 ∷ []))
        (3 ∷ [])
      ≡ ok after)
    × Counts after (λ w. 3 + deliveries_of w (0 ∷ 0 ∷ []))
check_order-reading_example =
    check_order-reading sequential 10 (0 ∷ 0 ∷ []) (3 ∷ []) (λ w. 3) (omega arith) three
      ((omega arith, (_, refl, omega arith)), ((omega arith, (_, refl, omega arith)), tt))

validate-dump_policy_example :
    validate_policy (pos 1000) (λ n. n) (λ text. none) (dump_policy (record_policy (lz4_hc 12)))
    ≡ ok (record_policy (lz4_hc 12))
validate-dump_policy_example =
    validate-dump_policy (pos 1000) (λ n. n) (λ text. none) (record_policy (lz4_hc 12))
      (omega arith, omega arith)
