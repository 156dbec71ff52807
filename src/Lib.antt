-- ===== src/Lib.antt =====
-- DatasetRT: the Python side of a dataset runtime, dataset_rt/*.py. The library models the parts
-- that decide which process reads or writes what.
--
-- The loader (dataset_rt/integrations) divides an epoch. `rank_budget` gives each rank its
-- samples, `partition_rows` and `worker_rows` its rows, `worker_budgets` divides a rank's samples
-- over its loading workers, `derive_seed` gives each its seed, and `prepare_partitions` composes
-- these to worker plans. `LoaderOptions` validates the settings, and `resolve_worker_counts` fixes
-- the processes and threads by `available_cpu_count`. `make_dataloader` exports the dataset to a
-- directory, plans, and hands a reader adapter to Torch; in its process the adapter finds its plan,
-- selects its rows by `population_selection`, and draws from a native dataset of its own.
-- The writer (dataset_rt/writer.py) gives each source to one process of a pool, orders what
-- the processes report, and stops them. The runtime writes sources and loads what was written.
--
-- Files:
--   Prelude, Python, Bits: shared notation, dynamically typed values and exceptions, and shifts.
--   Partition, Budget, Seed: dataset_rt/integrations/loading.py.
--   Resources: the worker counts of dataset_rt/resources.py and loading.py. Resources.Cgroups parses
--     memberships and mounts, Resources.Limits reads quotas and processor sets, and
--     Resources.Available is `available_cpu_count`.
--   Options: dataset_rt/integrations/loader_options.py.
--   Config: records of dataset_rt/config.py and dataset_rt/reconstruction.py, and
--     Config.Compression its compression policies.
--   Selection, Export: dataset_rt/reconstruction.py, the rows of a worker and the exported files,
--     whose directories are in Export.Artifacts.
--   Dataset: dataset_rt/dataset.py, its records and `slice_metadata` of dataset_rt/metadata.py, over
--     the native dataset as the record `Native`; Dataset.Manifests is `update_manifests`.
--   Plan: `prepare_partitions` of dataset_rt/integrations/loader.py; Plan.Check and Plan.Order are
--     the independent checks of plans and rows in dataset_rt/benchmarks/distributed.py.
--   Reader, Loader: the reader adapter and `make_dataloader` of
--     dataset_rt/integrations/loader.py.
--   Writer: dataset_rt/writer.py. Writer.Names and Writer.Jobs have the preflight, Writer.Pool one
--     poll and one dispatch, Writer.Supervise the rounds, Writer.Results and Writer.Parallel the
--     ordered results and the whole call, its shutdown included, Writer.Told and Writer.Ending how it ends,
--     Writer.Child the process of a worker, and Writer.Stop the shutdown.
--   Runtime: dataset_rt/runtime.py.
--   Examples: concrete requests, and each theorem at one of them.
--
-- Numbers are natural numbers with the 64-bit masks of the source written out; an argument of any
-- Python type is a `Value`. The native dataset, Arrow tables, json text, files, clocks, child
-- processes, random draws, broadcasts, Torch, the texts of the operating system and Unicode tables
-- are parameters: the writer's observations come as a list of rounds, and a run that needs
-- more rounds than it is given is `running`; a child whose mailbox is empty is `waiting`.
-- `fill_order` takes the row count for fuel, which is enough because each step fills at least one
-- row; `source_label` takes more than its number, which is enough because each step removes a digit;
-- `climb` takes one more than the parts of a path below its mount, which is enough because each
-- step removes a part.
--
-- Files fail where the records `Faults`, `Sight` and `Shutdown` say so: a step of an export, a removal
-- of its handler, `mkdtemp`, the row order, `rmtree`, and the removal of a destination. What a
-- directory that `rmtree` keeps still holds is left open.
--
-- Not modelled: errors of the parent's pipe to a child other than a broken message, a mailbox that
-- is full at a dispatch, and errors of printing its progress; the native core (src/*.rs), the fields of `WriterConfig` but those that choose how to
-- write, the conversions of metadata between Arrow and Polars and the deprecated Torch view, logging,
-- and of the benchmarks and scripts all but the checks of plans and rows: they launch processes,
-- measure time and print.
pub mod Prelude
pub mod Python
pub mod Partition
pub mod Budget
pub mod Bits
pub mod Seed
pub mod Config
pub mod Export
pub mod Reader
pub mod Loader
pub mod Runtime
pub mod Dataset
pub mod Options
pub mod Resources
pub mod Selection
pub mod Plan
pub mod Writer
pub mod Examples
