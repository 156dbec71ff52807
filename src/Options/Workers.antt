-- ===== src/Options/Workers.antt =====
-- What `resolve_workers` promises to the loader.
use dataset_rt.Prelude.{
  ℕ, ◌<◌, ◌≡◌, refl, ◌==◌, Bool, true, false, not, ◌&&◌, Option, none, some, arith, ap, subst,
  str_eq,
}
use dataset_rt.Python.{
  Value, null, bool, int, str, opaque, Result, ok, err, raise_if, value_error, >>=-elim,
}
use dataset_rt.Resources.{WorkerCounts, LocalWorldSize, resolve_worker_counts}
use dataset_rt.Options.{
  LoaderOptions, Context, ResolvedWorkers, resolve_persistence, resolve_prefetch, resolve_context,
  resolve_workers, is_zero, setting,
}

-- Serial loading has neither lifetime, prefetch nor context; worker processes have the last two.
abbrev pub Consistent : ResolvedWorkers → Type 0
Consistent w =
    (w.counts.processes ≡ 0 → (w.persistent ≡ false) × (w.prefetch ≡ none) × (w.context ≡ none))
    × (0 < w.counts.processes
        → ((n : ℕ) × (w.prefetch ≡ some n)) × ((c : Context) × (w.context ≡ some c)))

ok_of : ResolvedWorkers → Result ResolvedWorkers → ResolvedWorkers
ok_of default (ok w) = w
ok_of default (err error) = default

persistence-serial :
    (value : Value) (persistent : Bool)
    → resolve_persistence value 0 ≡ ok persistent
    → persistent ≡ false
unfolding resolve_persistence
persistence-serial (str s) persistent h =
    >>=-elim (raise_if (not (str_eq s "auto")) (value_error _)) _ h λ _ _ rest. ground (arith, rest)
persistence-serial (bool true) persistent h = cc
persistence-serial (bool false) persistent h = ground arith
persistence-serial (int n) persistent h = cc
persistence-serial null persistent h = cc
persistence-serial opaque persistent h = cc

prefetch-serial :
    (value : Value) (prefetch : Option ℕ) → resolve_prefetch value 0 ≡ ok prefetch → prefetch ≡ none
unfolding resolve_prefetch
prefetch-serial (str s) prefetch h =
    >>=-elim (raise_if (not (str_eq s "auto")) (value_error _)) _ h λ _ _ rest. ground (arith, rest)
prefetch-serial (int n) prefetch h = cc
prefetch-serial (bool b) prefetch h = cc
prefetch-serial null prefetch h = cc
prefetch-serial opaque prefetch h = cc

prefetch-parallel :
    (value : Value) (processes : ℕ) (prefetch : Option ℕ)
    → 0 < processes
    → resolve_prefetch value processes ≡ ok prefetch
    → (n : ℕ) × (prefetch ≡ some n)
unfolding resolve_prefetch
prefetch-parallel (str s) processes none more h =
    >>=-elim (raise_if (not (str_eq s "auto")) (value_error _)) _ h
      λ _ _ rest. absurd (ground (arith, rest, more))
prefetch-parallel (str s) processes (some n) more h = (n, refl)
prefetch-parallel (int n) processes none more h =
    >>=-elim (raise_if (processes == 0) (value_error _)) _ h λ _ _ rest. cc rest
prefetch-parallel (int n) processes (some m) more h = (m, refl)
prefetch-parallel (bool b) processes none more h =
    >>=-elim (raise_if (processes == 0) (value_error _)) _ h λ _ _ rest. cc rest
prefetch-parallel (bool b) processes (some m) more h = (m, refl)
prefetch-parallel null processes prefetch more h = cc
prefetch-parallel opaque processes prefetch more h = cc

resolved-Consistent :
    (o : LoaderOptions) (counts : WorkerCounts) (persistent : Bool) (prefetch : Option ℕ)
    → resolve_persistence o.persistent_workers counts.processes ≡ ok persistent
    → resolve_prefetch o.prefetch counts.processes ≡ ok prefetch
    → Consistent (record {
      counts = counts;
      persistent = persistent;
      prefetch = prefetch;
      context = resolve_context o.context counts.processes;
    })
unfolding resolve_context
resolved-Consistent o counts persistent prefetch p q = (
  λ serial. (
    persistence-serial o.persistent_workers persistent
        (subst (λ (n : ℕ). resolve_persistence o.persistent_workers n ≡ ok persistent) serial p),
    prefetch-serial o.prefetch prefetch
        (subst (λ (n : ℕ). resolve_prefetch o.prefetch n ≡ ok prefetch) serial q),
    rw serial refl,
  ),
  λ more. (
    prefetch-parallel o.prefetch counts.processes prefetch more q,
    (o.context, ground (arith, more)),
  ),
)

-- The resolved workers are consistent: without processes there is no persistence, no prefetch and
-- no context, and with processes there is a prefetch count and a context.
pub resolve_workers-Consistent :
    (o : LoaderOptions) (world_size cpus : ℕ) (environment : LocalWorldSize) (w : ResolvedWorkers)
    → resolve_workers o world_size cpus environment ≡ ok w
    → Consistent w
unfolding resolve_workers ok_of
resolve_workers-Consistent o world_size cpus environment w h =
    >>=-elim
      (resolve_worker_counts (setting o.num_workers) (setting o.native_num_workers) world_size cpus
        environment)
      _ h
      λ counts _ rest.
        >>=-elim (raise_if (counts.processes == 0 && not (is_zero o.timeout)) (value_error _)) _
          rest
          λ _ _ after.
            >>=-elim (resolve_persistence o.persistent_workers counts.processes) _ after
              λ persistent p last.
                >>=-elim (resolve_prefetch o.prefetch counts.processes) _ last λ prefetch q end.
                  let made : ResolvedWorkers = record {
                    counts = counts;
                    persistent = persistent;
                    prefetch = prefetch;
                    context = resolve_context o.context counts.processes;
                  } in
                  let same : made ≡ w = ap (ok_of made) end in
                  subst Consistent same (resolved-Consistent o counts persistent prefetch p q)
