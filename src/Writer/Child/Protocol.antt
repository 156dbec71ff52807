-- ===== src/Writer/Child/Protocol.antt =====
-- What a child sends is what its parent expects, and what it was asked for.
use dataset_rt.Prelude.{
  ℕ, suc, ◌≡◌, ◌≢◌, refl, ap, ap₂, sym, subst, All, Option, none, some, List, [], ◌∷◌, map, ◌++◌,
  Option-cases, inl, inr,
}
use dataset_rt.Writer.{Text, CacheWriteResult}
use dataset_rt.Writer.Pool.{
  WriterState, starting, idle, active, Report, ready, finished, Sight, Verdict, Outcomes, put,
  violation, check_child, take_report, expired,
}
use dataset_rt.Writer.Child.{
  Escape, keyboard_interrupt, system_exit, crash, NativeWrite, Ran, outcome, raised, run_source,
  Delivery, stop, undecodable, stranger, job, interruption, ChildRun, handle, after_source, serve,
  worker, returned,
}

-- The parent's record of its one child: its state, the index of the next job, and the jobs that it
-- has not put into the mailbox.
record Parent : Type 0 where
  state : WriterState
  next_index : ℕ
  queue : List Delivery

-- The parent puts the next job into the mailbox of an idle child, and so expects its outcome. The
-- end of the mailbox and an interrupt of the child are no jobs.
unfoldable offer : ℕ → ℕ → List Delivery → Parent
offer deadline next [] = record { state = idle; next_index = next; queue = [] }
offer deadline next (stop ∷ queue) = record {
  state = idle;
  next_index = next;
  queue = stop ∷ queue;
}
offer deadline next (interruption escape ∷ queue) = record {
  state = idle;
  next_index = next;
  queue = interruption escape ∷ queue;
}
offer deadline next (delivery ∷ queue) = record {
  state = active next deadline [];
  next_index = suc next;
  queue = queue;
}

unfoldable hand : ℕ → ℕ → List Delivery → WriterState → Parent
unfolding offer
hand deadline next queue idle = offer deadline next queue
hand deadline next queue (starting d) = record {
  state = starting d;
  next_index = next;
  queue = queue;
}
hand deadline next queue (active index d destination) = record {
  state = active index d destination;
  next_index = next;
  queue = queue;
}

-- The parent takes the reports one after the other, and gives its child a job only when the child is
-- idle and there is one: the verdicts, and the outcomes it records with the indices of their jobs.
unfoldable pub exchange :
    Sight → ℕ → ℕ → List Delivery → WriterState → List Report → List Verdict × Outcomes
unfolding hand
exchange sight deadline next queue state [] = ([], [])
exchange sight deadline next queue state (message ∷ messages) =
    let turn = take_report sight message state [] [] in
    let given = hand deadline next queue turn.state in
    let rest = exchange sight deadline given.next_index given.queue given.state messages in
    (turn.verdict ∷ rest.0, turn.outcomes ++ rest.1)

abbrev behind : ℕ → Ran → Outcomes → Outcomes
behind next (outcome result) rest = (next, result) ∷ rest
behind next (raised escape) rest = []

-- The outcomes of the jobs up to the first delivery that ends the child, by their indices.
abbrev pub expected : ℕ → List Delivery → Outcomes
expected next [] = []
expected next (job name write ∷ queue) =
    behind next (run_source name write) (expected (suc next) queue)
expected next (delivery ∷ queue) = []

-- No verdict is a violation of the protocol, and these are the outcomes.
abbrev pub Understood : Outcomes → List Verdict × Outcomes → Type 0
Understood outcomes run = All (λ verdict. verdict ≢ violation) run.0 × (run.1 ≡ outcomes)

idle_is_fine : (sight : Sight) → check_child sight idle ≢ violation
unfolding check_child expired
idle_is_fine sight h = elim (Option-cases sight.exit_code) [
  | inl alive ↦ cc (rw (alive, check_child) at h)
  | inr (code, dead) ↦ cc (rw (dead, check_child) at h)
]

handle-Understood :
    (sight : Sight) (deadline next : ℕ) (queue : List Delivery) (state : WriterState)
    (escape : Escape)
    → Understood [] (exchange sight deadline next queue state (handle escape).sent)
unfolding handle take_report exchange
handle-Understood sight deadline next queue state (keyboard_interrupt error) =
    ((λ h. cc h, tt), refl)
handle-Understood sight deadline next queue state (system_exit error given) =
    ((λ h. cc h, tt), refl)
handle-Understood sight deadline next queue state (crash error) = (tt, refl)

finished-fine :
    (sight : Sight) (result : CacheWriteResult) (index deadline : ℕ)
    → let turn = take_report sight (finished result) (active index deadline []) [] [] in
      (turn.verdict ≢ violation) × (turn.outcomes ≡ (index, result) ∷ []) × (turn.state ≡ idle)
unfolding take_report put
finished-fine sight result index deadline = elim (Option-cases sight.removal) [
  | inl whole ↦ simp (whole, take_report) (idle_is_fine sight, refl, refl)
  | inr (error, failing) ↦ simp (failing, take_report) (λ h. cc h, refl, refl)
]

-- What the parent's record is where the child is to take its next delivery.
abbrev Offered : Sight → ℕ → ℕ → List Delivery → List Report → Type 0
Offered sight deadline next queue sent =
    let given = offer deadline next queue in
    Understood (expected next queue)
      (exchange sight deadline given.next_index given.queue given.state sent)

finished-Offered :
    (sight : Sight) (deadline next : ℕ) (result : CacheWriteResult) (queue : List Delivery)
    (sent : List Report)
    → Offered sight deadline (suc next) queue sent
    → Understood ((next, result) ∷ expected (suc next) queue) (
        exchange sight deadline (suc next) queue (active next deadline []) (finished result ∷ sent))
unfolding exchange hand
finished-Offered sight deadline next result queue sent (verdicts, outcomes) =
    let (allowed, recorded, ready_again) = finished-fine sight result next deadline in
    let same : hand deadline (suc next) queue
          (take_report sight (finished result) (active next deadline []) [] []).state
        ≡ offer deadline (suc next) queue =
      ap (hand deadline (suc next) queue) ready_again in
    subst
      (λ (given : Parent).
        let rest = exchange sight deadline given.next_index given.queue given.state sent in
        let turn = take_report sight (finished result) (active next deadline []) [] [] in
        All (λ verdict. verdict ≢ violation) (turn.verdict ∷ rest.0)
        × (turn.outcomes ++ rest.1 ≡ (next, result) ∷ expected (suc next) queue))
      (sym same) ((allowed, verdicts), ap₂ (λ (a b : Outcomes). a ++ b) recorded outcomes)

after_source-Understood :
    (sight : Sight) (deadline next : ℕ) (ran : Ran) (queue : List Delivery) (rest : ChildRun)
    → Offered sight deadline (suc next) queue rest.sent
    → Understood (behind next ran (expected (suc next) queue)) (
        exchange sight deadline
          (suc next)
          queue
          (active next deadline [])
          (after_source ran rest).sent)
unfolding after_source
after_source-Understood sight deadline next (outcome result) queue rest later =
    finished-Offered sight deadline next result queue rest.sent later
after_source-Understood sight deadline next (raised escape) queue rest later =
    handle-Understood sight deadline (suc next) queue (active next deadline []) escape

serve-Understood :
    (sight : Sight) (deadline next : ℕ) (deliveries : List Delivery)
    → Offered sight deadline next deliveries (serve deliveries).sent
unfolding serve take_report exchange offer
serve-Understood sight deadline next [] = (tt, refl)
serve-Understood sight deadline next (stop ∷ deliveries) = (tt, refl)
serve-Understood sight deadline next (undecodable error ∷ deliveries) = ((λ h. cc h, tt), refl)
serve-Understood sight deadline next (stranger ∷ deliveries) = (tt, refl)
serve-Understood sight deadline next (interruption escape ∷ deliveries) =
    handle-Understood sight deadline next (interruption escape ∷ deliveries) idle escape
serve-Understood sight deadline next (job name write ∷ deliveries) =
    after_source-Understood sight deadline next (run_source name write) deliveries
      (serve deliveries) (serve-Understood sight deadline (suc next) deliveries)

-- What a child is expected to have done, if its runtime starts.
abbrev pub expected_of : Option Escape → List Delivery → Outcomes
expected_of none deliveries = expected 0 deliveries
expected_of (some escape) deliveries = []

-- Whatever a child meets, a runtime that does not start, an interrupt, a job that cannot be read, a
-- source that fails or an empty mailbox, the parent that takes its reports in their order, and puts
-- a job into its mailbox only when it is idle and there is one left, never sees a violation of the
-- protocol; and it records the outcome of each job, up to the first that does not end in one, once,
-- in order and under the index of the job.
pub worker-Understood :
    (sight : Sight) (deadline : ℕ) (runtime : Option Escape) (deliveries : List Delivery)
    → Understood
        (expected_of runtime deliveries)
        (exchange sight deadline 0 deliveries (starting deadline) (worker runtime deliveries).sent)
unfolding worker take_report exchange hand
worker-Understood sight deadline none deliveries =
    let (verdicts, outcomes) = serve-Understood sight deadline 0 deliveries in
    ((idle_is_fine sight, verdicts), outcomes)
worker-Understood sight deadline (some escape) deliveries =
    handle-Understood sight deadline 0 deliveries (starting deadline) escape

abbrev pub deliver : Text × NativeWrite → Delivery
deliver (name, write) = job name write

serve_all :
    (sources : List (Text × NativeWrite)) (results : List CacheWriteResult) (rest : List Delivery)
    → map (λ (source : Text × NativeWrite). run_source source.0 source.1) sources
      ≡ map outcome results
    → serve (map deliver sources ++ (stop ∷ rest))
      ≡ record { sent = map finished results; ending = returned }
unfolding serve after_source
serve_all [] [] rest h = refl
serve_all [] (result ∷ results) rest h = cc
serve_all (source ∷ sources) [] rest h = cc
serve_all (source ∷ sources) (result ∷ results) rest h =
    let first : run_source source.0 source.1 ≡ outcome result = cc h in
    let later : map (λ (each : Text × NativeWrite). run_source each.0 each.1) sources
        ≡ map outcome results =
      cc h in
    rw (first, serve, after_source) (rw (serve_all sources results rest later) refl)

-- A child whose sources all end in an outcome reports that it is ready, then one outcome for each
-- source in the order of its mailbox, reads nothing behind the end of the mailbox, and returns.
pub worker_serves :
    (sources : List (Text × NativeWrite)) (results : List CacheWriteResult) (rest : List Delivery)
    → map (λ (source : Text × NativeWrite). run_source source.0 source.1) sources
      ≡ map outcome results
    → worker none (map deliver sources ++ (stop ∷ rest))
      ≡ record { sent = ready ∷ map finished results; ending = returned }
unfolding worker
worker_serves sources results rest h = rw (serve_all sources results rest h) refl
