-- ===== src/Payments/Tasks/Settling.antt =====
-- The periodic `recover_pending_webhooks` settles the inbox (Eve/payments/tasks.py).
use mathlib.Core.Option.{some-injective}
use mathlib.Core.Path.{subst}
use django_app_eve.Prelude.{
  ℕ, ◌≤◌, ◌≡◌, ◌≢◌, sym, ap, ◌∙◌, ◌⊎◌, Bool-cases, ==_iff, find_sound, inl, inr, none, some,
  Option-cases, true, List, [], ◌∷◌, length, count, map, take-all, length-map, length-order_by,
  length-select, All, All-unmap, All-unorder_by, All-unselect, order_by, select, find-All, ◌==◌,
  arith,
}
use django_app_eve.Payments.Models.{EventStatus, WebhookEvent}
use django_app_eve.Payments.Db.{Db}
use django_app_eve.Payments.Tasks.{
  is_pending, process_webhook_event, after, run_tasks, recover_pending_webhooks,
}
use django_app_eve.Payments.Tasks.Outcome.{IsOrphan}
use django_app_eve.Payments.Tasks.Steps.{event_at, Resolved, Step-Resolved, process-Step}

-- The queue, run by a worker at a time for each id.
abbrev pub at_times : (ℕ → ℕ) → List ℕ → List (ℕ × ℕ)
at_times clock [] = []
at_times clock (id ∷ rest) = (clock id, id) ∷ at_times clock rest

run_tasks-Resolved :
    (l : List (ℕ × ℕ)) (j : ℕ) (db : Db) → Resolved j db → Resolved j (run_tasks l db)
unfolding run_tasks
run_tasks-Resolved [] j db r = r
run_tasks-Resolved ((now, id) ∷ rest) j db r =
    run_tasks-Resolved rest j _ (
      Step-Resolved id j db (after (process_webhook_event now id db) db) (process-Step now id db) r)

-- Each event of a queue is resolved once the queue was run.
queue-Resolved :
    (clock : ℕ → ℕ) (l : List ℕ) (db : Db)
    → All (λ id. Resolved id (run_tasks (at_times clock l) db)) l
unfolding run_tasks
queue-Resolved clock [] db = tt
queue-Resolved clock (id ∷ rest) db =
    let next = after (process_webhook_event (clock id) id db) db in
    (
      run_tasks-Resolved (at_times clock rest) id next (process-Step (clock id) id db).own,
      queue-Resolved clock rest next,
    )

-- With a batch that holds all pending events, what holds of the ids of the queue holds of the id of
-- each pending event.
whole_queue :
    (P : ℕ → Type 0) (batch_size : ℕ) (db : Db)
    → count (λ (e : WebhookEvent). is_pending e.status) db.events ≤ batch_size
    → All P (recover_pending_webhooks batch_size db)
    → All (λ (e : WebhookEvent). is_pending e.status ≡ true → P e.pk) db.events
unfolding recover_pending_webhooks
whole_queue P batch_size db enough h =
    let pending = select (λ (e : WebhookEvent). is_pending e.status) db.events in
    let sorted = order_by (λ (e : WebhookEvent). e.received_at) pending in
    let short : length (map (λ (e : WebhookEvent). e.pk) sorted) ≤ batch_size = omega (
      arith,
      length-map (λ (e : WebhookEvent). e.pk) sorted,
      length-order_by (λ (e : WebhookEvent). e.received_at) pending,
      length-select (λ (e : WebhookEvent). is_pending e.status) db.events,
      enough,
    ) in
    All-unselect (λ (e : WebhookEvent). P e.pk) (λ (e : WebhookEvent). is_pending e.status)
      db.events
      (All-unorder_by (λ (e : WebhookEvent). e.received_at) (λ (e : WebhookEvent). P e.pk) pending
        (All-unmap (λ (e : WebhookEvent). e.pk) P sorted
          (subst (All P) (take-all batch_size (map (λ (e : WebhookEvent). e.pk) sorted) short) h)))

-- One pass settles the inbox: when the batch holds all pending events, then after the tasks of the
-- queue of `recover_pending_webhooks` were run, at any times, an event that still is pending asks for
-- a known status of an order that is not in the table. No event is left behind, whatever order the
-- tasks of one order come in.
pub recover_pending_webhooks-settles :
    (clock : ℕ → ℕ) (batch_size id : ℕ) (db : Db) (e : WebhookEvent)
    → count (λ (e : WebhookEvent). is_pending e.status) db.events ≤ batch_size
    → let db' = run_tasks (at_times clock (recover_pending_webhooks batch_size db)) db in
      event_at id db' ≡ some e → e.status ≡ EventStatus.pending → IsOrphan e db'
recover_pending_webhooks-settles clock batch_size id db e enough at waits =
    all_resolved (Option-cases (event_at id db)) e at waits
  where
    queue : List (ℕ × ℕ)
    queue = at_times clock (recover_pending_webhooks batch_size db)

    untouched :
        ((x : WebhookEvent) → event_at id db ≡ some x → x.status ≢ EventStatus.pending)
        → Resolved id (run_tasks queue db)
    untouched h = run_tasks-Resolved queue id db (λ x found q. absurd (h x found q))

    in_queue :
        (x : WebhookEvent)
        → is_pending x.status ≡ true
        → event_at id db ≡ some x
        → Resolved id (run_tasks queue db)
    in_queue x p found =
        subst (λ k. Resolved k (run_tasks queue db))
          ((==_iff x.pk id).0
            (find_sound (λ (r : WebhookEvent). r.pk == id) db.events {a = x} found))
          (find-All
            (λ (r : WebhookEvent). is_pending r.status ≡ true → Resolved r.pk (run_tasks queue db))
            (λ (r : WebhookEvent). r.pk == id) db.events {a = x}
            (whole_queue (λ k. Resolved k (run_tasks queue db)) batch_size db enough
              (queue-Resolved clock (recover_pending_webhooks batch_size db) db))
            found p)

    all_resolved :
        (event_at id db ≡ none) ⊎ ((x : WebhookEvent) × (event_at id db ≡ some x))
        → Resolved id (run_tasks queue db)
    all_resolved (inl none_there) = untouched (λ x found q. cc (sym none_there ∙ found))
    all_resolved (inr (x, found)) = elim (Bool-cases (is_pending x.status)) [
      | inl p ↦ in_queue x p found
      | inr p ↦ untouched (λ y at_y q. cc (
        p,
        ap (λ (r : WebhookEvent). is_pending r.status) (some-injective x y (sym found ∙ at_y)),
        ap is_pending q,
      ))
    ]
