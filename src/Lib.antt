-- ===== src/Lib.antt =====
-- Eve: a Django shop for virtual-reality experiences. Carts are MongoDB documents, products and
-- checkouts live in Saleor (GraphQL), orders, the journal of checkouts, the webhook inbox and the
-- refresh tokens are PostgreSQL tables, and the workers share a cache (Redis) for leases, limits,
-- lockouts and the circuit breaker. The development models the services that carry this logic, in
-- Python under Eve/.
--
-- Core/Cache: the shared cache, an interface. It is not code of the repository, so its operations
--   are parameters, with their documented behaviour as the record `Laws` and the behaviour of an
--   unreachable cache as `IsDown`. Tests/Caches holds an instance of each.
-- Core/Lease: Eve/core/cache_lock.py (`cache_lease`, `wait_for_value`). The context manager is a
--   function of its body, over any state that holds the cache.
-- Core/Throttling: Eve/core/throttling.py (`rate_limit` and the counter of its window).
-- Core/Contact, Core/Health: `contact_view` and `readiness_view` of Eve/core/views.py. Deploy:
--   `verify` of Eve/deploy/verify_deployment.py, which reads its answers, and `validate` of
--   Eve/deploy/check_lock.py.
-- Core/Retention: Eve/core/management/commands/purge_expired_data.py.
-- Accounts/Lockout: Eve/accounts/services/lockout.py. Accounts/Login: `login_view` of
--   Eve/accounts/views.py, inside the limit of the address (`login_view`) and with it
--   (`limited_login_view`). The same holds of the registration and the second mail in
--   Accounts/Verification, and of `TokenView.post` in Api/TokenView.
-- Accounts/Profiles, Accounts/Verification: the rows of Eve/accounts/models.py, and the registration,
--   the links of the mails and the profile page of Eve/accounts/views.py, forms.py and tasks.py. The
--   signature of a link is a parameter.
-- Accounts/Privacy: the commands purge_user.py and export_user.py of Eve/accounts/management/commands.
-- Ecommerce/Cart: Eve/ecommerce/services/cart_service.py. The collection is a list of documents; each
--   `update_one` is a function with its filter and its update. Cart/View reads the collection as a
--   map from users and products to quantities, against which the operations are specified.
-- Ecommerce/SaleorClient: Eve/ecommerce/services/saleor_client.py: the bounded attempts, the
--   parsing of a response, and the circuit breaker in the cache. What Saleor answers is an argument.
-- Api/Tokens: Eve/api/tokens.py and Eve/api/models.py: signed access tokens and rotating refresh
--   tokens. Signing is a parameter (`Signer`, with `SignerLaws`), as are digests and random texts.
--   In the code a rotation reads, tests and saves a row with no lock. `rotate_refresh_token` is a
--   rotation that no other request overlaps; the steps of Rotation also have the late end of a
--   rotation whose row other requests have written since it was read. Spent is about used tokens and
--   about two rotations that overlap, Ended about a revocation.
-- Api/Authentication: Eve/api/authentication.py: from the Authorization header to a user.
-- Api/Errors: Eve/api/errors.py and Eve/api/throttling.py: the envelope of a failed request.
-- Api/TokenView, Api/Checkout, Api/CartViews, Api/Orders, Api/Serializers: the endpoints of
--   Eve/api/v1/views.py over the services (Api/Tokens, Payments/Checkout, Ecommerce/Cart), and the
--   bodies that Eve/api/v1/serializers.py makes of rows.
-- Ecommerce/Storefront, Ecommerce/Quantity: the pages of Eve/ecommerce/views.py.
-- Payments/Models, Payments/Db: Eve/payments/models.py: rows, state machine, unique columns.
-- Payments/SaleorCheckout: Eve/payments/services/saleor_checkout.py: lines and the two mutations.
-- Payments/Rows, Payments/Checkout: Eve/payments/services/checkout.py: `place_order_once`, which
--   takes the lease of the user (Core/Lease), reads and writes the tables (Payments/Db) and sends
--   the mutations (Payments/SaleorCheckout). A ghost list records the mutations that were sent.
-- Payments/Signature: Eve/payments/services/saleor_webhooks.py: the detached signature of a
--   delivery and the rotation of Saleor's keys.
-- Payments/Inbox: `saleor_webhook_view` of Eve/payments/views.py: a delivery becomes one row of the
--   inbox (Payments/Db) and one queued task (Payments/Tasks).
-- Payments/CheckoutView: `checkout_view` of Eve/payments/views.py: session, cart and `place_order_once`.
-- Payments/Reconcile: Eve/payments/management/commands/reconcile_orders.py: repair of orders and journal.
-- Payments/System: any interleaving of checkouts, deliveries, tasks and reconciliations; its
--   children are about the orders over time (Grown, History), the journal and its orders (Backed,
--   Writes, Completed, Served), the inbox over time (Events, Changes) and requests that come again
--   (Replay, Redelivery). The command that prunes old rows (Core/Retention) is not among these
--   steps.
-- Loadtest: Eve/loadtest/evaluate.py, the gate over the evidence of a load test.
-- Core/Middleware: Eve/core/middleware.py: the client's address and the allowlist of the administration.
-- Ecommerce/Catalogue: Eve/ecommerce/services/catalogue.py: reads of the catalogue through its copies.
-- Payments/Tasks: Eve/payments/tasks.py: the Celery tasks that apply webhooks to orders. A task is
--   one database transaction with its rows locked, so it is one step.
-- Prelude: tests on native numbers, lists, tables (`find`, `update_where`, `select`), texts (`strip`,
--   slices) and columns without repetition. Tests: concrete instances.
--
-- Every function is total by structural recursion. The loop of `wait_for_value` runs on fuel in
-- Core/Lease/Waiting, where enough fuel is proved to end it; elsewhere it is a function of the
-- answers of its polls. No other function uses fuel: the loop of attempts runs on the attempts that
-- are left (`MAX_ATTEMPTS` = 3), the others on lists and texts. Times are natural numbers that the
-- caller passes. Amounts of money stay texts, as the code passes them on.
--
-- Not modelled: logging and metrics, waits between attempts, the expiry of cache entries within one
-- operation, the throttles of the REST framework before a view, the death of a process between two
-- statements of a checkout, database errors other than a broken unique column or an order id that
-- is too long for the inbox, templates, the texts that commands print, settings, the
-- administration, the load generator, and Django's own checks of forms and of fields.
pub mod Prelude
pub mod Core
pub mod Deploy
pub mod Loadtest
pub mod Accounts
pub mod Ecommerce
pub mod Api
pub mod Payments
pub mod Tests
