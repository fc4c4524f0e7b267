-- ===== src/Lib.antt =====
-- enterprise-subsidy: the service that lets learners redeem an enterprise's learner credit. A learner's
-- redemption of a course becomes a transaction in a ledger, an enrollment in the LMS and, for
-- executive education, an allocation at GEAG; an unenrollment within the refund window reverses it.
--
-- The parts, and the files of enterprise_subsidy/apps that they model:
-- - Common: shared helpers, lists and tables over the native numbers, signed integers.
-- - Schema: the rows and payloads. Subsidy is subsidy/models.py; transactions, reversals and external
--   references are the tables of openedx_ledger as the program reads and writes them.
-- - Service: the state that all parts share (World: the tables, the caches, the events emitted and the
--   requests sent, the newest first), actions that may raise, and Env, what the program takes from
--   openedx_ledger, from the other services, from edx_rbac, the clock and the caches. A request is
--   put into the log, and its answer may depend on the whole state.
-- - ContentMetadata: content_metadata/api.py, with the caches and the two catalog clients of
--   api_client/enterprise_catalog.py. ContentMetadata/Extract computes on one piece of metadata.
-- - ApiClient: api_client/enterprise.py and api_client/lms_user.py.
-- - Fulfillment: GEAGFulfillmentHandler of fulfillment/api.py.
-- - Subsidy: the methods of Subsidy in subsidy/models.py that read prices, balances and transactions.
-- - Redemption: redeem, _create_redemption, create_transaction, commit_transaction and
--   rollback_transaction of subsidy/models.py, and the events of core/event_bus.py
--   (Redemption/Events). It calls Subsidy, ApiClient and Fulfillment. Redemption/Standing is an abstract
--   view of the ledger, the redemptions that stand, and Redemption/Steps compares redeem with it.
--   Redemption/Keys says what openedx_ledger and the clients document of idempotency keys.
-- - Unenrollment: transaction/utils.py, transaction/api.py and transaction/signals/handlers.py.
-- - Reversals: the commands write_reversals_from_enterprise_unenrollments and
--   replay_reversal_events of transaction/management/commands.
-- - Batches: batch_by_pk of transaction/utils.py, with the loops that read its batches. Its loop has
--   fuel for every row of the table, and each round takes one row of the query at least.
-- - Backpopulate: the commands backpopulate_transaction_email_and_title and
--   backpopulate_transaction_parent_content_key of transaction/management/commands. It calls Batches,
--   Subsidy and ContentMetadata.
-- - Access: subsidy/rules.py, subsidy/constants.py, and the permissions and base_queryset of
--   api/v1/views/transaction.py; Access/Requests reads the requests.
-- - Api: the create endpoints of api/v1/views/transaction.py and api/v2/views/transaction.py, the
--   creation serializer of api/v1/serializers.py, and can_redeem of subsidy/api.py. Api/ContentView is
--   api/v1/views/content_metadata.py with api/v1/decorators.py.
-- - Lifecycle: clean, save and delete of subsidy/models.py, subsidy/signals.py, and
--   get_or_create_learner_credit_subsidy of subsidy/api.py.
-- - Subsidies: the SubsidyViewSet of api/v1/views/subsidy.py with its serializers, api/v1/utils.py and
--   ServerError of api/v1/exceptions.py. It calls Api, Lifecycle and Subsidy; its requests are the steps
--   of Subsidies/Reachable.
-- - Deposits: api/v2/views/deposit.py, api/v2/serializers/deposits.py and api/utils.py. It calls Access
--   and Api.
-- - Listing: the lists of api/v2/views/transaction.py, api/filters.py and api/paginators.py.
-- - Samples and Tests: a small concrete service, and the theorems at its states.
--
-- How the code is represented: a uuid is a number, since it is only compared; a time is a number of
-- seconds; a price in the metadata is an exact fraction of dollars, where `Decimal` is exact for all
-- prices of up to 28 digits; the ratios 0.80 and 1.20 of settings/base.py are 80 and 120 percent. A
-- method is a function of the row it is called on. An exception stops the action, and what was
-- written before it stays written. Saving a row and emitting an event are taken not to raise. An
-- action of openedx_ledger is a parameter: creating a transaction answers with it and the new table,
-- or raises and writes nothing; reversing one takes the receiver of its signal as an argument.
-- `versioned_cache_key` hashes the parts of a key with the version, and the parts are the key here.
-- All loops but that of Batches run over lists that are given, and are structural.
--
-- Not modelled: the list of subsidies, whose rows edx_rbac restricts; users and health checks; logging,
-- URLs, rendering, the admin, forms and migrations, which are glue of the frameworks; and the settings
-- but the two ratios.
pub mod Common
pub mod Schema
pub mod Service
pub mod ContentMetadata
pub mod ApiClient
pub mod Fulfillment
pub mod Subsidy
pub mod Redemption
pub mod Unenrollment
pub mod Reversals
pub mod Access
pub mod Api
pub mod Lifecycle
pub mod Batches
pub mod Backpopulate
pub mod Subsidies
pub mod Deposits
pub mod Listing
pub mod Samples
pub mod Tests
