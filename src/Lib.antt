-- ===== src/Lib.antt =====
-- somegram-backend: a photo network of four NestJS services (apps/gateway, apps/payments,
-- apps/messenger, apps/files) with shared libraries (libs). This library models the payments
-- service, the accounts, sessions and followers of the gateway, and the two shared libraries that their
-- answers go through.
--
-- The payments service sells a subscription by the day, the week or the month. The gateway asks it
-- to create a payment or to switch the automatic renewal; PayPal and Stripe report by webhooks what
-- became of a subscription; two jobs run at midnight. Every method reads and writes the tables
-- of subscriptions and transactions, calls the providers, reads the clock, and emits messages to
-- the gateway.
--
-- The gateway keeps the accounts. A user registers and confirms the account by a token that is
-- sent by e-mail, or signs in with Google or GitHub; a code sent by e-mail gives a new password;
-- each login is a session on a device, whose refresh token the gateway renews until the session is
-- ended. Users follow each other.
--
-- Outcome             libs/application-notification/src: the result of every use case
-- Paginator           libs/paginator/src/paginator.service.ts
-- Calendar            the part of JavaScript's `Date` that the services use, in the time zone UTC
-- Effects             an asynchronous method as an action on a world: it answers or throws
-- Payments/Types, SubscriptionEntity, TransactionEntity
--                     apps/payments/src/features/payments/domain, application/types, common/enum
-- Payments/World      the world of the service: database, providers, outbox, readings of the clock
-- Payments/Repository infrastructure/payments.repository.ts
-- Payments/Adapters   common/adapters/{paypal,stripe}.adapter.ts, common/managers, and the commands
--                     that record a new subscription
-- Payments/Service    application/payments.service.ts with the two jobs
-- Payments/Handlers   application/handlers/{paypal,stripe} and the dispatch of their events
-- Payments/Commands   the commands create-payment, enable- and disable-autorenewal and
--                     update-username-after-change
-- Payments/Database   what the code relies on in the database, and a table in memory that meets it
-- Payments/OneCurrent tables with at most one active or suspended subscription for each user
-- Payments/Creation   what a request to pay may change
-- Payments/Records    what a handler or a command has recorded when it answers success
-- Payments/Jobs       what the midnight jobs gather and send
-- Payments/Live       the handlers where the database answers and PayPal does what it documents
-- Payments/Tests      concrete worlds on which the theorems are applied
-- Gateway/Text        the operations of JavaScript's texts that the gateway uses
-- Gateway/Types, UserEntity
--                     apps/gateway/prisma/schema.prisma and the entities and dtos of
--                     apps/gateway/src/features/{users,auth,security-devices}/domain
-- Gateway/World       the tables, the published events, and what the gateway stands on
-- Gateway/Repositories
--                     the repositories of users, confirmations, codes, sessions and follows
-- Gateway/Auth        apps/gateway/src/features/auth/application: the service and the use cases;
--                     security-devices/application/use-cases; apps/gateway/src/common/guards/jwt
-- Gateway/Following   users/application/use-cases: follow, unfollow, delete a follower
-- Gateway/Commands    the use cases as commands, one after another
-- Gateway/Database    what the gateway relies on in Prisma
-- Gateway/Logic       the rules by which a method is shown to do what it promises
-- Gateway/Accounts    the step of each use case on the tables, what all steps keep, who follows whom,
--                     and the way from the registration to the first login where every call answers
-- Gateway/Tests       an environment with the rows as lists, and cases
--
-- Names are those of the code in the spelling of this library: `handleActiveSubscription` is
-- `handle_active_subscription`. A method with `async` is an action; `try { … } catch { return a }`
-- is `attempt`, `if` in a method is `branch`, and a check for `null` with an early return is
-- a helper by clauses. An object that a static method of an entity changes is a record that it
-- returns, and the caller writes it to the table as the code does.
--
-- Parameters. The database behind Prisma, the APIs of PayPal and Stripe and the clock are the
-- record `Env`; each call may fail, which is a rejected promise, and the providers keep a state of
-- their own. `DbLaws` states what the database does: a query for one row answers a row that
-- meets the condition or none if there is none, an update changes the one row with the id, a new
-- row has a new id. Payments/Database/Table has an instance. The gateway has an `Env` of its own:
-- the calls of Prisma on the rows of a table, transactions, hashes, JSON web tokens, UUIDs and the
-- clock, each of which may answer differently at each call. Its `DbLaws` say what a call that
-- answers has done; a transaction that throws has changed nothing. `Steady` says that no call
-- rejects but those that must. Gateway/Tests/Sample has an instance of all three.
--
-- Representation. In the payments service ids are numbers, since they are only compared; dates are
-- numbers of milliseconds; an amount of money is a number of hundredths; a value that may be `null`
-- or `undefined` is an `Option`. Texts that are constant, log lines and the fields of the providers
-- that the code does not read are left out. An event has the ids that its handler reads. The
-- search for a year in `Calendar` has as fuel the number of days divided by 365, plus one, which is
-- enough because a year has at least 365 days. In the gateway ids, tokens and e-mails are texts, of
-- which a character is a code point. A table is the list of its rows, whose order has no meaning;
-- the rows that go with a user, the follows that keep it from being removed, and the columns that
-- are unique are those of schema.prisma. Notifications keep a user, too: they are not modelled, and
-- a deletion that they stop is one that rejects. The promises of a `Promise.all` are awaited in
-- their order. The body of a webhook is the event that is read off it, or `none` where it cannot be
-- read; of the use case for Stripe the body is there, as the gateway sends it.
--
-- Not modelled. Requests are served one after the other: two methods whose awaits interleave are
-- outside the model. The calls of `cancelManySubscription` are made in order, not eight at a
-- time. A transaction that fails at its commit is outside the model, too. Left out are the queries,
-- the signature guard of PayPal and the test endpoints of the payments service; of the gateway the
-- controllers and the guards but those of JSON web tokens, profiles, the pages of followers, posts,
-- notifications and the query of sessions; and the services messenger and files.
pub mod Prelude
pub mod Effects
pub mod Outcome
pub mod Paginator
pub mod Calendar
pub mod Payments
pub mod Gateway
