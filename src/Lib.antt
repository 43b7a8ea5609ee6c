-- ===== src/Lib.antt =====
-- The core of the Miaw AI backend (be-miawai), a Go service in front of a PostgreSQL
-- database, and what makes it correct: accounts, subscriptions, payments, desktop login codes, API
-- keys, usage counters and limits, memories with their extraction jobs, trackers, conversations, the
-- WhatsApp channel with its phone-number linking, signed tokens, access control, and the handlers
-- on top.
--
-- The HTTP handlers (internal/handlers) check the session (internal/auth) and the access of a
-- request, and call the methods of one `Store` (internal/database), each of which runs SQL
-- statements, some of them in a transaction. The development models the methods as programs on a
-- `World`, which holds the tables, and the handlers as programs on the methods.
--
-- The files:
-- - Base.antt and Base/: numbers, texts, Go's `strings` functions, lists.
-- - Models.antt: the records of internal/models/models.go.
-- - Database/World.antt: the tables, the errors, statements, transactions, `newID`.
--   Database/Keeps.antt: an error rolls a transaction back.
-- - Database/Status.antt: `NormalizeSubscriptionStatus`, `subscriptionStatusRank`.
-- - Database/Subscriptions.antt: `UpsertSubscription`, `refreshUserEntitlement`,
--   `StartTrialSubscription`. Its children: what the loop decides (Decision), the rows (Rows), what
--   an upsert does to the users (Effects), the trial (Trial).
-- - Database/Users.antt: password and OAuth accounts, `GetUserByID`.
-- - Database/Payments.antt: the payment transactions and the credit bought by them.
-- - Database/DesktopCodes.antt: the codes that log a desktop in (store.go).
-- - Database/ApiKeys.antt: internal/database/api_key_store.go.
-- - Database/WhatsApp.antt and its children Accounts, Contacts and Links:
--   internal/database/whatsapp_store.go.
-- - Database/Usage.antt: the usage counters of internal/database/payment_store.go.
-- - Handlers/Reply.antt: answers and the calls of the store. Handlers/Access.antt:
--   internal/handlers/access.go. Handlers/Calendar.antt: `AddDate` and `subscriptionPeriodEnd`.
--   Handlers/Billing.antt: checkout, notifications, synchronization and purchases of
--   internal/handlers/server.go, with `VerifySignatureKey` (internal/payment/midtrans.go) and
--   `VerifyPurchaseToken` (internal/payment/googleplay.go). Its children: what a settled payment
--   does (Settle), from checkout to plan (Lifecycle), synchronization and purchases (Sync), who may
--   do what (Guard).
-- - Auth.antt, Auth/Session.antt, Auth/Guest.antt, Auth/State.antt: the signed tokens of
--   internal/auth. Auth/Laws.antt: sessions; Auth/Pairs.antt: guest counts and OAuth states.
-- - Handlers/Accounts.antt: registration, login, the trial and `requireUser` of
--   internal/handlers/server.go; Handlers/Accounts/Laws.antt and Handlers/Accounts/Register.antt:
--   what they promise.
-- - Database/Rows.antt: what queries do to the rows of any table, with its children Count,
--   Apart and Every.
--   Database/Jobs.antt: the extraction jobs of internal/database/memory_store.go; its children: the
--   machine of one job (Machine), the table's rows by its steps (Moves), what is claimed (Claims).
--   Database/Memories.antt: the memories of the same file; the unique index (Keyed), whose memories
--   are read (Own), a memory that is listed (Listed). Database/Runtime.antt and
--   Database/Conversations.antt: internal/database/runtime_store.go, and the conversations of a
--   channel in internal/database/whatsapp_store.go, with the upsert of a thread (Channel) and what
--   happens to it later (Thread).
-- - Handlers/Settings.antt: the runtime settings in internal/handlers/server.go.
--   Handlers/Extraction.antt: the worker that takes memories from chat turns; what processing a job
--   does (Outcomes), and its loop (Drain).
-- - Database/Trackers.antt: tracker entries (internal/database/tracker_store.go).
--   Database/Trackers/Suggestions.antt: suggestions of entries
--   (internal/database/tracker_suggestion_store.go); what their review
--   does (Database/Trackers/Review.antt), what later calls keep (Kept), and that it is done once
--   (Closed).
--   Handlers/Limits.antt: plans, windows of use and `checkUserQuota`, with its children Bounds and
--   Quota. Handlers/Chat.antt: `processChatReply` of internal/handlers/server.go, on the store, and
--   Handlers/Background.antt: what it starts, `extractMemoriesAsync` and `extractTrackersAsync`.
-- - Handlers/WhatsApp.antt: the inbound messages of internal/handlers/whatsapp.go; its children: the
--   requests of users and of the service (Accounts), who is not answered (Gate), for whom the model
--   is asked (Speaker), the service's token (Guard).
-- - Handlers/Content.antt: the requests on conversations, memories and trackers of
--   internal/handlers/server.go; its children: valid entries (Entries), the store's operations on
--   them (Stored), the requests (Valid). Handlers/Oauth.antt: the callback of a provider and the
--   exchanges for a session; its children: a desktop code is exchanged once (Once), what a callback
--   needs (Guard).
-- - Handlers/Prompt.antt: the messages of a prompt, trimmed and estimated
--   (internal/handlers/server.go); Handlers/Prompt/Trim.antt: what is left of them.
--   Handlers/Status.antt: `usageStatus` and `bootstrap` of the same file.
-- - Tests.antt and its children: the theorems at concrete inputs, on the database of Tests/Sample.
--
-- The model:
-- - A method is a computation `World → Result Error A × World`. Each SQL statement, begin and
--   commit takes one entry of `faults`, by which it may fail; a theorem that does not ask for
--   `Calm` holds whatever fails. A transaction that meets an error goes back to the tables at its
--   start. A failed commit is taken as rolled back, and a statement that fails inside a
--   transaction makes its commit fail, as PostgreSQL does.
-- - A text is the list of its code points. `strings.ToLower` is modelled on ASCII and on the two
--   other code points whose lower case is ASCII (U+0130 and U+212A); other capitals stay, which no
--   comparison with one of the program's ASCII words can tell. `strings.TrimSpace` uses all of
--   Unicode's white space.
-- - An instant is a number of nanoseconds. One operation runs at one instant, the world's `now`,
--   for Go's time.Now and for SQL's NOW().
-- - A table is a list of rows, the newest first, which stands for ORDER BY created_at DESC, and, for
--   the subscriptions and the WhatsApp accounts, the last updated first. `newID` takes the next text
--   of the supply `random`.
-- - The UNIQUE constraints that the queries name (ON CONFLICT) or can break are modelled. Foreign
--   keys, raw JSON payloads, and the timestamps that no modelled query reads are not.
-- - The SHA-256 digest of an API key is a parameter, of which nothing is assumed.
-- - A handler takes its request's body as it was decoded, `none` where decoding failed, and answers
--   with a value or with a status code and a message. What the payment service answers, its digest
--   (SHA-512) and the configured keys are parameters, of which nothing is assumed.
-- - `AddDate` in UTC adds the days of the current month, or of the year ahead, which is what Go's
--   normalization of an overflowing day comes to.
-- - HMAC, base64 and JSON are the functions of a codec, a parameter of the tokens. That they read
--   back what they write, and write no dots, are the hypotheses `IsFaithful`, where a theorem needs
--   them; Tests/Codecs has codecs that satisfy them. A token's errors are told apart by their cause.
-- - bcrypt is a parameter: the hash that it makes of a password, if it does, and its test. An empty
--   request body counts as decoded, with blank fields, where the handler allows it.
-- - A Go string is code points; `len` and slices go by bytes in UTF-8, and a slice that cuts a
--   character makes a text that PostgreSQL refuses, so that the statement with it fails. A float
--   confidence is a number of thousandths. JSON that the code stores is a list of keys with the text
--   of their values. Foreign keys are not checked on insertion; the deletion of a conversation
--   cascades as the migrations say. PostgreSQL's text search and the language model are parameters,
--   of which nothing is assumed.
-- - The worker's loop is fuelled by a number of turns: two for each attempt left of each job and one
--   for each job in the queue, and one more, is enough.
-- - An amount of dollars of the limits is a number of millionths, rounded as the code does. What is
--   outside of the store for a chat (the models with their prompts, the text of a status reply, the
--   files of messages and images, the lock of the worker) is the parameter `ChatService`, of which
--   nothing is assumed, and so is the reading of a timestamp. Images are counted. The tokens of a chat are the model's.
-- - The exchange of a provider's code for a profile is a parameter, and so are the messages of a
--   conversation's file, whose deletion with the conversation is left out.
-- - A goroutine that an answer starts runs to its end where it is started, with the faults that come
--   then; the worker that it may start has as many turns as its loop can take.
-- - No other definition needs fuel: every other loop is over a list.
--
-- Not modelled: the requests on chats and research, the redirects to a provider
-- and the model API; the admin and upload stores; the lists that the WhatsApp store
-- gives; the AI and research clients; file storage; configuration; the WhatsApp protocol client.
-- They are other services' clients, plain queries, or wiring.
pub mod Auth
pub mod Base
pub mod Database
pub mod Handlers
pub mod Models
pub mod Tests
