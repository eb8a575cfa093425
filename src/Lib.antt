-- ===== src/Lib.antt =====
-- Verification of business2api, a service that answers chat requests through a pool of accounts.
--
-- The parts and how they interact. The account pool (src/pool/pool.go) keeps accounts in a queue of
-- ready ones and a queue of pending ones. A request takes a ready account (Next); a failed one moves
-- it to the pending queue (MarkNeedsRefresh); refresh workers take pending accounts, renew their
-- tokens (RefreshJWT) and return them. In the external mode, external workers claim the pending
-- accounts as tasks with a lease (ClaimExternalRefreshTasks) and give them back
-- (MarkExternalRefreshFailed).
--
-- Base holds the shared tests and list functions, Text the strings (lists of code points) with the
-- functions of Go's strings package.
--
-- Pool models src/pool/pool.go. Pool.Account: Cookie, AccountData, Account, AccountStatus,
-- checkAndUpdateDailyCount, GetDailyUsage, SetCooldownMultiplier. Pool.State: AccountPool; an
-- account is shared by pointer, so the state has a heap of accounts and the queues are lists of
-- pointers. An operation under the pool's write lock is one step; Next holds
-- only the read lock, and next is a call of it that no other call interrupts. Pool.Cookies: ParseCookieString,
-- BuildCookieString, GetAllCookies. Pool.Next: Next, with Choice, Rotation and Limit for its
-- properties; Calls has the steps of calls that overlap, Alone and Overlaps what they do. Pool.Queues: GetPendingAccount, MarkReady, MarkPending, MarkExternalRefreshPending,
-- MarkNeedsRefresh, MarkUsed, the three scans; Moves counts where accounts stand, Lifecycle composes
-- all operations to runs. Pool.Jwt: RefreshJWT, createJWT, extractCSESIDX, GetJWT, fetchConfigID.
-- Pool.Worker: a turn of refreshWorker, SaveToFile, RemoveAccount. Pool.Load: ValidateAccountData
-- and Load. Pool.Upload: ProcessAccountUpload of src/pool/pool_server.go. Pool.External:
-- ClaimExternalRefreshTasks, ExternalRefreshTasks, MarkExternalRefreshFailed, externalTaskBackoff
-- and the alert state, in Defs, Claim and Fail, the properties in the other modules.
--
-- Logger models src/logger/store.go: Store has RingStore, AppendRaw, Recent and After, the other
-- modules their laws. AdminAuth models src/adminauth: Sessions (session.go) and Store (store.go),
-- with SessionLaws and Passwords for their laws. The HTTP handlers of main.go use both.
--
-- Proxy models the choice of a proxy in src/proxy/proxy.go: Manager has Next, MarkProxyFailed and
-- MarkProxySuccess, Instances has GetFromPool, ReturnToPool and ReleaseByURL, Shadowsocks has
-- parseSS; Selection and Rotation hold the laws of Next.
--
-- Server models src/pool/pool_server.go: Server itself has the clients and the pool server's state,
-- Assign has assignTask, Dispatch its round robin, Broadcast the broadcast of registrations and the
-- loop of PoolMaintainer, Heartbeat the count of pending registrations, Results what the clients
-- report and Messages their websocket messages. The server moves accounts with the operations of
-- Pool.
--
-- Client models src/pool/pool_client.go: Client has the tasks, the semaphore and the reports,
-- Uploads what is uploaded and how often that is tried, Threads the runs of a client as steps in any
-- order.
--
-- Flow models src/flow. Flow: FlowToken, TokenPool and AddToken. Flow.Tokens: the files and cookies
-- of token_pool.go, with the events on them in Events and their invariant in Sound. Flow.Refresh: the renewal of access tokens
-- in token_pool.go and handler.go. Flow.Select: SelectToken of flow_client.go. Flow.Models:
-- models.go. Flow.Poll and Flow.Generate: pollVideoResult and HandleGeneration of handler.go.
--
-- Api models parts of main.go. Api.Stats: APIStats and IPStats. Api.Auth: the API keys and the
-- guards apiKeyAuth, adminAuth and requireSessionAuth, on the sessions of AdminAuth. Api.Config:
-- mergeConfig, reloadConfig and the environment's overrides. Api.Admin: the account files that the
-- panel lists, filters, pages and deletes. Api.Prompt: parseMessageContent, parseMediaURL and
-- convertMessagesToPrompt. Api.Chat: streamChat up to a good answer of the upstream, over the pool's
-- Next, MarkUsed and MarkNeedsRefresh; Input has what is sent, Replies what comes back, Session has
-- createSession, Answer the reply to the caller, Rounds and Throttled say when the loop ends,
-- Outcomes what its outcome means. The loop has fuel, since a 429 does not count as a retry: k + 4
-- is enough where no 429 comes from the round k on. Pool.Info has the numbers of Stats and
-- ListAccounts.
--
-- Times are numbers of nanoseconds since Go's zero time, which is 0. Counters that Go keeps in
-- 64-bit integers and that only count events are unbounded, where the wrap matters (the index of
-- Next, the task numbers, the backoff) it is written out. Each loop runs over a list or a number of
-- rounds, so the functions are total without fuel, but for streamChat; decimal printing has as much
-- fuel as the number's value, which is at least its number of digits.
--
-- Not modelled: the other HTTP handlers and the streaming of answers (main.go, src/api), the
-- websockets, browser automation (src/register), the parsers of the other links and the health
-- checks of src/proxy, the sing-box process, the log's output and the sleeps of the workers. JSON,
-- base64, HMAC, bcrypt, the HTTP request, the browser, the clock, the time zone, the conversion of
-- pictures and the file system's answers are parameters.
pub mod Base
pub mod Text
pub mod Pool
pub mod Server
pub mod Client
pub mod Logger
pub mod AdminAuth
pub mod Proxy
pub mod Flow
pub mod Api
