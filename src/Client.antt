-- ===== src/Client.antt =====
-- src/pool/pool_client.go, a client of the pool server: the tasks that it takes, the threads that they
-- share, and what it reports. The connection, the choice and the release of a proxy and the sleeps are
-- left out.
pub mod Uploads
pub mod Threads
mod Tests
use business2api.Base.{
  ℕ, zero, suc, ◌+◌, Bool, true, false, not, ◌&&◌, ◌||◌, List, [], ◌∷◌, ◌++◌, Option, none, some,
  ltb, leb, ◌==◌, if◌then◌else◌, null, length, min, get_elem?, take, drop, ℤ, pos, negsuc,
}
use business2api.Text.{Text, codes}
use business2api.Pool.Account.{Cookie}
use business2api.Pool.External.Defs.{AccountUploadRequest}
use business2api.Pool.Worker.{BrowserRefreshResult}
use business2api.Server.{Payload, task_register, task_refresh, status, RefreshTask}
use business2api.Client.Uploads.{
  RegisterResult, UploadReply, upload_account, upload_account_data, refresh_request,
}

-- What the client sends to the server.
pub data ClientReport : Type 0 where
  client_ready : ℕ → ClientReport
  heartbeat_ack : ClientReport
  register_report : Bool → Text → Text → ClientReport
  refresh_report : Text → Bool → List Cookie → Text → ClientReport

pub data ClientTask : Type 0 where
  registering : ClientTask
  refreshing : RefreshTask → ClientTask

-- `waiting` are the tasks that wait for the semaphore and `running` those that hold it.
pub record PoolClient : Type 0 where
  pub client_threads : ℤ
  pub waiting : List ClientTask
  pub running : List ClientTask
  pub send : List ClientReport

abbrev pub send_capacity : ℕ
send_capacity = 256

unfoldable pub thread_count : ℤ → ℕ
thread_count (negsuc n) = 1
thread_count (pos n) = if n == 0 then 1 else n

unfoldable pub new_pool_client : ℤ → PoolClient
new_pool_client threads = record { client_threads = threads; waiting = []; running = []; send = [] }

-- A report is dropped where the channel is full.
unfoldable pub send_message : ClientReport → PoolClient → PoolClient
send_message report pc =
    if ltb (length pc.send) send_capacity then record pc { send = pc.send ++ report ∷ [] } else pc

-- The writer takes the oldest report of the channel and hands it to the connection.
unfoldable pub write_pump : PoolClient → PoolClient × Option ClientReport
write_pump pc = elim pc.send [
  | [] ↦ (pc, none)
  | report ∷ reports ↦ (record pc { send = reports }, some report)
]

-- The greeting of a new connection.
unfoldable pub connect : PoolClient → PoolClient
unfolding send_message thread_count
connect pc = send_message (client_ready (thread_count pc.client_threads)) pc

abbrev pub registrations : ℕ → List ClientTask
registrations zero = []
registrations (suc n) = registering ∷ registrations n

abbrev pub spawn : List ClientTask → PoolClient → PoolClient
spawn tasks pc = record pc { waiting = pc.waiting ++ tasks }

unfoldable pub do_periodic_register : PoolClient → PoolClient
unfolding thread_count
do_periodic_register pc = spawn (registrations (thread_count pc.client_threads)) pc

-- How many registrations a status asks this client for.
unfoldable pub own_share : ℤ → ℤ → ℕ
unfolding thread_count
own_share threads (negsuc n) = 0
own_share threads (pos need) = min need (thread_count threads)

-- The tasks of a message. A register task is one registration, whatever its count.
unfoldable pub tasks_of : ℤ → Payload → List ClientTask
unfolding own_share
tasks_of threads (task_register count) = registering ∷ []
tasks_of threads (task_refresh task) = refreshing task ∷ []
tasks_of threads (status current pending target need) = registrations (own_share threads need)

pub data ServerMessage : Type 0 where
  heartbeat : ServerMessage
  message : Payload → ServerMessage

-- A heartbeat is answered, and the tasks of the other messages are started.
unfoldable pub handle_message : ServerMessage → PoolClient → PoolClient
unfolding tasks_of send_message
handle_message heartbeat pc = send_message heartbeat_ack pc
handle_message (message msg) pc = spawn (tasks_of pc.client_threads msg) pc

-- How a registration in the browser ends.
pub data RegisterRun : Type 0 where
  panicked : Text → RegisterRun
  registered : RegisterResult → RegisterRun
  not_registered : Option Text → RegisterRun

-- What a task meets: the browser's result, the error of a failed refresh, and the server's answers to
-- the tries of an upload.
pub record Work : Type 0 where
  pub register : RegisterRun
  pub refresh : RefreshTask → BrowserRefreshResult
  pub refresh_error : Option Text
  pub uploads : AccountUploadRequest → ℕ → UploadReply

abbrev pub error_of : Option Text → Text
error_of none = codes "未知错误"
error_of (some error) = error

-- The report on a registration whose upload ended with this error or none.
unfoldable pub report_of_upload : Text → Option Text → ClientReport
report_of_upload email none = register_report true email []
report_of_upload email (some error) = register_report false [] error

unfoldable pub report_of_run : (AccountUploadRequest → ℕ → UploadReply) → RegisterRun → ClientReport
unfolding upload_account report_of_upload
report_of_run server (panicked error) = register_report false [] (codes "client panic: " ++ error)
report_of_run server (not_registered error) = register_report false [] (error_of error)
report_of_run server (registered result) =
    report_of_upload result.email (upload_account server result)

unfoldable pub handle_register_task : Work → ClientReport
unfolding report_of_run
handle_register_task work = report_of_run work.uploads work.register

-- A task without an address reports nothing. A failed upload is not reported.
unfoldable pub handle_refresh_task : Work → RefreshTask → List ClientReport
handle_refresh_task work task =
    let result = work.refresh task in
    if null task.email
    then []
    else if result.success
    then refresh_report task.email true result.secure_cookies [] ∷ []
    else refresh_report task.email false [] (error_of work.refresh_error) ∷ []

-- What the server gets to store by a refresh task, if anything.
unfoldable pub refresh_upload : Work → RefreshTask → Option Text
unfolding upload_account_data refresh_request
refresh_upload work task =
    let result = work.refresh task in
    if null task.email || not result.success
    then none
    else upload_account_data work.uploads (refresh_request task result)

unfoldable pub reports_of : Work → ClientTask → List ClientReport
unfolding handle_register_task handle_refresh_task
reports_of work registering = handle_register_task work ∷ []
reports_of work (refreshing task) = handle_refresh_task work task

abbrev pub send_all : List ClientReport → PoolClient → PoolClient
send_all [] pc = pc
send_all (report ∷ reports) pc = send_all reports (send_message report pc)

-- The first of the waiting tasks takes the semaphore, if a thread is free.
unfoldable pub acquire_from : List ClientTask → PoolClient → PoolClient
unfolding thread_count
acquire_from [] pc = pc
acquire_from (task ∷ rest) pc =
    if ltb (length pc.running) (thread_count pc.client_threads)
    then record pc { waiting = rest; running = pc.running ++ task ∷ [] }
    else pc

unfoldable pub acquire : PoolClient → PoolClient
unfolding acquire_from
acquire pc = acquire_from pc.waiting pc

-- The running task at the place `i` ends, reports and gives the semaphore back.
unfoldable pub finish_at : ℕ → Work → PoolClient → PoolClient
unfolding send_message reports_of
finish_at i work pc = elim (get_elem? pc.running i) [
  | none ↦ pc
  | some task ↦
      send_all (reports_of work task)
        (record pc { running = take i pc.running ++ drop (suc i) pc.running })
]
