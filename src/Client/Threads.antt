-- ===== src/Client/Threads.antt =====
-- src/pool/pool_client.go: the threads of a client, and where its registrations stand.
use business2api.Base.{
  ℕ, zero, suc, ◌+◌, ◌≤◌, ◌≡◌, refl, ap, ◌∙◌, List, [], ◌∷◌, ◌++◌, Option, none, some, arith,
  length, length-append, get_elem?, take, drop, Bool-cases, Option-cases, inl, inr, ℤ, ltb, true,
  false, null, if◌then◌else◌,
}
use business2api.Text.{Text}
use business2api.Server.{Payload}
use business2api.Pool.External.Defs.{AccountUploadRequest}
use business2api.Client.Uploads.{UploadReply, upload_account}
use business2api.Client.{
  PoolClient, ClientTask, registering, refreshing, ClientReport, register_report, refresh_report,
  client_ready, Work, thread_count, new_pool_client, tasks_of, registrations, handle_message,
  do_periodic_register, acquire, finish_at, reports_of, report_of_upload, report_of_run,
  acquire_from, handle_register_task, RegisterRun, panicked, registered, not_registered,
  handle_refresh_task, send_all, send_message, send_capacity, connect, write_pump, error_of,
  heartbeat_ack, heartbeat, message,
}

-- How many of the tasks are registrations, and how many of the reports are on one.
abbrev pub weight : ClientTask → ℕ
weight registering = 1
weight (refreshing task) = 0

abbrev pub register_count : List ClientTask → ℕ
register_count [] = 0
register_count (task ∷ tasks) = weight task + register_count tasks

abbrev pub report_count : List ClientReport → ℕ
report_count [] = 0
report_count (register_report success email error ∷ reports) = suc (report_count reports)
report_count (refresh_report email success cookies error ∷ reports) = report_count reports
report_count (client_ready threads ∷ reports) = report_count reports
report_count (heartbeat_ack ∷ reports) = report_count reports

-- The reports of the task at the place `i`.
abbrev pub reports_at : ℕ → Work → PoolClient → ℕ
reports_at i work pc = elim (get_elem? pc.running i) [
  | none ↦ 0
  | some task ↦ report_count (reports_of work task)
]

-- Those of them that the client drops because the channel is full.
abbrev pub lost_at : ℕ → Work → PoolClient → ℕ
lost_at i work pc = if ltb (length pc.send) send_capacity then 0 else reports_at i work pc

abbrev pub written_of : Option ClientReport → ℕ
written_of none = 0
written_of (some report) = report_count (report ∷ [])

-- A step of the client, with the registrations that it takes on, the reports on one that it hands to
-- the connection, and those that it drops because the channel is full.
pub data Step : PoolClient → ℕ → ℕ → ℕ → PoolClient → Type 0 where
  receives :
      (msg : Payload) (pc : PoolClient)
      → Step pc
          (register_count (tasks_of pc.client_threads msg))
          0
          0
          (handle_message (message msg) pc)
  beats : (pc : PoolClient) → Step pc 0 0 0 (handle_message heartbeat pc)
  connects : (pc : PoolClient) → Step pc 0 0 0 (connect pc)
  ticks : (pc : PoolClient) → Step pc (thread_count pc.client_threads) 0 0 (do_periodic_register pc)
  acquires : (pc : PoolClient) → Step pc 0 0 0 (acquire pc)
  finishes :
      (i : ℕ) (work : Work) (pc : PoolClient)
      → Step pc 0 0 (lost_at i work pc) (finish_at i work pc)
  writes : (pc : PoolClient) → Step pc 0 (written_of (write_pump pc).1) 0 (write_pump pc).0

-- A sequence of steps from a new client on, with the registrations taken on, the reports written and
-- the reports dropped.
pub data Reached (threads : ℤ) : ℕ → ℕ → ℕ → PoolClient → Type 0 where
  starts : Reached threads 0 0 0 (new_pool_client threads)
  continues :
      (m n k taken written lost : ℕ) (pc next : PoolClient)
      → Reached threads m n k pc
      → Step pc taken written lost next
      → Reached threads (m + taken) (n + written) (k + lost) next

-- No more tasks run than there are threads, the channel keeps its bound, and every registration taken
-- on is waiting or running, or its report is in the channel, was written or was dropped.
pub record IsAccounted (threads : ℤ) (m n k : ℕ) (pc : PoolClient) : Type 0 where
  pub same : pc.client_threads ≡ threads
  pub bounded : length pc.running ≤ thread_count threads
  pub channel : length pc.send ≤ send_capacity
  pub accounted :
      register_count pc.waiting + register_count pc.running + report_count pc.send + n + k ≡ m

register_count-append :
    (xs ys : List ClientTask) → register_count (xs ++ ys) ≡ register_count xs + register_count ys
register_count-append [] ys = omega arith
register_count-append (x ∷ xs) ys = omega (arith, register_count-append xs ys)

register_count-registrations : (n : ℕ) → register_count (registrations n) ≡ n
register_count-registrations zero = refl
register_count-registrations (suc n) = omega (arith, register_count-registrations n)

report_of_upload-count :
    (email : Text) (error : Option Text) → report_count (report_of_upload email error ∷ []) ≡ 1
unfolding report_of_upload
report_of_upload-count email none = refl
report_of_upload-count email (some error) = refl

report_of_run-count :
    (server : AccountUploadRequest → ℕ → UploadReply) (run : RegisterRun)
    → report_count (report_of_run server run ∷ []) ≡ 1
unfolding report_of_run
report_of_run-count server (panicked error) = refl
report_of_run-count server (not_registered error) = refl
report_of_run-count server (registered result) =
    report_of_upload-count result.email (upload_account server result)

-- A task reports once on a registration, and not at all on a refresh.
reports_of-count :
    (work : Work) (task : ClientTask) → report_count (reports_of work task) ≡ weight task
unfolding reports_of handle_register_task handle_refresh_task
reports_of-count work registering = report_of_run-count work.uploads work.register
reports_of-count work (refreshing task) = ground arith

report_count-append :
    (xs ys : List ClientReport) → report_count (xs ++ ys) ≡ report_count xs + report_count ys
report_count-append [] ys = omega arith
report_count-append (register_report success email error ∷ xs) ys =
    omega (arith, report_count-append xs ys)
report_count-append (refresh_report email success cookies error ∷ xs) ys = report_count-append xs ys
report_count-append (client_ready threads ∷ xs) ys = report_count-append xs ys
report_count-append (heartbeat_ack ∷ xs) ys = report_count-append xs ys

-- The channel keeps its bound, and holds the report if it had room.
send_message-sent :
    (report : ClientReport) (pc : PoolClient)
    → length pc.send ≤ send_capacity
    → let after = send_message report pc in
      (length after.send ≤ send_capacity)
      × (report_count after.send
          ≡ report_count pc.send
            + (if ltb (length pc.send) send_capacity then report_count (report ∷ []) else 0))
unfolding send_message
send_message-sent report pc h =
    ground (arith, length-append pc.send (report ∷ []), report_count-append pc.send (report ∷ []))

-- A task sends its report, or drops it where the channel is full.
send_all-sent :
    (work : Work) (task : ClientTask) (pc : PoolClient)
    → length pc.send ≤ send_capacity
    → let after = send_all (reports_of work task) pc in
      (length after.send ≤ send_capacity)
      × (report_count after.send
          ≡ report_count pc.send
            + (if ltb (length pc.send) send_capacity
                then report_count (reports_of work task)
                else 0))
unfolding reports_of handle_refresh_task
send_all-sent work registering pc h = send_message-sent (handle_register_task work) pc h
send_all-sent work (refreshing task) pc h =
    let result = work.refresh task in
    elim (Bool-cases (null task.email)) [
      | inl empty ↦ rw (empty, handle_refresh_task) (ground (arith, h))
      | inr named ↦ elim (Bool-cases result.success) [
        | inl good ↦
            rw (named, handle_refresh_task)
              (rw (good, handle_refresh_task)
                (send_message-sent (refresh_report task.email true result.secure_cookies []) pc h))
        | inr bad ↦
            rw (named, handle_refresh_task)
              (rw (bad, handle_refresh_task)
                (send_message-sent
                  (refresh_report task.email false [] (error_of work.refresh_error)) pc h))
      ]
    ]

-- The client with a report has the same tasks.
abbrev SameTasks : PoolClient → PoolClient → Type 0
SameTasks after before =
    (after.running ≡ before.running)
    × (after.waiting ≡ before.waiting)
    × (after.client_threads ≡ before.client_threads)

send_message-SameTasks :
    (report : ClientReport) (pc : PoolClient) → SameTasks (send_message report pc) pc
unfolding send_message
send_message-SameTasks report pc = ground arith

send_all-SameTasks :
    (reports : List ClientReport) (pc : PoolClient) → SameTasks (send_all reports pc) pc
send_all-SameTasks [] pc = (refl, refl, refl)
send_all-SameTasks (report ∷ reports) pc =
    let (r, w, t) = send_all-SameTasks reports (send_message report pc) in
    let (r', w', t') = send_message-SameTasks report pc in (r ∙ r', w ∙ w', t ∙ t')

-- The tasks without the one at the place `i`.
removed-count :
    (i : ℕ) (tasks : List ClientTask) (task : ClientTask)
    → get_elem? tasks i ≡ some task
    → (register_count (take i tasks ++ drop (suc i) tasks) + weight task ≡ register_count tasks)
      × (length (take i tasks ++ drop (suc i) tasks) ≤ length tasks)
removed-count i [] task e = cc
removed-count zero (t ∷ tasks) task e = ground arith
removed-count (suc i) (t ∷ tasks) task e =
    let (counts, shorter) = removed-count i tasks task e in (omega arith, omega arith)

acquire_from-IsAccounted :
    (threads : ℤ) (m n k : ℕ) (waiting : List ClientTask) (pc : PoolClient)
    → pc.waiting ≡ waiting
    → IsAccounted threads m n k pc
    → IsAccounted threads m n k (acquire_from waiting pc)
unfolding acquire_from
acquire_from-IsAccounted threads m n k [] pc e h = h
acquire_from-IsAccounted threads m n k (task ∷ rest) pc e h =
    elim (Bool-cases (ltb (length pc.running) (thread_count pc.client_threads))) [
      | inl free ↦
          rw (free, acquire_from)
            (record {
              same = h.same;
              bounded =
                  ground (arith, length-append pc.running (task ∷ []), ap thread_count h.same);
              channel = h.channel;
              accounted = omega (
                arith,
                h.accounted,
                ap register_count e,
                register_count-append pc.running (task ∷ []),
              );
            })
      | inr busy ↦ rw (busy, acquire_from) h
    ]

-- A message that is no report on a registration changes nothing that is counted.
send_message-IsAccounted :
    (threads : ℤ) (m n k : ℕ) (report : ClientReport) (pc : PoolClient)
    → report_count (report ∷ []) ≡ 0
    → IsAccounted threads m n k pc
    → IsAccounted threads (m + 0) (n + 0) (k + 0) (send_message report pc)
send_message-IsAccounted threads m n k report pc other h =
    let (r, w, t) = send_message-SameTasks report pc in
    let (small, counts) = send_message-sent report pc h.channel in
    record {
      same = t ∙ h.same;
      bounded = omega (arith, ap length r, h.bounded);
      channel = small;
      accounted =
          ground (arith, h.accounted, ap register_count r, ap register_count w, counts, other);
    }

finish_at-IsAccounted :
    (threads : ℤ) (m n k i : ℕ) (work : Work) (pc : PoolClient)
    → IsAccounted threads m n k pc
    → IsAccounted threads (m + 0) (n + 0) (k + lost_at i work pc) (finish_at i work pc)
unfolding finish_at
finish_at-IsAccounted threads m n k i work pc h = elim (Option-cases (get_elem? pc.running i)) [
  | inl out ↦
      rw (out, finish_at, lost_at, reports_at)
        (record {
          same = h.same;
          bounded = h.bounded;
          channel = h.channel;
          accounted = ground (arith, h.accounted);
        })
  | inr (task, at) ↦
      let rest : PoolClient = record pc {
        running = take i pc.running ++ drop (suc i) pc.running;
      } in
      let (r, w, t) = send_all-SameTasks (reports_of work task) rest in
      let (counts, shorter) = removed-count i pc.running task at in
      let (small, sent) = send_all-sent work task rest h.channel in
      rw (at, finish_at, lost_at, reports_at)
        (record {
          same = t ∙ h.same;
          bounded = omega (arith, ap length r, shorter, h.bounded);
          channel = small;
          accounted = ground (
            arith,
            h.accounted,
            ap register_count r,
            ap register_count w,
            counts,
            sent,
            reports_of-count work task,
          );
        })
]

report_count-cons :
    (report : ClientReport) (reports : List ClientReport)
    → report_count (report ∷ reports) ≡ report_count (report ∷ []) + report_count reports
report_count-cons report reports = report_count-append (report ∷ []) reports

write_pump-IsAccounted :
    (threads : ℤ) (m n k : ℕ) (pc : PoolClient) (sent : List ClientReport)
    → pc.send ≡ sent
    → IsAccounted threads m n k pc
    → let r = write_pump pc in IsAccounted threads (m + 0) (n + written_of r.1) (k + 0) r.0
unfolding write_pump
write_pump-IsAccounted threads m n k pc [] e h =
    rw (e, write_pump)
      (record {
        same = h.same;
        bounded = h.bounded;
        channel = omega arith;
        accounted = omega (arith, h.accounted, ap report_count e);
      })
write_pump-IsAccounted threads m n k pc (report ∷ reports) e h =
    rw (e, write_pump)
      (record {
        same = h.same;
        bounded = h.bounded;
        channel = omega (arith, h.channel, ap length e);
        accounted = omega (arith, h.accounted, ap report_count e, report_count-cons report reports);
      })

Step-IsAccounted :
    (threads : ℤ) (m n k : ℕ) (pc next : PoolClient) (taken written lost : ℕ)
    → Step pc taken written lost next
    → IsAccounted threads m n k pc
    → IsAccounted threads (m + taken) (n + written) (k + lost) next
unfolding handle_message do_periodic_register acquire connect
Step-IsAccounted threads m n k _ _ _ _ _ (receives msg pc) h = record {
  same = h.same;
  bounded = h.bounded;
  channel = h.channel;
  accounted =
      omega (arith, h.accounted, register_count-append pc.waiting (tasks_of pc.client_threads msg));
}
Step-IsAccounted threads m n k _ _ _ _ _ (beats pc) h =
    send_message-IsAccounted threads m n k heartbeat_ack pc refl h
Step-IsAccounted threads m n k _ _ _ _ _ (connects pc) h =
    send_message-IsAccounted threads m n k (client_ready (thread_count pc.client_threads)) pc refl h
Step-IsAccounted threads m n k _ _ _ _ _ (ticks pc) h = record {
  same = h.same;
  bounded = h.bounded;
  channel = h.channel;
  accounted = omega (
    arith,
    h.accounted,
    register_count-append pc.waiting (registrations (thread_count pc.client_threads)),
    register_count-registrations (thread_count pc.client_threads),
  );
}
Step-IsAccounted threads m n k _ _ _ _ _ (acquires pc) h =
    let kept : IsAccounted threads m n k (acquire pc) =
      acquire_from-IsAccounted threads m n k pc.waiting pc refl h in
    record {
      same = kept.same;
      bounded = kept.bounded;
      channel = kept.channel;
      accounted = omega (arith, kept.accounted);
    }
Step-IsAccounted threads m n k _ _ _ _ _ (finishes i work pc) h =
    finish_at-IsAccounted threads m n k i work pc h
Step-IsAccounted threads m n k _ _ _ _ _ (writes pc) h =
    write_pump-IsAccounted threads m n k pc pc.send refl h

-- Whatever messages come, and in whatever order the tasks start and end and the writer takes the
-- reports, a client never runs more tasks than it has threads, its channel keeps its bound, and the
-- registrations that it took on are as many as those waiting, those running, and the reports on one
-- that are in the channel, were handed to the connection, or were dropped at the end of a task because
-- the channel was full, together.
pub Reached-IsAccounted :
    (threads : ℤ) (m n k : ℕ) (pc : PoolClient)
    → Reached threads m n k pc
    → IsAccounted threads m n k pc
unfolding new_pool_client
Reached-IsAccounted threads _ _ _ _ starts = record {
  same = refl;
  bounded = omega arith;
  channel = omega arith;
  accounted = omega arith;
}
Reached-IsAccounted threads _ _ _ _ (continues m n k taken written lost pc next before step) =
    Step-IsAccounted threads m n k pc next taken written lost step
      (Reached-IsAccounted threads m n k pc before)
