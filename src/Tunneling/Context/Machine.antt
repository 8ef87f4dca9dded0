-- ===== src/Tunneling/Context/Machine.antt =====
-- The threads that drive a tunnel: those of its users, and those of the event loop with the tasks
-- and the callbacks of the SDK, one critical section at a time. ConnectToSecureTunnel is called
-- once, as the feature calls it.
use aws_iot_device_client.Base.{
  ℕ, ◌+◌, ◌-◌, Bool, true, false, ◌&&◌, List, [], ◌∷◌, Text, if◌then◌else◌, ltb,
}
use aws_iot_device_client.Tunneling.Context.{
  Context, new_context, begin_connect, end_connect, stop_secure_tunnel, schedule_stop, queue_stop,
  on_stopped, release_after_stopped,
}

-- How far ConnectToSecureTunnel has come.
pub data Phase : Type 0 where
  before connecting over : Phase

pub record Machine : Type 0 where
  pub context : Context
  pub phase : Phase
  pub stoppers : ℕ  -- threads about to call StopSecureTunnel after Connect
  pub schedulers : ℕ  -- threads about to call ScheduleStop
  pub scheduling : ℕ  -- threads in ScheduleLifecycleTask
  pub tasks : ℕ  -- scheduled tasks that call QueueStop
  pub closing : ℕ  -- threads in Close
  pub closed : Bool  -- whether a Close has succeeded
  pub lost : Bool  -- whether a task could not be scheduled, or was canceled
  pub told : ℕ  -- calls of mOnStopped
  pub releases : ℕ  -- scheduled tasks that call ReleaseAfterStopped

pub data Event : Type 0 where
  connect_begun : Bool → Event
  connect_ended : Bool → Event
  stop_called : Event
  stopped_after_connect : Event
  stop_scheduled : Event
  task_scheduled : Bool → Event
  task_run : Bool → Event
  close_returned : Bool → Event
  stopped_reported : Bool → Event
  released : Event

abbrev pub count : Bool → ℕ
count true = 1
count false = 0

unfoldable pub begin_step : Phase → Bool → Machine → Machine
begin_step before valid m =
    let (c, goes_on) = begin_connect valid m.context in
    record m { context = c; phase = if goes_on then connecting else over }
begin_step _ valid m = m

unfoldable pub end_step : Phase → Bool → Machine → Machine
end_step connecting success m =
    let (c, stops) = end_connect success m.context in
    record m { context = c; phase = over; stoppers = m.stoppers + count stops }
end_step _ success m = m

unfoldable pub stop_step : Machine → Machine
stop_step m =
    let (c, goes_on) = stop_secure_tunnel m.context in
    record m { context = c; schedulers = m.schedulers + count goes_on }

unfoldable pub schedule_step : Machine → Machine
schedule_step m =
    let (c, goes_on) = schedule_stop m.context in
    record m { context = c; scheduling = m.scheduling + count goes_on }

unfoldable pub scheduled_step : Bool → Machine → Machine
scheduled_step true m = record m { tasks = m.tasks + 1 }
scheduled_step false m = record m {
  context = record m.context { stop_task_scheduled = false };
  lost = true;
}

unfoldable pub task_step : Bool → Machine → Machine
task_step true m =
    let (c, goes_on) = queue_stop m.context in
    record m { context = c; closing = m.closing + count goes_on }
task_step false m = record m { lost = true }

unfoldable pub close_step : Bool → Machine → Machine
close_step true m = record m { closed = true }
close_step false m = record m {
  context = record m.context { stop_queued = false };
  schedulers = m.schedulers + 1;
}

unfoldable pub report_step : Bool → Machine → Machine
report_step scheduled m =
    let (c, goes_on) = on_stopped m.context in
    record m {
      context = c;
      told = m.told + count goes_on;
      releases = m.releases + count (goes_on && scheduled);
    }

-- A step of a thread that is there.
abbrev pub of_thread : ℕ → Machine → Machine → Machine
of_thread n m next = if ltb 0 n then next else m

unfoldable pub step : Event → Machine → Machine
unfolding begin_step end_step stop_step schedule_step scheduled_step task_step close_step
    report_step
step (connect_begun valid) m = begin_step m.phase valid m
step (connect_ended success) m = end_step m.phase success m
step stop_called m = stop_step m
step stopped_after_connect m =
    of_thread m.stoppers m (stop_step (record m { stoppers = m.stoppers - 1 }))
step stop_scheduled m =
    of_thread m.schedulers m (schedule_step (record m { schedulers = m.schedulers - 1 }))
step (task_scheduled ok) m =
    of_thread m.scheduling m (scheduled_step ok (record m { scheduling = m.scheduling - 1 }))
step (task_run ran) m = of_thread m.tasks m (task_step ran (record m { tasks = m.tasks - 1 }))
step (close_returned ok) m =
    of_thread m.closing m (close_step ok (record m { closing = m.closing - 1 }))
step (stopped_reported scheduled) m = report_step scheduled m
step released m =
    of_thread m.releases m
      (record m { context = release_after_stopped m.context; releases = m.releases - 1 })

unfoldable pub run : List Event → Machine → Machine
run [] m = m
run (e ∷ es) m = run es (step e m)

unfoldable pub start : Text → Text → ℕ → Machine
start access_token endpoint port = record {
  context = new_context access_token endpoint port;
  phase = before;
  stoppers = 0;
  schedulers = 0;
  scheduling = 0;
  tasks = 0;
  closing = 0;
  closed = false;
  lost = false;
  told = 0;
  releases = 0;
}
