-- ===== src/Tunneling/TcpForward.antt =====
-- tunneling/TcpForward.cpp: the connection to the local TCP port. The state is the group of fields
-- that `mLifecycleLock` guards. What the event loop and the socket of the AWS CRT answer is given as
-- arguments: `ok` whether the call succeeds, `error` what aws_last_error says afterwards, `on_loop`
-- whether the caller runs on the event loop's thread.
pub mod Machine
pub mod Ending
pub mod Delivery
use aws_iot_device_client.Base.{
  ℕ, ◌+◌, ◌-◌, ◌*◌, Bool, true, false, not, ◌&&◌, ◌||◌, List, [], ◌∷◌, ◌++◌, Option, none, some,
  Text, is_empty, length, ltb, if◌then◌else◌,
}
use aws_iot_device_client.Base.Int.{ℤ, pos, negsuc, is_zero, int_eq}

pub record TcpForward : Type 0 where
  pub socket_initialized : Bool
  pub send_buffer_initialized : Bool
  pub event_loop : Bool  -- whether mEventLoop is set
  pub lifetime_keep_alive : Bool  -- whether mLifetimeKeepAlive is set
  pub connect_started : Bool
  pub connected : Bool
  pub stop_requested : Bool
  pub stopped : Bool
  pub send_buffer : Text

pub data Effect : Type 0 where
  connect_socket : Effect
  write : Text → Effect
  schedule_stop : Bool → ℤ → Effect
  clean_up_socket : Effect
  clean_up_send_buffer : Effect
  data_received : Text → Effect
  terminated : ℤ → Effect

-- AWS_OP_SUCCESS and AWS_OP_ERR.
abbrev pub op_success : ℤ
op_success = pos 0

abbrev pub op_err : ℤ
op_err = negsuc 0

abbrev pub max_send_buffer_size : ℕ
max_send_buffer_size = 63 * 1024

-- The constructor; the arguments say whether the socket and the buffer could be initialized.
unfoldable pub new_forward : Bool → Bool → TcpForward
new_forward socket_ok buffer_ok = record {
  socket_initialized = socket_ok;
  send_buffer_initialized = socket_ok && buffer_ok;
  event_loop = false;
  lifetime_keep_alive = false;
  connect_started = false;
  connected = false;
  stop_requested = false;
  stopped = false;
  send_buffer = [];
}

abbrev pub is_stopping : TcpForward → Bool
is_stopping s = s.stop_requested || s.stopped

abbrev pub when : Bool → Effect → List Effect
when true e = e ∷ []
when false e = []

unfoldable pub connect : Bool → Bool → TcpForward → TcpForward × List Effect × ℤ
connect has_loop ok s =
    let t = record s { event_loop = true; connect_started = true; lifetime_keep_alive = true } in
    if not s.socket_initialized
      || (not s.send_buffer_initialized || (s.connect_started || is_stopping s))
    then (s, [], op_err)
    else if not has_loop
    then (record s { event_loop = false }, [], op_err)
    else if ok
    then (t, connect_socket ∷ [], op_success)
    else (record t { event_loop = false; lifetime_keep_alive = false }, connect_socket ∷ [], op_err)

-- StopOnEventLoop.
unfoldable pub stop_on_event_loop : Bool → ℤ → TcpForward → TcpForward × List Effect
stop_on_event_loop notify_owner error_code s =
    let t = record s {
      socket_initialized = false;
      send_buffer_initialized = false;
      connected = false;
      stopped = true;
      lifetime_keep_alive = false;
      send_buffer = [];
    } in
    if s.stopped then (s, []) else (
      t,
      when s.socket_initialized clean_up_socket
          ++ (when s.send_buffer_initialized clean_up_send_buffer
              ++ when notify_owner (terminated error_code)),
    )

-- RequestStop, of which Stop and StopAfterError are calls.
unfoldable pub request_stop : Bool → Bool → ℤ → TcpForward → TcpForward × List Effect
request_stop on_loop notify_owner error_code s =
    let t = record s { stop_requested = true; lifetime_keep_alive = true } in
    if is_stopping s
    then (s, [])
    else if not s.event_loop || on_loop
    then stop_on_event_loop notify_owner error_code t
    else (t, schedule_stop notify_owner error_code ∷ [])

abbrev pub stop : Bool → TcpForward → TcpForward × List Effect
stop on_loop s = request_stop on_loop false op_success s

abbrev pub stop_after_error : Bool → ℤ → TcpForward → TcpForward × List Effect
stop_after_error on_loop error_code s = request_stop on_loop true error_code s

-- QueueWrite; nothing is written of an empty text.
unfoldable pub queue_write : Text → Bool → List Effect × Bool
queue_write bytes ok =
    if is_empty bytes then ([], true) else if ok then (write bytes ∷ [], true) else ([], false)

abbrev pub after_write :
    Bool → ℤ → TcpForward → TcpForward → List Effect × Bool → TcpForward × List Effect × ℤ
after_write on_loop error s t (effects, true) = (t, effects, op_success)
after_write on_loop error s t (effects, false) =
    let (u, stopping) = stop_after_error on_loop error s in (u, effects ++ stopping, op_err)

-- SendData; `append_ok` is the result of aws_byte_buf_append_dynamic.
unfoldable pub send_data : Bool → Bool → Bool → ℤ → Text → TcpForward → TcpForward × List Effect × ℤ
send_data on_loop append_ok write_ok error bytes s =
    let over =
      ltb max_send_buffer_size (length s.send_buffer)
      || ltb (max_send_buffer_size - length s.send_buffer) (length bytes) in
    if is_stopping s
    then (s, [], op_err)
    else if not s.connected
    then after_write on_loop error s (record s { send_buffer = s.send_buffer ++ bytes })
        ([], not over && append_ok)
    else after_write on_loop error s s (queue_write bytes write_ok)

-- FlushSendBuffer, and the stop that follows its failure in OnConnectionResult.
unfoldable pub flush_send_buffer : Bool → ℤ → TcpForward → TcpForward × List Effect × ℤ
flush_send_buffer write_ok error s =
    if is_stopping s || (not s.connected || is_empty s.send_buffer)
    then (s, [], op_success)
    else after_write true error s (record s { send_buffer = [] })
        (queue_write s.send_buffer write_ok)

-- What one call of ReadSocket does; bytes that are none end the loop.
pub data Read : Type 0 where
  got : Text → Read
  would_block : Read
  failed : ℤ → Read

-- The do-while loop of OnReadable: what has accumulated, and the error that ends the connection.
unfoldable pub read_all : List Read → Text → Option ℤ → Text × Option ℤ
read_all [] everything terminal = (everything, terminal)
read_all (got [] ∷ reads) everything terminal = (everything, terminal)
read_all (got (c ∷ s) ∷ reads) everything terminal = read_all reads (everything ++ (c ∷ s)) terminal
read_all (would_block ∷ reads) everything terminal = (everything, terminal)
read_all (failed error ∷ reads) everything terminal = (everything, some error)

abbrev pub end_reading : Option ℤ → TcpForward → TcpForward × List Effect
end_reading none s = (s, [])
end_reading (some error) s = stop_after_error true error s

-- OnReadable, where its two buffers can be made and grow. `socket_closed` is AWS_IO_SOCKET_CLOSED.
unfoldable pub on_readable : ℤ → ℤ → List Read → TcpForward → TcpForward × List Effect
unfolding read_all
on_readable socket_closed error_code reads s =
    let (everything, terminal) =
      read_all reads [] (if int_eq error_code socket_closed then some error_code else none) in
    let (t, stopping) = end_reading terminal s in
    if not (is_zero error_code) && not (int_eq error_code socket_closed)
    then stop_after_error true error_code s
    else (t, when (not (is_empty everything)) (data_received everything) ++ stopping)

-- sOnWriteCompleted, while the owner lives.
unfoldable pub on_write_completed : Bool → ℤ → TcpForward → TcpForward × List Effect
on_write_completed on_loop error_code s =
    if is_zero error_code then (s, []) else stop_after_error on_loop error_code s
