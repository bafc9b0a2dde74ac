-- ===== src/Session/Connection.antt =====
-- The callbacks of the connection in bbone/bbslave/bbslave/session.py, and `heartbeat`.
use pf9_du.Prelude.{true, false, Option, none, some, if◌then◌else◌}
use pf9_du.Json.{Json, str, dict, end, field}
use pf9_du.Result.{key_error}
use pf9_du.Exec.{Exec, pure, raise, gets, modify, ◌>>=◌, ◌>>◌}
use pf9_du.Session.{Host, Agent}
use pf9_du.Session.Support.{process_support_request}
use pf9_du.Session.Messages.{handle_msg}

module _ (h : Host) where
  abbrev pub heartbeat_msg : Json
  heartbeat_msg = dict (field "opcode" (str "heartbeat") end)

  abbrev pub retry_bundle : Option (Json × Json) → Exec Agent (Unit {0})
  retry_bundle none = pure tt
  retry_bundle (some (upload, label)) = process_support_request h upload label true

  unfoldable pub heartbeat_tick : Exec Agent (Unit {0})
  unfolding handle_msg
  heartbeat_tick = do
    handle_msg h heartbeat_msg
    pending ← gets (λ s. s.pending)
    retry_bundle pending

  -- The callbacks of `dual_channel_io_loop`.
  unfoldable pub connection_up_cb : Exec Agent (Unit {0})
  unfolding heartbeat_tick
  connection_up_cb = do modify (λ s. record s { connection = true }); heartbeat_tick

  unfoldable pub connection_down_cb : Exec Agent (Unit {0})
  connection_down_cb = do
    modify (λ s. record s { closed_unexpectedly = true })
    connection ← gets (λ s. s.connection)
    if connection then modify (λ s. record s { connection = false }) else raise key_error

  unfoldable pub send_channel_up_cb : Exec Agent (Unit {0})
  unfolding heartbeat_tick
  send_channel_up_cb = do modify (λ s. record s { channel = true }); heartbeat_tick

  unfoldable pub send_channel_down_cb : Exec Agent (Unit {0})
  send_channel_down_cb = do
    channel ← gets (λ s. s.channel)
    if channel then modify (λ s. record s { channel = false }) else raise key_error
