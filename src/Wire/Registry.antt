-- ===== src/Wire/Registry.antt =====
-- The message types of agent/osprey-proto/src/generated/registry.rs.
pub mod RoundTrip
use osprey.Prelude.{String, str_eq, List, [], ◌∷◌, Option, none, some, find, Result, ok_or}
use osprey.Wire.Capability.{Capability}

-- The data channel that a message travels on.
pub data Channel : Type 0 where
  reliable unreliable : Channel

pub data MessageType : Type 0 where
  error hello hello_ok ping pong bye pair_request pair_confirm pair_revoke : MessageType
  metrics_subscribe metrics_tick metrics_history proc_list proc_kill proc_start : MessageType
  proc_priority svc_list svc_start svc_stop svc_restart svc_startup_type : MessageType
  power_reboot power_shutdown power_sleep power_lock power_logoff power_wol exec_run : MessageType
  exec_result term_open term_data term_resize term_close fs_list fs_stat fs_mkdir : MessageType
  fs_delete fs_rename fs_read_begin fs_chunk fs_write_begin fs_transfer_status : MessageType
  evt_query evt_tail app_list app_uninstall task_list task_run task_enable : MessageType
  net_interfaces net_connections net_speedtest alert_rules_get alert_rules_set : MessageType
  alert_fired alert_ack stream_start stream_stop stream_quality stream_monitors : MessageType
  stream_select_monitor input_mouse input_key input_scroll input_text input_sas : MessageType
  clip_push clip_pull clip_changed audio_start audio_stop privacy_blank : MessageType
  privacy_block_local_input : MessageType

-- `UnknownMessageType`
pub data ParseError : Type 0 where
  unknown_message_type : String → ParseError

-- `MessageType::ALL`
unfoldable pub all_types : List MessageType
all_types =
    error ∷ hello ∷ hello_ok ∷ ping ∷ pong ∷ bye ∷ pair_request ∷ pair_confirm ∷ pair_revoke
    ∷ metrics_subscribe ∷ metrics_tick ∷ metrics_history ∷ proc_list ∷ proc_kill ∷ proc_start
    ∷ proc_priority ∷ svc_list ∷ svc_start ∷ svc_stop ∷ svc_restart ∷ svc_startup_type
    ∷ power_reboot ∷ power_shutdown ∷ power_sleep ∷ power_lock ∷ power_logoff ∷ power_wol ∷ exec_run
    ∷ exec_result ∷ term_open ∷ term_data ∷ term_resize ∷ term_close ∷ fs_list ∷ fs_stat ∷ fs_mkdir
    ∷ fs_delete ∷ fs_rename ∷ fs_read_begin ∷ fs_chunk ∷ fs_write_begin ∷ fs_transfer_status
    ∷ evt_query ∷ evt_tail ∷ app_list ∷ app_uninstall ∷ task_list ∷ task_run ∷ task_enable
    ∷ net_interfaces ∷ net_connections ∷ net_speedtest ∷ alert_rules_get ∷ alert_rules_set
    ∷ alert_fired ∷ alert_ack ∷ stream_start ∷ stream_stop ∷ stream_quality ∷ stream_monitors
    ∷ stream_select_monitor ∷ input_mouse ∷ input_key ∷ input_scroll ∷ input_text ∷ input_sas
    ∷ clip_push ∷ clip_pull ∷ clip_changed ∷ audio_start ∷ audio_stop ∷ privacy_blank
    ∷ privacy_block_local_input ∷ []

unfoldable pub as_str : MessageType → String
as_str error = "error"
as_str hello = "hello"
as_str hello_ok = "hello.ok"
as_str ping = "ping"
as_str pong = "pong"
as_str bye = "bye"
as_str pair_request = "pair.request"
as_str pair_confirm = "pair.confirm"
as_str pair_revoke = "pair.revoke"
as_str metrics_subscribe = "metrics.subscribe"
as_str metrics_tick = "metrics.tick"
as_str metrics_history = "metrics.history"
as_str proc_list = "proc.list"
as_str proc_kill = "proc.kill"
as_str proc_start = "proc.start"
as_str proc_priority = "proc.priority"
as_str svc_list = "svc.list"
as_str svc_start = "svc.start"
as_str svc_stop = "svc.stop"
as_str svc_restart = "svc.restart"
as_str svc_startup_type = "svc.startup_type"
as_str power_reboot = "power.reboot"
as_str power_shutdown = "power.shutdown"
as_str power_sleep = "power.sleep"
as_str power_lock = "power.lock"
as_str power_logoff = "power.logoff"
as_str power_wol = "power.wol"
as_str exec_run = "exec.run"
as_str exec_result = "exec.result"
as_str term_open = "term.open"
as_str term_data = "term.data"
as_str term_resize = "term.resize"
as_str term_close = "term.close"
as_str fs_list = "fs.list"
as_str fs_stat = "fs.stat"
as_str fs_mkdir = "fs.mkdir"
as_str fs_delete = "fs.delete"
as_str fs_rename = "fs.rename"
as_str fs_read_begin = "fs.read.begin"
as_str fs_chunk = "fs.chunk"
as_str fs_write_begin = "fs.write.begin"
as_str fs_transfer_status = "fs.transfer.status"
as_str evt_query = "evt.query"
as_str evt_tail = "evt.tail"
as_str app_list = "app.list"
as_str app_uninstall = "app.uninstall"
as_str task_list = "task.list"
as_str task_run = "task.run"
as_str task_enable = "task.enable"
as_str net_interfaces = "net.interfaces"
as_str net_connections = "net.connections"
as_str net_speedtest = "net.speedtest"
as_str alert_rules_get = "alert.rules.get"
as_str alert_rules_set = "alert.rules.set"
as_str alert_fired = "alert.fired"
as_str alert_ack = "alert.ack"
as_str stream_start = "stream.start"
as_str stream_stop = "stream.stop"
as_str stream_quality = "stream.quality"
as_str stream_monitors = "stream.monitors"
as_str stream_select_monitor = "stream.select_monitor"
as_str input_mouse = "input.mouse"
as_str input_key = "input.key"
as_str input_scroll = "input.scroll"
as_str input_text = "input.text"
as_str input_sas = "input.sas"
as_str clip_push = "clip.push"
as_str clip_pull = "clip.pull"
as_str clip_changed = "clip.changed"
as_str audio_start = "audio.start"
as_str audio_stop = "audio.stop"
as_str privacy_blank = "privacy.blank"
as_str privacy_block_local_input = "privacy.block_local_input"

-- The capability to negotiate before a type may be sent; `none` for a mandatory type.
unfoldable pub capability : MessageType → Option Capability
capability error = none
capability hello = none
capability hello_ok = none
capability ping = none
capability pong = none
capability bye = none
capability pair_request = none
capability pair_confirm = none
capability pair_revoke = none
capability metrics_subscribe = some Capability.metrics
capability metrics_tick = some Capability.metrics
capability metrics_history = some Capability.metrics
capability proc_list = some Capability.process
capability proc_kill = some Capability.process
capability proc_start = some Capability.process
capability proc_priority = some Capability.process
capability svc_list = some Capability.service
capability svc_start = some Capability.service
capability svc_stop = some Capability.service
capability svc_restart = some Capability.service
capability svc_startup_type = some Capability.service
capability power_reboot = some Capability.power
capability power_shutdown = some Capability.power
capability power_sleep = some Capability.power
capability power_lock = some Capability.power
capability power_logoff = some Capability.power
capability power_wol = some Capability.power
capability exec_run = some Capability.exec
capability exec_result = some Capability.exec
capability term_open = some Capability.terminal
capability term_data = some Capability.terminal
capability term_resize = some Capability.terminal
capability term_close = some Capability.terminal
capability fs_list = some Capability.files
capability fs_stat = some Capability.files
capability fs_mkdir = some Capability.files
capability fs_delete = some Capability.files
capability fs_rename = some Capability.files
capability fs_read_begin = some Capability.files
capability fs_chunk = some Capability.files
capability fs_write_begin = some Capability.files
capability fs_transfer_status = some Capability.files
capability evt_query = some Capability.events
capability evt_tail = some Capability.events
capability app_list = some Capability.apps
capability app_uninstall = some Capability.apps
capability task_list = some Capability.tasks
capability task_run = some Capability.tasks
capability task_enable = some Capability.tasks
capability net_interfaces = some Capability.network
capability net_connections = some Capability.network
capability net_speedtest = some Capability.network
capability alert_rules_get = some Capability.alerts
capability alert_rules_set = some Capability.alerts
capability alert_fired = some Capability.alerts
capability alert_ack = some Capability.alerts
capability stream_start = some Capability.session_plane
capability stream_stop = some Capability.session_plane
capability stream_quality = some Capability.session_plane
capability stream_monitors = some Capability.session_plane
capability stream_select_monitor = some Capability.session_plane
capability input_mouse = some Capability.input
capability input_key = some Capability.input
capability input_scroll = some Capability.input
capability input_text = some Capability.input
capability input_sas = some Capability.input
capability clip_push = some Capability.clipboard
capability clip_pull = some Capability.clipboard
capability clip_changed = some Capability.clipboard
capability audio_start = some Capability.audio
capability audio_stop = some Capability.audio
capability privacy_blank = some Capability.privacy
capability privacy_block_local_input = some Capability.privacy

unfoldable pub channel : MessageType → Channel
channel input_mouse = unreliable
channel input_scroll = unreliable
channel _ = reliable

-- `FromStr`: the first registered type with this spelling.
unfoldable pub from_str : String → Result ParseError MessageType
unfolding all_types as_str
from_str value =
    ok_or (unknown_message_type value)
      (find (λ candidate. str_eq (as_str candidate) value) all_types)
