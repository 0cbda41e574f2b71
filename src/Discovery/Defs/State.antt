-- ===== src/Discovery/Defs/State.antt =====
-- The state of the component (discovery.hh, link-event.hh), its construction and configuration
-- (discovery.cc, lines 38-78 and 285-293).
use Prim.Native.Nat.{max}
use nox13_interserver.Common.{
  ℕ, ◌-◌, ◌*◌, ◌/◌, ◌%◌, ◌^◌, Option, none, some, List, [], ◌∷◌, ◌++◌, ◌==◌, if◌then◌else◌, length,
}
use nox13_interserver.Lldp.{Port, Link}

pub data Action : Type 0 where
  add remove : Action

pub data Reason : Type 0 where
  link port dp : Reason

pub record LinkEvent : Type 0 where
  pub dpsrc : ℕ
  pub dpdst : ℕ
  pub sport : ℕ
  pub dport : ℕ
  pub action : Action
  pub reason : Reason

abbrev pub link_event : Link → Action → Reason → LinkEvent
link_event l a r = record {
  dpsrc = l.sport.dpid;
  dpdst = l.dport.dpid;
  sport = l.sport.port;
  dport = l.dport.port;
  action = a;
  reason = r;
}

pub record Timeval : Type 0 where
  pub tv_sec : ℕ
  pub tv_usec : ℕ

pub data Callback : Type 0 where
  send_lldp_timer timeout_links_timer : Callback

-- send_openflow_pkt(dpid, frame, in_port, out_port, false)
pub record PacketOut : Type 0 where
  pub dpid : ℕ
  pub frame : List ℕ
  pub in_port : ℕ
  pub out_port : ℕ

pub record Discovery : Type 0 where
  pub dps : List (ℕ × Unit {0})
  pub ports : List Port
  pub lldps : List (Port × List ℕ)
  pub links : List (Link × ℕ)
  pub next_port : ℕ
  pub per_port : ℕ
  pub packet_out : ℕ
  pub timeout : ℕ
  pub link_timeout : ℕ
  pub per_port_tv : Timeval
  pub timeout_tv : Timeval
  pub posted : List LinkEvent
  pub sent : List PacketOut
  pub timers : List (Callback × Timeval)

abbrev pub u64 : ℕ
u64 = 2 ^ 64

abbrev pub lldp_ttl : ℕ
lldp_ttl = 120

abbrev pub ofpp_max : ℕ
ofpp_max = 0xffffff00

abbrev pub ofpp_controller : ℕ
ofpp_controller = 0xfffffffd

-- The constructor. `next_port(-1)` is the largest size_t.
unfoldable pub new : Discovery
new = record {
  dps = [];
  ports = [];
  lldps = [];
  links = [];
  next_port = u64 - 1;
  per_port = 100;
  packet_out = 10;
  timeout = 500;
  link_timeout = 100 * 3;
  per_port_tv = record { tv_sec = 0; tv_usec = 0 };
  timeout_tv = record { tv_sec = 0; tv_usec = 0 };
  posted = [];
  sent = [];
  timers = [];
}

abbrev pub from_msec : ℕ → Timeval
from_msec ms = record { tv_sec = ms / 1000; tv_usec = ms % 1000 * 1000 }

-- The `pp` of update_timeval.
unfoldable pub lldp_period : Discovery → ℕ
lldp_period s =
    if length s.ports == 0 then s.per_port else max s.packet_out (s.per_port / length s.ports)

unfoldable pub update_timeval : Discovery → Discovery
unfolding lldp_period
update_timeval s = record s { per_port_tv = from_msec (lldp_period s) }

-- `args.find(name)` with the conversion `atoi` of the C library.
abbrev arg_or : {V : Type 0} → Option V → V → V
arg_or none old = old
arg_or (some v) old = v

-- What `configure` reads from the argument list, each after `atoi`.
pub record Arguments : Type 0 where
  pub per_port_arg : Option ℕ
  pub packet_out_arg : Option ℕ
  pub timeout_arg : Option ℕ
  pub link_to_arg : Option ℕ

unfoldable pub configure : Arguments → Discovery → Discovery
unfolding update_timeval
configure a s =
    let period = arg_or a.timeout_arg s.timeout in
    update_timeval (record s {
      per_port = arg_or a.per_port_arg s.per_port;
      packet_out = arg_or a.packet_out_arg s.packet_out;
      timeout = period;
      link_timeout = arg_or a.link_to_arg s.link_timeout;
      timeout_tv = from_msec period;
    })

-- `post` without a delay.
unfoldable pub install : Discovery → Discovery
install s =
    let now = from_msec 0 in
    record s { timers = s.timers ++ ((send_lldp_timer, now) ∷ (timeout_links_timer, now) ∷ []) }
