-- ===== src/Examples/Daemon.antt =====
-- The commands of a session, and the services of a registry.
use Prim.{tt}
use open_vrrp.Prelude.{
  ℕ, if◌then◌else◌, Bool, true, List, [], ◌∷◌, ◌++◌, none, some, ◌≡◌, ◌↔◌, refl, arith,
}
use open_vrrp.Service.{disabled}
use open_vrrp.Service.Run.{packet, master_down, prioritise, run}
use open_vrrp.Service.Run.Settings.{settings_of, changed_by, run-settings}
use open_vrrp.Text.{codes, text_eq}
use open_vrrp.Manager.{VrrpServiceMap, set_service}
use open_vrrp.Manager.Sound.{AreSound}
use open_vrrp.Telnet.{Environment, Session}
use open_vrrp.Telnet.Words.{unwords, split_command, split_command-unwords}
use open_vrrp.Telnet.Commands.{handle_command}
use open_vrrp.Telnet.Daemon.{Input, line, happens}
use open_vrrp.Telnet.Daemon
use open_vrrp.Telnet.Sessions.{run-IsSound}
use open_vrrp.Telnet.Answers.{overreads, handle_command-overreads}
use open_vrrp.Examples.{host, service, advertisement}

abbrev environment : Environment
environment = record {
  if_nametoindex = λ name. if text_eq name (codes "eth0") then 3 else 0;
  inet_pton = λ family text. none;
  is_interface_up = λ i. true;
  host = host;
  has_socket = true;
  is_written = λ file. true;
  counters = record {
    router_version_errors = 0;
    router_checksum_errors = 0;
    router_vr_id_errors = 0;
  };
}

abbrev new_session : Session
new_session = record { services = []; responses = []; calls = [] }

-- A router is added, set and enabled, and becomes the master.
abbrev inputs : List Input
inputs =
    line environment (codes "add router eth0 7")
    ∷ line environment (codes "set router eth0 7 priority 150")
    ∷ line environment (codes "enable router eth0 7")
    ∷ happens 3 7 2 (packet (advertisement 9 120 100))
    ∷ happens 3 7 2 master_down
    ∷ []

run-IsSound_example :
    (going_on : Bool) × (end : Session) × (Daemon.run inputs new_session ≡ some (going_on, end))
    × AreSound end.services
unfolding Daemon.run Daemon.turn handle_command split_command text_eq
run-IsSound_example =
    run-IsSound inputs new_session (tt, (tt, (tt, (omega arith, (tt, tt)))))
      (refl, (refl, (refl, tt))) refl

-- A line that ends behind the name of the interface.
handle_command-overreads_example :
    (handle_command environment (codes "set router eth0") new_session ≡ none)
    ↔ (overreads environment (split_command (codes "set router eth0")) ≡ true)
handle_command-overreads_example =
    handle_command-overreads environment (codes "set router eth0") new_session

run-settings_example :
    let es = prioritise 120 ∷ packet (advertisement 9 200 100) ∷ master_down ∷ [] in
    settings_of (run es (service 2 disabled 100)).service
    ≡ changed_by es (settings_of (service 2 disabled 100))
run-settings_example =
    run-settings (prioritise 120 ∷ packet (advertisement 9 200 100) ∷ master_down ∷ [])
      (service 2 disabled 100)

abbrev registry : VrrpServiceMap
registry = set_service 3 7 2 (service 2 disabled 100) []

abbrev words : List (List ℕ)
words = codes "show" ∷ codes "router" ∷ []

split_command-unwords_example :
    (split_command (unwords words) ≡ words)
    × (split_command (unwords words ++ 0 ∷ codes "eth0") ≡ words)
split_command-unwords_example =
    split_command-unwords words (codes "eth0")
      ((refl, (refl, (refl, (refl, tt)))), ((refl, (refl, (refl, (refl, (refl, (refl, tt)))))), tt))
