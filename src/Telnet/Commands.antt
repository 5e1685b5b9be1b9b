-- ===== src/Telnet/Commands.antt =====
-- The dispatch of a command line.
use open_vrrp.Prelude.{ℕ, if◌then◌else◌, Bool, true, false, List, [], ◌∷◌}
use open_vrrp.Text.{codes, text_eq}
use open_vrrp.Telnet.{invalid_command, help, Environment, T, ◌>>=◌, ◌>>◌, pure, respond, word}
use open_vrrp.Telnet.Words.{split_command}
use open_vrrp.Telnet.Edit.{on_add_command, on_remove_command}
use open_vrrp.Telnet.Settings.{on_set_command, on_enable_command, on_disable_command}
use open_vrrp.Telnet.Show.{on_show_command, on_save_command}

abbrev pub going_on : T (Unit {0}) → T Bool
going_on m = do m; pure true

-- The result is false if the session is to end.
unfoldable pub on_command : Environment → List (List ℕ) → T Bool
on_command env argv = do
  name ← word argv 0
  if text_eq name (codes "add")
      then going_on (on_add_command env argv)
      else if text_eq name (codes "remove")
      then going_on (on_remove_command env argv)
      else if text_eq name (codes "set")
      then going_on (on_set_command env argv)
      else if text_eq name (codes "enable")
      then going_on (on_enable_command env argv)
      else if text_eq name (codes "disable")
      then going_on (on_disable_command env argv)
      else if text_eq name (codes "show")
      then going_on (on_show_command env argv)
      else if text_eq name (codes "exit")
      then pure false
      else if text_eq name (codes "help")
      then going_on (respond help)
      else if text_eq name (codes "save")
      then going_on (on_save_command env argv)
      else going_on (respond invalid_command)

abbrev pub is_empty : List (List ℕ) → Bool
is_empty [] = true
is_empty (w ∷ ws) = false

-- handleCommand, less the prompt. The spaces that it cuts off the end of the line are none that
-- splitCommand would heed.
unfoldable pub handle_command : Environment → List ℕ → T Bool
handle_command env line =
    let argv = split_command line in if is_empty argv then pure true else on_command env argv
