-- ===== src/Daemon/Catalog.antt =====
-- The capability surface (crates/daemon/src/capabilities.rs): the catalog of coordinates and the
-- dispatch of a method to its handler.
use dsh_desktop_shell.Daemon.BrowserHost.{
  handle_load_failed, handle_navigate, handle_close, handle_status, handle_list, handle_create,
}
use dsh_desktop_shell.Negotiation.Messages.{
  ProtocolCoordinate-discrete, includes_coordinate, ProtocolCoordinate,
}
use dsh_desktop_shell.Daemon.Types.{method_not_found, Handler, DaemonApi}
use dsh_desktop_shell.Prelude.{
  text_discrete, ◌&&◌, does, Bool, String, List, if◌then◌else◌, err, ok, ◌∷◌, [],
}

abbrev pub system_capability : ProtocolCoordinate
system_capability = record { api_version = "system.dsh-desktop.local/v1alpha1"; kind = "System" }

abbrev pub daemon_capability : ProtocolCoordinate
daemon_capability = record { api_version = "daemon.dsh-desktop.local/v1alpha1"; kind = "Daemon" }

abbrev pub browser_capability : ProtocolCoordinate
browser_capability = record { api_version = "browser.dsh-desktop.local/v1alpha1"; kind = "Browser" }

abbrev pub terminal_capability : ProtocolCoordinate
terminal_capability = record {
  api_version = "terminal.dsh-desktop.local/v1alpha1";
  kind = "Terminal";
}

abbrev pub runtime_capability : ProtocolCoordinate
runtime_capability = record { api_version = "runtime.dsh-desktop.local/v1alpha1"; kind = "Runtime" }

abbrev pub scheduler_capability : ProtocolCoordinate
scheduler_capability = record {
  api_version = "scheduler.dsh-desktop.local/v1alpha1";
  kind = "Scheduler";
}

abbrev pub all_coordinates : List ProtocolCoordinate
all_coordinates =
    system_capability ∷ daemon_capability ∷ browser_capability ∷ terminal_capability
    ∷ runtime_capability ∷ scheduler_capability ∷ []

unfoldable pub catalog_supports : ProtocolCoordinate → Bool
catalog_supports c = includes_coordinate all_coordinates c

abbrev pub is_capability : ProtocolCoordinate → ProtocolCoordinate → Bool
is_capability c d = does (ProtocolCoordinate-discrete c d)

abbrev pub is_method : String → String → Bool
is_method m n = does (text_discrete m n)

module _ {Json Output Other : Type 0} (api : DaemonApi Json Output Other) where
  abbrev pub unknown_method : ProtocolCoordinate → String → Handler Json Output Other
  unknown_method c m r context payload = (r, err (method_not_found c m))

  unfoldable pub browser_method : ProtocolCoordinate → String → Handler Json Output Other
  browser_method c m =
      if is_method m "browser.create"
      then handle_create api
      else if is_method m "browser.list"
      then handle_list api
      else if is_method m "browser.status"
      then handle_status api
      else if is_method m "browser.close"
      then handle_close api
      else if is_method m "browser.navigate"
      then handle_navigate api
      else if is_method m "browser.load-failed"
      then handle_load_failed api
      else unknown_method c m

  unfoldable pub terminal_method : ProtocolCoordinate → String → Handler Json Output Other
  terminal_method c m =
      if is_method m "terminal.create"
      then api.terminal_create
      else if is_method m "terminal.write"
      then api.terminal_write
      else if is_method m "terminal.resize"
      then api.terminal_resize
      else if is_method m "terminal.close"
      then api.terminal_close
      else if is_method m "terminal.status"
      then api.terminal_status
      else unknown_method c m

  unfoldable pub runtime_method : ProtocolCoordinate → String → Handler Json Output Other
  runtime_method c m =
      if is_method m "runtime.start"
      then api.runtime_start
      else if is_method m "runtime.status"
      then api.runtime_status
      else if is_method m "runtime.stop"
      then api.runtime_stop
      else if is_method m "runtime.restart"
      then api.runtime_restart
      else if is_method m "runtime.binding"
      then api.runtime_binding
      else unknown_method c m

  unfoldable pub scheduler_method : ProtocolCoordinate → String → Handler Json Output Other
  scheduler_method c m =
      if is_method m "wake"
      then api.scheduler_wake
      else if is_method m "cancel"
      then api.scheduler_cancel
      else unknown_method c m

  unfoldable pub dispatch_capability : ProtocolCoordinate → String → Handler Json Output Other
  dispatch_capability c m r context payload =
      if is_capability c system_capability && is_method m "ping"
      then (r, ok (api.pong payload))
      else if is_capability c daemon_capability && is_method m "status"
      then (r, ok context.snapshot)
      else if is_capability c browser_capability
      then browser_method c m r context payload
      else if is_capability c terminal_capability
      then terminal_method c m r context payload
      else if is_capability c runtime_capability
      then runtime_method c m r context payload
      else if is_capability c scheduler_capability
      then scheduler_method c m r context payload
      else unknown_method c m r context payload
